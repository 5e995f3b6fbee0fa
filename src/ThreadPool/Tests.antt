-- ===== src/ThreadPool/Tests.antt =====
-- A pool of three loops, and the theorems at it.
use netfish.Prelude.{
  ℕ, ◌≡◌, refl, true, List, [], ◌∷◌, some, map, arith, ok, err, assertion_failed, ◌+◌, ◌%◌,
}
use netfish.Prelude.Int.{pos}
use netfish.ThreadPool.{ThreadPool, new, set_thread_num, start, get_next_loop, take_turn}
use netfish.ThreadPool.Turns.{calls, turns, round_robin, range_from, start_lem}

abbrev three : ThreadPool
three = record {
  base_loop = 1;
  started = true;
  num_threads = pos 3;
  next = 2;
  threads = 20 ∷ 21 ∷ 22 ∷ [];
  loops = 10 ∷ 11 ∷ 12 ∷ [];
}

four_calls : calls 4 three ≡ ok (12 ∷ 10 ∷ 11 ∷ 12 ∷ [], record three { next = 0 })
unfolding calls get_next_loop take_turn
four_calls = refl

round_robin_example :
    (out : List ℕ) × (p' : ThreadPool) × (calls 4 three ≡ ok (out, p'))
    × (map some out ≡ turns 4 2 (10 ∷ 11 ∷ 12 ∷ []))
    × (p'.loops ≡ 10 ∷ 11 ∷ 12 ∷ [])
    × (p'.next ≡ (2 + 4) % 3)
round_robin_example = round_robin 4 2 three (omega arith) refl

two_started :
    (p : ThreadPool) × (start true (λ j. (20 + j, 10 + j)) (set_thread_num (pos 2) (new 1)) ≡ ok p)
    × (p.loops ≡ 10 ∷ 11 ∷ [])
    × (p.threads ≡ 20 ∷ 21 ∷ [])
    × (p.next ≡ 0)
    × (start true (λ j. (20 + j, 10 + j)) p ≡ err assertion_failed)
unfolding range_from
two_started = start_lem 1 (pos 2) (λ j. (20 + j, 10 + j))
