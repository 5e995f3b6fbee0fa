-- ===== src/ThreadPool/Turns.antt =====
-- Sequences of calls of `getNextLoop`, and `start`.
use native.Mathlib.Nat.{mod-eq_of_lt, mod_self, mod-lt, mod-add-mod}
use native.Mathlib.Decide.{dec_le}
use netfish.Prelude.{
  ℕ, zero, suc, ◌+◌, ◌%◌, ◌<◌, ◌≡◌, refl, sym, ap, ◌∙◌, true, List, [], ◌∷◌, ◌++◌, Option, some,
  arith, leb, le→leb, lt→leb, if◌then◌else◌, append-nil, ap₂, assertion_failed, length, get_elem?,
  get_elem?_of_lt, Outcome, ok, err, ◌>>=◌, map, append_assoc,
}
use netfish.Prelude.Int.{ℤ, pos_part}
use netfish.ThreadPool.{
  ThreadPool, new, set_thread_num, spawn_loops, start, take_turn, get_next_loop,
}

-- The pool after `k` calls of `getNextLoop` in the base loop's thread, with what they returned.
unfoldable pub calls : ℕ → ThreadPool → Outcome (List ℕ × ThreadPool)
calls zero p = ok ([], p)
calls (suc k) p = do r ← get_next_loop true p; s ← calls k r.1; ok (r.0 ∷ s.0, s.1)

-- The loops from index `i` on, going round, `k` of them.
pub turns : ℕ → ℕ → List ℕ → List (Option ℕ)
turns zero i loops = []
turns (suc k) i loops = get_elem? loops (i % length loops) ∷ turns k (i + 1) loops

-- Stepping `next_` and going back to 0 at the end is counting modulo the number of loops.
next_turn : (i n : ℕ) → i < n → (if leb n (i + 1) then 0 else i + 1) ≡ (i + 1) % n
next_turn i n h = elim (dec_le n (i + 1)) [
  | yes k ↦
      rw (le→leb n (i + 1) k) (sym (ap (λ m. m % n) {x = i + 1} {y = n} (omega arith) ∙ mod_self n))
  | no k ↦ rw (lt→leb n (i + 1) (omega arith)) (sym (mod-eq_of_lt {n = i + 1} (omega arith)))
]

get_next_loop_lem :
    (p : ThreadPool)
    → p.next < length p.loops
    → (loop : ℕ) × (get_next_loop true p
        ≡ ok (loop, record p { next = (p.next + 1) % length p.loops }))
      × (get_elem? p.loops p.next ≡ some loop)
unfolding get_next_loop take_turn
get_next_loop_lem p h =
    let (loop, e) = get_elem?_of_lt p.loops p.next h in
    (loop, ground (arith, e, next_turn p.next (length p.loops) h), e)

-- A pool with loops hands them out in order, going round: whatever the number of calls, the
-- `j`-th returns the loop at `next_ + j` modulo the number of loops, and no call is out of bounds.
pub round_robin :
    (k i : ℕ) (p : ThreadPool)
    → 0 < length p.loops
    → p.next ≡ i % length p.loops
    → (out : List ℕ) × (p' : ThreadPool) × (calls k p ≡ ok (out, p'))
      × (map some out ≡ turns k i p.loops)
      × (p'.loops ≡ p.loops)
      × (p'.next ≡ (i + k) % length p.loops)
unfolding calls turns
round_robin zero i p h e =
    ([], p, refl, refl, refl, e ∙ ap (λ m. m % length p.loops) {x = i} (omega arith))
round_robin (suc k) i p h e =
    let n : ℕ = length p.loops in
    let (loop, called, at) = get_next_loop_lem p (rw e (mod-lt i h)) in
    let (out, p', rest, order, same, next) =
      round_robin k (i + 1) (record p { next = (p.next + 1) % n }) h
        (ap (λ m. (m + 1) % n) e ∙ mod-add-mod i n 1) in
    (
      loop ∷ out,
      p',
      ground (arith, called, rest),
      ap₂ ◌∷◌ (sym at ∙ ap (get_elem? p.loops) e) order,
      same,
      next ∙ ap (λ m. m % n) {x = i + 1 + k} (omega arith),
    )

-- With no loops every call returns the base loop and leaves the pool alone.
pub get_next_loop_empty :
    (p : ThreadPool) → p.loops ≡ [] → get_next_loop true p ≡ ok (p.base_loop, p)
unfolding get_next_loop
get_next_loop_empty p e = ground (arith, e)

-- `from, from + 1, …`, `n` numbers.
unfoldable pub range_from : ℕ → ℕ → List ℕ
range_from i zero = []
range_from i (suc n) = i ∷ range_from (i + 1) n

spawn_loops_lem :
    (left i : ℕ) (spawn : ℕ → ℕ × ℕ) (p : ThreadPool)
    → spawn_loops left i spawn p ≡ record p {
      loops = p.loops ++ map (λ j. (spawn j).1) (range_from i left);
      threads = p.threads ++ map (λ j. (spawn j).0) (range_from i left);
    }
unfolding spawn_loops range_from
spawn_loops_lem zero i spawn p = cc (append-nil p.loops, append-nil p.threads)
spawn_loops_lem (suc left) i spawn p =
    spawn_loops_lem left (i + 1) spawn _
    ∙ cc (
      append_assoc p.loops ((spawn i).1 ∷ []) (map (λ j. (spawn j).1) (range_from (i + 1) left)),
      append_assoc p.threads ((spawn i).0 ∷ []) (map (λ j. (spawn j).0) (range_from (i + 1) left)),
    )

-- Started in the base loop's thread, a new pool set to `n` threads has started exactly `n` of
-- them, holds their loops in the order of their start, and will hand out the first one next; a
-- second start aborts.
pub start_lem :
    (base : ℕ) (n : ℤ) (spawn : ℕ → ℕ × ℕ)
    → (p : ThreadPool) × (start true spawn (set_thread_num n (new base)) ≡ ok p)
      × (p.loops ≡ map (λ j. (spawn j).1) (range_from 0 (pos_part n)))
      × (p.threads ≡ map (λ j. (spawn j).0) (range_from 0 (pos_part n)))
      × (p.next ≡ 0)
      × (start true spawn p ≡ err assertion_failed)
unfolding start set_thread_num new
start_lem base n spawn =
    let e =
      spawn_loops_lem (pos_part n) 0 spawn
        (record (set_thread_num n (new base)) { started = true }) in
    (_, ap ok e, refl, refl, refl, refl)
