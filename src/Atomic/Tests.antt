-- ===== src/Atomic/Tests.antt =====
-- An `AtomicInt32`, with two threads that count up and down.
use netfish.Prelude.{◌+◌, ◌%◌, ◌-◌, ◌^◌, ◌≡◌, refl, List, [], ◌∷◌, arith}
use netfish.Atomic.{
  new, get, get_and_set, increment, decrement, increment_and_get, decrement_and_get,
  get_and_increment, get_and_decrement,
}
use netfish.Atomic.Counting.{
  Call, increments_and_gets, decrements_and_gets, adds_and_gets, Interleaves, done, left, right,
  perform, perform_all, total, perform_all-Interleaves, undo_lem,
}

exchanged : get_and_set 32 7 5 ≡ (5, 7)
unfolding get_and_set
exchanged = refl

-- INT32_MAX wraps around to INT32_MIN.
overflow : increment_and_get 32 0x7fff_ffff ≡ (0x8000_0000, 0x8000_0000)
unfolding increment_and_get
overflow = refl

below_zero : get_and_decrement 32 new ≡ (0, 0xffff_ffff)
unfolding get_and_decrement
below_zero = refl

untouched : get 32 9 ≡ (9, 9)
unfolding get
untouched = refl

abbrev two_up : List Call
two_up = increments_and_gets ∷ increments_and_gets ∷ []

abbrev down_and_five : List Call
down_and_five = decrements_and_gets ∷ adds_and_gets 5 ∷ []

abbrev mixed : List Call
mixed = increments_and_gets ∷ decrements_and_gets ∷ increments_and_gets ∷ adds_and_gets 5 ∷ []

mixed_order : Interleaves two_up down_and_five mixed
mixed_order =
    left increments_and_gets
      (right decrements_and_gets (left increments_and_gets (right (adds_and_gets 5) done)))

perform_all-Interleaves_example :
    (perform_all 32 mixed 0 ≡ perform_all 32 down_and_five (perform_all 32 two_up 0))
    × (perform_all 32 mixed 0 ≡ (0 + (total 32 two_up + total 32 down_and_five)) % 2 ^ 32)
    × ((perform 32 decrements_and_gets (perform_all 32 (increments_and_gets ∷ []) 0)).0
        ≡ (0 + total 32 (increments_and_gets ∷ []) + (2 ^ 32 - 1)) % 2 ^ 32)
perform_all-Interleaves_example =
    perform_all-Interleaves 32 0 (increments_and_gets ∷ [])
      (increments_and_gets ∷ adds_and_gets 5 ∷ []) decrements_and_gets (omega arith) mixed_order
      refl

undo_example :
    (decrement 32 (increment 32 0xffff_ffff) ≡ 0xffff_ffff)
    × (increment 32 (decrement 32 0xffff_ffff) ≡ 0xffff_ffff)
    × ((decrement_and_get 32 (increment_and_get 32 0xffff_ffff).0).0
        ≡ (get_and_increment 32 0xffff_ffff).0)
undo_example = undo_lem 32 0xffff_ffff (omega arith)
