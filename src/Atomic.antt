-- ===== src/Atomic.antt =====
-- Atomic.h: AtomicInteger, for an integer type of `w` bits. A value is its bit pattern, a number
-- below `2 ^ w`, so that -1 is `2 ^ w - 1`; a call returns its result and the new `val_`. Each call is
-- one atomic step: it is one of the compiler's `__sync` operations, which wrap around.
pub mod Counting
mod Tests
use netfish.Prelude.{ℕ, ◌+◌, ◌-◌, ◌%◌, ◌^◌}

-- `val_`.
abbrev pub AtomicInteger : Type 0
AtomicInteger = ℕ

abbrev pub new : AtomicInteger
new = 0

module _ (w : ℕ) where
  -- The addition of the integer type.
  abbrev pub add_wrapping : ℕ → ℕ → ℕ
  add_wrapping a b = (a + b) % 2 ^ w

  abbrev pub minus_one : ℕ
  minus_one = 2 ^ w - 1

  unfoldable pub get : AtomicInteger → ℕ × AtomicInteger
  get val = (val, add_wrapping val 0)

  unfoldable pub get_and_set : ℕ → AtomicInteger → ℕ × AtomicInteger
  get_and_set new_value val = (val, new_value)

  unfoldable pub get_and_add : ℕ → AtomicInteger → ℕ × AtomicInteger
  get_and_add x val = (val, add_wrapping val x)

  unfoldable pub add_and_get : ℕ → AtomicInteger → ℕ × AtomicInteger
  add_and_get x val = (add_wrapping val x, add_wrapping val x)

  unfoldable pub increment_and_get : AtomicInteger → ℕ × AtomicInteger
  unfolding add_and_get
  increment_and_get = add_and_get 1

  unfoldable pub decrement_and_get : AtomicInteger → ℕ × AtomicInteger
  unfolding add_and_get
  decrement_and_get = add_and_get minus_one

  unfoldable pub get_and_increment : AtomicInteger → ℕ × AtomicInteger
  unfolding get_and_add
  get_and_increment = get_and_add 1

  unfoldable pub get_and_decrement : AtomicInteger → ℕ × AtomicInteger
  unfolding get_and_add
  get_and_decrement = get_and_add minus_one

  unfoldable pub increment : AtomicInteger → AtomicInteger
  unfolding get_and_increment
  increment val = (get_and_increment val).1

  unfoldable pub decrement : AtomicInteger → AtomicInteger
  unfolding get_and_decrement
  decrement val = (get_and_decrement val).1
