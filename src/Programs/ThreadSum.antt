-- ===== src/Programs/ThreadSum.antt =====
-- testThread.cc: threads that count a shared AtomicInt32 up, twice each.
use native.Mathlib.Nat.{mod-eq_of_lt}
use netfish.Prelude.{
  ℕ, suc, ◌+◌, ◌*◌, ◌%◌, ◌^◌, ◌<◌, ◌≡◌, ap, ◌∙◌, Bool-cases, inl, inr, List, [], ◌∷◌, Option, arith,
  if◌then◌else◌,
}
use netfish.Prelude.Int.{ℤ}
use netfish.Logging.{init_log_level, logs_info}
use netfish.Atomic.Counting.{
  Call, gets_and_increments, Interleaves, perform_all, total, perform_all-total, total-Interleaves,
}

-- The calls of `func`, whose loop runs twice. The count stands in an argument of LOG_INFO.
unfoldable pub func : ℤ → List Call
func level = if logs_info level then gets_and_increments ∷ gets_and_increments ∷ [] else []

-- The orders in which the calls of `n` threads may come.
pub data Schedule (level : ℤ) : ℕ → List Call → Type 0 where
  none_yet : Schedule level 0 []
  one_more :
      (n : ℕ) (cs ds : List Call)
      → Schedule level n cs
      → Interleaves (func level) cs ds
      → Schedule level (suc n) ds

-- What one thread adds.
abbrev pub added : ℤ → ℕ
added level = if logs_info level then 2 else 0

total-func : (level : ℤ) → total 32 (func level) ≡ added level
unfolding func
total-func level = elim (Bool-cases (logs_info level)) [
  | inl e ↦ rw e (omega arith)
  | inr e ↦ rw e (omega arith)
]

total-Schedule :
    (level : ℤ) (n : ℕ) (cs : List Call) → Schedule level n cs → total 32 cs ≡ n * added level
total-Schedule level _ _ none_yet = omega arith
total-Schedule level _ _ (one_more n cs ds s i) =
    omega (arith, total-Interleaves 32 i, total-Schedule level n cs s, total-func level)

-- When all threads have been joined, in whatever order they counted: the sum is twice their number
-- where INFO is logged, and otherwise it is still 0.
pub sum_lem :
    (setting : Option ℤ) (n : ℕ) (cs : List Call)
    → n < 2 ^ 30
    → Schedule (init_log_level setting) n cs
    → perform_all 32 cs 0 ≡ (if logs_info (init_log_level setting) then 2 * n else 0)
sum_lem setting n cs h s =
    let level : ℤ = init_log_level setting in
    let counted : perform_all 32 cs 0 ≡ (0 + n * added level) % 2 ^ 32 =
      perform_all-total 32 cs 0 (omega arith)
      ∙ ap (λ k. (0 + k) % 2 ^ 32) (total-Schedule level n cs s) in
    let doubled : (0 + n * 2) % 2 ^ 32 ≡ 2 * n = mod-eq_of_lt (omega arith) ∙ omega arith in
    elim (Bool-cases (logs_info level)) [
      | inl e ↦ rw e (rw e at counted ∙ doubled)
      | inr e ↦ rw e (rw e at counted ∙ omega arith)
    ]
