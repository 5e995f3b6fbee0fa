-- ===== src/Prelude/Slices.antt =====
-- Windows of a list, and writes over a part of it.
use Prim.Native.Nat.{ℕ, ◌+◌, ◌-◌, ◌≤◌}
use mathlib.Core.Path.{◌≡◌, refl, sym, ap, ◌∙◌}
use mathlib.Core.List.{List, ◌++◌}
use native.Mathlib.Omega.{arith}
use netfish.Prelude.Lists.{
  length, take, drop, length-append, length-take, length-drop, take_all, take-append_le,
  drop-append_le, take-append_ge, drop-append_ge, drop-drop, drop-take,
}

module _ {ℓ} {A : Type ℓ} where
  -- The `n` elements from index `i` on.
  abbrev pub slice : ℕ → ℕ → List A → List A
  slice i n xs = take n (drop i xs)

  -- The list with `xs` written over its elements from index `i` on.
  abbrev pub overwrite : List A → ℕ → List A → List A
  overwrite xs i buf = take i buf ++ (xs ++ drop (i + length xs) buf)

  pub length-slice : (i n : ℕ) (xs : List A) → i + n ≤ length xs → length (slice i n xs) ≡ n
  length-slice i n xs h = omega (arith, length-take n (drop i xs), length-drop i xs)

  pub length-overwrite :
      (xs : List A) (i : ℕ) (buf : List A)
      → i + length xs ≤ length buf
      → length (overwrite xs i buf) ≡ length buf
  length-overwrite xs i buf h = omega (
    arith,
    length-append (take i buf) (xs ++ drop (i + length xs) buf),
    length-append xs (drop (i + length xs) buf),
    length-take i buf,
    length-drop (i + length xs) buf,
  )

  drop-take_le : (m n : ℕ) (xs : List A) → m ≤ n → drop m (take n xs) ≡ slice m (n - m) xs
  drop-take_le m n xs h =
      ap (λ k. drop m (take k xs)) {x = n} {y = m + (n - m)} (omega arith) ∙ drop-take m (n - m) xs

  take_prefix : (n : ℕ) (xs ys : List A) → n ≡ length xs → take n (xs ++ ys) ≡ xs
  take_prefix n xs ys h = take-append_le n xs ys (omega arith) ∙ take_all n xs (omega arith)

  -- A window that ends with the elements just written past it.
  pub slice-overwrite_end :
      (r w : ℕ) (xs buf : List A)
      → r ≤ w
      → w + length xs ≤ length buf
      → slice r (w + length xs - r) (overwrite xs w buf) ≡ slice r (w - r) buf ++ xs
  slice-overwrite_end r w xs buf h k =
      ap (take (w + length xs - r)) (
        drop-append_le r (take w buf) _ (omega (arith, length-take w buf))
        ∙ ap (λ l. l ++ (xs ++ drop (w + length xs) buf)) (drop-take_le r w buf h))
      ∙ take-append_ge (w + length xs - r) (slice r (w - r) buf) _ (omega (arith, front))
      ∙ ap (λ l. slice r (w - r) buf ++ l)
          (take_prefix (w + length xs - r - length (slice r (w - r) buf)) xs _
            (omega (arith, front)))
    where
      front : length (slice r (w - r) buf) ≡ w - r
      front = length-slice r (w - r) buf (omega arith)

  -- Exactly the elements that were written.
  pub slice-overwrite_self :
      (i : ℕ) (xs buf : List A)
      → i + length xs ≤ length buf
      → slice i (length xs) (overwrite xs i buf) ≡ xs
  slice-overwrite_self i xs buf h =
      ap (take (length xs)) (
        drop-append_ge i (take i buf) _ (omega (arith, length-take i buf))
        ∙ ap (λ k. drop k (xs ++ drop (i + length xs) buf)) {y = 0}
            (omega (arith, length-take i buf)))
      ∙ take_prefix (length xs) xs _ refl

  -- A window that begins with the elements written before it.
  pub slice-overwrite_start :
      (i n : ℕ) (xs buf : List A)
      → i + length xs + n ≤ length buf
      → slice i (length xs + n) (overwrite xs i buf) ≡ xs ++ slice (i + length xs) n buf
  slice-overwrite_start i n xs buf h =
      ap (take (length xs + n)) (
        drop-append_ge i (take i buf) _ (omega (arith, length-take i buf))
        ∙ ap (λ k. drop k (xs ++ drop (i + length xs) buf)) {y = 0}
            (omega (arith, length-take i buf)))
      ∙ take-append_ge (length xs + n) xs _ (omega arith)
      ∙ ap (λ k. xs ++ take k (drop (i + length xs) buf)) (omega arith)

  -- A window is not changed by what is added behind the list.
  pub slice-append :
      (i n : ℕ) (buf xs : List A) → i + n ≤ length buf → slice i n (buf ++ xs) ≡ slice i n buf
  slice-append i n buf xs h =
      ap (take n) (drop-append_le i buf xs (omega arith))
      ∙ take-append_le n (drop i buf) xs (omega (arith, length-drop i buf))

  -- A window that starts later is the rest of the window.
  pub slice-drop :
      (i k n : ℕ) (xs : List A) → k ≤ n → slice (i + k) (n - k) xs ≡ drop k (slice i n xs)
  slice-drop i k n xs h =
      ap (take (n - k)) (sym (drop-drop k i xs)) ∙ sym (drop-take_le k n (drop i xs) h)
