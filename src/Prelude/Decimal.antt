-- ===== src/Prelude/Decimal.antt =====
-- What `printf` writes for an integer, and `snprintf`'s cut at the end of its array.
use Prim.Native.Char.{code}
use Prim.Native.String.{String}
use netfish.Prelude.{
  ℕ, zero, suc, ◌+◌, ◌-◌, ◌*◌, ◌/◌, ◌%◌, ◌^◌, ◌<◌, ◌≤◌, ◌≡◌, refl, ap, ◌∙◌, Bool-cases, inl, inr,
  List, [], ◌∷◌, ◌++◌, arith, ltb, if◌then◌else◌, length, take, replicate, length-append,
  length-replicate,
}
use netfish.Prelude.Int.{ℤ, pos, negsuc}

-- The bytes of a literal in ASCII.
abbrev pub codes : String → List ℕ
codes String.[] = []
codes (String.◌∷◌ c s) = code c ∷ codes s

abbrev pub digit : ℕ → ℕ
digit d = 48 + d

-- The digits of `n`; each round divides by ten.
pub digits_within : ℕ → ℕ → List ℕ
digits_within zero n = []
digits_within (suc fuel) n =
    let rest = digits_within fuel (n / 10) ++ (digit (n % 10) ∷ []) in
    if ltb n 10 then digit n ∷ [] else rest

-- `%d` of a number that is not negative. `n + 1` rounds are enough.
unfoldable pub decimal : ℕ → List ℕ
unfolding digits_within
decimal n = digits_within (suc n) n

abbrev pub sign : ℤ → List ℕ
sign (pos n) = []
sign (negsuc n) = b'-' ∷ []

abbrev pub magnitude : ℤ → ℕ
magnitude (pos n) = n
magnitude (negsuc n) = suc n

-- `%d`.
unfoldable pub signed : ℤ → List ℕ
signed z = sign z ++ decimal (magnitude z)

-- `%0wd`: the width counts the sign, and the zeros stand behind it.
unfoldable pub zero_padded : ℕ → ℤ → List ℕ
zero_padded w z =
    let digits = decimal (magnitude z) in
    sign z ++ (replicate (w - length (sign z) - length digits) b'0' ++ digits)

-- `%wd`: spaces before the sign.
unfoldable pub space_padded : ℕ → ℤ → List ℕ
space_padded w z = replicate (w - length (signed z)) 32 ++ signed z

-- The string in an array of `size` bytes after `snprintf`, which keeps one for the final 0.
unfoldable pub snprintf : ℕ → List ℕ → List ℕ
snprintf size text = take (size - 1) text

-- The number that digits spell behind `n`.
abbrev pub value_from : ℕ → List ℕ → ℕ
value_from n [] = n
value_from n (c ∷ cs) = value_from (n * 10 + (c - 48)) cs

abbrev pub IsDigit : ℕ → Type 0
IsDigit c = (48 ≤ c) × (c ≤ 57)

abbrev pub AllDigits : List ℕ → Type 0
AllDigits [] = Unit {0}
AllDigits (c ∷ cs) = IsDigit c × AllDigits cs

pub value_from-append :
    (n : ℕ) (xs ys : List ℕ) → value_from n (xs ++ ys) ≡ value_from (value_from n xs) ys
value_from-append n [] ys = refl
value_from-append n (x ∷ xs) ys = value_from-append (n * 10 + (x - 48)) xs ys

pub AllDigits-append : (xs ys : List ℕ) → AllDigits xs → AllDigits ys → AllDigits (xs ++ ys)
AllDigits-append [] ys h k = k
AllDigits-append (x ∷ xs) ys h k = (h.0, AllDigits-append xs ys h.1 k)

pub AllDigits-zeros : (n : ℕ) → AllDigits (replicate n b'0')
AllDigits-zeros zero = tt
AllDigits-zeros (suc n) = (omega arith, AllDigits-zeros n)

pub value_from-zeros : (n : ℕ) → value_from 0 (replicate n b'0') ≡ 0
value_from-zeros zero = refl
value_from-zeros (suc n) = value_from-zeros n

value-digits_within : (fuel n : ℕ) → n < fuel → value_from 0 (digits_within fuel n) ≡ n
unfolding digits_within
value-digits_within zero n h = absurd (omega arith)
value-digits_within (suc fuel) n h = elim (Bool-cases (ltb n 10)) [
  | inl e ↦ rw e (ground arith)
  | inr e ↦ rw e (
      value_from-append 0 (digits_within fuel (n / 10)) (digit (n % 10) ∷ [])
      ∙ ap (λ m. m * 10 + (48 + n % 10 - 48)) (value-digits_within fuel (n / 10) (ground arith))
      ∙ omega arith)
]

AllDigits-digits_within : (fuel n : ℕ) → AllDigits (digits_within fuel n)
unfolding digits_within
AllDigits-digits_within zero n = tt
AllDigits-digits_within (suc fuel) n = elim (Bool-cases (ltb n 10)) [
  | inl e ↦ rw e (ground arith)
  | inr e ↦ rw e (
      AllDigits-append (digits_within fuel (n / 10)) (digit (n % 10) ∷ [])
        (AllDigits-digits_within fuel (n / 10)) (omega arith))
]

length-digits_within : (fuel n k : ℕ) → n < 10 ^ suc k → length (digits_within fuel n) ≤ suc k
unfolding digits_within
length-digits_within zero n k h = omega arith
length-digits_within (suc fuel) n zero h = elim (Bool-cases (ltb n 10)) [
  | inl e ↦ rw e (omega arith)
  | inr e ↦ absurd (ground arith)
]
length-digits_within (suc fuel) n (suc k) h = elim (Bool-cases (ltb n 10)) [
  | inl e ↦ rw e (omega arith)
  | inr e ↦ rw e (
      omega (
        arith,
        length-append (digits_within fuel (n / 10)) (digit (n % 10) ∷ []),
        length-digits_within fuel (n / 10) k (omega arith),
      ))
]

pub value-decimal : (n : ℕ) → value_from 0 (decimal n) ≡ n
unfolding decimal
value-decimal n = value-digits_within (suc n) n (omega arith)

pub AllDigits-decimal : (n : ℕ) → AllDigits (decimal n)
unfolding decimal
AllDigits-decimal n = AllDigits-digits_within (suc n) n

pub length-decimal : (n k : ℕ) → n < 10 ^ suc k → length (decimal n) ≤ suc k
unfolding decimal
length-decimal n k h = length-digits_within (suc n) n k h

-- A number that fits fills the width exactly, and the zeros change nothing of it.
pub zero_padded_lem :
    (k n : ℕ)
    → n < 10 ^ suc k
    → (length (zero_padded (suc k) (pos n)) ≡ suc k)
      × AllDigits (zero_padded (suc k) (pos n))
      × (value_from 0 (zero_padded (suc k) (pos n)) ≡ n)
unfolding zero_padded
zero_padded_lem k n h =
    let gap : ℕ = suc k - 0 - length (decimal n) in
    (
      omega (
        arith,
        length-append (replicate gap b'0') (decimal n),
        length-replicate {A = ℕ} gap b'0',
        length-decimal n k h,
      ),
      AllDigits-append (replicate gap b'0') (decimal n) (AllDigits-zeros gap) (AllDigits-decimal n),
      value_from-append 0 (replicate gap b'0') (decimal n)
          ∙ ap (λ m. value_from m (decimal n)) (value_from-zeros gap)
          ∙ value-decimal n,
    )
