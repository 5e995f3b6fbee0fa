-- ===== src/InetAddress/Dotted.antt =====
-- An interface Inet that swaps the bytes of a port and writes an address as four numbers with dots,
-- as the C library does on a machine that stores the low byte first.
use netfish.Prelude.{
  ℕ, ◌+◌, ◌-◌, ◌*◌, ◌/◌, ◌%◌, ◌^◌, ◌<◌, ◌≤◌, ◌≡◌, refl, ap, subst, append-nil, ◌∙◌, List, [], ◌∷◌,
  ◌++◌, Option, none, some, arith, ◌==◌, if◌then◌else◌, length, length-append,
}
use netfish.Prelude.Decimal.{
  decimal, value_from, AllDigits, value-decimal, AllDigits-decimal, length-decimal,
}
use netfish.Sockets.{Inet}
use netfish.InetAddress.Text.{NoColon, IsHost, IsInet}

abbrev pub swap : ℕ → ℕ
swap p = p % 256 * 256 + p / 256

abbrev pub dotted : ℕ → ℕ → ℕ → ℕ → List ℕ
dotted a b c d = decimal a ++ (b'.' ∷ (decimal b ++ (b'.' ∷ (decimal c ++ (b'.' ∷ decimal d)))))

abbrev pub ntop : ℕ → Option (List ℕ)
ntop a = some (dotted (a % 256) (a / 256 % 256) (a / 65536 % 256) (a / 16777216))

-- The numbers between the dots, the first behind `n`.
abbrev pub numbers : ℕ → List ℕ → List ℕ
numbers n [] = n ∷ []
numbers n (c ∷ cs) =
    let next : List ℕ = n ∷ numbers 0 cs in
    let more = numbers (n * 10 + (c - 48)) cs in if c == b'.' then next else more

abbrev pub pack : List ℕ → Option ℕ
pack (a ∷ b ∷ c ∷ d ∷ []) = some (a + b * 256 + c * 65536 + d * 16777216)
pack _ = none

abbrev pub little_endian : Inet
little_endian = record {
  htons = swap;
  ntohs = swap;
  htonl = λ a. a / 16777216 + a / 65536 % 256 * 256 + a / 256 % 256 * 65536 + a % 256 * 16777216;
  pton = λ text. pack (numbers 0 text);
  ntop = ntop;
}

numbers-append :
    (n : ℕ) (xs ys : List ℕ) → AllDigits xs → numbers n (xs ++ ys) ≡ numbers (value_from n xs) ys
numbers-append n [] ys h = refl
numbers-append n (x ∷ xs) ys (h, hs) = ground (arith, numbers-append (n * 10 + (x - 48)) xs ys hs)

numbers-decimal : (n : ℕ) (ys : List ℕ) → numbers 0 (decimal n ++ ys) ≡ numbers n ys
numbers-decimal n ys =
    numbers-append 0 (decimal n) ys (AllDigits-decimal n) ∙ ap (λ m. numbers m ys) (value-decimal n)

numbers-last : (n : ℕ) → numbers 0 (decimal n) ≡ n ∷ []
numbers-last n = rw (append-nil (decimal n)) at (numbers-decimal n [])

numbers-dotted : (a b c d : ℕ) → numbers 0 (dotted a b c d) ≡ a ∷ b ∷ c ∷ d ∷ []
numbers-dotted a b c d =
    numbers-decimal a (b'.' ∷ (decimal b ++ (b'.' ∷ (decimal c ++ (b'.' ∷ decimal d)))))
    ∙ ap (◌∷◌ a) (
        numbers-decimal b (b'.' ∷ (decimal c ++ (b'.' ∷ decimal d)))
        ∙ ap (◌∷◌ b) (numbers-decimal c (b'.' ∷ decimal d) ∙ ap (◌∷◌ c) (numbers-last d)))

NoColon-append : (xs ys : List ℕ) → AllDigits xs → NoColon ys → NoColon (xs ++ ys)
NoColon-append [] ys h k = k
NoColon-append (x ∷ xs) ys (h, hs) k = (ground (arith, h), NoColon-append xs ys hs k)

NoColon-decimal : (n : ℕ) → NoColon (decimal n)
NoColon-decimal n =
    subst NoColon (append-nil (decimal n)) (NoColon-append (decimal n) [] (AllDigits-decimal n) tt)

NoColon-behind : (n : ℕ) (ys : List ℕ) → NoColon ys → NoColon (decimal n ++ (b'.' ∷ ys))
NoColon-behind n ys h =
    NoColon-append (decimal n) (b'.' ∷ ys) (AllDigits-decimal n) (ground arith, h)

length-dotted : (a b c d : ℕ) → a < 256 → b < 256 → c < 256 → d < 256 → length (dotted a b c d) ≤ 15
length-dotted a b c d ha hb hc hd =
    let rest₂ : List ℕ = decimal c ++ (b'.' ∷ decimal d) in
    let rest₁ : List ℕ = decimal b ++ (b'.' ∷ rest₂) in
    omega (
      arith,
      length-append (decimal a) (b'.' ∷ rest₁),
      length-append (decimal b) (b'.' ∷ rest₂),
      length-append (decimal c) (b'.' ∷ decimal d),
      length-decimal a 2 (omega arith),
      length-decimal b 2 (omega arith),
      length-decimal c 2 (omega arith),
      length-decimal d 2 (omega arith),
    )

dotted-IsHost :
    (a : ℕ)
    → a < 2 ^ 32
    → IsHost little_endian a (dotted (a % 256) (a / 256 % 256) (a / 65536 % 256) (a / 16777216))
dotted-IsHost a h = record {
  written = refl;
  read =
      ap pack (numbers-dotted (a % 256) (a / 256 % 256) (a / 65536 % 256) (a / 16777216))
      ∙ ap (λ n. some n)
          {x = a % 256 + a / 256 % 256 * 256 + a / 65536 % 256 * 65536 + a / 16777216 * 16777216}
          (omega arith);
  short =
      length-dotted (a % 256) (a / 256 % 256) (a / 65536 % 256) (a / 16777216) (omega arith)
        (omega arith) (omega arith) (omega arith);
  plain =
      NoColon-behind (a % 256)
        (decimal (a / 256 % 256)
          ++ (b'.' ∷ (decimal (a / 65536 % 256) ++ (b'.' ∷ decimal (a / 16777216)))))
        (NoColon-behind (a / 256 % 256)
          (decimal (a / 65536 % 256) ++ (b'.' ∷ decimal (a / 16777216)))
          (NoColon-behind (a / 65536 % 256) (decimal (a / 16777216))
            (NoColon-decimal (a / 16777216))));
}

pub little_endian-IsInet : IsInet little_endian
little_endian-IsInet = record {
  swapped = λ p h. omega arith;
  hosts = λ a h. (_, dotted-IsHost a h);
}
