-- ===== src/Programs/Chargen.antt =====
-- testTcpServerChargen.cc and testTcpServerDiscard.cc: a server that sends a pattern for as long as it
-- is read, and one that drops what it gets.
use native.Mathlib.Nat.{suc-add}
use native.Mathlib.Decide.{dec_lt}
use netfish.Prelude.{
  ℕ, zero, suc, ◌+◌, ◌-◌, ◌*◌, ◌%◌, ◌<◌, ◌≤◌, ◌≡◌, refl, ap, ◌∙◌, true, List, [], ◌∷◌, ◌++◌, some,
  arith, if◌then◌else◌, length, get_elem?, take, drop, slice, length-slice, Outcome, ok, ◌>>=◌,
}
use netfish.Buffer.{retrieve_all}
use netfish.TcpConnection.{TcpConnection, Write, send, is_connected}

-- `left` characters, from `i` on.
abbrev pub characters : ℕ → ℕ → List ℕ
characters zero i = []
characters (suc left) i = i ∷ characters left (i + 1)

-- The characters 33 to 126, twice.
abbrev pub line : List ℕ
line = characters (127 - 33) 33 ++ characters (127 - 33) 33

-- Windows of 72 characters, `left` of them, from index `i` on; `substr` throws past the end, which
-- the last of them is far from.
unfoldable pub rows : ℕ → ℕ → List ℕ
rows zero i = []
rows (suc left) i = slice i 72 line ++ rows left (i + 1)

unfoldable pub message : List ℕ
unfolding rows
message = rows (127 - 33) 0

-- `onConnection`; the connection that goes down is only reported.
unfoldable pub on_connection : Write → TcpConnection → Outcome TcpConnection
on_connection w c = if is_connected c.state then send true w message c else ok c

unfoldable pub on_write_complete : Write → TcpConnection → Outcome TcpConnection
on_write_complete w c = send true w message c

-- `onMessage` of both programs.
unfoldable pub discard : TcpConnection → Outcome TcpConnection
discard c = do input ← retrieve_all c.input_buffer; ok (record c { input_buffer = input })

-- The character in row `i` and column `j`.
abbrev pub pattern_at : ℕ → ℕ → ℕ
pattern_at i j = 33 + (i + j) % 94

get_elem?-characters : (left i k : ℕ) → k < left → get_elem? (characters left i) k ≡ some (i + k)
get_elem?-characters zero i k h = absurd (omega arith)
get_elem?-characters (suc left) i zero h = ap some (omega arith)
get_elem?-characters (suc left) i (suc k) h =
    get_elem?-characters left (i + 1) k (omega arith) ∙ ap some (omega arith)

length-characters : (left i : ℕ) → length (characters left i) ≡ left
length-characters zero i = refl
length-characters (suc left) i = ap suc (length-characters left (i + 1))

get_elem?-append_lt :
    (xs ys : List ℕ) (k : ℕ) → k < length xs → get_elem? (xs ++ ys) k ≡ get_elem? xs k
get_elem?-append_lt [] ys k h = absurd (omega arith)
get_elem?-append_lt (x ∷ xs) ys zero h = refl
get_elem?-append_lt (x ∷ xs) ys (suc k) h = get_elem?-append_lt xs ys k (omega arith)

get_elem?-append_ge :
    (xs ys : List ℕ) (n k : ℕ) → length xs ≡ n → get_elem? (xs ++ ys) (n + k) ≡ get_elem? ys k
get_elem?-append_ge [] ys n k h = ap (get_elem? ys) (omega arith)
get_elem?-append_ge (x ∷ xs) ys zero k h = absurd (omega arith)
get_elem?-append_ge (x ∷ xs) ys (suc n) k h =
    rw suc-add (get_elem?-append_ge xs ys n k (omega arith))

get_elem?-take : (n k : ℕ) (xs : List ℕ) → k < n → get_elem? (take n xs) k ≡ get_elem? xs k
get_elem?-take zero k xs h = absurd (omega arith)
get_elem?-take (suc n) k [] h = refl
get_elem?-take (suc n) zero (x ∷ xs) h = refl
get_elem?-take (suc n) (suc k) (x ∷ xs) h = get_elem?-take n k xs (omega arith)

get_elem?-drop : (n k : ℕ) (xs : List ℕ) → get_elem? (drop n xs) k ≡ get_elem? xs (n + k)
get_elem?-drop zero k xs = ap (get_elem? xs) (omega arith)
get_elem?-drop (suc n) k [] = refl
get_elem?-drop (suc n) k (x ∷ xs) = rw suc-add (get_elem?-drop n k xs)

get_elem?-line : (k : ℕ) → k < 188 → get_elem? line k ≡ some (33 + k % 94)
get_elem?-line k h = elim (dec_lt k 94) [
  | yes low ↦
      get_elem?-append_lt (characters 94 33) (characters 94 33) k (omega arith)
      ∙ get_elem?-characters 94 33 k low
      ∙ ap some (omega arith)
  | no high ↦
      ap (get_elem? line) {x = k} {y = 94 + (k - 94)} (omega arith)
      ∙ get_elem?-append_ge (characters 94 33) (characters 94 33) 94 (k - 94) refl
      ∙ get_elem?-characters 94 33 (k - 94) (omega arith)
      ∙ ap some (omega arith)
]

get_elem?-window :
    (i j : ℕ) → j < 72 → i + j < 188 → get_elem? (slice i 72 line) j ≡ some (pattern_at i j)
get_elem?-window i j h k =
    get_elem?-take 72 j (drop i line) h ∙ get_elem?-drop i j line ∙ get_elem?-line (i + j) k

get_elem?-rows :
    (left i₀ i j : ℕ)
    → i < left
    → j < 72
    → i₀ + left ≤ 94
    → get_elem? (rows left i₀) (72 * i + j) ≡ some (pattern_at (i₀ + i) j)
unfolding rows
get_elem?-rows zero i₀ i j h k l = absurd (omega arith)
get_elem?-rows (suc left) i₀ zero j h k l =
    ap (get_elem? (rows (suc left) i₀)) {x = 72 * 0 + j} {y = j} (omega arith)
    ∙ get_elem?-append_lt (slice i₀ 72 line) (rows left (i₀ + 1)) j
        (omega (arith, length-slice i₀ 72 line (omega arith)))
    ∙ get_elem?-window i₀ j k (omega arith)
    ∙ ap (λ n. some (33 + n % 94)) {x = i₀ + j} (omega arith)
get_elem?-rows (suc left) i₀ (suc i) j h k l =
    ap (get_elem? (rows (suc left) i₀)) {x = 72 * suc i + j} {y = 72 + (72 * i + j)} (omega arith)
    ∙ get_elem?-append_ge (slice i₀ 72 line) (rows left (i₀ + 1)) 72 (72 * i + j)
        (length-slice i₀ 72 line (omega arith))
    ∙ get_elem?-rows left (i₀ + 1) i j (omega arith) k (omega arith)
    ∙ ap (λ n. some (33 + n % 94)) {x = i₀ + 1 + i + j} (omega arith)

-- The message is 94 rows of 72 characters, row `i` being the printable characters in a circle from the
-- `i`-th on.
pub get_elem?-message :
    (i j : ℕ) → i < 94 → j < 72 → get_elem? message (72 * i + j) ≡ some (pattern_at i j)
unfolding message
get_elem?-message i j h k =
    get_elem?-rows 94 0 i j h k (omega arith)
    ∙ ap (λ n. some (33 + n % 94)) {x = 0 + i + j} (omega arith)
