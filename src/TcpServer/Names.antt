-- ===== src/TcpServer/Names.antt =====
-- TcpServer.cc: the names of a server's connections.
use netfish.Prelude.{ℕ, ◌^◌, ◌<◌, ◌≡◌, refl, sym, ap, ◌∙◌, List, [], ◌∷◌, ◌++◌, arith, take_all}
use netfish.Prelude.Decimal.{decimal, snprintf, value_from, value-decimal, length-decimal}

-- `name` is the server's.
unfoldable pub conn_name : List ℕ → ℕ → List ℕ
conn_name name conn_id = name ++ snprintf 32 (b'#' ∷ decimal conn_id)

-- The number that a name ends in, behind as many bytes as the server's name has and the `#`.
abbrev pub number_of : List ℕ → List ℕ → ℕ
number_of [] [] = 0
number_of [] (c ∷ cs) = value_from 0 cs
number_of (x ∷ xs) [] = 0
number_of (x ∷ xs) (c ∷ cs) = number_of xs cs

number_of-append : (name rest : List ℕ) → number_of name (name ++ (b'#' ∷ rest)) ≡ value_from 0 rest
number_of-append [] rest = refl
number_of-append (x ∷ xs) rest = number_of-append xs rest

-- The number of a connection comes back from its name, as long as it fits an `int`.
pub conn_name-number_of :
    (name : List ℕ) (conn_id : ℕ)
    → conn_id < 2 ^ 31
    → number_of name (conn_name name conn_id) ≡ conn_id
unfolding conn_name snprintf
conn_name-number_of name conn_id h =
    ap (λ t. number_of name (name ++ t))
      (take_all 31 (b'#' ∷ decimal conn_id) (omega (arith, length-decimal conn_id 9 (omega arith))))
    ∙ number_of-append name (decimal conn_id)
    ∙ value-decimal conn_id

-- So two connections of a server have one name only if they have one number.
pub conn_name_injective :
    (name : List ℕ) (a b : ℕ)
    → a < 2 ^ 31
    → b < 2 ^ 31
    → conn_name name a ≡ conn_name name b
    → a ≡ b
conn_name_injective name a b h k e =
    sym (conn_name-number_of name a h) ∙ ap (number_of name) e ∙ conn_name-number_of name b k
