-- ===== src/TcpServer/Totals.antt =====
-- Numbers of the connections and functors in a list that concern a connection.
use netfish.Prelude.{
  ℕ, ◌+◌, ◌≡◌, ◌≢◌, inl, inr, refl, ap, ◌∙◌, Bool-cases, List, [], ◌∷◌, ◌++◌, ◌==◌, arith,
  if◌then◌else◌,
}
use netfish.TcpServer.{Connection, Task, establish, destroy, assign, erase}

-- The sum of `f` over a list, here the number of elements that concern a connection.
abbrev pub total : {A : Type 0} → (A → ℕ) → List A → ℕ
total f [] = 0
total f (x ∷ xs) = f x + total f xs

abbrev pub has_id : ℕ → Connection → ℕ
has_id n c = if c.conn_id == n then 1 else 0

abbrev pub opens : ℕ → Task → ℕ
opens n (establish c) = has_id n c
opens n (destroy c) = 0

abbrev pub ends : ℕ → Task → ℕ
ends n (establish c) = 0
ends n (destroy c) = has_id n c

pub total-append :
    {A : Type 0} → (f : A → ℕ) (xs ys : List A) → total f (xs ++ ys) ≡ total f xs + total f ys
total-append f [] ys = omega arith
total-append f (x ∷ xs) ys = omega (arith, total-append f xs ys)

pub total-middle :
    {A : Type 0}
    → (f : A → ℕ) (xs : List A) (y : A) (ys : List A)
    → total f (xs ++ (y ∷ ys)) ≡ f y + total f (xs ++ ys)
total-middle f [] y ys = refl
total-middle f (x ∷ xs) y ys = omega (arith, total-middle f xs y ys)

pub assign-total :
    (c : Connection) (cs : List Connection) (n : ℕ)
    → total (has_id c.conn_id) cs ≡ 0
    → total (has_id n) (assign c cs) ≡ has_id n c + total (has_id n) cs
unfolding assign
assign-total c [] n h = refl
assign-total c (d ∷ ds) n h = elim (Bool-cases (d.conn_id == c.conn_id)) [
  | inl e ↦ absurd (omega (arith, rw e at h))
  | inr e ↦ rw e (omega (arith, assign-total c ds n (omega (arith, rw e at h))))
]

pub erase-total :
    (id : ℕ) (cs : List Connection)
    → total (has_id id) cs ≡ 1
    → ((erase id cs).1 ≡ 1)
      × ((n : ℕ)
          → total (has_id n) cs ≡ (if id == n then 1 else 0) + total (has_id n) (erase id cs).0)
unfolding erase
erase-total id [] h = absurd (omega (arith, h))
erase-total id (d ∷ ds) h = elim (Bool-cases (d.conn_id == id)) [
  | inl e ↦ rw e (refl, λ n. let same : d.conn_id ≡ id = ground (arith, e) in rw same refl)
  | inr e ↦
      let (one, rest) = erase-total id ds (omega (arith, rw e at h)) in
      rw e (one, λ n. omega (arith, rest n))
]

pub has_id_self : (c : Connection) → has_id c.conn_id c ≡ 1
has_id_self c = ground arith

pub has_id_of : (n : ℕ) (c : Connection) → c.conn_id ≡ n → has_id n c ≡ 1
has_id_of n c e = ground (arith, e)

pub has_id_ne : (n : ℕ) (c : Connection) → n ≢ c.conn_id → has_id n c ≡ 0
has_id_ne n c h = ground (arith, h)

-- A functor that waits, taken out.
pub total-take :
    {A : Type 0}
    → (f : A → ℕ) (ts xs : List A) (y : A) (ys : List A) → ts ≡ xs ++ (y ∷ ys)
    → total f ts ≡ f y + total f (xs ++ ys)
total-take f ts xs y ys e = ap (total f) e ∙ total-middle f xs y ys

pub erase-absent : (id : ℕ) (cs : List Connection) → total (has_id id) cs ≡ 0 → (erase id cs).1 ≡ 0
unfolding erase
erase-absent id [] h = refl
erase-absent id (d ∷ ds) h = elim (Bool-cases (d.conn_id == id)) [
  | inl e ↦ absurd (omega (arith, rw e at h))
  | inr e ↦ rw e (erase-absent id ds (omega (arith, rw e at h)))
]
