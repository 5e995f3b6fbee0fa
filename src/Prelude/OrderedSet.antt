-- ===== src/Prelude/OrderedSet.antt =====
-- `std::set` as the list of its elements in order.
use netfish.Prelude.{
  ℕ, suc, ◌≡◌, ◌≢◌, refl, ◌⊎◌, inl, inr, Bool, true, false, List, [], ◌∷◌, ◌++◌, arith,
  if◌then◌else◌, length, not,
}
use netfish.Prelude.Orders.{Order}

module _ {K : Type 0} where
  abbrev pub In : K → List K → Type 0
  In k [] = ⊥
  In k (x ∷ xs) = (k ≡ x) ⊎ In k xs

  pub In-append : (k : K) (xs ys : List K) → In k (xs ++ ys) → In k xs ⊎ In k ys
  In-append k [] ys h = inr h
  In-append k (x ∷ xs) ys (inl e) = inl (inl e)
  In-append k (x ∷ xs) ys (inr h) = elim (In-append k xs ys h) [
    | inl a ↦ inl (inr a)
    | inr b ↦ inr b
  ]

  pub In-append_left : (k : K) (xs ys : List K) → In k xs → In k (xs ++ ys)
  In-append_left k [] ys h = elim h [ ]
  In-append_left k (x ∷ xs) ys (inl e) = inl e
  In-append_left k (x ∷ xs) ys (inr h) = inr (In-append_left k xs ys h)

  pub In-append_right : (k : K) (xs ys : List K) → In k ys → In k (xs ++ ys)
  In-append_right k [] ys h = h
  In-append_right k (x ∷ xs) ys h = inr (In-append_right k xs ys h)

module _ {K : Type 0} ⦃o : Order K⦄ where
  -- The set, with whether the element is new.
  unfoldable pub insert : K → List K → List K × Bool
  insert k [] = (k ∷ [], true)
  insert k (x ∷ xs) =
      let rest = insert k xs in
      if o.lt k x
      then (k ∷ x ∷ xs, true)
      else if o.lt x k
      then (x ∷ rest.0, rest.1)
      else (x ∷ xs, false)

  -- The set, with the number of elements erased.
  unfoldable pub erase : K → List K → List K × ℕ
  erase k [] = ([], 0)
  erase k (x ∷ xs) =
      let rest = erase k xs in
      if o.lt x k then (x ∷ rest.0, rest.1) else if o.lt k x then (x ∷ xs, 0) else (xs, 1)

  -- Whether `find` comes to an element.
  unfoldable pub has : K → List K → Bool
  has k [] = false
  has k (x ∷ xs) = if o.lt x k then has k xs else not (o.lt k x)

  -- The elements before `lower_bound`, and those from it on.
  unfoldable pub before : K → List K → List K
  before k [] = []
  before k (x ∷ xs) = if o.lt x k then x ∷ before k xs else []

  unfoldable pub from : K → List K → List K
  from k [] = []
  from k (x ∷ xs) = if o.lt x k then from k xs else x ∷ xs

  abbrev pub Above : K → List K → Type 0
  Above x [] = Unit {0}
  Above x (y ∷ ys) = (o.lt x y ≡ true) × Above x ys

  abbrev pub IsSorted : List K → Type 0
  IsSorted [] = Unit {0}
  IsSorted (x ∷ xs) = Above x xs × IsSorted xs

  pub lt_of_In : (x y : K) (ys : List K) → Above x ys → In y ys → o.lt x y ≡ true
  lt_of_In x y [] a h = elim h [ ]
  lt_of_In x y (z ∷ ys) (h, a) (inl e) = rw e h
  lt_of_In x y (z ∷ ys) (h, a) (inr i) = lt_of_In x y ys a i

  Above-trans : (x y : K) (zs : List K) → o.lt x y ≡ true → Above y zs → Above x zs
  Above-trans x y [] h a = tt
  Above-trans x y (z ∷ zs) h (k, a) = (o.trans x y z h k, Above-trans x y zs h a)

  insert-Above : (x k : K) (xs : List K) → o.lt x k ≡ true → Above x xs → Above x (insert k xs).0
  unfolding insert
  insert-Above x k [] h a = (h, tt)
  insert-Above x k (y ∷ ys) h (g, a) = ground (arith, insert-Above x k ys h a)

  pub insert-IsSorted : (k : K) (xs : List K) → IsSorted xs → IsSorted (insert k xs).0
  unfolding insert
  insert-IsSorted k [] s = (tt, tt)
  insert-IsSorted k (x ∷ xs) (a, s) =
      ground (arith, insert-IsSorted k xs s, insert-Above x k xs, Above-trans k x xs)

  pub In-insert : (j k : K) (xs : List K) → In j (insert k xs).0 → (j ≡ k) ⊎ In j xs
  unfolding insert
  In-insert j k [] (inl e) = inl e
  In-insert j k [] (inr h) = elim h [ ]
  In-insert j k (x ∷ xs) h = ground (arith, In-insert j k xs)

  pub In-insert_self : (k : K) (xs : List K) → In k (insert k xs).0
  unfolding insert
  In-insert_self k [] = inl refl
  In-insert_self k (x ∷ xs) = ground (arith, In-insert_self k xs, o.connex k x)

  pub In-insert_old : (j k : K) (xs : List K) → In j xs → In j (insert k xs).0
  unfolding insert
  In-insert_old j k [] h = elim h [ ]
  In-insert_old j k (x ∷ xs) h = ground (arith, In-insert_old j k xs)

  -- An element that is not there is inserted.
  pub insert_new :
      (k : K) (xs : List K)
      → ¬ In k xs
      → ((insert k xs).1 ≡ true) × (length (insert k xs).0 ≡ suc (length xs))
  unfolding insert
  insert_new k [] h = (refl, refl)
  insert_new k (x ∷ xs) h =
      ground (arith, insert_new k xs (λ i. h (inr i)), o.connex k x, λ (e : k ≡ x). h (inl e))

  pub erase_In :
      (k : K) (xs : List K)
      → IsSorted xs
      → In k xs
      → ((erase k xs).1 ≡ 1) × (suc (length (erase k xs).0) ≡ length xs)
  unfolding erase
  erase_In k [] s h = elim h [ ]
  erase_In k (x ∷ xs) (a, s) (inl e) = ground (arith, e, o.irrefl k, o.irrefl x)
  erase_In k (x ∷ xs) (a, s) (inr i) = ground (arith, lt_of_In x k xs a i, erase_In k xs s i)

  pub In-erase_ne : (j k : K) (xs : List K) → In j xs → j ≢ k → In j (erase k xs).0
  unfolding erase
  In-erase_ne j k [] h n = elim h [ ]
  In-erase_ne j k (x ∷ xs) h n = ground (arith, In-erase_ne j k xs, o.connex k x)

  erase-Above : (x k : K) (xs : List K) → Above x xs → Above x (erase k xs).0
  unfolding erase
  erase-Above x k [] a = tt
  erase-Above x k (y ∷ ys) (h, a) = ground (arith, erase-Above x k ys a)

  pub erase-IsSorted : (k : K) (xs : List K) → IsSorted xs → IsSorted (erase k xs).0
  unfolding erase
  erase-IsSorted k [] s = tt
  erase-IsSorted k (x ∷ xs) (a, s) = ground (arith, erase-IsSorted k xs s, erase-Above x k xs a)

  pub In-erase : (j k : K) (xs : List K) → In j (erase k xs).0 → In j xs
  unfolding erase
  In-erase j k [] h = h
  In-erase j k (x ∷ xs) h = ground (arith, In-erase j k xs)

  pub not-In-erase : (k : K) (xs : List K) → IsSorted xs → ¬ In k (erase k xs).0
  unfolding erase
  not-In-erase k [] s h = h
  not-In-erase k (x ∷ xs) (a, s) h =
      ground (arith, not-In-erase k xs s, lt_of_In x k xs a, o.irrefl k, o.connex k x)

  pub has→In : (k : K) (xs : List K) → has k xs ≡ true → In k xs
  unfolding has
  has→In k [] h = cc
  has→In k (x ∷ xs) h = ground (arith, has→In k xs, o.connex k x)

  pub In→has : (k : K) (xs : List K) → IsSorted xs → In k xs → has k xs ≡ true
  unfolding has
  In→has k [] s h = elim h [ ]
  In→has k (x ∷ xs) (a, s) (inl e) = ground (arith, o.irrefl k, o.irrefl x, e)
  In→has k (x ∷ xs) (a, s) (inr h) = ground (arith, lt_of_In x k xs a h, In→has k xs s h)

  pub before-append-from : (k : K) (xs : List K) → before k xs ++ from k xs ≡ xs
  unfolding before from
  before-append-from k [] = refl
  before-append-from k (x ∷ xs) = ground (arith, before-append-from k xs)

  pub lt_of_In-before : (j k : K) (xs : List K) → In j (before k xs) → o.lt j k ≡ true
  unfolding before
  lt_of_In-before j k [] h = elim h [ ]
  lt_of_In-before j k (x ∷ xs) h = ground (arith, lt_of_In-before j k xs)

  -- From `lower_bound` on no element is less.
  pub not-lt_of_In-from :
      (j k : K) (xs : List K) → IsSorted xs → In j (from k xs) → o.lt j k ≡ false
  unfolding from
  not-lt_of_In-from j k [] s h = elim h [ ]
  not-lt_of_In-from j k (x ∷ xs) (a, s) h =
      ground (arith, not-lt_of_In-from j k xs s, lt_of_In x j xs a, o.trans x j k)

  pub from-IsSorted : (k : K) (xs : List K) → IsSorted xs → IsSorted (from k xs)
  unfolding from
  from-IsSorted k [] s = tt
  from-IsSorted k (x ∷ xs) (a, s) = ground (arith, from-IsSorted k xs s)

  before-Above : (x k : K) (xs : List K) → Above x xs → Above x (before k xs)
  unfolding before
  before-Above x k [] a = tt
  before-Above x k (y ∷ ys) (h, a) = ground (arith, before-Above x k ys a)

  pub before-IsSorted : (k : K) (xs : List K) → IsSorted xs → IsSorted (before k xs)
  unfolding before
  before-IsSorted k [] s = tt
  before-IsSorted k (x ∷ xs) (a, s) = ground (arith, before-IsSorted k xs s, before-Above x k xs a)
