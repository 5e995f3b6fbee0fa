-- ===== src/Prelude/Orders.antt =====
-- Strict total orders, as `operator<` gives them for numbers and pairs.
use netfish.Prelude.{ℕ, ◌≡◌, Bool, true, false, ltb, arith, ◌||◌, ◌&&◌, not}
use netfish.Prelude.Int.{ℤ, ltb_ℤ, eq_of_parts}

-- A strict total order, as `operator<` gives it.
pub record Order {ℓ} (K : Type ℓ) : Type ℓ where
  pub lt : K → K → Bool
  pub irrefl : (a : K) → lt a a ≡ false
  pub trans : (a b c : K) → lt a b ≡ true → lt b c ≡ true → lt a c ≡ true
  pub connex : (a b : K) → lt a b ≡ false → lt b a ≡ false → a ≡ b

pub nat_irrefl : (a : ℕ) → ltb a a ≡ false
nat_irrefl a = ground arith

pub nat_trans : (a b c : ℕ) → ltb a b ≡ true → ltb b c ≡ true → ltb a c ≡ true
nat_trans a b c h k = ground arith

pub nat_connex : (a b : ℕ) → ltb a b ≡ false → ltb b a ≡ false → a ≡ b
nat_connex a b h k = ground arith

instance abbrev pub nat_order : Order ℕ
nat_order = record { lt = ltb; irrefl = nat_irrefl; trans = nat_trans; connex = nat_connex }

pub int_irrefl : (a : ℤ) → ltb_ℤ a a ≡ false
int_irrefl a = ground arith

pub int_trans : (a b c : ℤ) → ltb_ℤ a b ≡ true → ltb_ℤ b c ≡ true → ltb_ℤ a c ≡ true
int_trans a b c h k = ground arith

pub int_connex : (a b : ℤ) → ltb_ℤ a b ≡ false → ltb_ℤ b a ≡ false → a ≡ b
int_connex a b h k = eq_of_parts a b (ground arith)

instance abbrev pub int_order : Order ℤ
int_order = record { lt = ltb_ℤ; irrefl = int_irrefl; trans = int_trans; connex = int_connex }

-- `operator<` of `std::pair`.
module _ {ℓ κ} {A : Type ℓ} {B : Type κ} ⦃a : Order A⦄ ⦃b : Order B⦄ where
  abbrev pub pair_lt : A × B → A × B → Bool
  pair_lt p q = a.lt p.0 q.0 || (not (a.lt q.0 p.0) && b.lt p.1 q.1)

  pub pair_irrefl : (p : A × B) → pair_lt p p ≡ false
  pair_irrefl p = ground (arith, a.irrefl p.0, b.irrefl p.1)

  pub pair_trans : (p q r : A × B) → pair_lt p q ≡ true → pair_lt q r ≡ true → pair_lt p r ≡ true
  pair_trans p q r h k = ground (
    arith,
    a.trans p.0 q.0 r.0,
    a.trans r.0 p.0 q.0,
    a.trans q.0 r.0 p.0,
    a.connex p.0 q.0,
    a.connex q.0 r.0,
    b.trans p.1 q.1 r.1,
  )

  pub pair_connex : (p q : A × B) → pair_lt p q ≡ false → pair_lt q p ≡ false → p ≡ q
  pair_connex p q h k = ground (arith, a.connex p.0 q.0, b.connex p.1 q.1)

  instance abbrev pub pair_order : Order (A × B)
  pair_order = record {
    lt = pair_lt;
    irrefl = pair_irrefl;
    trans = pair_trans;
    connex = pair_connex;
  }
