-- ===== src/Atomic/Counting.antt =====
-- Calls that read an atomic integer or add to it, by several threads. `getAndSet` is not among them.
use native.Mathlib.Nat.{mod-eq_of_lt, mod-add-mod, mod-lt, add-mod_right}
use netfish.Prelude.{
  ℕ, ◌+◌, ◌-◌, ◌%◌, ◌^◌, ◌<◌, ◌≡◌, refl, sym, ap, ◌∙◌, List, [], ◌∷◌, ◌++◌, arith,
}
use netfish.Atomic.{
  AtomicInteger, minus_one, get, get_and_add, add_and_get, increment_and_get, decrement_and_get,
  get_and_increment, get_and_decrement, increment, decrement,
}

-- The calls that read or change the integer, with their arguments.
pub data Call : Type 0 where
  gets increments_and_gets decrements_and_gets gets_and_increments gets_and_decrements : Call
  gets_and_adds adds_and_gets : ℕ → Call

-- Two threads' calls in one order that keeps the order of each.
pub data Interleaves : List Call → List Call → List Call → Type 0 where
  done : Interleaves [] [] []
  left : {xs ys zs : List Call} (x : Call) → Interleaves xs ys zs → Interleaves (x ∷ xs) ys (x ∷ zs)
  right :
      {xs ys zs : List Call} (y : Call) → Interleaves xs ys zs → Interleaves xs (y ∷ ys) (y ∷ zs)

module _ (w : ℕ) where
  pub perform : Call → AtomicInteger → ℕ × AtomicInteger
  perform gets = get w
  perform increments_and_gets = increment_and_get w
  perform decrements_and_gets = decrement_and_get w
  perform gets_and_increments = get_and_increment w
  perform gets_and_decrements = get_and_decrement w
  perform (gets_and_adds x) = get_and_add w x
  perform (adds_and_gets x) = add_and_get w x

  pub perform_all : List Call → AtomicInteger → AtomicInteger
  perform_all [] val = val
  perform_all (c ∷ cs) val = perform_all cs (perform c val).1

  -- What a call adds.
  abbrev pub addend : Call → ℕ
  addend gets = 0
  addend increments_and_gets = 1
  addend decrements_and_gets = minus_one w
  addend gets_and_increments = 1
  addend gets_and_decrements = minus_one w
  addend (gets_and_adds x) = x
  addend (adds_and_gets x) = x

  abbrev pub total : List Call → ℕ
  total [] = 0
  total (c ∷ cs) = addend c + total cs

  perform_lem : (c : Call) (val : ℕ) → (perform c val).1 ≡ (val + addend c) % 2 ^ w
  unfolding perform get get_and_add add_and_get increment_and_get decrement_and_get
      get_and_increment get_and_decrement
  perform_lem gets val = refl
  perform_lem increments_and_gets val = refl
  perform_lem decrements_and_gets val = refl
  perform_lem gets_and_increments val = refl
  perform_lem gets_and_decrements val = refl
  perform_lem (gets_and_adds x) val = refl
  perform_lem (adds_and_gets x) val = refl

  pub perform_all-total :
      (cs : List Call) (val : ℕ) → val < 2 ^ w → perform_all cs val ≡ (val + total cs) % 2 ^ w
  unfolding perform_all
  perform_all-total [] val h =
      sym (mod-eq_of_lt {n = val} h) ∙ ap (λ n. n % 2 ^ w) {x = val} (omega arith)
  perform_all-total (c ∷ cs) val h =
      perform_all-total cs (perform c val).1
        (rw (perform_lem c val) (mod-lt (val + addend c) (omega arith)))
      ∙ ap (λ n. (n + total cs) % 2 ^ w) (perform_lem c val)
      ∙ mod-add-mod (val + addend c) (2 ^ w) (total cs)
      ∙ ap (λ n. n % 2 ^ w) {x = val + addend c + total cs} (omega arith)

  -- What a call returns, when the calls before it have added `before` to `val`: the value before it,
  -- or the one after it.
  abbrev pub returned : Call → ℕ → ℕ → ℕ
  returned gets val before = (val + before) % 2 ^ w
  returned gets_and_increments val before = (val + before) % 2 ^ w
  returned gets_and_decrements val before = (val + before) % 2 ^ w
  returned (gets_and_adds x) val before = (val + before) % 2 ^ w
  returned increments_and_gets val before = (val + before + 1) % 2 ^ w
  returned decrements_and_gets val before = (val + before + (2 ^ w - 1)) % 2 ^ w
  returned (adds_and_gets x) val before = (val + before + x) % 2 ^ w

  returned_lem :
      (c : Call) (val before now : ℕ)
      → now ≡ (val + before) % 2 ^ w
      → (perform c now).0 ≡ returned c val before
  unfolding perform get get_and_add add_and_get increment_and_get decrement_and_get
      get_and_increment get_and_decrement
  returned_lem gets val before now e = e
  returned_lem gets_and_increments val before now e = e
  returned_lem gets_and_decrements val before now e = e
  returned_lem (gets_and_adds x) val before now e = e
  returned_lem increments_and_gets val before now e =
      ap (λ n. (n + 1) % 2 ^ w) e ∙ mod-add-mod (val + before) (2 ^ w) 1
  returned_lem decrements_and_gets val before now e =
      ap (λ n. (n + (2 ^ w - 1)) % 2 ^ w) e ∙ mod-add-mod (val + before) (2 ^ w) (2 ^ w - 1)
  returned_lem (adds_and_gets x) val before now e =
      ap (λ n. (n + x) % 2 ^ w) e ∙ mod-add-mod (val + before) (2 ^ w) x

  pub total-Interleaves :
      {xs ys zs : List Call} → Interleaves xs ys zs → total zs ≡ total xs + total ys
  total-Interleaves done = omega arith
  total-Interleaves (left x i) = omega (arith, total-Interleaves i)
  total-Interleaves (right y i) = omega (arith, total-Interleaves i)

  -- Calls that read the integer or add to it, `getAndSet` not among them. However the calls of two
  -- threads follow each other, each thread's own in their order, none is lost: the integer ends as if
  -- one thread had made all of its calls before the other, and it is what it was plus all that was
  -- added, modulo `2 ^ w`. And each call returns what it was plus all that the calls before it in that
  -- order have added, and for the calls that add first and then get, plus what the call itself adds.
  pub perform_all-Interleaves :
      {xs ys zs : List Call} (val : ℕ) (before after : List Call) (c : Call)
      → val < 2 ^ w
      → Interleaves xs ys zs
      → zs ≡ before ++ (c ∷ after)
      → (perform_all zs val ≡ perform_all ys (perform_all xs val))
        × (perform_all zs val ≡ (val + (total xs + total ys)) % 2 ^ w)
        × ((perform c (perform_all before val)).0 ≡ returned c val (total before))
  perform_all-Interleaves {xs} {ys} {zs} val before after c h i split =
      let first = perform_all-total xs val h in
      let sum = perform_all-total zs val h ∙ ap (λ n. (val + n) % 2 ^ w) (total-Interleaves i) in
      let apart =
        perform_all-total ys (perform_all xs val) (rw first (mod-lt (val + total xs) (omega arith)))
        ∙ ap (λ n. (n + total ys) % 2 ^ w) first
        ∙ mod-add-mod (val + total xs) (2 ^ w) (total ys)
        ∙ ap (λ n. n % 2 ^ w) {x = val + total xs + total ys} (omega arith) in
      (sum ∙ sym apart, sum, returned_lem c val (total before) _ (perform_all-total before val h))

  wraps : (val : ℕ) → val < 2 ^ w → (val + 1 + (2 ^ w - 1)) % 2 ^ w ≡ val
  wraps val h =
      ap (λ n. n % 2 ^ w) {x = val + 1 + (2 ^ w - 1)} {y = val + 2 ^ w} (omega arith)
      ∙ add-mod_right val (2 ^ w)
      ∙ mod-eq_of_lt h

  -- `decrement` undoes `increment`, and `increment` undoes `decrement`, also where the integer wraps
  -- around; and what `incrementAndGet` returns, `decrementAndGet` turns back into what
  -- `getAndIncrement` had returned.
  pub undo_lem :
      (val : ℕ)
      → val < 2 ^ w
      → (decrement w (increment w val) ≡ val)
        × (increment w (decrement w val) ≡ val)
        × ((decrement_and_get w (increment_and_get w val).0).0 ≡ (get_and_increment w val).0)
  unfolding increment decrement increment_and_get decrement_and_get
  undo_lem val h =
      let there = mod-add-mod (val + 1) (2 ^ w) (2 ^ w - 1) ∙ wraps val h in
      let back =
        mod-add-mod (val + (2 ^ w - 1)) (2 ^ w) 1
        ∙ ap (λ n. n % 2 ^ w) {x = val + (2 ^ w - 1) + 1} (omega arith)
        ∙ wraps val h in
      (there, back, there)
