-- ===== src/TimerQueue/Destroying.antt =====
-- The destructor: it deletes the timers of the set.
use netfish.Prelude.{
  ℕ, ◌≡◌, ◌≢◌, refl, sym, ap, ◌∙◌, inl, inr, List, [], ◌∷◌, none, some, arith, Outcome, ok, err,
  out_of_bounds,
}
use netfish.Prelude.Orders.{nat_order, int_order, pair_order, pair_irrefl}
use netfish.Prelude.OrderedSet.{In, IsSorted, lt_of_In}
use netfish.Timestamp.{Timer, TimerId}
use netfish.TimerQueue.{TimerQueue, Entry, Heap, store}
use netfish.TimerQueue.Valid.{IsValid, same_timer, store_self, store_ne}

-- Deleting a timer twice is undefined.
unfoldable pub delete_all : List Entry → Heap → Outcome Heap
delete_all [] heap = ok heap
delete_all (e ∷ es) heap = elim (heap e.1) [
  | none ↦ err out_of_bounds
  | some t ↦ delete_all es (store e.1 none heap)
]

unfoldable pub destroy : TimerQueue → Outcome Heap
unfolding delete_all
destroy q = delete_all q.timers q.heap

-- Each entry's timer is alive under the entry's time.
abbrev AllAlive : List Entry → Heap → Type 0
AllAlive es heap = (e : Entry) → In e es → (t : Timer) × (heap e.1 ≡ some t) × (t.expiration ≡ e.0)

-- Two entries of one timer are the same.
apart :
    (x e : Entry) (xs : List Entry) (heap : Heap)
    → IsSorted (x ∷ xs)
    → AllAlive (x ∷ xs) heap
    → In e xs
    → e.1 ≢ x.1
apart x e xs heap s alive i p =
    let (t, h, due) = alive x (inl refl) in
    let (u, k, due') = alive e (inr i) in
    let same : u ≡ t = same_timer heap h k p in
    let one : e ≡ x = λ j. ((sym due' ∙ ap (λ v. v.expiration) same ∙ due) j, p j) in
    let lt = lt_of_In x e xs s.0 i in absurd (ground (arith, pair_irrefl x, rw one at lt))

delete_all_lem :
    (es : List Entry) (heap : Heap)
    → IsSorted es
    → AllAlive es heap
    → (heap' : Heap) × (delete_all es heap ≡ ok heap')
      × ((e : Entry) → In e es → heap' e.1 ≡ none)
      × ((a : ℕ) → heap a ≡ none → heap' a ≡ none)
unfolding delete_all
delete_all_lem [] heap s alive = (heap, refl, λ e i. elim i [ ], λ a h. h)
delete_all_lem (x ∷ xs) heap s alive =
    let (t, h, _) = alive x (inl refl) in
    let rest : AllAlive xs (store x.1 none heap) = λ e i.
      let (u, k, due) = alive e (inr i) in
      (u, store_ne e.1 x.1 none heap (apart x e xs heap s alive i) ∙ k, due) in
    let (heap', e, gone, empty) = delete_all_lem xs (store x.1 none heap) s.1 rest in
    let first : heap' x.1 ≡ none = empty x.1 (store_self x.1 none heap) in
    (
      heap',
      ground (arith, h, e),
      λ y i. elim i [ inl p ↦ ap (λ z. heap' z.1) p ∙ first | inr j ↦ gone y j ],
      λ a k. empty a (ground (arith, k)),
    )

-- The destructor of a valid queue deletes every timer in it exactly once: none of its deletions meets
-- a timer that is gone, and afterwards the timer of every id that was active is gone.
pub destroy_lem :
    (q : TimerQueue)
    → IsValid q
    → (heap : Heap) × (destroy q ≡ ok heap)
      × ((e : Entry) → In e q.timers → heap e.1 ≡ none)
      × ((id : TimerId) → In id q.active → heap id.0 ≡ none)
unfolding destroy
destroy_lem q v =
    let (heap, e, gone, _) =
      delete_all_lem q.timers q.heap v.timers_sorted
        (λ x i. let (t, h, due, _, _) = v.holds x i in (t, h, due)) in
    (
      heap,
      e,
      gone,
      λ id i. let (t, _, _, queued) = v.known id i in gone (t.expiration, id.0) queued,
    )
