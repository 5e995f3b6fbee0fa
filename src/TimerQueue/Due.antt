-- ===== src/TimerQueue/Due.antt =====
-- `getExpired` on a valid queue: which timers it takes out, and that the rest is valid.
use netfish.Prelude.{
  ◌↔◌, ◌≡◌, refl, sym, ap, subst, ◌∙◌, ◌⊎◌, inl, inr, true, false, List, arith, length,
  length-append, ok,
}
use netfish.Prelude.Int.{ltb_ℤ}
use netfish.Prelude.Orders.{nat_order, int_order, pair_order, pair_lt}
use netfish.Prelude.OrderedSet.{
  In, In-append, In-append_left, In-append_right, IsSorted, before, from, before-append-from,
  lt_of_In-before, not-lt_of_In-from, before-IsSorted, from-IsSorted,
}
use netfish.Timestamp.{Timestamp, TimerId}
use netfish.TimerQueue.{TimerQueue, Entry}
use netfish.TimerQueue.Expiry.{get_expired}
use netfish.TimerQueue.Valid.{IsValid, same_timer}
use mathlib.Core.Bool.{false≢true}
use netfish.TimerQueue.Expired.{
  Lacks, Listed, AllOut, Erased, Listed-Holds, erase_active_lem, bound, rest_later, AllOut-Listed,
}

module _ (now : Timestamp) (q : TimerQueue) (v : IsValid q) where
  abbrev pub early : List Entry
  early = before (bound now) q.timers

  abbrev pub late : List Entry
  late = from (bound now) q.timers

  abbrev pub remaining : List TimerId → TimerQueue
  remaining left = record q { timers = late; active = left }

  early-In : (e : Entry) → In e early → In e q.timers
  early-In e i =
      subst (In e) (before-append-from (bound now) q.timers) (In-append_left e early late i)

  late-In : (e : Entry) → In e late → In e q.timers
  late-In e i =
      subst (In e) (before-append-from (bound now) q.timers) (In-append_right e early late i)

  early-Listed : Listed early (record q { timers = late })
  early-Listed =
      Listed-Holds early (record q { timers = late })
        (before-IsSorted (bound now) q.timers v.timers_sorted) (λ e i. v.holds e (early-In e i))

  -- An entry that is left keeps its timer active.
  late-Lacks : (e : Entry) → In e late → Lacks e.1 early
  late-Lacks e i t j =
      let (timer, alive, at, _, _) = v.holds e (late-In e i) in
      let (other, alive', at', _, _) = v.holds (t, e.1) (early-In (t, e.1) j) in
      let same : e ≡ (t, e.1) = λ k. (
        (sym at ∙ ap (λ x. x.expiration) (sym (same_timer q.heap alive alive' refl)) ∙ at') k,
        e.1,
      ) in
      cc (
        not-lt_of_In-from e (bound now) q.timers v.timers_sorted i,
        subst (λ x. pair_lt x (bound now) ≡ true) (sym same)
            (lt_of_In-before (t, e.1) (bound now) q.timers j),
      )

  remaining-IsValid :
      (left : List TimerId)
      → Erased early (record q { timers = late }) left
      → IsValid (remaining left)
  remaining-IsValid left x = record {
    timers_sorted = from-IsSorted (bound now) q.timers v.timers_sorted;
    active_sorted = x.sorted;
    canceling_sorted = v.canceling_sorted;
    same = omega (
      arith,
      x.count,
      v.same,
      length-append early late,
      ap length (before-append-from (bound now) q.timers),
    );
    holds = λ e i.
        let (timer, alive, at, active, low) = v.holds e (late-In e i) in
        (timer, alive, at, x.kept (e.1, timer.sequence) active (late-Lacks e i), low);
    known = λ id i.
        let (there, lacks) = x.old id i in
        let (timer, alive, number, queued) = v.known id there in
        (
          timer,
          alive,
          number,
          elim (In-append (timer.expiration, id.0) early late
              (subst (In (timer.expiration, id.0)) (sym (before-append-from (bound now) q.timers))
                queued)) [ inl gone ↦ absurd (lacks timer.expiration gone) | inr stays ↦ stays ],
        );
  }

  early_due : (e : Entry) → In e early → ltb_ℤ now e.0 ≡ false
  early_due e i = ground (arith, lt_of_In-before e (bound now) q.timers i)

  late_due : (e : Entry) → In e late → ltb_ℤ now e.0 ≡ true
  late_due e i =
      let (_, _, _, _, low) = v.holds e (late-In e i) in
      ground (arith, not-lt_of_In-from e (bound now) q.timers v.timers_sorted i, low)

  -- `getExpired` on a valid queue succeeds. It returns, in order of their times, exactly the
  -- entries whose time is not after `now`; they are out of the queue and alive, and exactly the
  -- others are left, in a valid queue.
  pub get_expired_lem :
      (left : List TimerId) × (get_expired now q ≡ ok (early, remaining left))
      × IsValid (remaining left)
      × AllOut early (remaining left)
      × IsSorted early
      × ((e : Entry) → In e early ↔ (In e q.timers × (ltb_ℤ now e.0 ≡ false)))
      × ((e : Entry) → In e late ↔ (In e q.timers × (ltb_ℤ now e.0 ≡ true)))
  unfolding get_expired
  get_expired_lem =
      let (left, called, x) =
        erase_active_lem early (record q { timers = late }) v.active_sorted
          (λ id i. let (timer, alive, number, _) = v.known id i in (timer, alive, number))
          early-Listed in
      let v' = remaining-IsValid left x in
      (
        left,
        ground (
          arith,
          v.same,
          v'.same,
          called,
          rest_later now late (λ e i.
              let (_, _, _, _, low) = v.holds e (late-In e i) in
              (not-lt_of_In-from e (bound now) q.timers v.timers_sorted i, low)),
        ),
        v',
        AllOut-Listed early (record q { timers = late }) left late early (λ e i. i) x early-Listed,
        before-IsSorted (bound now) q.timers v.timers_sorted,
        (λ e. (
          (λ i. (early-In e i, early_due e i)),
          (λ i. elim (split e i.0) [
            | inl j ↦ j
            | inr j ↦ absurd (false≢true (sym i.1 ∙ late_due e j))
          ]),
        )),
        (λ e. (
          (λ i. (late-In e i, late_due e i)),
          (λ i. elim (split e i.0) [
            | inl j ↦ absurd (false≢true (sym (early_due e j) ∙ i.1))
            | inr j ↦ j
          ]),
        )),
      )
    where
      split : (e : Entry) → In e q.timers → In e early ⊎ In e late
      split e i =
          In-append e early late (subst (In e) (sym (before-append-from (bound now) q.timers)) i)
