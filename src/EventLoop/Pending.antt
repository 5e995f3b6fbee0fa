-- ===== src/EventLoop/Pending.antt =====
-- `doPendingFunctors`, and what it leaves for the next round.
use netfish.Prelude.{
  ℕ, ◌+◌, ◌≡◌, refl, sym, ap, ◌∙◌, true, List, [], ◌∷◌, ◌++◌, append_assoc, append-nil, arith,
  length, length-append,
}
use netfish.EventLoop.{
  EventLoop, wakeup, push, queue_in_loop, queue_all, run, run_each, begin_pending, end_pending,
  do_pending_functors,
}

-- The loop with more functors queued, and as many wakeups.
abbrev pub queued : List ℕ → EventLoop → EventLoop
queued fs l = record l {
  pending_functors = l.pending_functors ++ fs;
  counter = l.counter + length fs;
}

queue_one :
    (f : ℕ) (l : EventLoop)
    → l.calling_pending_functors ≡ true
    → queue_in_loop true f l ≡ queued (f ∷ []) l
unfolding queue_in_loop push wakeup
queue_one f l c = ground (arith, c)

queued_none : (l : EventLoop) → queued [] l ≡ l
queued_none l =
    λ i. record l { pending_functors = append-nil l.pending_functors i; counter = stay i }
  where
    stay : l.counter + 0 ≡ l.counter
    stay = omega arith

queued_queued : (fs gs : List ℕ) (l : EventLoop) → queued gs (queued fs l) ≡ queued (fs ++ gs) l
queued_queued fs gs l =
    λ i. record l { pending_functors = append_assoc l.pending_functors fs gs i; counter = all i }
  where
    all : l.counter + length fs + length gs ≡ l.counter + length (fs ++ gs)
    all = omega (arith, length-append fs gs)

-- Functors queued in the loop's thread while functors run: each is queued and wakes the loop.
queue_all_lem :
    (fs : List ℕ) (l : EventLoop) → l.calling_pending_functors ≡ true → queue_all fs l ≡ queued fs l
unfolding queue_all
queue_all_lem [] l c = sym (queued_none l)
queue_all_lem (f ∷ fs) l c =
    ap (queue_all fs) (queue_one f l c)
    ∙ queue_all_lem fs (queued (f ∷ []) l) c
    ∙ queued_queued (f ∷ []) fs l

module _ (script : ℕ → List ℕ) where
  pub run_lem :
      (f : ℕ) (l : EventLoop)
      → l.calling_pending_functors ≡ true
      → run script f l ≡ queued (script f) (record l { ran = l.ran ++ (f ∷ []) })
  unfolding run
  run_lem f l c = queue_all_lem (script f) (record l { ran = l.ran ++ (f ∷ []) }) c

  -- What the functors of a list queue when they run.
  pub queued_by : List ℕ → List ℕ
  queued_by [] = []
  queued_by (f ∷ fs) = script f ++ queued_by fs

  abbrev after : List ℕ → EventLoop → EventLoop
  after fs l = queued (queued_by fs) (record l { ran = l.ran ++ fs })

  run_each_lem :
      (fs : List ℕ) (l : EventLoop)
      → l.calling_pending_functors ≡ true
      → run_each script fs l ≡ after fs l
  unfolding run_each run queued_by
  run_each_lem [] l c =
      sym (queued_none l) ∙ (λ i. queued [] (record l { ran = sym (append-nil l.ran) i }))
  run_each_lem (f ∷ fs) l c =
      let l₁ : EventLoop = record l { ran = l.ran ++ (f ∷ []) } in
      ap (run_each script fs) (queue_all_lem (script f) l₁ c)
      ∙ run_each_lem fs (queued (script f) l₁) c
      ∙ (λ i.
          queued (queued_by fs)
            (queued (script f) (record l { ran = append_assoc l.ran (f ∷ []) fs i })))
      ∙ queued_queued (script f) (queued_by fs) (record l { ran = l.ran ++ (f ∷ fs) })

  -- The loop after `doPendingFunctors`.
  abbrev done : EventLoop → EventLoop
  done l = after l.pending_functors (begin_pending script l)

  do_pending_functors_eq :
      (l : EventLoop)
      → do_pending_functors script l ≡ record (done l) { calling_pending_functors = true }
  unfolding do_pending_functors begin_pending end_pending
  do_pending_functors_eq l =
      ap (end_pending script) (run_each_lem l.pending_functors (begin_pending script l) refl)

  -- `doPendingFunctors` runs exactly the functors that were queued when it began, in order; those
  -- that they queue wait for the next round, in order, and wake it up, one wakeup each.
  pub do_pending_functors_lem :
      (l : EventLoop)
      → let l' = do_pending_functors script l in
        (l'.ran ≡ l.ran ++ l.pending_functors)
        × (l'.pending_functors ≡ queued_by l.pending_functors)
        × (l'.counter ≡ l.counter + length (queued_by l.pending_functors))
  unfolding begin_pending
  do_pending_functors_lem l =
      let e = do_pending_functors_eq l in
      (ap (λ x. x.ran) e, ap (λ x. x.pending_functors) e, ap (λ x. x.counter) e)

  -- `callingPendingFunctors_` stays set after the first round: a functor that a handler queues in the
  -- loop's thread writes to the eventfd, although `doPendingFunctors` comes next anyway.
  pub superfluous_wakeup :
      (f : ℕ) (l : EventLoop)
      → let l' = do_pending_functors script l in
        ((queue_in_loop true f l').counter ≡ l'.counter + 1)
        × ((do_pending_functors script (queue_in_loop true f l')).ran
            ≡ (l'.ran ++ l'.pending_functors) ++ (f ∷ []))
  superfluous_wakeup f l =
      let l' = do_pending_functors script l in
      let e = queue_one f l' (stays l) in
      (
        ap (λ x. x.counter) e,
        (do_pending_functors_lem (queue_in_loop true f l')).0
            ∙ ap (λ x. x.ran ++ x.pending_functors) e
            ∙ sym (append_assoc l'.ran l'.pending_functors (f ∷ [])),
      )
    where
      stays : (l : EventLoop) → (do_pending_functors script l).calling_pending_functors ≡ true
      stays l = ap (λ x. x.calling_pending_functors) (do_pending_functors_eq l)
