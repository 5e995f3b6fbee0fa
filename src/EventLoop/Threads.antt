-- ===== src/EventLoop/Threads.antt =====
-- The loop's thread and the others, in any order of their steps.
use netfish.Prelude.{
  ℕ, suc, ◌+◌, ◌<◌, ◌≡◌, ◌≢◌, ◌⊎◌, inl, inr, Bool, refl, sym, ap, ap₂, ◌∙◌, true, false, List, [],
  ◌∷◌, ◌++◌, append_assoc, append-nil, arith, length,
}
use netfish.EventLoop.Pending.{run_lem}
use netfish.EventLoop.{
  EventLoop, new, set_quit, wakeup, handle_read, push, queue_in_loop, run, begin_pending,
  end_pending,
}

-- Where the loop's thread is: outside `loop`, at the head of its rounds or in `poll`, in the handlers,
-- or in `doPendingFunctors` with these functors left.
pub data Phase : Type 0 where
  outside polling handling : Phase
  running : List ℕ → Phase

-- `owed` are the calls of `queueInLoop` by other threads that have pushed and not yet written to the
-- eventfd. `early` is whether the loop's own thread has queued a functor outside `loop` that no
-- `doPendingFunctors` has taken since.
pub record System : Type 0 where
  pub loop : EventLoop
  pub phase : Phase
  pub owed : ℕ
  pub early : Bool

abbrev pub initial : System
initial = record { loop = new; phase = outside; owed = 0; early = false }

module _ (script : ℕ → List ℕ) where
  pub data Step : System → System → Type 0 where
    other_pushes :
        (f : ℕ) (s : System) → Step s (record s { loop = push f s.loop; owed = s.owed + 1 })
    other_wakes :
        (n : ℕ) (s : System) → s.owed ≡ suc n → Step s (record s { loop = wakeup s.loop; owed = n })
    queues_outside :
        (f : ℕ) (s : System)
        → s.phase ≡ outside
        → Step s (record s { loop = queue_in_loop true f s.loop; early = true })
    enters :
        (s : System)
        → s.phase ≡ outside
        → Step s
            (record s { loop = record s.loop { looping = true; quit = false }; phase = polling })
    leaves :
        (s : System)
        → s.phase ≡ polling
        → s.loop.quit ≡ true
        → Step s (record s { loop = record s.loop { looping = false }; phase = outside })
    quits : (here : Bool) (s : System) → Step s (record s { loop = set_quit here s.loop })
    returns : (s : System) → s.phase ≡ polling → Step s (record s { phase = handling })
    reads : (s : System) → s.phase ≡ handling → Step s (record s { loop = handle_read s.loop })
    queues :
        (f : ℕ) (s : System)
        → s.phase ≡ handling
        → Step s (record s { loop = queue_in_loop true f s.loop })
    swaps :
        (s : System)
        → s.phase ≡ handling
        → Step s (record s {
          loop = begin_pending script s.loop;
          phase = running s.loop.pending_functors;
          early = false;
        })
    runs :
        (f : ℕ) (fs : List ℕ) (s : System)
        → s.phase ≡ running (f ∷ fs)
        → Step s (record s { loop = run script f s.loop; phase = running fs })
    ends :
        (s : System)
        → s.phase ≡ running []
        → Step s (record s { loop = end_pending script s.loop; phase = polling })

  pub data Reachable : System → Type 0 where
    start : Reachable initial
    next : (s s' : System) → Reachable s → Step s s' → Reachable s'

  -- Outside the handlers, functors that wait have a wakeup that has come or is to come, or are early.
  record IsAwake (s : System) : Type 0 where
    calls : (fs : List ℕ) → s.phase ≡ running fs → s.loop.calling_pending_functors ≡ true
    woken :
        s.phase ≢ handling
        → s.loop.pending_functors ≢ []
        → (0 < s.loop.counter + s.owed) ⊎ (s.early ≡ true)

  -- What a functor that runs queues has its wakeups.
  ran_woken :
      (fs gs : List ℕ) (n : ℕ) (early : Bool)
      → (fs ≢ [] → (0 < n) ⊎ (early ≡ true))
      → fs ++ gs ≢ []
      → (0 < n + length gs) ⊎ (early ≡ true)
  ran_woken [] [] n early h k = absurd (k refl)
  ran_woken [] (g ∷ gs) n early h k = inl (omega arith)
  ran_woken (f ∷ fs) gs n early h k = elim (h (λ e. cc)) [
    | inl p ↦ inl (omega (arith, p))
    | inr p ↦ inr p
  ]

  Step-IsAwake : (s s' : System) → Step s s' → IsAwake s → IsAwake s'
  unfolding push wakeup handle_read begin_pending end_pending queue_in_loop set_quit
  Step-IsAwake _ _ (other_pushes f s) a = record {
    calls = a.calls;
    woken = λ n k. inl (omega arith);
  }
  Step-IsAwake _ _ (other_wakes n s e) a = record {
    calls = a.calls;
    woken = λ h k. inl (omega arith);
  }
  Step-IsAwake _ _ (queues_outside f s e) a = record {
    calls = λ fs h. absurd (ground (arith, e, h));
    woken = λ n k. inr refl;
  }
  Step-IsAwake _ _ (enters s e) a = record {
    calls = λ fs h. absurd (cc);
    woken = λ n k. a.woken (λ h. ground (arith, e, h)) k;
  }
  Step-IsAwake _ _ (leaves s e q) a = record {
    calls = λ fs h. absurd (cc);
    woken = λ n k. a.woken (λ h. ground (arith, e, h)) k;
  }
  Step-IsAwake _ _ (quits true s) a = record { calls = a.calls; woken = a.woken }
  Step-IsAwake _ _ (quits false s) a = record { calls = a.calls; woken = λ n k. inl (omega arith) }
  Step-IsAwake _ _ (returns s e) a = record {
    calls = λ fs h. absurd (cc);
    woken = λ n. absurd (n refl);
  }
  Step-IsAwake _ _ (reads s e) a = record { calls = a.calls; woken = λ n. absurd (n e) }
  Step-IsAwake _ _ (queues f s e) a = record {
    calls = λ fs h. absurd (ground (arith, e, h));
    woken = λ n. absurd (n e);
  }
  Step-IsAwake _ _ (swaps s e) a = record { calls = λ fs h. refl; woken = λ n k. absurd (k refl) }
  Step-IsAwake _ _ (ends s e) a = record {
    calls = λ fs h. refl;
    woken = λ n k. a.woken (λ h. ground (arith, e, h)) k;
  }
  Step-IsAwake _ _ (runs f fs s e) a =
      let r = run_lem script f s.loop (a.calls (f ∷ fs) e) in
      record {
        calls = λ gs h. ap (λ l. l.calling_pending_functors) r ∙ a.calls (f ∷ fs) e;
        woken = λ n k.
            let w =
              ran_woken s.loop.pending_functors (script f) (s.loop.counter + s.owed) s.early
                (a.woken (λ h. ground (arith, e, h)))
                (λ z. k (ap (λ l. l.pending_functors) r ∙ z)) in
            elim w [ inl p ↦ inl (omega (arith, p, ap (λ l. l.counter) r)) | inr p ↦ inr p ];
      }

  Reachable-IsAwake : (s : System) → Reachable s → IsAwake s
  unfolding new
  Reachable-IsAwake _ start = record { calls = λ fs h. absurd (cc); woken = λ n k. absurd (k refl) }
  Reachable-IsAwake _ (next s s' r st) = Step-IsAwake s s' st (Reachable-IsAwake s r)

  -- However the steps of the loop's thread and of others follow each other, from a new loop on, with
  -- any number of calls of `loop`: when the loop is at `poll` and a functor waits, the eventfd can be
  -- read, or another thread that has pushed is still to write to it, so `poll` does not sleep on a
  -- functor; or else the loop's own thread had queued a functor outside `loop`, and none has been taken
  -- since.
  pub no_lost_wakeup :
      (s : System)
      → Reachable s
      → s.phase ≡ polling
      → s.loop.pending_functors ≢ []
      → (0 < s.loop.counter + s.owed) ⊎ (s.early ≡ true)
  no_lost_wakeup s r e waits = (Reachable-IsAwake s r).woken (λ h. ground (arith, e, h)) waits

  -- The functors that a phase is about to run.
  current : Phase → List ℕ
  current (running fs) = fs
  current _ = []

  -- Those that have run, those about to and those that wait.
  pub history : System → List ℕ
  history s = (s.loop.ran ++ current s.phase) ++ s.loop.pending_functors

  -- What a step puts into the queue.
  pub queued_in : {s s' : System} → Step s s' → List ℕ
  queued_in (other_pushes f s) = f ∷ []
  queued_in (other_wakes n s e) = []
  queued_in (queues_outside f s e) = f ∷ []
  queued_in (enters s e) = []
  queued_in (leaves s e q) = []
  queued_in (quits here s) = []
  queued_in (returns s e) = []
  queued_in (reads s e) = []
  queued_in (queues f s e) = f ∷ []
  queued_in (swaps s e) = []
  queued_in (runs f fs s e) = script f
  queued_in (ends s e) = []

  queue_in_loop_lem :
      (f : ℕ) (l : EventLoop)
      → ((queue_in_loop true f l).ran ≡ l.ran)
        × ((queue_in_loop true f l).pending_functors ≡ l.pending_functors ++ (f ∷ []))
  unfolding queue_in_loop push wakeup
  queue_in_loop_lem f l = (ground arith, ground arith)

  -- The functors that have run, then those about to run, then those that wait, only grow at the end,
  -- by what a step queues: none is lost, runs twice or overtakes another.
  pub history-Step :
      (s s' : System) (st : Step s s') → Reachable s → history s' ≡ history s ++ queued_in st
  unfolding history queued_in current push wakeup handle_read begin_pending end_pending set_quit
  history-Step _ _ (other_pushes f s) r =
      sym (append_assoc (s.loop.ran ++ current s.phase) s.loop.pending_functors (f ∷ []))
  history-Step _ _ (other_wakes n s e) r = sym (append-nil _)
  history-Step _ _ (queues_outside f s e) r =
      let (same, more) = queue_in_loop_lem f s.loop in
      ap₂ (λ l p. (l ++ current s.phase) ++ p) same more
      ∙ sym (append_assoc (s.loop.ran ++ current s.phase) s.loop.pending_functors (f ∷ []))
  history-Step _ _ (enters s e) r = rw e (sym (append-nil _))
  history-Step _ _ (leaves s e q) r = rw e (sym (append-nil _))
  history-Step _ _ (quits true s) r = sym (append-nil _)
  history-Step _ _ (quits false s) r = sym (append-nil _)
  history-Step _ _ (returns s e) r = rw e (sym (append-nil _))
  history-Step _ _ (reads s e) r = sym (append-nil _)
  history-Step _ _ (queues f s e) r =
      let (same, more) = queue_in_loop_lem f s.loop in
      ap₂ (λ l p. (l ++ current s.phase) ++ p) same more
      ∙ sym (append_assoc (s.loop.ran ++ current s.phase) s.loop.pending_functors (f ∷ []))
  history-Step _ _ (swaps s e) r =
      rw e (ap (λ l. (l ++ s.loop.pending_functors) ++ []) (sym (append-nil s.loop.ran)))
  history-Step _ _ (ends s e) r = rw e (sym (append-nil _))
  history-Step _ _ (runs f fs s e) r =
      let q = run_lem script f s.loop ((Reachable-IsAwake s r).calls (f ∷ fs) e) in
      let waiting = s.loop.pending_functors in
      ap (λ l. (l.ran ++ fs) ++ l.pending_functors) q
      ∙ ap (λ l. l ++ (waiting ++ script f)) (append_assoc s.loop.ran (f ∷ []) fs)
      ∙ sym (append_assoc (s.loop.ran ++ (f ∷ fs)) waiting (script f))
      ∙ ap (λ ph. ((s.loop.ran ++ current ph) ++ waiting) ++ script f) (sym e)
