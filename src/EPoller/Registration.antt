-- ===== src/EPoller/Registration.antt =====
-- The changes that a channel makes, and its removal, on a valid poller.
use netfish.Prelude.{
  ℕ, ◌≡◌, inl, refl, sym, ap, ◌∙◌, true, none, some, ◌==◌, if◌then◌else◌, ok, ◌>>=◌, arith,
}
use netfish.Channel.{Channel, Index, is_new, is_added, is_deleted, is_none_event}
use netfish.EPoller.{
  Epoll, EPoller, put, put_channel, set_index, is_registered, update_by, update_channel, change,
  remove_channel, unregister, deref,
}
use netfish.EPoller.Valid.{IsValid, IsUpdate, updated-IsValid}
use netfish.EPoller.Changes.{Settled, update-Settled}

module _ (ep : Epoll) where
  -- A change of the events of a channel that has a registration, or that is new and whose descriptor
  -- no channel has: no assert fails and the poller stays valid. The kernel holds exactly the events
  -- that the channel now waits for, or nothing where it waits for none and was registered, and
  -- what it holds for other descriptors is left alone.
  pub change_lem :
      (f : Channel → Channel) (a : ℕ) (old : Channel) (p : EPoller ep)
      → (v : IsValid ep p) → (here : p.heap a ≡ some old) → (same : (f old).fd ≡ old.fd)
      → (f old).index ≡ old.index
      → (old.index ≡ is_new → p.channels old.fd ≡ none)
      → (p' : EPoller ep) × (change ep f a p ≡ ok p') × Settled ep a old (f old) p v here same p'
  unfolding change update_channel
  change_lem f a old p v here same i free =
      let (p', e, s) =
        update-Settled ep a old (f old) p v here same i
          (λ n. ap p.channels same ∙ free (sym i ∙ n)) in
      (p', ground (arith, here, store_lem a (f old) p p' e), s)
    where
      store_lem :
          (a : ℕ) (ch : Channel) (p p' : EPoller ep)
          → update_by ep ch.index a ch (record p { heap = put_channel a ch p.heap }) ≡ ok p'
          → (deref ep a (record p { heap = put_channel a ch p.heap }) >>= λ ch'.
              update_by ep ch'.index a ch' (record p { heap = put_channel a ch p.heap }))
            ≡ ok p'
      store_lem a ch p p' e = ground (arith, e)

  -- The poller without channel `a`.
  removed : ℕ → Channel → EPoller ep → EPoller ep
  removed a ch p = set_index ep a ch is_new (record p {
    channels = put ch.fd none p.channels;
    kernel = unregister ep ch.index ch.fd p.kernel;
  })

  removed_kernel :
      (i : Index) (a : ℕ) (ch : Channel) (p : EPoller ep)
      → IsValid ep p
      → p.heap a ≡ some ch
      → ch.index ≡ i
      → is_registered ep i ≡ true
      → (d : ℕ)
      → ep.interest (unregister ep i ch.fd p.kernel) d
        ≡ (if d == ch.fd then none else ep.interest p.kernel d)
  unfolding unregister
  removed_kernel is_new a ch p v here e r d = absurd (cc)
  removed_kernel is_added a ch p v here e r d =
      ep.interest-ctl_del ch.fd (ch.events, a) p.kernel d (v.added a ch here e)
  removed_kernel is_deleted a ch p v here e r d = ground (arith, v.deleted a ch here e)

  -- The removal of a channel that waits for nothing and is registered, or was: no assert fails, the
  -- poller stays valid, and neither it nor the kernel holds anything for the descriptor.
  pub remove_lem :
      (a : ℕ) (ch : Channel) (p : EPoller ep)
      → IsValid ep p
      → p.heap a ≡ some ch
      → is_registered ep ch.index ≡ true
      → is_none_event ch ≡ true
      → (p' : EPoller ep) × (remove_channel ep a p ≡ ok p')
        × IsValid ep p'
        × (p'.heap a ≡ some (record ch { index = is_new }))
        × (p'.channels ch.fd ≡ none)
        × (ep.interest p'.kernel ch.fd ≡ none)
  unfolding remove_channel removed
  remove_lem a ch p v here r idle =
      let mine = v.held a ch here r in
      let gone = removed_kernel ch.index a ch p v here refl r in
      let u : IsUpdate ep a ch.fd (record ch { index = is_new }) none p (removed a ch p) = record {
        heap = λ b. refl;
        channels = λ d. refl;
        kernel = gone;
      } in
      (
        removed a ch p,
        ground (arith, here, mine, r, idle),
        updated-IsValid ep a ch (record ch { index = is_new }) none p (removed a ch p) v here refl u
            (inl mine) (λ e. absurd (cc)) (λ e. refl) (λ e. refl),
        ground arith,
        ground arith,
        ground (arith, gone ch.fd),
      )
