-- ===== src/EPoller/Polling.antt =====
-- `poll` on a valid poller.
use netfish.Prelude.{
  ℕ, ◌*◌, ◌≡◌, ◌≤◌, ◌⊎◌, inl, inr, refl, ap, ◌∙◌, List, [], ◌∷◌, some, ◌==◌, if◌then◌else◌, ok,
  arith, Option-cases, map, length,
}
use netfish.Channel.{Channel, Mask, Index, is_new, is_added, is_deleted}
use netfish.EPoller.{Epoll, EPoller, put_channel, fill_each, fill_active_channels, poll}
use netfish.EPoller.Valid.{IsValid, IsUpdate, updated-IsValid}

module _ (ep : Epoll) where
  -- The kernel reports events for pointers that it holds.
  abbrev pub Reported : ep.Instance → List (Mask × ℕ) → Type 0
  Reported s [] = Unit {0}
  Reported s ((m, a) ∷ es) =
      ((fd : ℕ) × (held : Mask) × (ep.interest s fd ≡ some (held, a))) × Reported s es

  -- A pointer that the kernel holds is that of a channel that is registered.
  index-cases : (i : Index) → (i ≡ is_new) ⊎ (i ≡ is_added) ⊎ (i ≡ is_deleted)
  index-cases is_new = inl refl
  index-cases is_added = inr (inl refl)
  index-cases is_deleted = inr (inr refl)

  pub held_channel :
      (p : EPoller ep) (fd a : ℕ) (m : Mask)
      → IsValid ep p
      → ep.interest p.kernel fd ≡ some (m, a)
      → (ch : Channel) × (p.heap a ≡ some ch)
        × (ch.fd ≡ fd)
        × (ch.index ≡ is_added)
        × (p.channels fd ≡ some a)
  held_channel p fd a m v e = elim (Option-cases (p.channels fd)) [
    | inl gone ↦ absurd (ground (arith, e, v.absent fd gone))
    | inr (b, f) ↦
        let (ch, g, i, r) = v.known fd b f in
        elim (index-cases ch.index) [
          | inl new ↦ absurd (ground (arith, new, r))
          | inr (inr deleted) ↦ absurd (ground (arith, e, i, v.deleted b ch g deleted))
          | inr (inl added) ↦
              let same : b ≡ a = ground (arith, e, i, v.added b ch g added) in
              (ch, ground (arith, same, g), i, added, ground (arith, same, f))
        ]
  ]

  -- The poller with the events that came for channel `a`.
  reported : ℕ → Channel → Mask → EPoller ep → EPoller ep
  reported a ch m p = record p { heap = put_channel a (record ch { revents = m }) p.heap }

  reported-IsValid :
      (a : ℕ) (ch : Channel) (m : Mask) (p : EPoller ep)
      → IsValid ep p
      → p.heap a ≡ some ch
      → ch.index ≡ is_added
      → IsValid ep (reported a ch m p)
  unfolding reported
  reported-IsValid a ch m p v here i =
      let mine : p.channels ch.fd ≡ some a = ground (arith, i, v.held a ch here) in
      let at = v.added a ch here i in
      let u : IsUpdate ep a ch.fd (record ch { revents = m }) (some (ch.events, a)) p
          (reported a ch m p) =
        record {
          heap = λ b. refl;
          channels = λ d. ground (arith, i, mine);
          kernel = λ d. ground (arith, at);
        } in
      updated-IsValid ep a ch (record ch { revents = m }) (some (ch.events, a)) p
        (reported a ch m p) v here refl u (inl mine) (λ e. refl)
        (λ e. absurd (ground (arith, i, e))) (λ e. absurd (ground (arith, i, e)))

  -- What the loop over the events keeps.
  pub record Filled (p p' : EPoller ep) : Type 0 where
    pub valid : IsValid ep p'
    pub kernel : p'.kernel ≡ p.kernel
    pub channels : (d : ℕ) → p'.channels d ≡ p.channels d
    pub size : p'.events_size ≡ p.events_size

  fill_step :
      (m : Mask) (a : ℕ) (es : List (Mask × ℕ)) (ch : Channel) (p p' : EPoller ep)
      → p.heap a ≡ some ch
      → p.channels ch.fd ≡ some a
      → fill_each ep es (reported a ch m p) ≡ ok (map (λ e. e.1) es, p')
      → fill_each ep ((m, a) ∷ es) p ≡ ok (a ∷ map (λ e. e.1) es, p')
  unfolding fill_each reported
  fill_step m a es ch p p' g f e = ground (arith, g, f, e)

  fill_each-Filled :
      (es : List (Mask × ℕ)) (p : EPoller ep)
      → IsValid ep p
      → Reported p.kernel es
      → (p' : EPoller ep) × (fill_each ep es p ≡ ok (map (λ e. e.1) es, p')) × Filled p p'
  unfolding fill_each reported
  fill_each-Filled [] p v r =
      (p, refl, record { valid = v; kernel = refl; channels = λ d. refl; size = refl })
  fill_each-Filled ((m, a) ∷ es) p v ((fd, events, e), r) =
      let (ch, g, i, added, f) = held_channel p fd a events v e in
      let (p', h, k) =
        fill_each-Filled es (reported a ch m p) (reported-IsValid a ch m p v g added) r in
      (
        p',
        fill_step m a es ch p p' g (ap p.channels i ∙ f) h,
        record { valid = k.valid; kernel = k.kernel; channels = k.channels; size = k.size },
      )

  -- `poll` on a valid poller, when the kernel reports events of pointers that it holds, no more than
  -- the list has room for: no assert fails, the active channels are those reported, in order, and
  -- the poller stays valid with the same channels and registrations; the list is doubled exactly
  -- when it was full.
  pub poll_lem :
      (m : Mask) (a : ℕ) (es : List (Mask × ℕ)) (p : EPoller ep)
      → IsValid ep p
      → Reported p.kernel ((m, a) ∷ es)
      → length ((m, a) ∷ es) ≤ p.events_size
      → (p' : EPoller ep) × (poll ep ((m, a) ∷ es) p ≡ ok (map (λ e. e.1) ((m, a) ∷ es), p'))
        × IsValid ep p'
        × (p'.kernel ≡ p.kernel)
        × ((d : ℕ) → p'.channels d ≡ p.channels d)
        × (p'.events_size
            ≡ (if length ((m, a) ∷ es) == p.events_size then p.events_size * 2 else p.events_size))
  unfolding poll fill_active_channels
  poll_lem m a es p v r h =
      let (p₁, e, k) = fill_each-Filled ((m, a) ∷ es) p v r in
      let n : ℕ =
        if length ((m, a) ∷ es) == p₁.events_size then p₁.events_size * 2 else p₁.events_size in
      (
        record p₁ { events_size = n },
        ground (arith, h, e),
        record {
          known = k.valid.known;
          held = k.valid.held;
          added = k.valid.added;
          deleted = k.valid.deleted;
          absent = k.valid.absent;
        },
        k.kernel,
        k.channels,
        ap (λ s. if length ((m, a) ∷ es) == s then s * 2 else s) k.size,
      )
