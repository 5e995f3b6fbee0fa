-- ===== src/EPoller/Changes.antt =====
-- The changes of a channel's events and its removal, on a valid poller.
use netfish.Prelude.{
  ℕ, ◌≡◌, ◌≢◌, ◌⊎◌, inl, inr, refl, sym, ap, ◌∙◌, Bool, true, false, Option, none, some, ok, arith,
  Bool-cases,
}
use netfish.Channel.{Channel, Mask, Index, is_new, is_added, is_deleted, is_none_event}
use netfish.EPoller.{
  Epoll, EPoller, put, put_channel, set_index, add_new, add_deleted, modify, is_registered,
  update_by,
}
use netfish.EPoller.Valid.{IsValid, IsUpdate, updated-IsValid}

-- What `epoll_ctl` is left with for a channel.
abbrev pub entry : ℕ → Channel → Index → Option (Mask × ℕ)
entry a ch is_added = some (ch.events, a)
entry a ch _ = none

-- The index of a channel after `updateChannel`.
abbrev pub next_index : Index → Bool → Index
next_index is_added true = is_deleted
next_index _ _ = is_added

abbrev pub next_channel : Channel → Channel
next_channel ch = record ch { index = next_index ch.index (is_none_event ch) }

module _ (ep : Epoll) (a : ℕ) (old ch : Channel) (p : EPoller ep) (v : IsValid ep p)
    (here : p.heap a ≡ some old) (same : ch.fd ≡ old.fd) where
  abbrev changed : EPoller ep
  changed = record p { heap = put_channel a ch p.heap }

  added_new : p.channels ch.fd ≡ none → EPoller ep
  added_new free = set_index ep a ch is_added (record changed {
    channels = put ch.fd (some a) p.channels;
    kernel = ep.ctl_add ch.fd (ch.events, a) p.kernel;
  })

  add_new_lem :
      (free : p.channels ch.fd ≡ none)
      → (add_new ep a ch changed ≡ ok (added_new free))
        × IsUpdate ep a ch.fd
            (record ch { index = is_added })
            (some (ch.events, a))
            p
            (added_new free)
  unfolding add_new added_new
  add_new_lem free = (
    ground (arith, free),
    record {
      heap = λ b. ground arith;
      channels = λ d. refl;
      kernel = λ d. ep.interest-ctl_add ch.fd (ch.events, a) p.kernel d (v.absent ch.fd free);
    },
  )

  added_again : EPoller ep
  added_again =
      set_index ep a ch is_added
        (record changed { kernel = ep.ctl_add ch.fd (ch.events, a) p.kernel })

  add_deleted_lem :
      p.channels ch.fd ≡ some a
      → ep.interest p.kernel ch.fd ≡ none
      → (add_deleted ep a ch changed ≡ ok added_again)
        × IsUpdate ep a ch.fd (record ch { index = is_added }) (some (ch.events, a)) p added_again
  unfolding add_deleted added_again
  add_deleted_lem mine out = (
    ground (arith, mine),
    record {
      heap = λ b. ground arith;
      channels = λ d. ground (arith, mine);
      kernel = λ d. ep.interest-ctl_add ch.fd (ch.events, a) p.kernel d out;
    },
  )

  taken_out : EPoller ep
  taken_out = set_index ep a ch is_deleted (record changed { kernel = ep.ctl_del ch.fd p.kernel })

  modify-none :
      (e : Mask × ℕ)
      → p.channels ch.fd ≡ some a
      → ep.interest p.kernel ch.fd ≡ some e
      → is_none_event ch ≡ true
      → (modify ep a ch changed ≡ ok taken_out)
        × IsUpdate ep a ch.fd (record ch { index = is_deleted }) none p taken_out
  unfolding modify taken_out
  modify-none e mine at none_left = (
    ground (arith, mine, none_left),
    record {
      heap = λ b. ground arith;
      channels = λ d. ground (arith, mine);
      kernel = λ d. ep.interest-ctl_del ch.fd e p.kernel d at;
    },
  )

  modified : EPoller ep
  modified = record changed { kernel = ep.ctl_mod ch.fd (ch.events, a) p.kernel }

  modify-some :
      (e : Mask × ℕ)
      → p.channels ch.fd ≡ some a
      → ep.interest p.kernel ch.fd ≡ some e
      → is_none_event ch ≡ false
      → ch.index ≡ is_added
      → (modify ep a ch changed ≡ ok modified)
        × IsUpdate ep a ch.fd (record ch { index = is_added }) (some (ch.events, a)) p modified
  unfolding modify modified
  modify-some e mine at some_left i = (
    ground (arith, mine, some_left),
    record {
      heap = λ b. ground (arith, i);
      channels = λ d. ground (arith, mine);
      kernel = λ d. ep.interest-ctl_mod ch.fd (ch.events, a) e p.kernel d at;
    },
  )

  -- Whatever the index, the poller ends with the channel's next index and its entry.
  Updated : Index → Type 0
  Updated i =
      let i' = next_index i (is_none_event ch) in
      (p' : EPoller ep) × (update_by ep i a ch changed ≡ ok p')
      × IsUpdate ep a ch.fd (record ch { index = i' }) (entry a ch i') p p'
      × ((p.channels ch.fd ≡ some a) ⊎ (p.channels ch.fd ≡ none))

  update_lem :
      (i : Index)
      → ch.index ≡ i
      → old.index ≡ i
      → (i ≡ is_new → p.channels ch.fd ≡ none)
      → Updated i
  unfolding Updated update_by
  update_lem is_new e e' free =
      let (f, u) = add_new_lem (free refl) in (added_new (free refl), f, u, inr (free refl))
  update_lem is_deleted e e' free =
      let mine : p.channels ch.fd ≡ some a = ground (arith, same, e', v.held a old here) in
      let (f, u) =
        add_deleted_lem mine (ap (ep.interest p.kernel) same ∙ v.deleted a old here e') in
      (added_again, f, u, inl mine)
  update_lem is_added e e' free =
      let mine : p.channels ch.fd ≡ some a = ground (arith, same, e', v.held a old here) in
      let at = ap (ep.interest p.kernel) same ∙ v.added a old here e' in
      elim (Bool-cases (is_none_event ch)) [
        | inl none_left ↦
            let (f, u) = modify-none (old.events, a) mine at none_left in
            rw none_left (taken_out, f, u, inl mine)
        | inr some_left ↦
            let (f, u) = modify-some (old.events, a) mine at some_left e in
            rw some_left (modified, f, u, inl mine)
      ]

  -- What `updateChannel` promises.
  pub record Settled (p' : EPoller ep) : Type 0 where
    pub valid : IsValid ep p'
    pub channel : p'.heap a ≡ some (next_channel ch)
    pub mine : p'.channels ch.fd ≡ some a
    pub entry : ep.interest p'.kernel ch.fd ≡ entry a ch (next_channel ch).index
    pub others : (d : ℕ) → d ≢ ch.fd → ep.interest p'.kernel d ≡ ep.interest p.kernel d

  entry_added : (i : Index) → i ≡ is_added → entry a ch i ≡ some (ch.events, a)
  entry_added is_new e = absurd (cc)
  entry_added is_deleted e = absurd (cc)
  entry_added is_added e = refl

  entry_deleted : (i : Index) → i ≡ is_deleted → entry a ch i ≡ none
  entry_deleted is_new e = refl
  entry_deleted is_deleted e = refl
  entry_deleted is_added e = absurd (cc)

  entry_new : (i : Index) → i ≡ is_new → entry a ch i ≡ none
  entry_new is_new e = refl
  entry_new is_deleted e = refl
  entry_new is_added e = absurd (cc)

  next-registered : (i : Index) (b : Bool) → is_registered ep (next_index i b) ≡ true
  next-registered is_new b = refl
  next-registered is_deleted b = refl
  next-registered is_added true = refl
  next-registered is_added false = refl

  pub update-Settled :
      ch.index ≡ old.index
      → (ch.index ≡ is_new → p.channels ch.fd ≡ none)
      → (p' : EPoller ep) × (update_by ep ch.index a ch changed ≡ ok p') × Settled p'
  unfolding Updated
  update-Settled e free =
      let (p', f, u, mine) = update_lem ch.index refl (sym e) free in
      let i' = next_index ch.index (is_none_event ch) in
      (
        p',
        f,
        record {
          valid =
              updated-IsValid ep a old (next_channel ch) (entry a ch i') p p' v here same u mine
                (entry_added i') (entry_deleted i') (entry_new i');
          channel = ground (arith, u.heap a);
          mine = ground (arith, u.channels ch.fd, next-registered ch.index (is_none_event ch));
          entry = ground (arith, u.kernel ch.fd);
          others = λ d n. ground (arith, n, u.kernel d);
        },
      )
