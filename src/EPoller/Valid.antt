-- ===== src/EPoller/Valid.antt =====
-- When the map of channels and the kernel's registrations agree with the channels themselves.
use netfish.Prelude.{
  ℕ, ◌≡◌, ◌⊎◌, inl, inr, true, Option, none, some, ◌==◌, if◌then◌else◌, arith, Bool-cases,
}
use netfish.Channel.{Channel, Mask, is_new, is_added, is_deleted}
use netfish.EPoller.{Epoll, EPoller, put, put_channel, is_registered}

module _ (ep : Epoll) where
  pub record IsValid (p : EPoller ep) : Type 0 where
    pub known :
        (fd a : ℕ)
        → p.channels fd ≡ some a
        → (ch : Channel) × (p.heap a ≡ some ch) × (ch.fd ≡ fd) × (is_registered ep ch.index ≡ true)
    pub held :
        (a : ℕ) (ch : Channel)
        → p.heap a ≡ some ch
        → is_registered ep ch.index ≡ true
        → p.channels ch.fd ≡ some a
    pub added :
        (a : ℕ) (ch : Channel)
        → p.heap a ≡ some ch
        → ch.index ≡ is_added
        → ep.interest p.kernel ch.fd ≡ some (ch.events, a)
    pub deleted :
        (a : ℕ) (ch : Channel)
        → p.heap a ≡ some ch
        → ch.index ≡ is_deleted
        → ep.interest p.kernel ch.fd ≡ none
    pub absent : (fd : ℕ) → p.channels fd ≡ none → ep.interest p.kernel fd ≡ none

  -- The poller in which channel `a` is `ch`, and the kernel has `e` for its descriptor.
  pub record IsUpdate (a fd : ℕ) (ch : Channel) (e : Option (Mask × ℕ)) (p p' : EPoller ep)
      : Type 0 where
    pub heap : (b : ℕ) → p'.heap b ≡ put_channel a ch p.heap b
    pub channels :
        (d : ℕ)
        → p'.channels d ≡ put fd (if is_registered ep ch.index then some a else none) p.channels d
    pub kernel : (d : ℕ) → ep.interest p'.kernel d ≡ (if d == fd then e else ep.interest p.kernel d)

  -- An update of a channel keeps the poller valid if the kernel's entry is right for the channel, and
  -- the descriptor is the channel's or nobody's.
  module _ (a : ℕ) (old ch : Channel) (e : Option (Mask × ℕ)) (p p' : EPoller ep) (v : IsValid p)
      (here : p.heap a ≡ some old) (same : ch.fd ≡ old.fd) (u : IsUpdate a ch.fd ch e p p')
      (mine : (p.channels ch.fd ≡ some a) ⊎ (p.channels ch.fd ≡ none))
      (right_added : ch.index ≡ is_added → e ≡ some (ch.events, a))
      (right_deleted : ch.index ≡ is_deleted → e ≡ none)
      (right_new : ch.index ≡ is_new → e ≡ none) where
    updated-held :
        (b : ℕ) (x : Channel)
        → p'.heap b ≡ some x
        → is_registered ep x.index ≡ true
        → p'.channels x.fd ≡ some b
    updated-held b x f r = ground (arith, f, r, u.heap b, u.channels x.fd, v.held b x, mine)

    updated-added :
        (b : ℕ) (x : Channel)
        → p'.heap b ≡ some x
        → x.index ≡ is_added
        → ep.interest p'.kernel x.fd ≡ some (x.events, b)
    updated-added b x f r =
        ground (arith, f, r, u.heap b, u.kernel x.fd, v.added b x, v.held b x, mine, right_added)

    updated-deleted :
        (b : ℕ) (x : Channel)
        → p'.heap b ≡ some x
        → x.index ≡ is_deleted
        → ep.interest p'.kernel x.fd ≡ none
    updated-deleted b x f r =
        ground
          (arith, f, r, u.heap b, u.kernel x.fd, v.deleted b x, v.held b x, mine, right_deleted)

    updated-absent : (d : ℕ) → p'.channels d ≡ none → ep.interest p'.kernel d ≡ none
    updated-absent d f = ground (arith, f, u.channels d, u.kernel d, v.absent d, right_new)

    fd_known :
        (d b : ℕ) (x : Channel)
        → p.channels d ≡ some b
        → p.heap b ≡ some x
        → (x.fd ≡ d) × (is_registered ep x.index ≡ true)
    fd_known d b x f g = let (y, h, i, r) = v.known d b f in ground (arith, g, h, i, r)

    updated-known :
        (d b : ℕ)
        → p'.channels d ≡ some b
        → (x : Channel) × (p'.heap b ≡ some x) × (x.fd ≡ d) × (is_registered ep x.index ≡ true)
    updated-known d b f = elim (Bool-cases (b == a)) [
      | inl it ↦ (
        ch,
        ground (arith, it, u.heap b),
        ground (arith, it, f, u.channels d, fd_known d b old, here, same),
        ground (arith, it, f, u.channels d, fd_known d b old, here, same),
      )
      | inr other ↦
          let (x, g, i, r) = v.known d b (ground (arith, f, other, u.channels d)) in
          (x, ground (arith, other, u.heap b, g), i, r)
    ]

    pub updated-IsValid : IsValid p'
    updated-IsValid = record {
      known = updated-known;
      held = updated-held;
      added = updated-added;
      deleted = updated-deleted;
      absent = updated-absent;
    }
