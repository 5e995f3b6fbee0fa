-- ===== src/EPoller.antt =====
-- EPoller.h and EPoller.cc: the channels of a loop, by descriptor, and their registration with the
-- kernel. A channel is named by its address, a number; `assertInLoopThread` passes.
pub mod Valid
pub mod Changes
pub mod Registration
pub mod Polling
mod Tests
use netfish.Prelude.{
  ℕ, ◌*◌, ◌≡◌, Bool, true, false, List, [], ◌∷◌, ◌++◌, Option, none, some, leb, ◌==◌, if◌then◌else◌,
  length, Outcome, ok, err, out_of_bounds, assert, ◌>>=◌, ◌>>◌,
}
use netfish.Channel.{Channel, Mask, Index, is_new, is_added, is_deleted, is_none_event}

-- An `epoll` instance: what it holds for a descriptor, the events and the pointer of
-- `epoll_event`, and `epoll_ctl`. The laws are those of its manual for the calls that succeed.
pub record Epoll : Type 1 where
  pub Instance : Type 0
  pub interest : Instance → ℕ → Option (Mask × ℕ)
  pub ctl_add : ℕ → Mask × ℕ → Instance → Instance
  pub ctl_mod : ℕ → Mask × ℕ → Instance → Instance
  pub ctl_del : ℕ → Instance → Instance
  pub interest-ctl_add :
      (fd : ℕ) (e : Mask × ℕ) (s : Instance) (d : ℕ)
      → interest s fd ≡ none
      → interest (ctl_add fd e s) d ≡ (if d == fd then some e else interest s d)
  pub interest-ctl_mod :
      (fd : ℕ) (e e' : Mask × ℕ) (s : Instance) (d : ℕ)
      → interest s fd ≡ some e'
      → interest (ctl_mod fd e s) d ≡ (if d == fd then some e else interest s d)
  pub interest-ctl_del :
      (fd : ℕ) (e' : Mask × ℕ) (s : Instance) (d : ℕ)
      → interest s fd ≡ some e'
      → interest (ctl_del fd s) d ≡ (if d == fd then none else interest s d)

-- `kInitEventListSize`.
abbrev pub init_event_list_size : ℕ
init_event_list_size = 16

abbrev pub put : ℕ → Option ℕ → (ℕ → Option ℕ) → ℕ → Option ℕ
put fd a channels d = if d == fd then a else channels d

abbrev pub put_channel : ℕ → Channel → (ℕ → Option Channel) → ℕ → Option Channel
put_channel a ch heap b = if b == a then some ch else heap b

abbrev pub found : Option ℕ → Bool
found none = false
found (some a) = true

abbrev pub finds : ℕ → Option ℕ → Bool
finds a none = false
finds a (some b) = b == a

abbrev pub not_found : Option ℕ → Bool
not_found none = true
not_found (some a) = false

module _ (ep : Epoll) where
  pub record EPoller : Type 0 where
    pub kernel : ep.Instance
    pub heap : ℕ → Option Channel
    pub channels : ℕ → Option ℕ
    pub events_size : ℕ

  abbrev pub deref : ℕ → EPoller → Outcome Channel
  deref a p = elim (p.heap a) [ none ↦ err out_of_bounds | some ch ↦ ok ch ]

  -- `set_index`.
  abbrev pub set_index : ℕ → Channel → Index → EPoller → EPoller
  set_index a ch index p = record p { heap = put_channel a (record ch { index = index }) p.heap }

  -- The two ways to a registration: a new channel, and one that was taken out of the kernel.
  unfoldable pub add_new : ℕ → Channel → EPoller → Outcome EPoller
  add_new a ch p = do
    assert (not_found (p.channels ch.fd))
    ok (
        set_index a ch is_added (record p {
          channels = put ch.fd (some a) p.channels;
          kernel = ep.ctl_add ch.fd (ch.events, a) p.kernel;
        }))

  unfoldable pub add_deleted : ℕ → Channel → EPoller → Outcome EPoller
  add_deleted a ch p = do
    assert (found (p.channels ch.fd))
    assert (finds a (p.channels ch.fd))
    ok (set_index a ch is_added (record p { kernel = ep.ctl_add ch.fd (ch.events, a) p.kernel }))

  unfoldable pub modify : ℕ → Channel → EPoller → Outcome EPoller
  modify a ch p = do
    assert (found (p.channels ch.fd))
    assert (finds a (p.channels ch.fd))
    ok (
        if is_none_event ch
        then set_index a ch is_deleted (record p { kernel = ep.ctl_del ch.fd p.kernel })
        else record p { kernel = ep.ctl_mod ch.fd (ch.events, a) p.kernel })

  unfoldable pub update_by : Index → ℕ → Channel → EPoller → Outcome EPoller
  update_by is_new a ch p = add_new a ch p
  update_by is_deleted a ch p = add_deleted a ch p
  update_by is_added a ch p = modify a ch p

  unfoldable pub update_channel : ℕ → EPoller → Outcome EPoller
  update_channel a p = do ch ← deref a p; update_by ch.index a ch p

  -- A change of a channel's events, as the channel makes it: the events, and then `update`.
  unfoldable pub change : (Channel → Channel) → ℕ → EPoller → Outcome EPoller
  change f a p = do
    ch ← deref a p
    update_channel a (record p { heap = put_channel a (f ch) p.heap })

  abbrev is_registered : Index → Bool
  is_registered is_new = false
  is_registered _ = true

  unfoldable pub unregister : Index → ℕ → ep.Instance → ep.Instance
  unregister is_added fd s = ep.ctl_del fd s
  unregister _ fd s = s

  unfoldable pub remove_channel : ℕ → EPoller → Outcome EPoller
  remove_channel a p = do
    ch ← deref a p
    assert (found (p.channels ch.fd))
    assert (finds a (p.channels ch.fd))
    assert (is_none_event ch)
    assert (is_registered ch.index)
    ok (
        set_index a ch is_new (record p {
          channels = put ch.fd none p.channels;
          kernel = unregister ch.index ch.fd p.kernel;
        }))

  -- The loop over the events that `epoll_wait` reports, with their pointers.
  unfoldable pub fill_each : List (Mask × ℕ) → EPoller → Outcome (List ℕ × EPoller)
  fill_each [] p = ok ([], p)
  fill_each ((events, a) ∷ es) p = do
    ch ← deref a p
    assert (found (p.channels ch.fd))
    assert (finds a (p.channels ch.fd))
    r ← fill_each es (record p { heap = put_channel a (record ch { revents = events }) p.heap })
    ok (a ∷ r.0, r.1)

  unfoldable pub fill_active_channels : List (Mask × ℕ) → EPoller → Outcome (List ℕ × EPoller)
  fill_active_channels es p = do assert (leb (length es) p.events_size); fill_each es p

  -- `poll`, with the events reported; none on a timeout or an error.
  unfoldable pub poll : List (Mask × ℕ) → EPoller → Outcome (List ℕ × EPoller)
  poll [] p = ok ([], p)
  poll (e ∷ es) p = do
    r ← fill_active_channels (e ∷ es) p
    let size = r.1.events_size
    ok (r.0, record r.1 { events_size = if length (e ∷ es) == size then size * 2 else size })
