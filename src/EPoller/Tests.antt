-- ===== src/EPoller/Tests.antt =====
-- An epoll instance as a table, a poller with a registered and a new channel, and the theorems.
use netfish.Prelude.{
  ℕ, ◌≡◌, refl, true, false, [], ◌∷◌, Option, none, some, ◌==◌, if◌then◌else◌, ok, arith,
}
use netfish.Channel.{Channel, Mask, none_event, is_new, is_added, is_none_event, disable_all}
use netfish.EPoller.{Epoll, EPoller, change, remove_channel, poll, init_event_list_size}
use netfish.EPoller.Valid.{IsValid}
use netfish.EPoller.Changes.{Settled}
use netfish.EPoller.Registration.{change_lem, remove_lem}
use netfish.EPoller.Polling.{poll_lem}

abbrev Table : Type 0
Table = ℕ → Option (Mask × ℕ)

abbrev table : Epoll
table = record {
  Instance = Table;
  interest = λ s. s;
  ctl_add = λ fd e s d. if d == fd then some e else s d;
  ctl_mod = λ fd e s d. if d == fd then some e else s d;
  ctl_del = λ fd s d. if d == fd then none else s d;
  interest-ctl_add = λ fd e s d h. refl;
  interest-ctl_mod = λ fd e e' s d h. refl;
  interest-ctl_del = λ fd e' s d h. refl;
}

abbrev reading : Mask
reading = record none_event { pollin = true; pollpri = true }

abbrev plain : ℕ → Mask → Channel
plain fd m = record {
  fd = fd;
  events = m;
  revents = none_event;
  index = is_added;
  event_handling = false;
  handlers = record {
    close_callback = false;
    error_callback = false;
    read_callback = true;
    write_callback = false;
  };
}

-- Descriptor 4 has the channel at address 7.
abbrev with_mask : Mask → EPoller table
with_mask m = record {
  kernel = λ d. if d == 4 then some (m, 7) else none;
  heap = λ b. if b == 7 then some (plain 4 m) else none;
  channels = λ d. if d == 4 then some 7 else none;
  events_size = init_event_list_size;
}

with_mask-IsValid : (m : Mask) → IsValid table (with_mask m)
with_mask-IsValid m = record {
  known = λ fd a e. (plain 4 m, ground (arith, e), ground (arith, e), refl);
  held = λ a ch e r. ground (arith, e, r);
  added = λ a ch e i. ground (arith, e, i);
  deleted = λ a ch e i. ground (arith, e, i);
  absent = λ fd e. ground (arith, e);
}

same_fd : (disable_all (plain 4 reading)).fd ≡ 4
unfolding disable_all
same_fd = refl

same_index : (disable_all (plain 4 reading)).index ≡ is_added
unfolding disable_all
same_index = refl

change_example :
    (p' : EPoller table) × (change table disable_all 7 (with_mask reading) ≡ ok p')
    × Settled table 7
        (plain 4 reading)
        (disable_all (plain 4 reading))
        (with_mask reading)
        (with_mask-IsValid reading)
        refl
        same_fd
        p'
change_example =
    change_lem table disable_all 7 (plain 4 reading) (with_mask reading) (with_mask-IsValid reading)
      refl same_fd same_index (λ e. absurd (cc))

remove_example :
    (p' : EPoller table) × (remove_channel table 7 (with_mask none_event) ≡ ok p')
    × IsValid table p'
    × (p'.heap 7 ≡ some (record (plain 4 none_event) { index = is_new }))
    × (p'.channels 4 ≡ none)
    × (p'.kernel 4 ≡ none)
unfolding is_none_event
remove_example =
    remove_lem table 7 (plain 4 none_event) (with_mask none_event) (with_mask-IsValid none_event)
      refl refl refl

poll_example :
    (p' : EPoller table) × (poll table ((reading, 7) ∷ []) (with_mask reading) ≡ ok (7 ∷ [], p'))
    × IsValid table p'
    × (p'.kernel ≡ (with_mask reading).kernel)
    × ((d : ℕ) → p'.channels d ≡ (with_mask reading).channels d)
    × (p'.events_size ≡ 16)
poll_example =
    poll_lem table reading 7 [] (with_mask reading) (with_mask-IsValid reading)
      ((4, reading, refl), tt) (omega arith)
