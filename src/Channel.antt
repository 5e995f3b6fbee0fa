-- ===== src/Channel.antt =====
-- Channel.h and Channel.cc: the events that a descriptor waits for, and the callbacks that those
-- that came set off. A mask of `poll` bits has a field for each bit.
pub mod Dispatch
use netfish.Prelude.{
  ℕ, Bool, true, false, not, ◌&&◌, ◌||◌, List, [], ◌∷◌, ◌++◌, Outcome, ok, assert, ◌>>◌,
}

pub record Mask : Type 0 where
  pub pollin : Bool
  pub pollpri : Bool
  pub pollout : Bool
  pub pollerr : Bool
  pub pollhup : Bool
  pub pollnval : Bool
  pub pollrdhup : Bool

-- `kNoneEvent`.
abbrev pub none_event : Mask
none_event = record {
  pollin = false;
  pollpri = false;
  pollout = false;
  pollerr = false;
  pollhup = false;
  pollnval = false;
  pollrdhup = false;
}

-- `index_`, with the values that EPoller gives it: `kNew`, `kAdded`, `kDeleted`.
pub data Index : Type 0 where
  is_new is_added is_deleted : Index

-- The callbacks, and which of them are set.
pub data Callback : Type 0 where
  on_close on_error on_read on_write : Callback

pub record Handlers : Type 0 where
  pub close_callback : Bool
  pub error_callback : Bool
  pub read_callback : Bool
  pub write_callback : Bool

pub record Channel : Type 0 where
  pub fd : ℕ
  pub events : Mask
  pub revents : Mask
  pub index : Index
  pub handlers : Handlers
  pub event_handling : Bool

unfoldable pub new : ℕ → Channel
new fd = record {
  fd = fd;
  events = none_event;
  revents = none_event;
  index = is_new;
  handlers = record {
    close_callback = false;
    error_callback = false;
    read_callback = false;
    write_callback = false;
  };
  event_handling = false;
}

-- `~Channel`.
unfoldable pub destroy : Channel → Outcome (Unit {0})
destroy ch = do assert (not ch.event_handling); ok tt

-- `isNoneEvent`.
unfoldable pub is_none_event : Channel → Bool
is_none_event ch =
    let e = ch.events in
    not (e.pollin || e.pollpri || e.pollout || e.pollerr || e.pollhup || e.pollnval || e.pollrdhup)

unfoldable pub is_writing : Channel → Bool
is_writing ch = ch.events.pollout

-- The changes of `events_`; `EPoller.update_channel` follows each.
unfoldable pub enable_reading : Channel → Channel
enable_reading ch = record ch { events = record ch.events { pollin = true; pollpri = true } }

unfoldable pub enable_writing : Channel → Channel
enable_writing ch = record ch { events = record ch.events { pollout = true } }

unfoldable pub disable_reading : Channel → Channel
disable_reading ch = record ch { events = record ch.events { pollin = false; pollpri = false } }

unfoldable pub disable_writing : Channel → Channel
disable_writing ch = record ch { events = record ch.events { pollout = false } }

unfoldable pub disable_all : Channel → Channel
disable_all ch = record ch { events = none_event }

abbrev pub when_set : Bool → Callback → List Callback
when_set true c = c ∷ []
when_set false c = []

-- `handleEvent` before the first callback and after the last.
unfoldable pub begin_handling : Channel → Channel
begin_handling ch = record ch { event_handling = true }

unfoldable pub end_handling : Channel → Channel
end_handling ch = record ch { event_handling = false }

-- The callbacks that `handleEvent` calls, in order.
unfoldable pub handle_event : Channel → List Callback
handle_event ch =
    let r = ch.revents in
    let h = ch.handlers in
    when_set (r.pollhup && not r.pollin && h.close_callback) on_close
    ++ (when_set ((r.pollerr || r.pollnval) && h.error_callback) on_error
        ++ (when_set ((r.pollin || r.pollpri || r.pollrdhup) && h.read_callback) on_read
            ++ when_set (r.pollout && h.write_callback) on_write))
