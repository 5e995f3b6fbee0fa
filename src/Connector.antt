-- ===== src/Connector.antt =====
-- Connector.h and Connector.cc: the client's side of a connection's start. The state has, with the
-- connector's own fields, what it does to its loop and to the kernel: the sockets that it has
-- opened and neither closed nor handed on, those handed on, its timers and its functors queued.
pub mod Valid
pub mod Rounds
pub mod Starting
pub mod Handling
pub mod Sound
pub mod Events
pub mod Running
pub mod Restarting
pub mod Safety
pub mod Attempts
pub mod Stopping
pub mod Destroying
mod Tests
use netfish.Prelude.{
  ℕ, ◌+◌, ◌*◌, ◌≡◌, min, Bool, true, false, not, List, [], ◌∷◌, ◌++◌, Option, none, some, ◌==◌,
  if◌then◌else◌, length, Outcome, ok, err, out_of_bounds, wrong_thread, guard, assert, ◌>>=◌, ◌>>◌,
}
use netfish.Channel.{Callback, on_close, on_error, on_read, on_write}

-- `States`.
pub data State : Type 0 where
  disconnected connecting connected : State

abbrev pub is_disconnected : State → Bool
is_disconnected disconnected = true
is_disconnected _ = false

abbrev pub is_connecting : State → Bool
is_connecting connecting = true
is_connecting _ = false

-- A connector's functors and the cancellation of its timer, in the queue of its loop.
pub data Functor : Type 0 where
  start_functor reset_functor : Functor
  cancel_functor : ℕ → Functor

abbrev pub init_retry_delay_ms : ℕ
init_retry_delay_ms = 500

abbrev pub max_retry_delay_ms : ℕ
max_retry_delay_ms = 30 * 1000

-- `channel_`: its descriptor, and whether it is registered and waits to write. `timers` are the
-- ids and delays, in milliseconds, of the timers that have not gone off.
pub record Connector : Type 0 where
  pub connect : Bool
  pub state : State
  pub channel : Option (ℕ × Bool)
  pub retry_delay_ms : ℕ
  pub timer_id : ℕ
  pub timers : List (ℕ × ℕ)
  pub timers_created : ℕ
  pub pending : List Functor
  pub sockets : List ℕ
  pub handed_on : List ℕ

unfoldable pub new : Connector
new = record {
  connect = false;
  state = disconnected;
  channel = none;
  retry_delay_ms = init_retry_delay_ms;
  timer_id = 0;
  timers = [];
  timers_created = 0;
  pending = [];
  sockets = [];
  handed_on = [];
}

-- The values of `errno` that the code tells apart.
pub data Errno : Type 0 where
  success einprogress eintr eisconn : Errno
  eagain eaddrinuse eaddrnotavail econnrefused enetunreach : Errno
  eacces eperm eafnosupport ealready ebadf efault enotsock unexpected : Errno

-- What `socket` and `connect` answer.
pub record Kernel : Type 0 where
  pub sockfd : ℕ
  pub saved_errno : Errno

unfoldable pub remove_socket : ℕ → List ℕ → List ℕ
remove_socket fd [] = []
remove_socket fd (x ∷ xs) = let rest = remove_socket fd xs in if x == fd then rest else x ∷ rest

-- `sockets::close`.
abbrev pub close : ℕ → Connector → Connector
close fd c = record c { sockets = remove_socket fd c.sockets }

unfoldable pub remove_timer : ℕ → List (ℕ × ℕ) → List (ℕ × ℕ)
remove_timer id [] = []
remove_timer id (t ∷ ts) = let rest = remove_timer id ts in if t.0 == id then rest else t ∷ rest

-- `loop_->cancel`, in the loop's thread.
abbrev pub cancel : ℕ → Connector → Connector
cancel id c = record c { timers = remove_timer id c.timers }

-- `loop_->runAfter`: a timer under a new id.
abbrev pub run_after : ℕ → Connector → Connector
run_after delay c = record c {
  timer_id = c.timers_created + 1;
  timers = (c.timers_created + 1, delay) ∷ c.timers;
  timers_created = c.timers_created + 1;
}

unfoldable pub retry : ℕ → Connector → Connector
retry sockfd c =
    let c₁ = record (close sockfd c) { state = disconnected } in
    if c.connect
    then record (run_after c.retry_delay_ms c₁) {
      retry_delay_ms = min (c.retry_delay_ms * 2) max_retry_delay_ms;
    }
    else c₁

abbrev pub is_none : Option (ℕ × Bool) → Bool
is_none none = true
is_none (some x) = false

unfoldable pub start_connecting : ℕ → Connector → Outcome Connector
start_connecting sockfd c = do
  assert (is_none c.channel)
  ok (record c { state = connecting; channel = some (sockfd, true) })

-- The `switch` of `Connector::connect`.
unfoldable pub connected_with : Errno → ℕ → Connector → Outcome Connector
connected_with success fd c = start_connecting fd c
connected_with einprogress fd c = start_connecting fd c
connected_with eintr fd c = start_connecting fd c
connected_with eisconn fd c = start_connecting fd c
connected_with eagain fd c = ok (retry fd c)
connected_with eaddrinuse fd c = ok (retry fd c)
connected_with eaddrnotavail fd c = ok (retry fd c)
connected_with econnrefused fd c = ok (retry fd c)
connected_with enetunreach fd c = ok (retry fd c)
connected_with eacces fd c = ok (close fd c)
connected_with eperm fd c = ok (close fd c)
connected_with eafnosupport fd c = ok (close fd c)
connected_with ealready fd c = ok (close fd c)
connected_with ebadf fd c = ok (close fd c)
connected_with efault fd c = ok (close fd c)
connected_with enotsock fd c = ok (close fd c)
connected_with unexpected fd c = ok (close fd c)

unfoldable pub try_connect : Kernel → Connector → Outcome Connector
try_connect k c =
    connected_with k.saved_errno k.sockfd (record c { sockets = k.sockfd ∷ c.sockets })

unfoldable pub start_in_loop : Kernel → Connector → Outcome Connector
start_in_loop k c = do assert (is_disconnected c.state); if c.connect then try_connect k c else ok c

-- `here` is whether the caller is the loop's thread.
unfoldable pub start : Bool → Kernel → Connector → Outcome Connector
start here k c =
    let c₁ = record c { connect = true } in
    if here
    then start_in_loop k c₁
    else ok (record c₁ { pending = c₁.pending ++ (start_functor ∷ []) })

unfoldable pub restart : Bool → Kernel → Connector → Outcome Connector
restart here k c = do
  guard here wrong_thread
  start_in_loop k
      (record c { state = disconnected; retry_delay_ms = init_retry_delay_ms; connect = true })

unfoldable pub stop : Bool → Connector → Connector
stop here c =
    let c₁ = record c { connect = false } in
    if here
    then cancel c₁.timer_id c₁
    else record c₁ { pending = c₁.pending ++ (cancel_functor c₁.timer_id ∷ []) }

-- The socket of the channel, which no longer waits for anything; the channel itself is deleted by
-- a functor, since one of its callbacks is running.
unfoldable pub remove_and_reset_channel : Connector → Outcome (ℕ × Connector)
remove_and_reset_channel c = elim c.channel [
  | none ↦ err out_of_bounds
  | some ch ↦
      ok (
        ch.0,
        record c { channel = some (ch.0, false); pending = c.pending ++ (reset_functor ∷ []) },
      )
]

unfoldable pub reset_channel : Connector → Connector
reset_channel c = record c { channel = none }

-- What `getSocketError` and `isSelfConnect` answer: whether there was an error, and the test.
pub record Answer : Type 0 where
  pub so_error : Bool
  pub self_connect : Bool

-- `setState(kConnected)` and what follows it, for a socket that has connected.
unfoldable pub hand_over : ℕ → Connector → Connector
hand_over fd c =
    let c₁ = record c { state = connected } in
    if c.connect
    then record c₁ { sockets = remove_socket fd c₁.sockets; handed_on = fd ∷ c₁.handed_on }
    else close fd c₁

unfoldable pub finish : Answer → ℕ → Connector → Connector
finish a fd c =
    if a.so_error then retry fd c else if a.self_connect then retry fd c else hand_over fd c

unfoldable pub handle_write : Answer → Connector → Outcome Connector
handle_write a c =
    if is_connecting c.state
    then (remove_and_reset_channel c >>= λ r. ok (finish a r.0 r.1))
    else ok c

unfoldable pub handle_error : Connector → Outcome Connector
handle_error c = do
  assert (is_connecting c.state)
  r ← remove_and_reset_channel c
  ok (retry r.0 r.1)

-- The callbacks that a connector's channel has; it sets no others.
unfoldable pub handle : Answer → Callback → Connector → Outcome Connector
handle a on_error c = handle_error c
handle a on_write c = handle_write a c
handle a on_read c = ok c
handle a on_close c = ok c

unfoldable pub handle_all : Answer → List Callback → Connector → Outcome Connector
handle_all a [] c = ok c
handle_all a (b ∷ bs) c = do c' ← handle a b c; handle_all a bs c'

unfoldable pub run_functor : Kernel → Functor → Connector → Outcome Connector
run_functor k start_functor c = start_in_loop k c
run_functor k reset_functor c = ok (reset_channel c)
run_functor k (cancel_functor id) c = ok (cancel id c)

-- `kernel n` is what the kernel answers to the functor that comes after `n` others.
unfoldable pub run_functors : (ℕ → Kernel) → List Functor → Connector → Outcome Connector
run_functors kernel [] c = ok c
run_functors kernel (f ∷ fs) c = do
  c' ← run_functor (kernel 0) f c
  run_functors (λ n. kernel (n + 1)) fs c'

-- `doPendingFunctors`, for the functors of the connector.
unfoldable pub do_pending : (ℕ → Kernel) → Connector → Outcome Connector
do_pending kernel c = run_functors kernel c.pending (record c { pending = [] })
