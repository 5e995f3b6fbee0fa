-- ===== src/Programs/Client.antt =====
-- pingPongClient.cc: the client with its sessions. Handlers of different sessions may run in
-- different threads; what they share is the atomic counter. `all_up` and `all_down` count the reports
-- of `onConnect` and `onDisconnect`, the second with the functor `quit` that it queues.
use netfish.Prelude.{
  ℕ, zero, suc, ◌+◌, ◌%◌, Bool, true, List, [], ◌∷◌, if◌then◌else◌, ◌==◌, Outcome, ok, ◌>>=◌,
}
use netfish.Prelude.Int.{pos}
use netfish.Prelude.Decimal.{zero_padded, snprintf}
use netfish.Atomic.{AtomicInteger, increment_and_get, decrement_and_get}
use netfish.ThreadPool.{ThreadPool, get_next_loop}
use netfish.TcpConnection.{TcpConnection, Write, send, is_connected}
use netfish.Programs.PingPong.{Session}

pub record Client : Type 0 where
  pub session_count : ℕ
  pub num_connected : AtomicInteger
  pub message : List ℕ
  pub all_up : ℕ
  pub all_down : ℕ
  pub total_bytes_read : ℕ
  pub total_messages_read : ℕ

-- The block that the constructor makes: `left` bytes, from index `i` on.
unfoldable pub block : ℕ → ℕ → List ℕ
block zero i = []
block (suc left) i = (i % 128) ∷ block left (i + 1)

unfoldable pub new_client : ℕ → ℕ → Client
new_client block_size session_count = record {
  session_count = session_count;
  num_connected = 0;
  message = block block_size 0;
  all_up = 0;
  all_down = 0;
  total_bytes_read = 0;
  total_messages_read = 0;
}

-- The name of the `i`-th session.
unfoldable pub session_name : ℕ → List ℕ
session_name i = snprintf 32 (b'C' ∷ zero_padded 5 (pos i))

-- The sessions that the constructor makes: the name of each, and the loop that it is given.
unfoldable pub create_sessions :
    ℕ → ℕ → Bool → ThreadPool → Outcome (List (List ℕ × ℕ) × ThreadPool)
create_sessions zero i here p = ok ([], p)
create_sessions (suc left) i here p = do
  r ← get_next_loop here p
  rest ← create_sessions left (i + 1) here r.1
  ok ((session_name i, r.0) ∷ rest.0, rest.1)

unfoldable pub on_connect : Client → Client
on_connect c =
    let r = increment_and_get 32 c.num_connected in
    record c {
      num_connected = r.1;
      all_up = if r.0 == c.session_count then c.all_up + 1 else c.all_up;
    }

-- The sums over the sessions.
unfoldable pub sum_bytes : List Session → ℕ
sum_bytes [] = 0
sum_bytes (s ∷ ss) = s.bytes_read + sum_bytes ss

unfoldable pub sum_messages : List Session → ℕ
sum_messages [] = 0
sum_messages (s ∷ ss) = s.messages_read + sum_messages ss

unfoldable pub on_disconnect : List Session → Client → Client
on_disconnect ss c =
    let r = decrement_and_get 32 c.num_connected in
    record c {
      num_connected = r.1;
      all_down = if r.0 == 0 then c.all_down + 1 else c.all_down;
      total_bytes_read = if r.0 == 0 then sum_bytes ss else c.total_bytes_read;
      total_messages_read = if r.0 == 0 then sum_messages ss else c.total_messages_read;
    }

-- `Session::onConnection`, in the thread of the connection's loop; TCP_NODELAY is an option of the
-- socket that nothing here reads.
unfoldable pub session_on_connection :
    Write → List Session → Client × TcpConnection → Outcome (Client × TcpConnection)
session_on_connection w ss (c, conn) =
    if is_connected conn.state
    then (send true w c.message conn >>= λ conn'. ok (on_connect c, conn'))
    else ok (on_disconnect ss c, conn)
