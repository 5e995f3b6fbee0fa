-- ===== src/Programs/PingPong.antt =====
-- pingPongServer.cc, and the sessions of pingPongClient.cc: both send back what they receive. The
-- handlers run in the thread of the connection's loop. A counter of type `int64_t` is a number; its
-- overflow is not modelled.
use netfish.Prelude.{ℕ, ◌+◌, true, List, [], ◌∷◌, Outcome, ok, ◌>>=◌}
use netfish.Buffer.{Buffer, received, readable_bytes, retrieve_as_string}
use netfish.TcpConnection.{TcpConnection, Write, send, handle_read, handle_write}

-- `onMessage` of the server, with the answer of `write`.
unfoldable pub on_message : Write → TcpConnection → Outcome TcpConnection
on_message w c = do
  r ← retrieve_as_string c.input_buffer
  send true w r.0 (record c { input_buffer = r.1 })

pub record Session : Type 0 where
  pub bytes_read : ℕ
  pub bytes_written : ℕ
  pub messages_read : ℕ

unfoldable pub new_session : Session
new_session = record { bytes_read = 0; bytes_written = 0; messages_read = 0 }

-- What `Session::onMessage` counts; the rest of it is `onMessage` of the server.
unfoldable pub count_message : Buffer → Session → Session
count_message b s = record {
  bytes_read = s.bytes_read + readable_bytes b;
  bytes_written = s.bytes_written + readable_bytes b;
  messages_read = s.messages_read + 1;
}

unfoldable pub session_on_message :
    Write → Session × TcpConnection → Outcome (Session × TcpConnection)
session_on_message w (s, c) = do
  let s' = count_message c.input_buffer s
  c' ← on_message w c
  ok (s', c')

-- What comes to a connection that is up: bytes, at least one, with the answer of the `write` that
-- follows, or room to write.
pub data Event : Type 0 where
  arrives : ℕ → List ℕ → Write → Event
  writable : Write → Event

-- `handleRead` of the connection, which calls the message callback when bytes have come.
unfoldable pub handle_event : Event → Session × TcpConnection → Outcome (Session × TcpConnection)
handle_event (arrives x xs w) (s, c) = do
  c' ← handle_read (received (x ∷ xs)) c
  session_on_message w (s, c')
handle_event (writable w) (s, c) = do c' ← handle_write w c; ok (s, c')

unfoldable pub handle_events :
    List Event → Session × TcpConnection → Outcome (Session × TcpConnection)
handle_events [] p = ok p
handle_events (e ∷ es) p = do p' ← handle_event e p; handle_events es p'
