-- ===== src/TcpServer/Lifecycle.antt =====
-- TcpServer.cc and TcpConnection.cc: a server with its connections, as steps of the server's loop and
-- of the loops of the connections in any order. The functors that wait are `server.tasks`, in the
-- loops of connections, and `closing`, the removals in the server's loop. A loop may take any that
-- waits, which allows more than the queues do.
use netfish.Prelude.{
  ℕ, ◌≡◌, Bool, ◌||◌, true, List, [], ◌∷◌, ◌++◌, Option, none, some, ◌==◌, if◌then◌else◌, Outcome,
  ok,
}
use netfish.Buffer.{received}
use netfish.TcpConnection.{
  TcpConnection, Write, new as new_conn, connect_established, connect_destroyed, handle_close,
  handle_write, after_read, send_in_loop, shutdown,
}
use netfish.TcpServer.{
  TcpServer, Connection, Task, establish, destroy, new_connection, remove_connection_in_loop,
}

pub record System : Type 0 where
  pub server : TcpServer
  pub conns : ℕ → Option TcpConnection
  pub closing : List Connection

abbrev pub set_conn : ℕ → TcpConnection → (ℕ → Option TcpConnection) → ℕ → Option TcpConnection
set_conn k c conns n = if n == k then some c else conns n

-- Whether the poller watches the connection's channel, so that events of it may come.
abbrev pub is_watched : TcpConnection → Bool
is_watched c = c.channel.events.pollin || c.channel.events.pollout

-- What else happens to a connection in its loop: `handleWrite`, `sendInLoop`, `shutdown` and
-- `handleRead` with bytes. Only the last needs the channel to wait for input: the second and the third
-- are functors that may come at any time, and `handleWrite` may follow `handleClose` in one dispatch.
pub data Work : Type 0 where
  writes : Write → Work
  sends : Write → List ℕ → Work
  shuts : Bool → Work
  reads : ℕ → List ℕ → Work

unfoldable pub do_work : Work → TcpConnection → Outcome TcpConnection
do_work (writes w) c = handle_write w c
do_work (sends w msg) c = send_in_loop w msg c
do_work (shuts here) c = ok (shutdown here c)
do_work (reads x xs) c = after_read (received (x ∷ xs)) c

abbrev pub MayCome : Work → TcpConnection → Type 0
MayCome (reads x xs) c = c.channel.events.pollin ≡ true
MayCome _ c = Unit

pub data Step : System → System → Type 0 where
  accepts :
      (s : System) (sockfd : ℕ) (server : TcpServer) (c : TcpConnection)
      → new_connection true sockfd s.server ≡ ok server
      → new_conn sockfd ≡ ok c
      → Step s (record s { server = server; conns = set_conn s.server.next_conn_id c s.conns })
  establishes :
      (s : System) (before after : List Task) (conn : Connection) (c c' : TcpConnection)
      → s.server.tasks ≡ before ++ (establish conn ∷ after)
      → s.conns conn.conn_id ≡ some c
      → connect_established c ≡ ok c'
      → Step s (record s {
        server = record s.server { tasks = before ++ after };
        conns = set_conn conn.conn_id c' s.conns;
      })
  works :
      (s : System) (k : ℕ) (w : Work) (c c' : TcpConnection)
      → s.conns k ≡ some c
      → MayCome w c
      → do_work w c ≡ ok c'
      → Step s (record s { conns = set_conn k c' s.conns })
  closes :
      (s : System) (conn : Connection) (c c' : TcpConnection)
      → s.conns conn.conn_id ≡ some c
      → is_watched c ≡ true
      → handle_close c ≡ ok c'
      → Step s (record s {
        conns = set_conn conn.conn_id c' s.conns;
        closing = s.closing ++ (conn ∷ []);
      })
  removes :
      (s : System) (before after : List Connection) (conn : Connection) (server : TcpServer)
      → s.closing ≡ before ++ (conn ∷ after)
      → remove_connection_in_loop true conn s.server ≡ ok server
      → Step s (record s { server = server; closing = before ++ after })
  destroys :
      (s : System) (before after : List Task) (conn : Connection) (c c' : TcpConnection)
      → s.server.tasks ≡ before ++ (destroy conn ∷ after)
      → s.conns conn.conn_id ≡ some c
      → connect_destroyed c ≡ ok c'
      → Step s (record s {
        server = record s.server { tasks = before ++ after };
        conns = set_conn conn.conn_id c' s.conns;
      })

-- A server that has just been started, on any pool of threads.
abbrev pub IsFresh : System → Type 0
IsFresh s =
    (s.server.connections ≡ [])
    × (s.server.tasks ≡ [])
    × (s.closing ≡ [])
    × ((n : ℕ) → s.conns n ≡ none)

pub data Reachable : System → Type 0 where
  begin : (s : System) → IsFresh s → Reachable s
  next : (s s' : System) → Reachable s → Step s s' → Reachable s'

-- No message is handed to `sendInLoop` of a connection that its poller does not watch: before its
-- establishment, or between its close and its destruction and after.
abbrev pub IsInTime : {s s' : System} → Step s s' → Type 0
IsInTime (works s k (sends w msg) c c' p m f) = is_watched c ≡ true
IsInTime _ = Unit

unfoldable pub HasNoLateSend : {s : System} → Reachable s → Type 0
HasNoLateSend (begin s f) = Unit
HasNoLateSend (next s s' r st) = HasNoLateSend r × IsInTime st
