-- ===== src/TcpServer.antt =====
-- TcpServer.h and TcpServer.cc: the connections of a server. A connection's name is the server's
-- name, `#` and a number: the number stands for it. `here` is whether the caller is the thread of
-- the server's loop.
pub mod Connections
pub mod Lifecycle
pub mod Totals
pub mod Stages
pub mod Running
pub mod Removing
pub mod Orderly
pub mod Ends
pub mod ClosedTwice
pub mod Names
mod Tests
use netfish.Prelude.{
  ℕ, ◌+◌, Bool, true, false, not, ◌&&◌, List, [], ◌∷◌, ◌++◌, ◌==◌, if◌then◌else◌, Outcome, ok,
  wrong_thread, int_overflow, int_max, ltb, guard, assert, ◌>>=◌, ◌>>◌,
}
use netfish.Prelude.Int.{ℤ, pos, ◌≤ℤ◌, ltb_ℤ}
use netfish.ThreadPool.{new as new_pool, ThreadPool, get_next_loop, start, set_thread_num}

-- A connection: its number, the loop that it lives in and its socket.
pub record Connection : Type 0 where
  pub conn_id : ℕ
  pub io_loop : ℕ
  pub sockfd : ℕ

-- What the server hands to the loops of connections.
pub data Task : Type 0 where
  establish destroy : Connection → Task

pub record TcpServer : Type 0 where
  pub thread_pool : ThreadPool
  pub started : Bool
  pub listening : Bool
  pub next_conn_id : ℕ
  pub connections : List Connection
  pub tasks : List Task

unfoldable pub new : ℕ → TcpServer
new base_loop = record {
  thread_pool = new_pool base_loop;
  started = false;
  listening = false;
  next_conn_id = 1;
  connections = [];
  tasks = [];
}

-- `connections_[connName] = conn`.
unfoldable pub assign : Connection → List Connection → List Connection
assign c [] = c ∷ []
assign c (d ∷ ds) = let rest = assign c ds in if d.conn_id == c.conn_id then c ∷ ds else d ∷ rest

-- The map without a name, and the number of elements erased.
unfoldable pub erase : ℕ → List Connection → List Connection × ℕ
erase id [] = ([], 0)
erase id (d ∷ ds) =
    let rest = erase id ds in if d.conn_id == id then (ds, 1) else (d ∷ rest.0, rest.1)

unfoldable pub set_server_threads : ℤ → TcpServer → Outcome TcpServer
set_server_threads n s = do
  assert (not (ltb_ℤ n (pos 0)))
  ok (record s { thread_pool = set_thread_num n s.thread_pool })

unfoldable pub start_pool : Bool → (ℕ → ℕ × ℕ) → TcpServer → Outcome TcpServer
start_pool here spawn s =
    if s.started
    then ok s
    else (start here spawn s.thread_pool >>= λ p. ok (record s { started = true; thread_pool = p }))

-- `start`, in the thread of the server's loop, where `listen` runs at once.
unfoldable pub start_server : Bool → (ℕ → ℕ × ℕ) → TcpServer → Outcome TcpServer
start_server here spawn s = do s' ← start_pool here spawn s; ok (record s' { listening = true })

unfoldable pub new_connection : Bool → ℕ → TcpServer → Outcome TcpServer
new_connection here sockfd s = do
  guard here wrong_thread
  guard (ltb s.next_conn_id int_max) int_overflow
  r ← get_next_loop here s.thread_pool
  let conn : Connection = record { conn_id = s.next_conn_id; io_loop = r.0; sockfd = sockfd }
  ok (record s {
    thread_pool = r.1;
    next_conn_id = s.next_conn_id + 1;
    connections = assign conn s.connections;
    tasks = s.tasks ++ (establish conn ∷ []);
  })

unfoldable pub remove_connection_in_loop : Bool → Connection → TcpServer → Outcome TcpServer
remove_connection_in_loop here conn s = do
  guard here wrong_thread
  let r = erase conn.conn_id s.connections
  assert (r.1 == 1)
  ok (record s { connections = r.0; tasks = s.tasks ++ (destroy conn ∷ []) })
