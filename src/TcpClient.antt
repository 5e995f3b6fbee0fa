-- ===== src/TcpClient.antt =====
-- TcpClient.h and TcpClient.cc: a client, with its connector and the connection that it has, by its
-- number. `here` is whether the caller is the loop's thread. The callback for new connections that
-- the connector calls is `new_connection`.
pub mod Reconnecting
mod Tests
use netfish.Prelude.{
  ℕ, ◌+◌, Bool, true, false, ◌&&◌, List, [], ◌∷◌, ◌++◌, Option, none, some, ◌==◌, if◌then◌else◌,
  Outcome, ok, wrong_thread, int_overflow, int_max, ltb, guard, assert, ◌>>=◌, ◌>>◌,
}
use netfish.Connector.Destroying.{destroy as destroy_connector}
use netfish.Connector.{
  Connector, Kernel, new as new_connector, start, restart, stop as stop_connector,
}

-- What the client does to its connections, the number and the socket of a new one with it. A
-- connection that is released has its loop destroy it when it closes, and no longer calls the client.
pub data Action : Type 0 where
  established : ℕ → ℕ → Action
  shut_down destroyed released : ℕ → Action

pub record TcpClient : Type 0 where
  pub connector : Connector
  pub retry : Bool
  pub connect : Bool
  pub next_conn_id : ℕ
  pub connection : Option ℕ
  pub actions : List Action

unfoldable pub new : TcpClient
new = record {
  connector = new_connector;
  retry = false;
  connect = true;
  next_conn_id = 1;
  connection = none;
  actions = [];
}

unfoldable pub enable_retry : TcpClient → TcpClient
enable_retry c = record c { retry = true }

unfoldable pub connect_client : Bool → Kernel → TcpClient → Outcome TcpClient
connect_client here k c = do
  connector ← start here k c.connector
  ok (record c { connect = true; connector = connector })

unfoldable pub disconnect : TcpClient → TcpClient
disconnect c = record c {
  connect = false;
  actions = elim c.connection [ none ↦ c.actions | some id ↦ c.actions ++ (shut_down id ∷ []) ];
}

unfoldable pub stop : Bool → TcpClient → TcpClient
stop here c = record c { connect = false; connector = stop_connector here c.connector }

unfoldable pub new_connection : Bool → ℕ → TcpClient → Outcome TcpClient
new_connection here sockfd c = do
  guard here wrong_thread
  guard (ltb c.next_conn_id int_max) int_overflow
  ok (record c {
    next_conn_id = c.next_conn_id + 1;
    connection = some c.next_conn_id;
    actions = c.actions ++ (established c.next_conn_id sockfd ∷ []);
  })

abbrev pub is_connection : ℕ → Option ℕ → Bool
is_connection id none = false
is_connection id (some x) = x == id

unfoldable pub restart_if : Bool → Bool → Kernel → TcpClient → Outcome TcpClient
restart_if wanted here k c =
    if wanted
    then (restart here k c.connector >>= λ connector. ok (record c { connector = connector }))
    else ok c

unfoldable pub remove_connection : Bool → ℕ → Kernel → TcpClient → Outcome TcpClient
remove_connection here id k c = do
  guard here wrong_thread
  assert (is_connection id c.connection)
  restart_if (c.retry && c.connect) here k
      (record c { connection = none; actions = c.actions ++ (destroyed id ∷ []) })

-- The destructor, in the loop's thread; the connector goes with the client.
unfoldable pub destroy : TcpClient → Outcome (List Action)
unfolding destroy_connector
destroy c = do
  let actions : List Action = elim c.connection [
    | none ↦ c.actions
    | some id ↦ c.actions ++ (released id ∷ [])
  ]
  connector ← destroy_connector c.connector
  ok actions
