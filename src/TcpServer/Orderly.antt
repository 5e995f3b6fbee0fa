-- ===== src/TcpServer/Orderly.antt =====
-- The life of each connection of a server, over any interleaving.
use netfish.Prelude.{ℕ, ◌+◌, ◌≡◌, ◌≤◌, ◌⊎◌, inl, inr, ap, true, List, ◌∷◌, ◌++◌, some, arith, ok}
use netfish.Channel.{enable_reading, disable_all}
use netfish.TcpConnection.{
  TcpConnection, connected, disconnected, connection_up, connection_down, call, connect_established,
  connect_destroyed,
}
use netfish.TcpConnection.Reading.{IsUp}
use netfish.TcpServer.{TcpServer, Connection, Task, establish, destroy, remove_connection_in_loop}
use netfish.TcpServer.Lifecycle.{
  System, writes, sends, shuts, reads, Work, MayCome, do_work, is_watched, IsInTime, HasNoLateSend,
  accepts, establishes, works, closes, removes, destroys, Reachable, begin, next,
}
use netfish.TcpServer.Totals.{total, has_id, opens, ends, erase-total, has_id_self, total-take}
use netfish.TcpServer.Stages.{
  Life, unborn, opening, serving, closed, removed, gone, IsNew, IsCalm, opening_of, closed_of,
  removed_of,
}
use netfish.TcpServer.Running.{accepts-Life, establishes-Life, destroys-Life}
use netfish.TcpServer.Removing.{works-Life, closes-Life, removes-Life, without, remove_lem}

-- A message that comes in time comes to a connection that is watched.
in_time-IsCalm :
    (s : System) (k : ℕ) (w : Work) (c c' : TcpConnection) (p : s.conns k ≡ some c)
    (m : MayCome w c) (f : do_work w c ≡ ok c')
    → IsInTime (works s k w c c' p m f)
    → (is_watched c ≡ true) ⊎ IsCalm w
in_time-IsCalm s k (writes w) c c' p m f t = inr tt
in_time-IsCalm s k (sends w msg) c c' p m f t = inl t
in_time-IsCalm s k (shuts here) c c' p m f t = inr tt
in_time-IsCalm s k (reads x xs) c c' p m f t = inr tt

pub Reachable-Life : (s : System) (r : Reachable s) → HasNoLateSend r → (n : ℕ) → Life s n
unfolding HasNoLateSend
Reachable-Life s (begin _ (connections, tasks, closing, none_yet)) h n =
    unborn
      (record {
        opening = ap (total (opens n)) tasks;
        mapped = ap (total (has_id n)) connections;
        closing = ap (total (has_id n)) closing;
        destroying = ap (total (ends n)) tasks;
      })
      (none_yet n)
Reachable-Life s (next t _ r (accepts _ sockfd server c e f)) (h, in_time) n =
    accepts-Life t sockfd server c n e f (Reachable-Life t r h)
Reachable-Life s (next t _ r (establishes _ xs ys conn c c' e p f)) (h, in_time) n =
    establishes-Life t xs ys conn c c' n e p f (Reachable-Life t r h)
Reachable-Life s (next t _ r (works _ k w c c' p m f)) (h, in_time) n =
    works-Life t k w c c' n p m (in_time-IsCalm t k w c c' p m f in_time) f (Reachable-Life t r h)
Reachable-Life s (next t _ r (closes _ conn c c' p on f)) (h, in_time) n =
    closes-Life t conn c c' n p on f (Reachable-Life t r h)
Reachable-Life s (next t _ r (removes _ xs ys conn server e f)) (h, in_time) n =
    removes-Life t xs ys conn server n e f (Reachable-Life t r h)
Reachable-Life s (next t _ r (destroys _ xs ys conn c c' e p f)) (h, in_time) n =
    destroys-Life t xs ys conn c c' n e p f (Reachable-Life t r h)

-- No functor of connection `n` waits but one, and that once.
one_waits :
    (s : System) (n : ℕ)
    → Life s n
    → total (opens n) s.server.tasks + total (has_id n) s.closing + total (ends n) s.server.tasks
      ≤ 1
one_waits s n (unborn k _) = omega (arith, k.opening, k.closing, k.destroying)
one_waits s n (opening a) = omega (arith, a.counts.opening, a.counts.closing, a.counts.destroying)
one_waits s n (serving a) = omega (arith, a.counts.opening, a.counts.closing, a.counts.destroying)
one_waits s n (closed a) = omega (arith, a.counts.opening, a.counts.closing, a.counts.destroying)
one_waits s n (removed a) = omega (arith, a.counts.opening, a.counts.closing, a.counts.destroying)
one_waits s n (gone a) = omega (arith, a.counts.opening, a.counts.closing, a.counts.destroying)

established_ok :
    (c : TcpConnection) → IsNew c → (c' : TcpConnection) × (connect_established c ≡ ok c')
unfolding connect_established
established_ok c new = (
  call connection_up (record c { state = connected; channel = enable_reading c.channel }),
  ground (arith, new),
)

destroyed_ok : (c : TcpConnection) → IsUp c → (c' : TcpConnection) × (connect_destroyed c ≡ ok c')
unfolding connect_destroyed
destroyed_ok c up = (
  call connection_down
      (record c { state = disconnected; channel = disable_all c.channel; removed = true }),
  ground (arith, up),
)

-- What waits: an establishment or a destruction in the loop of a connection, or a removal.
pub data Waiting (s : System) : Type 0 where
  to_establish :
      (xs ys : List Task) (conn : Connection)
      → s.server.tasks ≡ xs ++ (establish conn ∷ ys)
      → Waiting s
  to_remove :
      (xs ys : List Connection) (conn : Connection) → s.closing ≡ xs ++ (conn ∷ ys) → Waiting s
  to_destroy :
      (xs ys : List Task) (conn : Connection)
      → s.server.tasks ≡ xs ++ (destroy conn ∷ ys)
      → Waiting s

abbrev pub id_of : (s : System) → Waiting s → ℕ
id_of s (to_establish xs ys conn e) = conn.conn_id
id_of s (to_remove xs ys conn e) = conn.conn_id
id_of s (to_destroy xs ys conn e) = conn.conn_id

-- How often the connection is in the map, and that the functor has no fault.
abbrev pub Succeeds : (s : System) → Waiting s → Type 0
Succeeds s (to_establish xs ys conn e) =
    (total (has_id conn.conn_id) s.server.connections ≡ 1)
    × ((c c' : TcpConnection) × (s.conns conn.conn_id ≡ some c) × (connect_established c ≡ ok c'))
Succeeds s (to_remove xs ys conn e) =
    (total (has_id conn.conn_id) s.server.connections ≡ 1)
    × ((server : TcpServer) × (remove_connection_in_loop true conn s.server ≡ ok server)
        × (total (has_id conn.conn_id) server.connections ≡ 0))
Succeeds s (to_destroy xs ys conn e) =
    (total (has_id conn.conn_id) s.server.connections ≡ 0)
    × ((c c' : TcpConnection) × (s.conns conn.conn_id ≡ some c) × (connect_destroyed c ≡ ok c'))

waiting_lem : (s : System) → ((n : ℕ) → Life s n) → (w : Waiting s) → Succeeds s w
waiting_lem s life (to_establish xs ys conn e) =
    let k = conn.conn_id in
    let waits = total-take (opens k) s.server.tasks xs (establish conn) ys e in
    let a = opening_of s k (omega (arith, waits, has_id_self conn)) (life k) in
    let (c', f) = established_ok a.conn a.known in (a.counts.mapped, (a.conn, c', a.there, f))
waiting_lem s life (to_remove xs ys conn e) =
    let k = conn.conn_id in
    let waits = total-take (has_id k) s.closing xs conn ys e in
    let a = closed_of s k (omega (arith, waits, has_id_self conn)) (life k) in
    let (one, rest) = erase-total k s.server.connections a.counts.mapped in
    (
      a.counts.mapped,
      (
        without conn s.server,
        remove_lem conn s.server one,
        omega (arith, rest k, a.counts.mapped, has_id_self conn),
      ),
    )
waiting_lem s life (to_destroy xs ys conn e) =
    let k = conn.conn_id in
    let waits = total-take (ends k) s.server.tasks xs (destroy conn) ys e in
    let a = removed_of s k (omega (arith, waits, has_id_self conn)) (life k) in
    let (c', f) = destroyed_ok a.conn a.known in (a.counts.mapped, (a.conn, c', a.there, f))

-- In every state that a server and its connections can come to, in whatever order their loops run, as
-- long as no message reaches `sendInLoop` of a connection that is not watched, before its establishment
-- or after its close. A connection whose establishment waits is in the map, and is established without
-- a fault. A removal that waits takes its connection out of the map, and no assert fails. A connection
-- whose destruction waits is no longer in the map, and is destroyed without a fault. Nothing else of
-- these three waits for the same connection.
pub orderly :
    (s : System) (r : Reachable s)
    → HasNoLateSend r
    → (w : Waiting s)
    → Succeeds s w
      × (total (opens (id_of s w)) s.server.tasks
            + total (has_id (id_of s w)) s.closing
            + total (ends (id_of s w)) s.server.tasks
          ≤ 1)
orderly s r h w =
    let life = Reachable-Life s r h in
    (waiting_lem s life w, one_waits s (id_of s w) (life (id_of s w)))
