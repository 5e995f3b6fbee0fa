-- ===== src/TcpServer/Ends.antt =====
-- Every connection that a server has accepted can come to its end, from wherever it is.
use netfish.Prelude.{
  ℕ, ◌≡◌, ◌<◌, refl, ap, ◌∙◌, Bool-cases, inl, inr, true, false, List, [], ◌∷◌, ◌++◌, Option, some,
  ◌==◌, arith,
}
use netfish.Channel.{enable_reading, disable_all}
use netfish.TcpConnection.{
  TcpConnection, connected, disconnected, connection_up, connection_down, call, connect_established,
  connect_destroyed,
}
use netfish.TcpConnection.Reading.{IsUp, closed as after_close, handle_close_lem}
use netfish.TcpServer.{Connection, Task, establish, destroy}
use netfish.TcpServer.Lifecycle.{
  System, Step, establishes, closes, removes, destroys, Reachable, next, set_conn, HasNoLateSend,
}
use netfish.TcpServer.Totals.{total, has_id, opens, ends, total-append, erase-total, has_id_of}
use netfish.TcpServer.Stages.{
  Life, unborn, opening, serving, closed, removed, gone, At, IsNew, IsDown, closed_of, removed_of,
  serving_of,
}
use netfish.TcpServer.Running.{ran}
use netfish.TcpServer.Removing.{without, remove_lem}
use netfish.TcpServer.Orderly.{Reachable-Life}

pub data Steps : System → System → Type 0 where
  done : (s : System) → Steps s s
  onwards : (s t u : System) → Step s t → Steps t u → Steps s u

-- Steps after which connection `n` is there and down.
abbrev pub Ends : System → ℕ → Type 0
Ends s n = (s' : System) × Steps s s' × (c : TcpConnection) × (s'.conns n ≡ some c) × IsDown c

first_step : {s t : System} {n : ℕ} → Step s t → Ends t n → Ends s n
first_step {s} {t} step (u, steps, c, there, down) = (u, onwards s t u step steps, c, there, down)

-- A list that counts a connection has a place where it stands.
find_conn :
    (n : ℕ) (cs : List Connection)
    → 0 < total (has_id n) cs
    → (xs ys : List Connection) × (conn : Connection) × (conn.conn_id ≡ n)
      × (cs ≡ xs ++ (conn ∷ ys))
find_conn n [] h = absurd (omega (arith, h))
find_conn n (c ∷ cs) h = elim (Bool-cases (c.conn_id == n)) [
  | inl e ↦ ([], cs, c, ground (arith, e), refl)
  | inr e ↦
      let (xs, ys, conn, p, q) = find_conn n cs (omega (arith, rw e at h)) in
      (c ∷ xs, ys, conn, p, ap (λ l. c ∷ l) q)
]

find_opening :
    (n : ℕ) (ts : List Task)
    → 0 < total (opens n) ts
    → (xs ys : List Task) × (conn : Connection) × (conn.conn_id ≡ n)
      × (ts ≡ xs ++ (establish conn ∷ ys))
find_opening n [] h = absurd (omega (arith, h))
find_opening n (establish c ∷ ts) h = elim (Bool-cases (c.conn_id == n)) [
  | inl e ↦ ([], ts, c, ground (arith, e), refl)
  | inr e ↦
      let (xs, ys, conn, p, q) = find_opening n ts (omega (arith, rw e at h)) in
      (establish c ∷ xs, ys, conn, p, ap (λ l. establish c ∷ l) q)
]
find_opening n (destroy c ∷ ts) h =
    let (xs, ys, conn, p, q) = find_opening n ts (omega (arith, h)) in
    (destroy c ∷ xs, ys, conn, p, ap (λ l. destroy c ∷ l) q)

find_ending :
    (n : ℕ) (ts : List Task)
    → 0 < total (ends n) ts
    → (xs ys : List Task) × (conn : Connection) × (conn.conn_id ≡ n)
      × (ts ≡ xs ++ (destroy conn ∷ ys))
find_ending n [] h = absurd (omega (arith, h))
find_ending n (destroy c ∷ ts) h = elim (Bool-cases (c.conn_id == n)) [
  | inl e ↦ ([], ts, c, ground (arith, e), refl)
  | inr e ↦
      let (xs, ys, conn, p, q) = find_ending n ts (omega (arith, rw e at h)) in
      (destroy c ∷ xs, ys, conn, p, ap (λ l. destroy c ∷ l) q)
]
find_ending n (establish c ∷ ts) h =
    let (xs, ys, conn, p, q) = find_ending n ts (omega (arith, h)) in
    (establish c ∷ xs, ys, conn, p, ap (λ l. establish c ∷ l) q)

set_there :
    (k n : ℕ) (c : TcpConnection) (conns : ℕ → Option TcpConnection)
    → k ≡ n
    → set_conn k c conns n ≡ some c
set_there k n c conns p = ground (arith, p)

removed-Ends : (s : System) (n : ℕ) → At s n 0 0 0 1 IsUp false → Ends s n
unfolding connect_destroyed
removed-Ends s n a =
    let (xs, ys, conn, p, q) = find_ending n s.server.tasks (omega (arith, a.counts.destroying)) in
    let c' : TcpConnection = call connection_down (record a.conn {
      state = disconnected;
      channel = disable_all a.conn.channel;
      removed = true;
    }) in
    let t = ran s (xs ++ ys) conn.conn_id c' in
    (
      t,
      onwards s t t
          (destroys s xs ys conn a.conn c' q (ap s.conns p ∙ a.there) (ground (arith, a.known)))
          (done t),
      c',
      set_there conn.conn_id n c' s.conns p,
      refl,
    )

closed-Ends :
    (s : System) (n : ℕ) (r : Reachable s) → HasNoLateSend r → At s n 0 1 1 0 IsUp false → Ends s n
unfolding HasNoLateSend
closed-Ends s n r h a =
    let (xs, ys, conn, p, q) = find_conn n s.closing (omega (arith, a.counts.closing)) in
    let mapped : total (has_id conn.conn_id) s.server.connections ≡ 1 = rw p a.counts.mapped in
    let (one, _) = erase-total conn.conn_id s.server.connections mapped in
    let t : System = record s { server = without conn s.server; closing = xs ++ ys } in
    let step : Step s t =
      removes s xs ys conn (without conn s.server) q (remove_lem conn s.server one) in
    let waits : 0 < total (ends n) t.server.tasks =
      omega (arith, total-append (ends n) s.server.tasks (destroy conn ∷ []), has_id_of n conn p) in
    first_step step
      (removed-Ends t n (removed_of t n waits (Reachable-Life t (next s t r step) (h, tt) n)))

serving-Ends :
    (s : System) (n : ℕ) (r : Reachable s) → HasNoLateSend r → At s n 0 1 0 0 IsUp true → Ends s n
unfolding HasNoLateSend
serving-Ends s n r h a =
    let (_, _, conn, p, _) = find_conn n s.server.connections (omega (arith, a.counts.mapped)) in
    let c' = after_close a.conn in
    let t : System = record s {
      conns = set_conn conn.conn_id c' s.conns;
      closing = s.closing ++ (conn ∷ []);
    } in
    let step : Step s t =
      closes s conn a.conn c' (ap s.conns p ∙ a.there) (ground (arith, a.watch))
        (handle_close_lem a.conn a.known) in
    let waits : 0 < total (has_id n) t.closing =
      omega (arith, total-append (has_id n) s.closing (conn ∷ []), has_id_of n conn p) in
    let r' = next s t r step in
    first_step step
      (closed-Ends t n r' (h, tt) (closed_of t n waits (Reachable-Life t r' (h, tt) n)))

opening-Ends :
    (s : System) (n : ℕ) (r : Reachable s) → HasNoLateSend r → At s n 1 1 0 0 IsNew false → Ends s n
unfolding connect_established enable_reading HasNoLateSend
opening-Ends s n r h a =
    let (xs, ys, conn, p, q) = find_opening n s.server.tasks (omega (arith, a.counts.opening)) in
    let c' : TcpConnection =
      call connection_up
        (record a.conn { state = connected; channel = enable_reading a.conn.channel }) in
    let t = ran s (xs ++ ys) conn.conn_id c' in
    let step : Step s t =
      establishes s xs ys conn a.conn c' q (ap s.conns p ∙ a.there) (ground (arith, a.known)) in
    let r' = next s t r step in
    first_step step (
      serving-Ends t n r' (h, tt)
        (serving_of t n c' (set_there conn.conn_id n c' s.conns p) refl
          (Reachable-Life t r' (h, tt) n)))

-- From every state that a server and its connections can come to, as long as no message reaches
-- `sendInLoop` of a connection that is not watched, before its establishment or after its close: each
-- connection that the server has accepted can be brought down by steps that are possible one after the
-- other, so that none of its establishment, its close, its removal and its destruction is ever stuck.
pub conn-Ends :
    (s : System) (n : ℕ) (c : TcpConnection) (r : Reachable s)
    → HasNoLateSend r
    → s.conns n ≡ some c
    → Ends s n
conn-Ends s n c r h e = by_life (Reachable-Life s r h n)
  where
    by_life : Life s n → Ends s n
    by_life (unborn _ q) = absurd (cc)
    by_life (opening a) = opening-Ends s n r h a
    by_life (serving a) = serving-Ends s n r h a
    by_life (closed a) = closed-Ends s n r h a
    by_life (removed a) = removed-Ends s n a
    by_life (gone a) = (s, done s, a.conn, a.there, a.known)
