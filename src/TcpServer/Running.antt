-- ===== src/TcpServer/Running.antt =====
-- Steps that start and destroy a connection keep every connection in one stage.
use netfish.Prelude.{
  ℕ, ◌+◌, ◌≡◌, ◌≢◌, ◌⊎◌, inl, inr, refl, sym, ap, subst, ◌∙◌, Bool-cases, true, false, List, [],
  ◌∷◌, ◌++◌, some, ◌==◌, arith, Outcome-cases, ok, ltb, int_max,
}
use netfish.Channel.{new as new_channel, enable_reading, disable_all}
use netfish.Buffer.{new as new_buffer}
use netfish.TcpConnection.{TcpConnection, new as new_conn, connect_established, connect_destroyed}
use netfish.ThreadPool.{get_next_loop}
use netfish.TcpServer.{TcpServer, Connection, Task, establish, destroy, assign, new_connection}
use netfish.TcpServer.Lifecycle.{System, set_conn}
use netfish.TcpServer.Totals.{
  total, has_id, opens, ends, total-append, assign-total, has_id_self, has_id_of, has_id_ne,
  total-take,
}
use netfish.TcpServer.Stages.{
  Life, Watch, opening, serving, gone, Same-Life, IsNew, set_conn_self, set_conn_ne, unborn_of,
  opening_of, removed_of,
}

pub same_or_not : (n k : ℕ) → (n ≡ k) ⊎ (n ≢ k)
same_or_not n k = elim (Bool-cases (n == k)) [
  | inl e ↦ inl (ground (arith, e))
  | inr e ↦ inr (λ p. ground (arith, e, p))
]

-- The fields of a server that has accepted a connection.
record Accepted (s s' : TcpServer) (conn : Connection) : Type 0 where
  id : conn.conn_id ≡ s.next_conn_id
  next : s'.next_conn_id ≡ s.next_conn_id + 1
  connections : s'.connections ≡ assign conn s.connections
  tasks : s'.tasks ≡ s.tasks ++ (establish conn ∷ [])

new_connection-Accepted :
    (sockfd : ℕ) (s s' : TcpServer)
    → new_connection true sockfd s ≡ ok s'
    → (conn : Connection) × Accepted s s' conn
unfolding new_connection
new_connection-Accepted sockfd s s' e = elim (Bool-cases (ltb s.next_conn_id int_max)) [
  | inr o ↦ absurd (cc (rw o at e))
  | inl i ↦ elim (Outcome-cases (get_next_loop true s.thread_pool)) [
    | inl (r, p) ↦ (
      record { conn_id = s.next_conn_id; io_loop = r.0; sockfd = sockfd },
      ground (arith, rw (i, p) at e),
    )
    | inr (f, p) ↦ absurd (cc (rw (i, p) at e))
  ]
]

new_conn-IsNew : (sockfd : ℕ) (c : TcpConnection) → new_conn sockfd ≡ ok c → IsNew c × Watch false c
unfolding new_conn new_channel
new_conn-IsNew sockfd c e = elim (Outcome-cases new_buffer) [
  | inl (b, p) ↦ ground (arith, rw p at e)
  | inr (f, p) ↦ absurd (cc (rw p at e))
]

pub accepts-Life :
    (s : System) (sockfd : ℕ) (server : TcpServer) (c : TcpConnection) (n : ℕ)
    → new_connection true sockfd s.server ≡ ok server
    → new_conn sockfd ≡ ok c
    → ((k : ℕ) → Life s k)
    → Life (record s { server = server; conns = set_conn s.server.next_conn_id c s.conns }) n
accepts-Life s sockfd server c n e f all =
    let k = s.server.next_conn_id in
    let s' : System = record s { server = server; conns = set_conn k c s.conns } in
    let (conn, a) = new_connection-Accepted sockfd s.server server e in
    let (fresh, off) = new_conn-IsNew sockfd c f in
    let old = unborn_of s (all k) in
    let none_mapped : total (has_id conn.conn_id) s.server.connections ≡ 0 = rw a.id old.mapped in
    let mapped = λ (m : ℕ).
      ap (total (has_id m)) a.connections ∙ assign-total conn s.server.connections m none_mapped in
    let tasks = λ (g : Task → ℕ).
      ap (total g) a.tasks ∙ total-append g s.server.tasks (establish conn ∷ []) in
    elim (same_or_not n k) [
      | inl p ↦ subst (Life s') (sym p) (
          opening (record {
            conn = c;
            born = omega (arith, a.next);
            counts = record {
              opening = omega (arith, tasks (opens k), old.opening, has_id_of k conn a.id);
              mapped = omega (arith, mapped k, old.mapped, has_id_of k conn a.id);
              closing = old.closing;
              destroying = omega (arith, tasks (ends k), old.destroying);
            };
            there = set_conn_self k c s.conns;
            known = fresh;
            watch = off;
          }))
      | inr p ↦
          let other = has_id_ne n conn (λ q. p (q ∙ a.id)) in
          Same-Life s s' n
            (record {
              opening = omega (arith, tasks (opens n), other);
              mapped = omega (arith, mapped n, other);
              closing = refl;
              destroying = omega (arith, tasks (ends n));
              conn = set_conn_ne k n c s.conns p;
              born = λ h. omega (arith, a.next, h);
            })
            (all n)
    ]

-- A loop takes a task that waits, and puts back the connection's object.
abbrev pub ran : System → List Task → ℕ → TcpConnection → System
ran s tasks k c = record s {
  server = record s.server { tasks = tasks };
  conns = set_conn k c s.conns;
}

pub establishes-Life :
    (s : System) (before after : List Task) (conn : Connection) (c c' : TcpConnection) (n : ℕ)
    → s.server.tasks ≡ before ++ (establish conn ∷ after)
    → s.conns conn.conn_id ≡ some c
    → connect_established c ≡ ok c'
    → ((k : ℕ) → Life s k)
    → Life (ran s (before ++ after) conn.conn_id c') n
unfolding connect_established enable_reading
establishes-Life s before after conn c c' n e p f all =
    let k = conn.conn_id in
    let s' = ran s (before ++ after) k c' in
    let tasks = λ (g : Task → ℕ). total-take g s.server.tasks before (establish conn) after e in
    elim (same_or_not n k) [
      | inl q ↦
          let waits : total (opens k) s.server.tasks ≡ 1 + total (opens k) (before ++ after) =
            omega (arith, tasks (opens k), has_id_self conn) in
          let a = opening_of s k (omega (arith, waits)) (all k) in
          subst (Life s') (sym q) (
            serving (record {
              conn = c';
              born = a.born;
              counts = record {
                opening = omega (arith, waits, a.counts.opening);
                mapped = a.counts.mapped;
                closing = a.counts.closing;
                destroying = omega (arith, tasks (ends k), a.counts.destroying);
              };
              there = set_conn_self k c' s.conns;
              known = ground (arith, f);
              watch = ground (arith, f);
            }))
      | inr q ↦
          Same-Life s s' n
            (record {
              opening = omega (arith, tasks (opens n), has_id_ne n conn q);
              mapped = refl;
              closing = refl;
              destroying = omega (arith, tasks (ends n));
              conn = set_conn_ne k n c' s.conns q;
              born = λ h. h;
            })
            (all n)
    ]

pub destroys-Life :
    (s : System) (before after : List Task) (conn : Connection) (c c' : TcpConnection) (n : ℕ)
    → s.server.tasks ≡ before ++ (destroy conn ∷ after)
    → s.conns conn.conn_id ≡ some c
    → connect_destroyed c ≡ ok c'
    → ((k : ℕ) → Life s k)
    → Life (ran s (before ++ after) conn.conn_id c') n
unfolding connect_destroyed disable_all
destroys-Life s before after conn c c' n e p f all =
    let k = conn.conn_id in
    let s' = ran s (before ++ after) k c' in
    let tasks = λ (g : Task → ℕ). total-take g s.server.tasks before (destroy conn) after e in
    elim (same_or_not n k) [
      | inl q ↦
          let waits : total (ends k) s.server.tasks ≡ 1 + total (ends k) (before ++ after) =
            omega (arith, tasks (ends k), has_id_self conn) in
          let a = removed_of s k (omega (arith, waits)) (all k) in
          subst (Life s') (sym q) (
            gone (record {
              conn = c';
              born = a.born;
              counts = record {
                opening = omega (arith, tasks (opens k), a.counts.opening);
                mapped = a.counts.mapped;
                closing = a.counts.closing;
                destroying = omega (arith, waits, a.counts.destroying);
              };
              there = set_conn_self k c' s.conns;
              known = ground (arith, f);
              watch = ground (arith, f);
            }))
      | inr q ↦
          Same-Life s s' n
            (record {
              opening = omega (arith, tasks (opens n));
              mapped = refl;
              closing = refl;
              destroying = omega (arith, tasks (ends n), has_id_ne n conn q);
              conn = set_conn_ne k n c' s.conns q;
              born = λ h. h;
            })
            (all n)
    ]
