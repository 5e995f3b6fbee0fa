-- ===== src/TcpServer/Removing.antt =====
-- Steps of a connection that is served, closed and removed keep every connection in one stage.
use netfish.Prelude.{
  ℕ, ◌≡◌, ◌≢◌, ◌⊎◌, inl, inr, refl, sym, subst, ◌∙◌, Bool, Bool-cases, true, false, List, [], ◌∷◌,
  ◌++◌, some, arith, ok, err, assertion_failed,
}
use netfish.Channel.{disable_all}
use netfish.TcpConnection.{TcpConnection, handle_close}
use netfish.TcpConnection.Reading.{IsUp, closed as after_close, handle_close_lem}
use netfish.TcpServer.{TcpServer, Connection, Task, destroy, erase, remove_connection_in_loop}
use netfish.TcpServer.Lifecycle.{System, Work, do_work, MayCome, is_watched, set_conn}
use netfish.TcpServer.Totals.{
  total, erase-absent, has_id, opens, ends, total-append, erase-total, has_id_self, has_id_ne,
  total-take,
}
use netfish.TcpServer.Stages.{
  Life, unborn, opening, serving, closed, removed, gone, At, Watch, Same, Same-Life, IsCalm, Idle,
  do_work-IsUp, do_work-Idle, set_conn_self, set_conn_ne, closed_of, serving_of, one_conn,
}
use netfish.TcpServer.Running.{same_or_not}

-- The object of connection `k` put back.
abbrev put : ℕ → TcpConnection → System → System
put k c s = record s { conns = set_conn k c s.conns }

put-Same : (s : System) (k n : ℕ) (c : TcpConnection) → n ≢ k → Same s (put k c s) n
put-Same s k n c h = record {
  opening = refl;
  mapped = refl;
  closing = refl;
  destroying = refl;
  conn = set_conn_ne k n c s.conns h;
  born = λ b. b;
}

put-At :
    (s : System) (k : ℕ) (c : TcpConnection) {o m d e : ℕ} {P : TcpConnection → Type 0} {on : Bool}
    → At s k o m d e P on
    → P c
    → Watch on c
    → At (put k c s) k o m d e P on
put-At s k c a known watch = record {
  conn = c;
  born = a.born;
  counts = record {
    opening = a.counts.opening;
    mapped = a.counts.mapped;
    closing = a.counts.closing;
    destroying = a.counts.destroying;
  };
  there = set_conn_self k c s.conns;
  known = known;
  watch = watch;
}

-- Work on a connection that is watched, and on one that is not.
watched-Life :
    (s : System) (k : ℕ) (w : Work) (c c' : TcpConnection)
    → s.conns k ≡ some c
    → is_watched c ≡ true
    → do_work w c ≡ ok c'
    → Life s k
    → Life (put k c' s) k
watched-Life s k w c c' p on f life =
    let a = serving_of s k c p on life in
    let here = one_conn (s.conns k) c a.conn p a.there in
    let (up, watch) = do_work-IsUp w c c' f (subst IsUp here a.known) in
    serving (put-At s k c' a up (watch ∙ subst (Watch true) here a.watch))

calm_lem :
    (s : System) (k : ℕ) (w : Work) (c c' : TcpConnection)
    → s.conns k ≡ some c
    → IsCalm w
    → MayCome w c
    → do_work w c ≡ ok c'
    → {o m d e : ℕ} → {P : TcpConnection → Type 0} → (Idle c c' → P c → P c')
    → At s k o m d e P false
    → At (put k c' s) k o m d e P false
unfolding Idle
calm_lem s k w c c' p calm m f {P = P} keeps a =
    let here = one_conn (s.conns k) c a.conn p a.there in
    let off = subst (Watch false) here a.watch in
    let idle = do_work-Idle w c c' calm m f off in
    put-At s k c' a (keeps idle (subst P here a.known))
      (subst (λ ch. (ch.events.pollin ≡ false) × (ch.events.pollout ≡ false)) (sym idle.3) off)

idle-Life :
    (s : System) (k : ℕ) (w : Work) (c c' : TcpConnection)
    → s.conns k ≡ some c
    → is_watched c ≡ false
    → IsCalm w
    → MayCome w c
    → do_work w c ≡ ok c'
    → Life s k
    → Life (put k c' s) k
unfolding Idle
idle-Life s k w c c' p off calm m f (unborn _ q) = absurd (cc)
idle-Life s k w c c' p off calm m f (opening a) =
    opening (calm_lem s k w c c' p calm m f (λ i. i.0) a)
idle-Life s k w c c' p off calm m f (serving a) =
    let on = subst (Watch true) (one_conn (s.conns k) c a.conn p a.there) a.watch in
    absurd (ground (arith, off, on))
idle-Life s k w c c' p off calm m f (closed a) =
    closed (calm_lem s k w c c' p calm m f (λ i. i.1) a)
idle-Life s k w c c' p off calm m f (removed a) =
    removed (calm_lem s k w c c' p calm m f (λ i. i.1) a)
idle-Life s k w c c' p off calm m f (gone a) = gone (calm_lem s k w c c' p calm m f (λ i. i.2) a)

pub works-Life :
    (s : System) (k : ℕ) (w : Work) (c c' : TcpConnection) (n : ℕ)
    → s.conns k ≡ some c
    → MayCome w c
    → (is_watched c ≡ true) ⊎ IsCalm w
    → do_work w c ≡ ok c'
    → ((m : ℕ) → Life s m)
    → Life (put k c' s) n
works-Life s k w c c' n p m in_time f all = elim (same_or_not n k) [
  | inl q ↦ subst (Life (put k c' s)) (sym q) (by_watch (Bool-cases (is_watched c)) in_time)
  | inr q ↦ Same-Life s (put k c' s) n (put-Same s k n c' q) (all n)
]
  where
    by_watch :
        (is_watched c ≡ true) ⊎ (is_watched c ≡ false)
        → (is_watched c ≡ true) ⊎ IsCalm w
        → Life (put k c' s) k
    by_watch (inl on) _ = watched-Life s k w c c' p on f (all k)
    by_watch (inr off) (inl on) = absurd (cc)
    by_watch (inr off) (inr calm) = idle-Life s k w c c' p off calm m f (all k)

pub closes-Life :
    (s : System) (conn : Connection) (c c' : TcpConnection) (n : ℕ)
    → s.conns conn.conn_id ≡ some c
    → is_watched c ≡ true
    → handle_close c ≡ ok c'
    → ((m : ℕ) → Life s m)
    → Life
        (record s { conns = set_conn conn.conn_id c' s.conns; closing = s.closing ++ (conn ∷ []) })
        n
unfolding disable_all
closes-Life s conn c c' n p on f all =
    let k = conn.conn_id in
    let s' : System = record s {
      conns = set_conn k c' s.conns;
      closing = s.closing ++ (conn ∷ []);
    } in
    let more = λ (m : ℕ). total-append (has_id m) s.closing (conn ∷ []) in
    elim (same_or_not n k) [
      | inl q ↦
          let a = serving_of s k c p on (all k) in
          let here = one_conn (s.conns k) c a.conn p a.there in
          let up = subst IsUp here a.known in
          let off : c' ≡ after_close c = ground (arith, f, handle_close_lem c up) in
          subst (Life s') (sym q) (
            closed (record {
              conn = c';
              born = a.born;
              counts = record {
                opening = a.counts.opening;
                mapped = a.counts.mapped;
                closing = omega (arith, more k, a.counts.closing, has_id_self conn);
                destroying = a.counts.destroying;
              };
              there = set_conn_self k c' s.conns;
              known = subst IsUp (sym off) up;
              watch = subst (Watch false) (sym off) (refl, refl);
            }))
      | inr q ↦
          Same-Life s s' n
            (record {
              opening = refl;
              mapped = refl;
              closing = omega (arith, more n, has_id_ne n conn q);
              destroying = refl;
              conn = set_conn_ne k n c' s.conns q;
              born = λ h. h;
            })
            (all n)
    ]

-- The server after a removal of a connection that is in the map once.
abbrev pub without : Connection → TcpServer → TcpServer
without conn s = record s {
  connections = (erase conn.conn_id s.connections).0;
  tasks = s.tasks ++ (destroy conn ∷ []);
}

pub remove_lem :
    (conn : Connection) (s : TcpServer)
    → (erase conn.conn_id s.connections).1 ≡ 1
    → remove_connection_in_loop true conn s ≡ ok (without conn s)
unfolding remove_connection_in_loop
remove_lem conn s h = ground (arith, h)

pub remove_again :
    (conn : Connection) (s : TcpServer)
    → total (has_id conn.conn_id) s.connections ≡ 0
    → remove_connection_in_loop true conn s ≡ err assertion_failed
unfolding remove_connection_in_loop
remove_again conn s h = ground (arith, erase-absent conn.conn_id s.connections h)

pub removes-Life :
    (s : System) (before after : List Connection) (conn : Connection) (server : TcpServer) (n : ℕ)
    → s.closing ≡ before ++ (conn ∷ after)
    → remove_connection_in_loop true conn s.server ≡ ok server
    → ((m : ℕ) → Life s m)
    → Life (record s { server = server; closing = before ++ after }) n
removes-Life s before after conn server n e f all =
    let k = conn.conn_id in
    let left = λ (m : ℕ). total-take (has_id m) s.closing before conn after e in
    let a = closed_of s k (omega (arith, left k, has_id_self conn)) (all k) in
    let (one, rest) = erase-total k s.server.connections a.counts.mapped in
    let s' : System = record s { server = without conn s.server; closing = before ++ after } in
    let now : server ≡ without conn s.server = ground (arith, f, remove_lem conn s.server one) in
    let tasks = λ (g : Task → ℕ). total-append g s.server.tasks (destroy conn ∷ []) in
    rw now (elim (same_or_not n k) [
      | inl q ↦ subst (Life s') (sym q) (
          removed (record {
            conn = a.conn;
            born = a.born;
            counts = record {
              opening = omega (arith, tasks (opens k), a.counts.opening);
              mapped = omega (arith, rest k, a.counts.mapped, has_id_self conn);
              closing = omega (arith, left k, a.counts.closing, has_id_self conn);
              destroying = omega (arith, tasks (ends k), a.counts.destroying, has_id_self conn);
            };
            there = a.there;
            known = a.known;
            watch = a.watch;
          }))
      | inr q ↦
          let other = has_id_ne n conn q in
          Same-Life s s' n
            (record {
              opening = omega (arith, tasks (opens n));
              mapped = omega (arith, rest n, other);
              closing = omega (arith, left n, other);
              destroying = omega (arith, tasks (ends n), other);
              conn = refl;
              born = λ h. h;
            })
            (all n)
    ])
