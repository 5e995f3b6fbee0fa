-- ===== src/TcpServer/Stages.antt =====
-- The stages in the life of a server's connection, and how they are counted.
use netfish.Channel.{is_writing}
use netfish.Prelude.{ℕ, ◌≡◌, ◌≢◌, ◌<◌, ◌∙◌, subst, Bool, true, false, Option, none, some, arith, ok}
use netfish.TcpConnection.{
  TcpConnection, no_write, wrote, not_yet, disconnected, after_read, shutdown, shutdown_in_loop,
  handle_write,
}
use netfish.TcpConnection.Reading.{IsUp}
use netfish.TcpConnection.Kept.{send_in_loop-Kept, handle_write-Kept}
use netfish.TcpServer.Lifecycle.{
  System, Work, writes, sends, shuts, reads, do_work, MayCome, is_watched, set_conn,
}
use netfish.TcpServer.Totals.{total, has_id, opens, ends}

-- How many functors that establish connection `n` wait, how often it is in the map, and how many
-- removals and destructions of it wait.
pub record Counts (s : System) (n o m c d : ℕ) : Type 0 where
  pub opening : total (opens n) s.server.tasks ≡ o
  pub mapped : total (has_id n) s.server.connections ≡ m
  pub closing : total (has_id n) s.closing ≡ c
  pub destroying : total (ends n) s.server.tasks ≡ d

-- Whether a connection waits for input, or its poller does not watch it at all.
abbrev pub Watch : Bool → TcpConnection → Type 0
Watch true c = c.channel.events.pollin ≡ true
Watch false c = (c.channel.events.pollin ≡ false) × (c.channel.events.pollout ≡ false)

-- Connection `n` is there, with these counts; what is known of it, and whether its loop watches it.
pub record At (s : System) (n o m c d : ℕ) (P : TcpConnection → Type 0) (watched : Bool)
    : Type 0 where
  pub conn : TcpConnection
  pub born : n < s.server.next_conn_id
  pub counts : Counts s n o m c d
  pub there : s.conns n ≡ some conn
  pub known : P conn
  pub watch : Watch watched conn

abbrev pub IsNew : TcpConnection → Type 0
IsNew c = c.state ≡ not_yet

abbrev pub IsDown : TcpConnection → Type 0
IsDown c = c.state ≡ disconnected

-- Where a connection is in its life.
pub data Life (s : System) (n : ℕ) : Type 0 where
  unborn : Counts s n 0 0 0 0 → s.conns n ≡ none → Life s n
  opening : At s n 1 1 0 0 IsNew false → Life s n
  serving : At s n 0 1 0 0 IsUp true → Life s n
  closed : At s n 0 1 1 0 IsUp false → Life s n
  removed : At s n 0 0 0 1 IsUp false → Life s n
  gone : At s n 0 0 0 0 IsDown false → Life s n

-- What a step leaves of a connection that it is not about.
pub record Same (s s' : System) (n : ℕ) : Type 0 where
  pub opening : total (opens n) s'.server.tasks ≡ total (opens n) s.server.tasks
  pub mapped : total (has_id n) s'.server.connections ≡ total (has_id n) s.server.connections
  pub closing : total (has_id n) s'.closing ≡ total (has_id n) s.closing
  pub destroying : total (ends n) s'.server.tasks ≡ total (ends n) s.server.tasks
  pub conn : s'.conns n ≡ s.conns n
  pub born : n < s.server.next_conn_id → n < s'.server.next_conn_id

Same-Counts :
    (s s' : System) (n : ℕ) {o m c d : ℕ} → Same s s' n → Counts s n o m c d → Counts s' n o m c d
Same-Counts s s' n e k = record {
  opening = e.opening ∙ k.opening;
  mapped = e.mapped ∙ k.mapped;
  closing = e.closing ∙ k.closing;
  destroying = e.destroying ∙ k.destroying;
}

Same-At :
    (s s' : System) (n : ℕ) {o m c d : ℕ} {P : TcpConnection → Type 0} {watched : Bool}
    → Same s s' n
    → At s n o m c d P watched
    → At s' n o m c d P watched
Same-At s s' n e a = record {
  conn = a.conn;
  born = e.born a.born;
  counts = Same-Counts s s' n e a.counts;
  there = e.conn ∙ a.there;
  known = a.known;
  watch = a.watch;
}

pub Same-Life : (s s' : System) (n : ℕ) → Same s s' n → Life s n → Life s' n
Same-Life s s' n e (unborn k p) = unborn (Same-Counts s s' n e k) (e.conn ∙ p)
Same-Life s s' n e (opening a) = opening (Same-At s s' n e a)
Same-Life s s' n e (serving a) = serving (Same-At s s' n e a)
Same-Life s s' n e (closed a) = closed (Same-At s s' n e a)
Same-Life s s' n e (removed a) = removed (Same-At s s' n e a)
Same-Life s s' n e (gone a) = gone (Same-At s s' n e a)

-- What the state's functions keep of a connection that is up.
pub do_work-IsUp :
    (w : Work) (c c' : TcpConnection)
    → do_work w c ≡ ok c'
    → IsUp c
    → IsUp c' × (c'.channel.events.pollin ≡ c.channel.events.pollin)
unfolding do_work after_read shutdown shutdown_in_loop
do_work-IsUp (writes w) c c' e up =
    let k = handle_write-Kept w c c' e in (ground (arith, k.state, up), k.reading)
do_work-IsUp (sends w msg) c c' e up =
    let k = send_in_loop-Kept w msg c c' e in (ground (arith, k.state, up), k.reading)
do_work-IsUp (shuts here) c c' e up = ground (arith, e, up)
do_work-IsUp (reads x xs) c c' e up = ground (arith, e, up)

-- And of one that is not watched, to which nothing is sent.
unfoldable pub Idle : TcpConnection → TcpConnection → Type 0
Idle c c' =
    (IsNew c → IsNew c') × (IsUp c → IsUp c') × (IsDown c → IsDown c') × (c'.channel ≡ c.channel)

abbrev pub IsCalm : Work → Type 0
IsCalm (sends w msg) = ⊥
IsCalm _ = Unit {0}

pub do_work-Idle :
    (w : Work) (c c' : TcpConnection)
    → IsCalm w
    → MayCome w c
    → do_work w c ≡ ok c'
    → Watch false c
    → Idle c c'
unfolding Idle do_work handle_write is_writing shutdown shutdown_in_loop
do_work-Idle (writes no_write) c c' i m e (off, dry) = ground (arith, e)
do_work-Idle (writes (wrote n)) c c' i m e (off, dry) = ground (arith, rw dry at e)
do_work-Idle (sends w msg) c c' i m e (off, dry) = absurd i
do_work-Idle (shuts here) c c' i m e (off, dry) = ground (arith, e)
do_work-Idle (reads x xs) c c' i m e (off, dry) = absurd (ground (arith, m, off))

-- The map of objects.
pub set_conn_self :
    (k : ℕ) (c : TcpConnection) (conns : ℕ → Option TcpConnection) → set_conn k c conns k ≡ some c
set_conn_self k c conns = ground arith

pub set_conn_ne :
    (k n : ℕ) (c : TcpConnection) (conns : ℕ → Option TcpConnection)
    → n ≢ k
    → set_conn k c conns n ≡ conns n
set_conn_ne k n c conns h = ground (arith, h)

-- The next number is free.
pub unborn_of : (s : System) → Life s s.server.next_conn_id → Counts s s.server.next_conn_id 0 0 0 0
unborn_of s (unborn h _) = h
unborn_of s (opening a) = absurd (omega (arith, a.born))
unborn_of s (serving a) = absurd (omega (arith, a.born))
unborn_of s (closed a) = absurd (omega (arith, a.born))
unborn_of s (removed a) = absurd (omega (arith, a.born))
unborn_of s (gone a) = absurd (omega (arith, a.born))

-- The stage is known from a functor that waits, or from the object.
pub opening_of :
    (s : System) (n : ℕ)
    → 0 < total (opens n) s.server.tasks
    → Life s n
    → At s n 1 1 0 0 IsNew false
opening_of s n h (unborn k _) = absurd (omega (arith, h, k.opening))
opening_of s n h (opening a) = a
opening_of s n h (serving a) = absurd (omega (arith, h, a.counts.opening))
opening_of s n h (closed a) = absurd (omega (arith, h, a.counts.opening))
opening_of s n h (removed a) = absurd (omega (arith, h, a.counts.opening))
opening_of s n h (gone a) = absurd (omega (arith, h, a.counts.opening))

pub closed_of :
    (s : System) (n : ℕ) → 0 < total (has_id n) s.closing → Life s n → At s n 0 1 1 0 IsUp false
closed_of s n h (unborn k _) = absurd (omega (arith, h, k.closing))
closed_of s n h (opening a) = absurd (omega (arith, h, a.counts.closing))
closed_of s n h (serving a) = absurd (omega (arith, h, a.counts.closing))
closed_of s n h (closed a) = a
closed_of s n h (removed a) = absurd (omega (arith, h, a.counts.closing))
closed_of s n h (gone a) = absurd (omega (arith, h, a.counts.closing))

pub removed_of :
    (s : System) (n : ℕ) → 0 < total (ends n) s.server.tasks → Life s n → At s n 0 0 0 1 IsUp false
removed_of s n h (unborn k _) = absurd (omega (arith, h, k.destroying))
removed_of s n h (opening a) = absurd (omega (arith, h, a.counts.destroying))
removed_of s n h (serving a) = absurd (omega (arith, h, a.counts.destroying))
removed_of s n h (closed a) = absurd (omega (arith, h, a.counts.destroying))
removed_of s n h (removed a) = a
removed_of s n h (gone a) = absurd (omega (arith, h, a.counts.destroying))

-- The object that is found is the one of the stage.
pub one_conn : (x : Option TcpConnection) (c d : TcpConnection) → x ≡ some c → x ≡ some d → d ≡ c
one_conn x c d p q = ground (arith, p, q)

unwatched_lem :
    (x : Option TcpConnection) (c d : TcpConnection)
    → x ≡ some c
    → is_watched c ≡ true
    → x ≡ some d
    → Watch false d
    → ⊥
unwatched_lem x c d p w q v =
    let e : d ≡ c = one_conn x c d p q in
    let v' : Watch false c = subst (Watch false) e v in ground (arith, w, v')

pub serving_of :
    (s : System) (n : ℕ) (c : TcpConnection)
    → s.conns n ≡ some c
    → is_watched c ≡ true
    → Life s n
    → At s n 0 1 0 0 IsUp true
serving_of s n c p w (unborn _ q) = absurd (cc)
serving_of s n c p w (opening a) = elim (unwatched_lem _ c a.conn p w a.there a.watch) [ ]
serving_of s n c p w (serving a) = a
serving_of s n c p w (closed a) = elim (unwatched_lem _ c a.conn p w a.there a.watch) [ ]
serving_of s n c p w (removed a) = elim (unwatched_lem _ c a.conn p w a.there a.watch) [ ]
serving_of s n c p w (gone a) = elim (unwatched_lem _ c a.conn p w a.there a.watch) [ ]
