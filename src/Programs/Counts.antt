-- ===== src/Programs/Counts.antt =====
-- What the ping-pong client reports of its connections.
use netfish.Prelude.{
  ℕ, zero, suc, ◌+◌, ◌-◌, ◌%◌, ◌^◌, ◌<◌, ◌≡◌, refl, ap, ◌∙◌, List, [], ◌∷◌, arith, ◌==◌,
  if◌then◌else◌,
}
use netfish.Atomic.{increment_and_get, decrement_and_get}
use netfish.Programs.PingPong.{Session}
use netfish.Programs.Client.{Client, on_connect, on_disconnect}

-- A session's connection comes up, or goes down; the counters of the sessions at that time.
pub data Report : Type 0 where
  up : Report
  down : List Session → Report

unfoldable pub report : Report → Client → Client
report up c = on_connect c
report (down ss) c = on_disconnect ss c

unfoldable pub report_all : List Report → Client → Client
report_all [] c = c
report_all (r ∷ rs) c = report_all rs (report r c)

-- From `k` connections on: none goes down that is not up, and there are fewer than 2³¹.
abbrev pub IsHistory : List Report → ℕ → Type 0
IsHistory [] k = Unit {0}
IsHistory (up ∷ rs) k = (suc k < 2 ^ 31) × IsHistory rs (suc k)
IsHistory (down ss ∷ rs) zero = ⊥
IsHistory (down ss ∷ rs) (suc k) = IsHistory rs k

-- How many are connected at the end, how often the number reached `n` by a connection that came up,
-- and how often it fell to 0.
abbrev pub connected_after : List Report → ℕ → ℕ
connected_after [] k = k
connected_after (up ∷ rs) k = connected_after rs (suc k)
connected_after (down ss ∷ rs) k = connected_after rs (k - 1)

abbrev pub times_full : ℕ → List Report → ℕ → ℕ
times_full n [] k = 0
times_full n (up ∷ rs) k = (if suc k == n then 1 else 0) + times_full n rs (suc k)
times_full n (down ss ∷ rs) k = times_full n rs (k - 1)

abbrev pub times_empty : List Report → ℕ → ℕ
times_empty [] k = 0
times_empty (up ∷ rs) k = times_empty rs (suc k)
times_empty (down ss ∷ rs) k = (if k - 1 == 0 then 1 else 0) + times_empty rs (k - 1)

-- What the reports leave: these counts, and the other fields that they do not touch.
pub record Counted (c : Client) (rs : List Report) (k : ℕ) (c' : Client) : Type 0 where
  pub connected : c'.num_connected ≡ connected_after rs k
  pub full : c'.all_up ≡ c.all_up + times_full c.session_count rs k
  pub empty : c'.all_down ≡ c.all_down + times_empty rs k
  pub same : c'.session_count ≡ c.session_count

on_connect_lem :
    (c : Client) (k : ℕ)
    → c.num_connected ≡ k
    → suc k < 2 ^ 31
    → ((on_connect c).num_connected ≡ suc k)
      × ((on_connect c).all_up ≡ c.all_up + (if suc k == c.session_count then 1 else 0))
unfolding on_connect increment_and_get
on_connect_lem c k e h =
    rw e (let r : (k + 1) % 2 ^ 32 ≡ suc k = omega arith in (r, rw r (ground arith)))

on_disconnect_lem :
    (ss : List Session) (c : Client) (k : ℕ)
    → c.num_connected ≡ suc k
    → suc k < 2 ^ 31
    → ((on_disconnect ss c).num_connected ≡ k)
      × ((on_disconnect ss c).all_down ≡ c.all_down + (if k == 0 then 1 else 0))
unfolding on_disconnect decrement_and_get
on_disconnect_lem ss c k e h =
    rw e (let r : (suc k + (2 ^ 32 - 1)) % 2 ^ 32 ≡ k = omega arith in (r, rw r (ground arith)))

on_connect_same :
    (c : Client)
    → ((on_connect c).session_count ≡ c.session_count) × ((on_connect c).all_down ≡ c.all_down)
unfolding on_connect
on_connect_same c = (refl, refl)

on_disconnect_same :
    (ss : List Session) (c : Client)
    → ((on_disconnect ss c).session_count ≡ c.session_count)
      × ((on_disconnect ss c).all_up ≡ c.all_up)
unfolding on_disconnect
on_disconnect_same ss c = (refl, refl)

-- Over any history of connections that come up and go down, as the threads' atomic counts order them:
-- the counter is the number of connections that are up; `onConnect` reports "all connected" exactly
-- when a connection brings that number to the number of sessions, and `onDisconnect` reports "all
-- disconnected" and queues the functor that quits exactly when one brings it to 0, also where other
-- sessions have yet to come up.
pub report_all_lem :
    (rs : List Report) (c : Client) (k : ℕ)
    → c.num_connected ≡ k
    → k < 2 ^ 31
    → IsHistory rs k
    → Counted c rs k (report_all rs c)
unfolding report_all report
report_all_lem [] c k e h v = record {
  connected = e;
  full = omega arith;
  empty = omega arith;
  same = refl;
}
report_all_lem (up ∷ rs) c k e h (fits, v) =
    let (count, full) = on_connect_lem c k e fits in
    let r = report_all_lem rs (on_connect c) (suc k) count fits v in
    record {
      connected = r.connected;
      full = omega (arith, r.full, full, ap (λ n. times_full n rs (suc k)) (on_connect_same c).0);
      empty = omega (arith, r.empty, (on_connect_same c).1);
      same = r.same ∙ (on_connect_same c).0;
    }
report_all_lem (down ss ∷ rs) c zero e h v = elim v [ ]
report_all_lem (down ss ∷ rs) c (suc k) e h v =
    let (count, empty) = on_disconnect_lem ss c k e h in
    let r = report_all_lem rs (on_disconnect ss c) k count (omega arith) v in
    let back : suc k - 1 ≡ k = omega arith in
    let (count_same, up_same) = on_disconnect_same ss c in
    record {
      connected = rw back r.connected;
      full = rw back (omega (arith, r.full, ap (λ n. times_full n rs k) count_same, up_same));
      empty = rw back (omega (arith, r.empty, empty));
      same = r.same ∙ count_same;
    }
