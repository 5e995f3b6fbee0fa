-- ===== src/TcpServer/Connections.antt =====
-- The map of connections over any sequence of connections that come and go.
use netfish.Prelude.{
  ℕ, ◌+◌, ◌<◌, ◌≡◌, ◌≢◌, refl, sym, subst, true, List, [], ◌∷◌, ◌++◌, ok, err, assertion_failed,
  int_max, arith,
}
use netfish.ThreadPool.{ThreadPool, get_next_loop}
use netfish.TcpServer.{
  TcpServer, Connection, establish, destroy, assign, erase, new_connection,
  remove_connection_in_loop,
}

abbrev pub Below : ℕ → List Connection → Type 0
Below n [] = Unit {0}
Below n (c ∷ cs) = (c.conn_id < n) × Below n cs

abbrev pub Lacks : ℕ → List Connection → Type 0
Lacks n [] = Unit {0}
Lacks n (c ∷ cs) = (c.conn_id ≢ n) × Lacks n cs

-- No two connections have a name.
abbrev pub Distinct : List Connection → Type 0
Distinct [] = Unit {0}
Distinct (c ∷ cs) = Lacks c.conn_id cs × Distinct cs

pub record IsValid (s : TcpServer) : Type 0 where
  pub below : Below s.next_conn_id s.connections
  pub distinct : Distinct s.connections

Below-Lacks : (n : ℕ) (cs : List Connection) → Below n cs → Lacks n cs
Below-Lacks n [] b = tt
Below-Lacks n (c ∷ cs) (h, b) = ((λ e. omega (arith, e, h)), Below-Lacks n cs b)

Below-suc : (n : ℕ) (cs : List Connection) → Below n cs → Below (n + 1) cs
Below-suc n [] b = tt
Below-suc n (c ∷ cs) (h, b) = (omega arith, Below-suc n cs b)

-- A new name goes to the end of the list.
assign_new :
    (c : Connection) (cs : List Connection) → Lacks c.conn_id cs → assign c cs ≡ cs ++ (c ∷ [])
unfolding assign
assign_new c [] l = refl
assign_new c (d ∷ ds) (n, l) = ground (arith, n, assign_new c ds l)

Below-snoc :
    (n : ℕ) (c : Connection) (cs : List Connection)
    → c.conn_id < n
    → Below n cs
    → Below n (cs ++ (c ∷ []))
Below-snoc n c [] h b = (h, tt)
Below-snoc n c (d ∷ ds) h (k, b) = (k, Below-snoc n c ds h b)

Lacks-snoc :
    (n : ℕ) (c : Connection) (cs : List Connection)
    → c.conn_id ≢ n
    → Lacks n cs
    → Lacks n (cs ++ (c ∷ []))
Lacks-snoc n c [] h l = (h, tt)
Lacks-snoc n c (d ∷ ds) h (k, l) = (k, Lacks-snoc n c ds h l)

Distinct-snoc :
    (c : Connection) (cs : List Connection)
    → Lacks c.conn_id cs
    → Distinct cs
    → Distinct (cs ++ (c ∷ []))
Distinct-snoc c [] l d = (tt, tt)
Distinct-snoc c (x ∷ xs) (n, l) (k, d) =
    (Lacks-snoc x.conn_id c xs (λ e. n (sym e)) k, Distinct-snoc c xs l d)

-- A new connection on a valid server, in the thread of its loop: it has a name that no connection
-- has, the loop that the pool gives next, which is told to establish it, and the others stay. The number
-- of the next connection is below INT_MAX.
pub new_connection_lem :
    (sockfd io_loop : ℕ) (pool : ThreadPool) (s : TcpServer)
    → IsValid s
    → s.next_conn_id < int_max
    → get_next_loop true s.thread_pool ≡ ok (io_loop, pool)
    → (s' : TcpServer) × (new_connection true sockfd s ≡ ok s')
      × IsValid s'
      × (let conn : Connection = record {
        conn_id = s.next_conn_id;
        io_loop = io_loop;
        sockfd = sockfd;
      } in
          (s'.connections ≡ s.connections ++ (conn ∷ []))
          × (s'.tasks ≡ s.tasks ++ (establish conn ∷ []))
          × Lacks conn.conn_id s.connections)
unfolding new_connection
new_connection_lem sockfd io_loop pool s v small e =
    let conn : Connection = record {
      conn_id = s.next_conn_id;
      io_loop = io_loop;
      sockfd = sockfd;
    } in
    let fresh = Below-Lacks s.next_conn_id s.connections v.below in
    (
      record s {
        thread_pool = pool;
        next_conn_id = s.next_conn_id + 1;
        connections = s.connections ++ (conn ∷ []);
        tasks = s.tasks ++ (establish conn ∷ []);
      },
      ground (arith, e, small, assign_new conn s.connections fresh),
      record {
        below =
            Below-snoc (s.next_conn_id + 1) conn s.connections (omega arith)
              (Below-suc s.next_conn_id s.connections v.below);
        distinct = Distinct-snoc conn s.connections fresh v.distinct;
      },
      (refl, refl, fresh),
    )

erase-Lacks : (id : ℕ) (cs : List Connection) → Lacks id cs → erase id cs ≡ (cs, 0)
unfolding erase
erase-Lacks id [] l = refl
erase-Lacks id (c ∷ cs) (n, l) = ground (arith, n, erase-Lacks id cs l)

-- A connection in the middle of the list.
Below-remove :
    (n : ℕ) (c : Connection) (before after : List Connection)
    → Below n (before ++ (c ∷ after))
    → Below n (before ++ after)
Below-remove n c [] after (h, b) = b
Below-remove n c (d ∷ ds) after (h, b) = (h, Below-remove n c ds after b)

Lacks-remove :
    (n : ℕ) (c : Connection) (before after : List Connection)
    → Lacks n (before ++ (c ∷ after))
    → Lacks n (before ++ after) × (c.conn_id ≢ n)
Lacks-remove n c [] after (h, l) = (l, h)
Lacks-remove n c (d ∷ ds) after (h, l) = let (m, k) = Lacks-remove n c ds after l in ((h, m), k)

Distinct-remove :
    (c : Connection) (before after : List Connection)
    → Distinct (before ++ (c ∷ after))
    → Distinct (before ++ after) × Lacks c.conn_id (before ++ after)
Distinct-remove c [] after (l, d) = (d, l)
Distinct-remove c (x ∷ xs) after (l, d) =
    let (e, m) = Distinct-remove c xs after d in
    let (k, n) = Lacks-remove x.conn_id c xs after l in ((k, e), ((λ p. n (sym p)), m))

erase_there :
    (c : Connection) (before after : List Connection)
    → Lacks c.conn_id (before ++ after)
    → erase c.conn_id (before ++ (c ∷ after)) ≡ (before ++ after, 1)
unfolding erase
erase_there c [] after l = ground arith
erase_there c (d ∷ ds) after (n, l) = ground (arith, n, erase_there c ds after l)

-- The removal of a connection of a valid server, in the thread of its loop: that connection and no
-- other leaves the map, and its loop is told to destroy it; a second removal of it aborts.
pub remove_connection_lem :
    (conn : Connection) (before after : List Connection) (s : TcpServer)
    → IsValid s
    → s.connections ≡ before ++ (conn ∷ after)
    → (s' : TcpServer) × (remove_connection_in_loop true conn s ≡ ok s')
      × IsValid s'
      × (s'.connections ≡ before ++ after)
      × (s'.tasks ≡ s.tasks ++ (destroy conn ∷ []))
      × (remove_connection_in_loop true conn s' ≡ err assertion_failed)
unfolding remove_connection_in_loop
remove_connection_lem conn before after s v e =
    let (distinct, gone) = Distinct-remove conn before after (subst Distinct e v.distinct) in
    (
      record s { connections = before ++ after; tasks = s.tasks ++ (destroy conn ∷ []) },
      ground (arith, e, erase_there conn before after gone),
      record {
        below =
            Below-remove s.next_conn_id conn before after (subst (Below s.next_conn_id) e v.below);
        distinct = distinct;
      },
      refl,
      refl,
      ground (arith, erase-Lacks conn.conn_id (before ++ after) gone),
    )
