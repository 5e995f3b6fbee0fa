-- ===== src/Socket.antt =====
-- Socket.h and Socket.cc: a socket that its object closes. What the system calls answer is an
-- argument, as in Sockets.
use netfish.Prelude.{ℕ, Bool, if◌then◌else◌, Option, none, some, Outcome, ok, ◌>>=◌, ◌>>◌}
use netfish.Sockets.{SockaddrIn, zeroed, Accept4, accept, bind_or_die, listen_or_die}
use netfish.InetAddress.{InetAddress, set_sock_addr_inet}

-- `closed` is whether the descriptor has been closed.
pub record Socket : Type 0 where
  pub sockfd : ℕ
  pub closed : Bool

-- The destructor.
unfoldable pub destroy : Socket → Socket
destroy s = record s { closed = Bool.true }

unfoldable pub bind_address : Bool → Socket → Outcome Socket
unfolding bind_or_die
bind_address succeeds s = do bind_or_die succeeds; ok s

unfoldable pub listen_socket : Bool → Socket → Outcome Socket
unfolding listen_or_die
listen_socket succeeds s = do listen_or_die succeeds; ok s

-- The peer's address is set where there is a connection.
abbrev pub peer_of : Option ℕ × SockaddrIn → InetAddress → Option ℕ × InetAddress
peer_of (none, addr) peer = (none, peer)
peer_of (some fd, addr) peer = (some fd, set_sock_addr_inet addr peer)

unfoldable pub accept_connection : Accept4 → InetAddress → Outcome (Option ℕ × InetAddress)
unfolding accept
accept_connection answer peer = do r ← accept answer zeroed; ok (peer_of r peer)

-- The value that `setReuseAddr` and `setTcpNoDelay` hand to `setsockopt`.
abbrev pub optval : Bool → ℕ
optval on = if on then 1 else 0
