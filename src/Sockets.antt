-- ===== src/Sockets.antt =====
-- SocketsOps.h and SocketsOps.cc. What a system call answers is an argument; a failed one that ends
-- in LOG_FATAL is the fault `fatal`, and one that is only logged leaves no trace. The C library's
-- conversions of addresses are the interface Inet.
mod Tests
use netfish.Prelude.{
  ℕ, ◌+◌, ◌≡◌, ◌<◌, ◌≤◌, ◌^◌, Bool, true, false, ◌&&◌, List, [], ◌∷◌, ◌++◌, Option, none, some,
  ◌==◌, length, Outcome, ok, err, fatal, ◌>>=◌, ◌>>◌,
}
use netfish.Prelude.Decimal.{codes, decimal, snprintf}

-- `htons`, `ntohs`, `htonl`, `inet_pton` and `inet_ntop`, both for AF_INET; `inet_ntop` is given an
-- array that is large enough. An address is a 32-bit number in network order.
pub record Inet : Type 0 where
  pub htons : ℕ → ℕ
  pub ntohs : ℕ → ℕ
  pub htonl : ℕ → ℕ
  pub pton : List ℕ → Option ℕ
  pub ntop : ℕ → Option (List ℕ)

abbrev pub af_inet : ℕ
af_inet = 2

-- `struct sockaddr_in`.
pub record SockaddrIn : Type 0 where
  pub sin_family : ℕ
  pub sin_port : ℕ
  pub sin_addr : ℕ

-- What `bzero` leaves.
abbrev pub zeroed : SockaddrIn
zeroed = record { sin_family = 0; sin_port = 0; sin_addr = 0 }

unfoldable pub create_non_blocking_or_die : Option ℕ → Outcome ℕ
create_non_blocking_or_die none = err fatal
create_non_blocking_or_die (some sockfd) = ok sockfd

-- `succeeds` is whether `bind` or `listen` answers 0.
unfoldable pub bind_or_die : Bool → Outcome (Unit {0})
bind_or_die true = ok tt
bind_or_die false = err fatal

unfoldable pub listen_or_die : Bool → Outcome (Unit {0})
listen_or_die true = ok tt
listen_or_die false = err fatal

-- The numbers that `accept` tells apart, and all others.
pub data Errno : Type 0 where
  eagain econnaborted eintr eproto eperm emfile : Errno
  ebadf efault einval enfile enobufs enomem enotsock eopnotsupp : Errno
  other : ℕ → Errno

-- What `accept4` answers: the connection and its other end, or the error.
pub data Accept4 : Type 0 where
  connection : ℕ → SockaddrIn → Accept4
  refused : Errno → Accept4

-- The `switch`.
unfoldable pub check_errno : Errno → Outcome (Unit {0})
check_errno eagain = ok tt
check_errno econnaborted = ok tt
check_errno eintr = ok tt
check_errno eproto = ok tt
check_errno eperm = ok tt
check_errno emfile = ok tt
check_errno ebadf = err fatal
check_errno efault = err fatal
check_errno einval = err fatal
check_errno enfile = err fatal
check_errno enobufs = err fatal
check_errno enomem = err fatal
check_errno enotsock = err fatal
check_errno eopnotsupp = err fatal
check_errno (other n) = err fatal

-- The descriptor, `none` for -1, and what is then in `addr`.
unfoldable pub accept : Accept4 → SockaddrIn → Outcome (Option ℕ × SockaddrIn)
unfolding check_errno
accept (connection fd peer) addr = ok (some fd, peer)
accept (refused errno) addr = do check_errno errno; ok (none, addr)

module _ (net : Inet) where
  unfoldable pub host_to_network16 : ℕ → ℕ
  host_to_network16 host16 = net.htons host16

  unfoldable pub host_to_network32 : ℕ → ℕ
  host_to_network32 host32 = net.htonl host32

  unfoldable pub network_to_host16 : ℕ → ℕ
  network_to_host16 net16 = net.ntohs net16

  abbrev pub host_or_invalid : Option (List ℕ) → List ℕ
  host_or_invalid none = codes "INVALID"
  host_or_invalid (some host) = host

  unfoldable pub to_host_port : ℕ → SockaddrIn → List ℕ
  unfolding network_to_host16 snprintf decimal
  to_host_port size addr = snprintf size (
      host_or_invalid (net.ntop addr.sin_addr)
      ++ (b':' ∷ decimal (network_to_host16 addr.sin_port)))

  -- What `inet_pton` does not read leaves the address as it was.
  abbrev pub read_or_keep : Option ℕ → ℕ → ℕ
  read_or_keep none old = old
  read_or_keep (some a) old = a

  unfoldable pub from_host_port : List ℕ → ℕ → SockaddrIn → SockaddrIn
  unfolding host_to_network16
  from_host_port ip port addr = record {
    sin_family = af_inet;
    sin_port = host_to_network16 port;
    sin_addr = read_or_keep (net.pton ip) addr.sin_addr;
  }

-- `getLocalAddr` and `getPeerAddr`, by what `getsockname` or `getpeername` answers.
abbrev pub address_or_zeroed : Option SockaddrIn → SockaddrIn
address_or_zeroed none = zeroed
address_or_zeroed (some addr) = addr

unfoldable pub get_local_addr : Option SockaddrIn → SockaddrIn
get_local_addr answer = address_or_zeroed answer

unfoldable pub get_peer_addr : Option SockaddrIn → SockaddrIn
get_peer_addr answer = address_or_zeroed answer

-- What `getsockopt` answers: the socket's error, or an error of its own.
pub data SocketError : Type 0 where
  optval : ℕ → SocketError
  unknown : ℕ → SocketError

unfoldable pub get_socket_error : SocketError → ℕ
get_socket_error (optval e) = e
get_socket_error (unknown errno) = errno

unfoldable pub is_self_connect : Option SockaddrIn → Option SockaddrIn → Bool
unfolding get_local_addr get_peer_addr
is_self_connect local peer =
    let localaddr = get_local_addr local in
    let peeraddr = get_peer_addr peer in
    localaddr.sin_port == peeraddr.sin_port && localaddr.sin_addr == peeraddr.sin_addr
