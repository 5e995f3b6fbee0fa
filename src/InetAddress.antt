-- ===== src/InetAddress.antt =====
-- InetAddress.h and InetAddress.cc: an address and its text.
pub mod Text
pub mod Dotted
mod Tests
use netfish.Prelude.{ℕ, List}
use netfish.Sockets.{
  Inet, SockaddrIn, af_inet, zeroed, host_to_network16, host_to_network32, to_host_port,
  from_host_port,
}

-- `addr_`.
abbrev pub InetAddress : Type 0
InetAddress = SockaddrIn

-- INADDR_ANY.
abbrev pub inaddr_any : ℕ
inaddr_any = 0

abbrev pub get_sock_addr_inet : InetAddress → SockaddrIn
get_sock_addr_inet a = a

abbrev pub set_sock_addr_inet : SockaddrIn → InetAddress → InetAddress
set_sock_addr_inet addr a = addr

module _ (net : Inet) where
  -- The constructors.
  unfoldable pub from_port : ℕ → InetAddress
  unfolding host_to_network16 host_to_network32
  from_port port = record zeroed {
    sin_family = af_inet;
    sin_addr = host_to_network32 net inaddr_any;
    sin_port = host_to_network16 net port;
  }

  unfoldable pub from_ip : List ℕ → ℕ → InetAddress
  unfolding from_host_port
  from_ip ip port = from_host_port net ip port zeroed

  -- `toHostPort`, with its array of 32 bytes.
  unfoldable pub to_text : InetAddress → List ℕ
  unfolding to_host_port
  to_text a = to_host_port net 32 a
