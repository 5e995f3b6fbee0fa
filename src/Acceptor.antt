-- ===== src/Acceptor.antt =====
-- Acceptor.h and Acceptor.cc: the listening socket of a server. `reading` is whether its channel
-- waits to read, `listens` whether the socket listens; the connections accepted are handed to the
-- callback or closed.
pub mod Accepting
mod Tests
use netfish.Prelude.{
  ℕ, Bool, true, false, List, [], ◌∷◌, ◌++◌, Option, none, some, if◌then◌else◌, Outcome, ok,
  wrong_thread, guard, ◌>>=◌, ◌>>◌,
}
use netfish.Sockets.{Inet, Accept4, create_non_blocking_or_die}
use netfish.InetAddress.{InetAddress, from_port}
use netfish.Socket.{Socket, bind_address, listen_socket, accept_connection}

pub record Acceptor : Type 0 where
  pub accept_socket : Socket
  pub new_connection_callback : Bool
  pub listening : Bool
  pub reading : Bool
  pub listens : Bool
  pub handed_on : List (ℕ × InetAddress)
  pub closed : List ℕ

-- The constructor, with what `socket` and `bind` answer.
unfoldable pub new : Option ℕ → Bool → Outcome Acceptor
unfolding create_non_blocking_or_die bind_address
new answer binds = do
  sockfd ← create_non_blocking_or_die answer
  socket ← bind_address binds (record { sockfd = sockfd; closed = false })
  ok (record {
    accept_socket = socket;
    new_connection_callback = false;
    listening = false;
    reading = false;
    listens = false;
    handed_on = [];
    closed = [];
  })

unfoldable pub set_new_connection_callback : Acceptor → Acceptor
set_new_connection_callback a = record a { new_connection_callback = true }

-- `here` is whether the caller is the loop's thread, `succeeds` what `listen` answers.
unfoldable pub listen : Bool → Bool → Acceptor → Outcome Acceptor
unfolding listen_socket
listen here succeeds a = do
  guard here wrong_thread
  let a' : Acceptor = record a { listening = true; reading = true }
  socket ← listen_socket succeeds a'.accept_socket
  ok (record a' { accept_socket = socket; listens = true })

-- What `accept` comes to: a descriptor with the peer's address, or an error that is only logged.
unfoldable pub accepted : Option ℕ × InetAddress → Acceptor → Acceptor
accepted (none, peer) a = a
accepted (some fd, peer) a =
    if a.new_connection_callback
    then record a { handed_on = a.handed_on ++ ((fd, peer) ∷ []) }
    else record a { closed = a.closed ++ (fd ∷ []) }

unfoldable pub handle_read : Inet → Bool → Accept4 → Acceptor → Outcome Acceptor
unfolding accept_connection
handle_read net here answer a = do
  guard here wrong_thread
  r ← accept_connection answer (from_port net 0)
  ok (accepted r a)
