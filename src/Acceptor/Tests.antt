-- ===== src/Acceptor/Tests.antt =====
-- Events of a listening acceptor, errors among them.
use netfish.Prelude.{◌≡◌, refl, true, false, List, [], ◌∷◌, ◌++◌, some, ok, err, fatal}
use netfish.Sockets.{
  SockaddrIn, Errno, econnaborted, enfile, Accept4, connection, refused, create_non_blocking_or_die,
}
use netfish.InetAddress.Dotted.{little_endian}
use netfish.Socket.{bind_address}
use netfish.Acceptor.{Acceptor, new}
use netfish.Acceptor.Accepting.{Passes, handing_on, connections, accept_all, accept_all_lem}

abbrev listener : Acceptor
listener = record {
  accept_socket = record { sockfd = 3; closed = false };
  new_connection_callback = true;
  listening = true;
  reading = true;
  listens = true;
  handed_on = [];
  closed = [];
}

abbrev peer : SockaddrIn
peer = record { sin_family = 2; sin_port = 80; sin_addr = 7 }

-- Where the address is taken, the server ends.
address_in_use : new (some 3) false ≡ err fatal
unfolding new create_non_blocking_or_die bind_address
address_in_use = refl

abbrev two_and_an_error : List Accept4
two_and_an_error = connection 5 peer ∷ refused econnaborted ∷ connection 6 peer ∷ []

accept_all_example :
    (accept_all little_endian two_and_an_error listener
      ≡ ok (handing_on (connections two_and_an_error) listener))
    × ((e : Errno) (ys : List Accept4)
        → (Passes e → ⊥)
        → accept_all little_endian (two_and_an_error ++ (refused e ∷ ys)) listener ≡ err fatal)
accept_all_example = accept_all_lem little_endian two_and_an_error listener refl (tt, tt)

system_out_of_files :
    accept_all little_endian (two_and_an_error ++ (refused enfile ∷ [])) listener ≡ err fatal
system_out_of_files = accept_all_example.1 enfile [] (λ h. h)
