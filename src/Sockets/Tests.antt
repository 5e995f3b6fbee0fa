-- ===== src/Sockets/Tests.antt =====
-- Some answers of system calls.
use netfish.Prelude.{◌≡◌, refl, true, false, none, some, ok, err, fatal}
use netfish.Sockets.{
  SockaddrIn, zeroed, create_non_blocking_or_die, bind_or_die, listen_or_die, refused, emfile,
  enfile, other, accept, unknown, get_socket_error, is_self_connect,
}

no_socket : create_non_blocking_or_die none ≡ err fatal
unfolding create_non_blocking_or_die
no_socket = refl

address_in_use : (bind_or_die false ≡ err fatal) × (listen_or_die true ≡ ok tt)
unfolding bind_or_die listen_or_die
address_in_use = (refl, refl)

-- A process out of descriptors goes on, a system out of them ends it.
out_of_descriptors :
    (accept (refused emfile) zeroed ≡ ok (none, zeroed))
    × (accept (refused enfile) zeroed ≡ err fatal)
    × (accept (refused (other 101)) zeroed ≡ err fatal)
unfolding accept
out_of_descriptors = (refl, refl, refl)

no_option : get_socket_error (unknown 9) ≡ 9
unfolding get_socket_error
no_option = refl

abbrev local : SockaddrIn
local = record { sin_family = 2; sin_port = 80; sin_addr = 7 }

-- A socket is taken to be connected to itself also where neither address can be had.
self_connects :
    (is_self_connect (some local) (some local) ≡ true)
    × (is_self_connect (some local) (some (record local { sin_port = 81 })) ≡ false)
    × (is_self_connect none none ≡ true)
unfolding is_self_connect
self_connects = (refl, refl, refl)
