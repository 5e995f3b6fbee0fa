-- ===== src/TcpServer/Tests.antt =====
-- A server with two connections.
use netfish.Prelude.{
  ℕ, ◌+◌, ◌≤◌, ◌≡◌, refl, inl, none, true, [], ◌∷◌, ◌++◌, ok, err, assertion_failed, arith,
}
use netfish.Prelude.Int.{pos}
use netfish.ThreadPool.{ThreadPool, get_next_loop, take_turn}
use netfish.TcpServer.{
  assign, TcpServer, Connection, establish, destroy, new_connection, remove_connection_in_loop,
}
use netfish.Channel.{
  is_writing, enable_writing, disable_all, handle_event, on_close, on_error, on_write,
}
use netfish.Buffer.{append, make_room, ensure_writable_bytes, has_written}
use netfish.TcpConnection.{
  TcpConnection, no_write, send_in_loop, write_now, keep_rest, handle_close, closing,
}
use netfish.TcpConnection.Reading.{closed}
use netfish.TcpConnection.Opening.{made, made_lem}
use netfish.TcpConnection.Sample.{quiet, empty_buffer}
use netfish.TcpServer.Lifecycle.{System, HasNoLateSend, Reachable, begin, next, accepts, set_conn}
use netfish.TcpServer.Totals.{total, has_id, opens, ends}
use netfish.TcpServer.Orderly.{Succeeds, to_establish, orderly}
use netfish.TcpServer.Ends.{Ends, conn-Ends}
use netfish.TcpServer.ClosedTwice.{hung_up, closed_twice}
use netfish.TcpServer.Connections.{IsValid, Lacks, new_connection_lem, remove_connection_lem}

abbrev pool : ℕ → ThreadPool
pool turn = record {
  base_loop = 1;
  started = true;
  num_threads = pos 2;
  next = turn;
  threads = 20 ∷ 21 ∷ [];
  loops = 10 ∷ 11 ∷ [];
}

abbrev first : Connection
first = record { conn_id = 1; io_loop = 10; sockfd = 5 }

abbrev second : Connection
second = record { conn_id = 2; io_loop = 11; sockfd = 6 }

abbrev server : TcpServer
server = record {
  thread_pool = pool 0;
  started = true;
  listening = true;
  next_conn_id = 3;
  connections = first ∷ second ∷ [];
  tasks = [];
}

server-IsValid : IsValid server
server-IsValid = record {
  below = (omega arith, (omega arith, tt));
  distinct = (((λ e. omega (arith, e)), tt), (tt, tt));
}

next_loop : get_next_loop true (pool 0) ≡ ok (10, pool 1)
unfolding get_next_loop take_turn
next_loop = refl

third_accepted :
    (s' : TcpServer) × (new_connection true 7 server ≡ ok s')
    × IsValid s'
    × (let conn : Connection = record { conn_id = 3; io_loop = 10; sockfd = 7 } in
        (s'.connections ≡ (first ∷ second ∷ []) ++ (conn ∷ []))
        × (s'.tasks ≡ [] ++ (establish conn ∷ []))
        × Lacks 3 (first ∷ second ∷ []))
third_accepted = new_connection_lem 7 10 (pool 1) server server-IsValid (omega arith) next_loop

remove_connection_example :
    (s' : TcpServer) × (remove_connection_in_loop true first server ≡ ok s')
    × IsValid s'
    × (s'.connections ≡ second ∷ [])
    × (s'.tasks ≡ destroy first ∷ [])
    × (remove_connection_in_loop true first s' ≡ err assertion_failed)
remove_connection_example = remove_connection_lem first [] (second ∷ []) server server-IsValid refl

-- A server that has just been started, and the same server with a first connection.
abbrev started : System
started = record {
  server = record server { connections = []; next_conn_id = 1 };
  conns = λ n. none;
  closing = [];
}

abbrev third : Connection
third = record { conn_id = 1; io_loop = 10; sockfd = 7 }

abbrev one_accepted : System
one_accepted = record {
  server = record server {
    thread_pool = pool 1;
    connections = third ∷ [];
    next_conn_id = 2;
    tasks = establish third ∷ [];
  };
  conns = set_conn 1 (made 7) started.conns;
  closing = [];
}

accepted_third : new_connection true 7 started.server ≡ ok one_accepted.server
unfolding new_connection get_next_loop take_turn assign
accepted_third = refl

one_accepted-Reachable : Reachable one_accepted
one_accepted-Reachable =
    next started one_accepted (begin started (refl, refl, refl, λ n. refl))
      (accepts started 7 one_accepted.server (made 7) accepted_third (made_lem 7))

-- No message has been sent.
in_time : HasNoLateSend one_accepted-Reachable
unfolding HasNoLateSend one_accepted-Reachable
in_time = (tt, tt)

orderly_example :
    Succeeds one_accepted (to_establish [] [] third refl)
    × (total (opens 1) one_accepted.server.tasks
          + total (has_id 1) one_accepted.closing
          + total (ends 1) one_accepted.server.tasks
        ≤ 1)
orderly_example =
    orderly one_accepted one_accepted-Reachable in_time (to_establish [] [] third refl)

-- A connection with nothing to write that has been closed, and then sent one byte in vain.
abbrev reopened : TcpConnection
reopened = record (closed quiet) {
  output_buffer = record empty_buffer {
    buffer = 0 ∷ 0 ∷ 0 ∷ 0 ∷ 0 ∷ 0 ∷ 0 ∷ 0 ∷ 9 ∷ 0 ∷ 0 ∷ 0 ∷ [];
    writer_index = 9;
  };
  channel = enable_writing (disable_all quiet.channel);
}

sent_in_vain : send_in_loop no_write (9 ∷ []) (closed quiet) ≡ ok reopened
unfolding send_in_loop keep_rest write_now append is_writing disable_all ensure_writable_bytes
    has_written make_room
sent_in_vain = refl

closed_twice_example :
    (is_writing reopened.channel ≡ true)
    × (handle_event (record reopened.channel { revents = hung_up })
        ≡ on_close ∷ on_error ∷ on_write ∷ [])
    × (handle_close reopened ≡ ok (closed reopened))
    × ((closed reopened).calls ≡ [] ++ (closing ∷ closing ∷ []))
    × ((s' : TcpServer) × (remove_connection_in_loop true first server ≡ ok s')
        × (remove_connection_in_loop true first s' ≡ err assertion_failed))
closed_twice_example =
    closed_twice (9 ∷ []) quiet reopened first server (inl refl) refl refl refl (omega arith)
      sent_in_vain refl

conn-Ends_example : Ends one_accepted 1
conn-Ends_example = conn-Ends one_accepted 1 (made 7) one_accepted-Reachable in_time refl
