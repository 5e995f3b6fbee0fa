-- ===== src/TcpConnection/Tests.antt =====
-- The theorems at the sample connections.
use netfish.Prelude.{
  ℕ, ◌≡◌, ◌⊎◌, refl, inl, true, false, List, [], ◌∷◌, ok, err, Fault, StopsBuffer, assertion_failed,
  arith, ◌==◌,
}
use netfish.Channel.{none_event, is_writing}
use netfish.Buffer.{
  Buffer, readable_bytes, received, append, retrieve, ensure_writable_bytes, make_room, has_written,
}
use netfish.Buffer.Valid.{contents}
use netfish.Buffer.Room.{behind}
use netfish.Buffer.Input.{Overruns}
use netfish.TcpConnection.Opening.{establish_lem}
use netfish.TcpConnection.{
  new, connect_established, connection_up, TcpConnection, connected, disconnected, wrote, no_write,
  send_functor, send, send_in_loop, shutdown, handle_write, handle_read, handle_close,
  connect_destroyed, run_functor, closing, connection_down,
}
use netfish.TcpConnection.Valid.{IsOpen, stream, Extends}
use netfish.TcpConnection.Sample.{empty_buffer, quiet, sending, quiet-IsOpen, sending-IsOpen}
use netfish.TcpConnection.Sending.{send_in_loop-Extends}
use netfish.TcpConnection.Writing.{handle_write-IsOpen}
use netfish.TcpConnection.Closing.{write_all, total, shutdown_lem, late_send}
use netfish.TcpConnection.Reading.{closed, arrived, received_lem, close_lem}
use netfish.TcpConnection.Streams.{Op, sends, shuts, writable, run, run_streams}

three_bytes_sent : Extends quiet (1 ∷ 2 ∷ 3 ∷ []) (send_in_loop (wrote 1) (1 ∷ 2 ∷ 3 ∷ []) quiet)
three_bytes_sent =
    send_in_loop-Extends (wrote 1) (1 ∷ 2 ∷ 3 ∷ []) quiet quiet-IsOpen (omega arith) (omega arith)

one_byte_written :
    (c' : TcpConnection) × (handle_write (wrote 1) sending ≡ ok c')
    × IsOpen c'
    × (stream c' ≡ 5 ∷ 6 ∷ [])
one_byte_written = handle_write-IsOpen (wrote 1) sending sending-IsOpen (omega arith)

abbrev some_ops : List Op
some_ops =
    sends true (wrote 1) (1 ∷ 2 ∷ 3 ∷ [])
    ∷ writable no_write
    ∷ sends true no_write (4 ∷ [])
    ∷ shuts true
    ∷ []

run_streams_example :
    ((sent : List ℕ) × (c' : TcpConnection) × (run some_ops quiet ≡ ok (sent, c'))
      × IsOpen c'
      × (stream c' ≡ sent))
    ⊎ ((e : Fault) × StopsBuffer e × (run some_ops quiet ≡ err e))
run_streams_example = run_streams some_ops quiet quiet-IsOpen (
  (omega arith, omega arith),
  (λ c₁ e₁. (tt, (λ c₂ e₂. ((tt, omega arith), (λ c₃ e₃. (tt, (λ c₄ e₄. tt))))))),
)

shutdown_example :
    (c' : TcpConnection) × (write_all (1 ∷ 1 ∷ []) (shutdown true sending) ≡ ok c')
    × IsOpen c'
    × (stream c' ≡ 5 ∷ 6 ∷ [])
    × (contents c'.output_buffer ≡ [])
    × (c'.shut ≡ (readable_bytes c'.output_buffer == 0))
unfolding total
shutdown_example =
    shutdown_lem (1 ∷ 1 ∷ []) sending sending-IsOpen refl refl (omega arith, (omega arith, tt))
      (omega arith)

late_send_example :
    (c₁ c₂ : TcpConnection) × (send false no_write (1 ∷ 2 ∷ []) quiet ≡ ok c₁)
    × (c₁.pending ≡ send_functor (1 ∷ 2 ∷ []) ∷ [])
    × ((shutdown true c₁).shut ≡ true)
    × (run_functor no_write (send_functor (1 ∷ 2 ∷ [])) (shutdown true c₁) ≡ ok c₂)
    × (c₂.shut ≡ true)
    × (c₂.written ≡ [])
    × (contents c₂.output_buffer ≡ 1 ∷ 2 ∷ [])
    × (is_writing c₂.channel ≡ true)
late_send_example =
    late_send (1 ∷ 2 ∷ []) no_write quiet quiet-IsOpen refl refl refl (omega arith) (omega arith)
      (behind (omega arith))

bytes_received :
    ((b : Buffer) × netfish.Buffer.Valid.IsValid b
      × (contents b ≡ 7 ∷ 8 ∷ [])
      × (handle_read (received (7 ∷ 8 ∷ [])) quiet
          ≡ ok (arrived (7 ∷ 8 ∷ []) (record quiet { input_buffer = b }))))
    ⊎ (Overruns (7 ∷ 8 ∷ []) empty_buffer
        × (handle_read (received (7 ∷ 8 ∷ [])) quiet ≡ err assertion_failed))
bytes_received =
    received_lem (7 ∷ 8 ∷ []) quiet (inl refl) (omega arith) (omega arith) (omega arith)

closed_again :
    (handle_close quiet ≡ ok (closed quiet))
    × (handle_close (closed quiet) ≡ ok (closed (closed quiet)))
    × ((c' : TcpConnection) × (connect_destroyed (closed quiet) ≡ ok c')
        × (c'.state ≡ disconnected)
        × (c'.channel.events ≡ none_event)
        × (c'.removed ≡ true)
        × (c'.calls ≡ closing ∷ connection_down ∷ [])
        × (handle_close c' ≡ err assertion_failed)
        × (connect_destroyed c' ≡ err assertion_failed))
closed_again = close_lem quiet (inl refl)

established :
    (c c' : TcpConnection) × (new 4 ≡ ok c)
    × (connect_established c ≡ ok c')
    × IsOpen c'
    × (c'.state ≡ connected)
    × (stream c' ≡ [])
    × (c'.channel.fd ≡ 4)
    × (c'.channel.events.pollin ≡ true)
    × (is_writing c'.channel ≡ false)
    × (c'.calls ≡ connection_up ∷ [])
established = establish_lem 4
