-- ===== src/TcpConnection/Reading.antt =====
-- `handleRead`, and the end of a connection.
use netfish.Prelude.{
  ℕ, ◌+◌, ◌≡◌, ◌≤◌, ◌⊎◌, inl, inr, true, List, [], ◌∷◌, ◌++◌, arith, length, ok, err,
  assertion_failed, refl, if◌then◌else◌,
}
use netfish.Channel.{disable_all, none_event}
use netfish.Buffer.{Buffer, Readv, received, failed, read_fd, max_size, extrabuf_size}
use netfish.Buffer.Input.{Overruns, read_fd_outcome}
use netfish.Buffer.Valid.{contents, writable}
use netfish.TcpConnection.{
  TcpConnection, connected, disconnecting, disconnected, handle_read, handle_close, after_read,
  connect_destroyed, call, closing, connection_down, message,
}

-- Whether `handleClose` and `connectDestroyed` may be called.
abbrev pub IsUp : TcpConnection → Type 0
IsUp c = (c.state ≡ connected) ⊎ (c.state ≡ disconnecting)

-- The connection after `handleClose`.
abbrev pub closed : TcpConnection → TcpConnection
closed c = call closing (record c { channel = disable_all c.channel })

pub handle_close_lem : (c : TcpConnection) → IsUp c → handle_close c ≡ ok (closed c)
unfolding handle_close
handle_close_lem c up = ground (arith, up)

-- The connection after bytes came into its input buffer, or none did.
unfoldable pub arrived : List ℕ → TcpConnection → TcpConnection
arrived [] c = closed c
arrived (x ∷ xs) c = if c.message_callback then call message c else c

after_read_lem :
    (xs : List ℕ) (c : TcpConnection) → IsUp c → after_read (received xs) c ≡ ok (arrived xs c)
unfolding after_read arrived
after_read_lem [] c up = handle_close_lem c up
after_read_lem (x ∷ xs) c up = refl

-- `handleRead` on a connection that is up, when `readv` brings bytes: they go behind those that
-- wait in the input buffer, and the message callback, if it is set, is called once; or, at the end
-- of the stream, the channel is disabled and the owner's callback called once, the state being left
-- as it is. The one fault is the assert that fails for bytes that overrun the buffer into its gap.
pub received_lem :
    (xs : List ℕ) (c : TcpConnection)
    → IsUp c
    → netfish.Buffer.Valid.IsValid c.input_buffer
    → length xs ≤ writable c.input_buffer + extrabuf_size
    → length c.input_buffer.buffer + (writable c.input_buffer + extrabuf_size) ≤ max_size
    → ((b : Buffer) × netfish.Buffer.Valid.IsValid b
        × (contents b ≡ contents c.input_buffer ++ xs)
        × (handle_read (received xs) c ≡ ok (arrived xs (record c { input_buffer = b }))))
      ⊎ (Overruns xs c.input_buffer × (handle_read (received xs) c ≡ err assertion_failed))
unfolding handle_read
received_lem xs c up v h s = elim (read_fd_outcome c.input_buffer xs v h s) [
  | inl (b, e, w, content) ↦
      inl (b, w, content, rw e (after_read_lem xs (record c { input_buffer = b }) up))
  | inr (o, e) ↦ inr (o, rw e refl)
]

-- A connection that is up may be closed more than once before its owner destroys it, and each time
-- the owner is called; once it is destroyed, it has left the poller, waits for no event, and a
-- further close or destruction aborts.
pub close_lem :
    (c : TcpConnection)
    → IsUp c
    → (handle_close c ≡ ok (closed c))
      × (handle_close (closed c) ≡ ok (closed (closed c)))
      × ((c' : TcpConnection) × (connect_destroyed (closed c) ≡ ok c')
          × (c'.state ≡ disconnected)
          × (c'.channel.events ≡ none_event)
          × (c'.removed ≡ true)
          × (c'.calls ≡ (c.calls ++ (closing ∷ [])) ++ (connection_down ∷ []))
          × (handle_close c' ≡ err assertion_failed)
          × (connect_destroyed c' ≡ err assertion_failed))
unfolding handle_close connect_destroyed disable_all
close_lem c up = (
  handle_close_lem c up,
  handle_close_lem (closed c) up,
  (
    call connection_down (record (closed c) {
      state = disconnected;
      channel = disable_all c.channel;
      removed = true;
    }),
    ground (arith, up),
    refl,
    refl,
    refl,
    refl,
    refl,
    refl,
  ),
)
