-- ===== src/TcpConnection.antt =====
-- TcpConnection.h and TcpConnection.cc: a connection, for a server and a client. The state has,
-- with the connection's own fields, what it does to the kernel, to its loop and to its owner. The
-- poller's side of `update` and `removeChannel` is in EPoller; here `removed` notes the call.
pub mod Valid
pub mod Opening
pub mod Sending
pub mod Writing
pub mod Closing
pub mod Reading
pub mod Streams
pub mod Kept
pub mod Sample
mod Tests
use netfish.Prelude.{
  ℕ, ◌+◌, ◌≡◌, Bool, true, false, not, ◌&&◌, ◌||◌, List, [], ◌∷◌, ◌++◌, ltb, leb, ◌==◌,
  if◌then◌else◌, length, take, drop, slice, Outcome, ok, err, assert, ◌>>=◌, ◌>>◌,
}
use netfish.Channel.{
  new as new_channel, Handlers, Channel, enable_reading, enable_writing, disable_writing,
  disable_all, is_writing,
}
use netfish.Buffer.{
  new as new_buffer, Buffer, Readv, received, failed, peek, readable_bytes, append, retrieve,
  retrieve_as_string, read_fd,
}

-- `StateE`.
pub data State : Type 0 where
  not_yet connected disconnecting disconnected : State

abbrev pub is_not_yet : State → Bool
is_not_yet not_yet = true
is_not_yet _ = false

abbrev pub is_connected : State → Bool
is_connected connected = true
is_connected _ = false

abbrev pub is_disconnecting : State → Bool
is_disconnecting disconnecting = true
is_disconnecting _ = false

-- The functors that wait in the loop's queue, those from other threads among them.
pub data Functor : Type 0 where
  write_complete : Functor
  send_functor : List ℕ → Functor
  shutdown_functor : Functor

-- The calls of the user's callbacks, and of the owner's for closing.
pub data Call : Type 0 where
  connection_up connection_down message closing : Call

-- `written` are the bytes that `write` has taken, `shut` is whether `shutdownWrite` was called.
pub record TcpConnection : Type 0 where
  pub state : State
  pub channel : Channel
  pub input_buffer : Buffer
  pub output_buffer : Buffer
  pub message_callback : Bool
  pub write_complete_callback : Bool
  pub written : List ℕ
  pub shut : Bool
  pub removed : Bool
  pub pending : List Functor
  pub calls : List Call

-- What `write` answers: how many bytes it took, or -1.
pub data Write : Type 0 where
  wrote : ℕ → Write
  no_write : Write

abbrev pub call : Call → TcpConnection → TcpConnection
call x c = record c { calls = c.calls ++ (x ∷ []) }

-- `loop_->queueInLoop`.
abbrev pub queue : Functor → TcpConnection → TcpConnection
queue f c = record c { pending = c.pending ++ (f ∷ []) }

-- The constructor; the message and write-complete callbacks are set later.
unfoldable pub new : ℕ → Outcome TcpConnection
new sockfd = do
  input ← new_buffer
  output ← new_buffer
  let handlers : Handlers = record {
    close_callback = true;
    error_callback = true;
    read_callback = true;
    write_callback = true;
  }
  ok (record {
    state = not_yet;
    channel = record (new_channel sockfd) { handlers = handlers };
    input_buffer = input;
    output_buffer = output;
    message_callback = false;
    write_complete_callback = false;
    written = [];
    shut = false;
    removed = false;
    pending = [];
    calls = [];
  })

unfoldable pub set_message_callback : TcpConnection → TcpConnection
set_message_callback c = record c { message_callback = true }

unfoldable pub set_write_complete_callback : TcpConnection → TcpConnection
set_write_complete_callback c = record c { write_complete_callback = true }

unfoldable pub connect_established : TcpConnection → Outcome TcpConnection
connect_established c = do
  assert (is_not_yet c.state)
  ok (call connection_up (record c { state = connected; channel = enable_reading c.channel }))

unfoldable pub connect_destroyed : TcpConnection → Outcome TcpConnection
connect_destroyed c = do
  assert (is_connected c.state || is_disconnecting c.state)
  ok (
      call connection_down
        (record c { state = disconnected; channel = disable_all c.channel; removed = true }))

-- The state stays as it is until `connectDestroyed`.
unfoldable pub handle_close : TcpConnection → Outcome TcpConnection
handle_close c = do
  assert (is_connected c.state || is_disconnecting c.state)
  ok (call closing (record c { channel = disable_all c.channel }))

-- What follows `readFd`, by the number of bytes that it returns; an error is only logged.
unfoldable pub after_read : Readv → TcpConnection → Outcome TcpConnection
after_read (received []) c = handle_close c
after_read (received (x ∷ xs)) c = ok (if c.message_callback then call message c else c)
after_read (failed errno) c = ok c

unfoldable pub handle_read : Readv → TcpConnection → Outcome TcpConnection
handle_read answer c = do
  r ← read_fd answer c.input_buffer
  after_read r.1 (record c { input_buffer = r.0 })

unfoldable pub shutdown_in_loop : TcpConnection → TcpConnection
shutdown_in_loop c = record c { shut = if not (is_writing c.channel) then true else c.shut }

-- `here` is whether the caller is the loop's thread.
unfoldable pub shutdown : Bool → TcpConnection → TcpConnection
shutdown here c =
    if is_connected c.state
    then (if here
        then shutdown_in_loop (record c { state = disconnecting })
        else queue shutdown_functor (record c { state = disconnecting }))
    else c

abbrev pub when_complete : TcpConnection → TcpConnection
when_complete c = record c {
  pending = if c.write_complete_callback then c.pending ++ (write_complete ∷ []) else c.pending;
}

-- The direct `write` of `sendInLoop`: the value of `nwrote`, and the connection.
unfoldable pub write_now : Write → List ℕ → TcpConnection → ℕ × TcpConnection
write_now no_write msg c = (0, c)
write_now (wrote n) msg c =
    let c₁ : TcpConnection = record c { written = c.written ++ take n msg } in
    (
      n,
      record c₁ { pending = if ltb n (length msg) then c.pending else (when_complete c₁).pending },
    )

-- The rest of the message goes into the output buffer.
unfoldable pub keep_rest : List ℕ → TcpConnection → Outcome TcpConnection
keep_rest rest c = do
  output ← append rest c.output_buffer
  ok (record c {
    output_buffer = output;
    channel = if not (is_writing c.channel) then enable_writing c.channel else c.channel;
  })

abbrev pub is_idle : TcpConnection → Bool
is_idle c = not (is_writing c.channel) && (readable_bytes c.output_buffer == 0)

unfoldable pub send_in_loop : Write → List ℕ → TcpConnection → Outcome TcpConnection
send_in_loop w msg c =
    let r = if is_idle c then write_now w msg c else (0, c) in
    if ltb r.0 (length msg) then keep_rest (drop r.0 msg) r.1 else ok r.1

unfoldable pub send : Bool → Write → List ℕ → TcpConnection → Outcome TcpConnection
send here w msg c =
    if is_connected c.state
    then (if here then send_in_loop w msg c else ok (queue (send_functor msg) c))
    else ok c

-- The output buffer has been written out.
unfoldable pub drained : TcpConnection → TcpConnection
drained c =
    let c₁ = when_complete (record c { channel = disable_writing c.channel }) in
    record c₁ { shut = if is_disconnecting c.state then (shutdown_in_loop c₁).shut else c.shut }

-- `write` took `n` bytes of the output buffer.
unfoldable pub after_write : ℕ → TcpConnection → Outcome TcpConnection
after_write n c = do
  let out = c.output_buffer
  let bytes = take n (slice (peek out) (readable_bytes out) out.buffer)
  output ← retrieve n out
  let c₁ : TcpConnection = record c { output_buffer = output; written = c.written ++ bytes }
  ok (if readable_bytes output == 0 then drained c₁ else c₁)

unfoldable pub handle_write : Write → TcpConnection → Outcome TcpConnection
handle_write no_write c = ok c
handle_write (wrote n) c = if is_writing c.channel && ltb 0 n then after_write n c else ok c

-- A functor of the connection, in the loop's thread.
unfoldable pub run_functor : Write → Functor → TcpConnection → Outcome TcpConnection
run_functor w write_complete c = ok c
run_functor w (send_functor msg) c = send_in_loop w msg c
run_functor w shutdown_functor c = ok (shutdown_in_loop c)
