-- ===== src/TcpConnection/Opening.antt =====
-- A new connection, and its establishment.
use netfish.Prelude.{ℕ, ◌≡◌, refl, true, false, [], ◌∷◌, arith, ok}
use netfish.Channel.{new as new_channel, enable_reading, is_writing}
use netfish.Buffer.New.{fresh, new_lem}
use netfish.TcpConnection.{
  TcpConnection, connected, connection_up, new, connect_established, not_yet, call,
}
use netfish.TcpConnection.Valid.{IsOpen, stream}

-- What the constructor makes.
abbrev pub made : ℕ → TcpConnection
made sockfd = record {
  state = not_yet;
  channel = record (new_channel sockfd) {
    handlers = record {
      close_callback = true;
      error_callback = true;
      read_callback = true;
      write_callback = true;
    };
  };
  input_buffer = fresh;
  output_buffer = fresh;
  message_callback = false;
  write_complete_callback = false;
  written = [];
  shut = false;
  removed = false;
  pending = [];
  calls = [];
}

-- A new connection that is established waits to read and not to write, has nothing read or to
-- write, and its user is called once.
pub establish_lem :
    (sockfd : ℕ)
    → (c c' : TcpConnection) × (new sockfd ≡ ok c)
      × (connect_established c ≡ ok c')
      × IsOpen c'
      × (c'.state ≡ connected)
      × (stream c' ≡ [])
      × (c'.channel.fd ≡ sockfd)
      × (c'.channel.events.pollin ≡ true)
      × (is_writing c'.channel ≡ false)
      × (c'.calls ≡ connection_up ∷ [])
unfolding new connect_established enable_reading new_channel is_writing
establish_lem sockfd =
    let (buffer, valid, empty, room) = new_lem in
    let c = made sockfd in
    (
      c,
      call connection_up (record c { state = connected; channel = enable_reading c.channel }),
      ground (arith, buffer),
      refl,
      record { input = valid; output = valid; waits = λ e. empty; busy = λ e. refl },
      refl,
      empty,
      refl,
      refl,
      refl,
      refl,
    )

pub made_lem : (sockfd : ℕ) → new sockfd ≡ ok (made sockfd)
unfolding new
made_lem sockfd = ground (arith, new_lem.0)
