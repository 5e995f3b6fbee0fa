-- ===== src/TcpConnection/Sample.antt =====
-- A connection with nothing to write, and one with two bytes to write.
use netfish.Prelude.{refl, Bool, true, false, [], ◌∷◌, arith}
use netfish.Channel.{none_event, is_added, Handlers, is_writing}
use netfish.Buffer.{Buffer}
use netfish.TcpConnection.{TcpConnection, connected}
use netfish.TcpConnection.Valid.{IsOpen}

abbrev pub empty_buffer : Buffer
empty_buffer = record {
  buffer = 0 ∷ 0 ∷ 0 ∷ 0 ∷ 0 ∷ 0 ∷ 0 ∷ 0 ∷ 0 ∷ 0 ∷ 0 ∷ 0 ∷ [];
  reader_index = 8;
  writer_index = 8;
}

abbrev pub two_bytes : Buffer
two_bytes = record {
  buffer = 0 ∷ 0 ∷ 0 ∷ 0 ∷ 0 ∷ 0 ∷ 0 ∷ 0 ∷ 5 ∷ 6 ∷ 0 ∷ 0 ∷ [];
  reader_index = 8;
  writer_index = 10;
}

abbrev pub handlers : Handlers
handlers = record {
  close_callback = true;
  error_callback = true;
  read_callback = true;
  write_callback = true;
}

abbrev pub with_output : Bool → Buffer → TcpConnection
with_output writing b = record {
  state = connected;
  channel = record {
    fd = 4;
    events = record none_event { pollin = true; pollpri = true; pollout = writing };
    revents = none_event;
    index = is_added;
    event_handling = false;
    handlers = handlers;
  };
  input_buffer = empty_buffer;
  output_buffer = b;
  message_callback = true;
  write_complete_callback = true;
  written = [];
  shut = false;
  removed = false;
  pending = [];
  calls = [];
}

abbrev pub quiet : TcpConnection
quiet = with_output false empty_buffer

abbrev pub sending : TcpConnection
sending = with_output true two_bytes

pub quiet-IsOpen : IsOpen quiet
unfolding is_writing
quiet-IsOpen = record {
  input = omega arith;
  output = omega arith;
  waits = λ e. refl;
  busy = λ e. refl;
}

pub sending-IsOpen : IsOpen sending
unfolding is_writing
sending-IsOpen = record {
  input = omega arith;
  output = omega arith;
  waits = λ e. absurd (cc);
  busy = λ e. absurd (cc);
}
