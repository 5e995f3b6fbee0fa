-- ===== src/Programs/Tests.antt =====
-- A session that gets bytes while its socket is full.
use netfish.Prelude.{
  ◌*◌, some, get_elem?, ◌+◌, ◌≡◌, ◌⊎◌, refl, List, [], ◌∷◌, arith, Fault, StopsBuffer, ok, err,
}
use netfish.TcpConnection.{TcpConnection, wrote, no_write}
use netfish.TcpConnection.Sample.{quiet, quiet-IsOpen}
use netfish.TcpConnection.Valid.{stream}
use netfish.Programs.PingPong.{Session, new_session, Event, arrives, writable, handle_events}
use netfish.Prelude.Int.{pos}
use netfish.Prelude.Decimal.{codes, snprintf, zero_padded, decimal}
use netfish.Logging.{init_log_level, logs_info}
use netfish.Atomic.{increment_and_get, decrement_and_get, get_and_add}
use netfish.Programs.Client.{session_name, new_client, block, on_connect, on_disconnect}
use netfish.Programs.Counts.{Report, up, down, report, report_all}
use netfish.Programs.TwoMessages.{config}
use netfish.Programs.ThreadSum.{func}
use netfish.Programs.Chargen.{message, get_elem?-message}
use netfish.Programs.Echo.{IsEchoing, echo_lem}

abbrev come_and_go : List Event
come_and_go = arrives 1 (2 ∷ 3 ∷ []) (wrote 1) ∷ writable no_write ∷ []

quiet-IsEchoing : IsEchoing quiet
quiet-IsEchoing = record { up = refl; open_still = quiet-IsOpen; read_all = refl; heard = refl }

echo_example :
    ((s' : Session) × (c' : TcpConnection) × (handle_events come_and_go (new_session, quiet)
        ≡ ok (s', c'))
      × IsEchoing c'
      × (stream c' ≡ 1 ∷ 2 ∷ 3 ∷ [])
      × (s'.bytes_read ≡ new_session.bytes_read + 3)
      × (s'.bytes_written ≡ new_session.bytes_written + 3))
    ⊎ ((f : Fault) × StopsBuffer f × (handle_events come_and_go (new_session, quiet) ≡ err f))
echo_example =
    echo_lem come_and_go new_session quiet quiet-IsEchoing
      ((omega arith, omega arith, omega arith), λ p' e. (tt, λ p'' e'. tt))

seventh_name : session_name 7 ≡ codes "C00007"
unfolding session_name snprintf zero_padded decimal
seventh_name = refl

-- Two sessions, of which the second comes up after the first one has gone: the client reports that
-- all are down in between.
abbrev two_sessions : List Report
two_sessions = up ∷ down (new_session ∷ []) ∷ up ∷ down (new_session ∷ []) ∷ []

early_quit : (report_all two_sessions (new_client 3 2)).all_down ≡ 2
unfolding report_all report on_connect on_disconnect increment_and_get decrement_and_get get_and_add
    new_client block
early_quit = refl

never_full : (report_all two_sessions (new_client 3 2)).all_up ≡ 0
unfolding report_all report on_connect on_disconnect increment_and_get decrement_and_get get_and_add
    new_client block
never_full = refl

-- The number of threads is the length of the first message.
wrong_argument : config (500 ∷ 100 ∷ 4 ∷ []) ≡ (500, 100, some 500)
unfolding config
wrong_argument = refl

-- At level 3 the threads count nothing.
silent : func (init_log_level (some (pos 3))) ≡ []
unfolding func init_log_level logs_info
silent = refl

first_and_last : (get_elem? message 0 ≡ some 33) × (get_elem? message (72 * 93 + 71) ≡ some 103)
first_and_last = (
  get_elem?-message 0 0 (omega arith) (omega arith),
  get_elem?-message 93 71 (omega arith) (omega arith),
)
