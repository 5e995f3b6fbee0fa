-- ===== src/TcpServer/ClosedTwice.antt =====
-- TcpConnection.cc and TcpServer.cc: a functor that sends, run between the close of a connection and
-- its destruction. `handleClose` leaves the state as it is, and `sendInLoop` does not look at it.
use netfish.Prelude.{
  ℕ, ◌≡◌, ◌<◌, refl, ap, append_assoc, sym, ◌∙◌, Bool-cases, inl, inr, true, false, List, [], ◌∷◌,
  ◌++◌, length, arith, Outcome-cases, ok, err, assertion_failed,
}
use netfish.Channel.{
  Mask, none_event, on_close, on_error, on_write, is_writing, enable_writing, disable_all,
  handle_event,
}
use netfish.Buffer.{append}
use netfish.TcpConnection.{
  TcpConnection, no_write, closing, is_idle, write_now, keep_rest, send_in_loop, handle_close,
}
use netfish.TcpConnection.Reading.{IsUp, closed, handle_close_lem}
use netfish.TcpServer.{TcpServer, Connection, remove_connection_in_loop}
use netfish.TcpServer.Totals.{total, has_id, erase-total, has_id_self}
use netfish.TcpServer.Removing.{without, remove_lem, remove_again}

-- What epoll reports of a socket whose peer has reset it, when only writing is asked for: a hangup is
-- reported whether it is asked for or not.
abbrev pub hung_up : Mask
hung_up = record none_event { pollout = true; pollerr = true; pollhup = true }

-- A message of which `write` takes nothing goes into the output buffer whole.
refused :
    (msg : List ℕ) (c : TcpConnection)
    → 0 < length msg
    → send_in_loop no_write msg c ≡ keep_rest msg c
unfolding send_in_loop write_now
refused msg c h = elim (Bool-cases (is_idle c)) [
  | inl e ↦ rw e (ground (arith, h))
  | inr e ↦ rw e (ground (arith, h))
]

kept_rest :
    (msg : List ℕ) (c c' : TcpConnection)
    → is_writing c.channel ≡ false
    → keep_rest msg c ≡ ok c'
    → (c'.channel ≡ enable_writing c.channel) × (c'.state ≡ c.state) × (c'.calls ≡ c.calls)
unfolding keep_rest
kept_rest msg c c' w e = elim (Outcome-cases (append msg c.output_buffer)) [
  | inl (b, p) ↦ ground (arith, w, rw p at e)
  | inr (f, p) ↦ absurd (cc (rw p at e))
]

-- A connection that is up, with the handlers that the constructor sets, is closed; then a functor that
-- waited sends a message, of which `write` takes nothing as the peer is gone. The channel waits for
-- events again; when the hangup is reported, the connection is closed a second time and its owner
-- called a second time; and on a server that has the connection once in its map, the first removal
-- succeeds and the second one aborts.
pub closed_twice :
    (msg : List ℕ) (c c' : TcpConnection) (conn : Connection) (s : TcpServer)
    → IsUp c
    → c.channel.handlers.close_callback ≡ true
    → c.channel.handlers.error_callback ≡ true
    → c.channel.handlers.write_callback ≡ true
    → 0 < length msg
    → send_in_loop no_write msg (closed c) ≡ ok c'
    → total (has_id conn.conn_id) s.connections ≡ 1
    → (is_writing c'.channel ≡ true)
      × (handle_event (record c'.channel { revents = hung_up })
          ≡ on_close ∷ on_error ∷ on_write ∷ [])
      × (handle_close c' ≡ ok (closed c'))
      × ((closed c').calls ≡ c.calls ++ (closing ∷ closing ∷ []))
      × ((s' : TcpServer) × (remove_connection_in_loop true conn s ≡ ok s')
          × (remove_connection_in_loop true conn s' ≡ err assertion_failed))
unfolding is_writing enable_writing disable_all handle_event remove_connection_in_loop
closed_twice msg c c' conn s up h₁ h₂ h₃ h e m =
    let (channel, state, calls) =
      kept_rest msg (closed c) c' refl (sym (refused msg (closed c) h) ∙ e) in
    let up' : IsUp c' = ground (arith, up, state) in
    let (one, rest) = erase-total conn.conn_id s.connections m in
    (
      ap (λ ch. ch.events.pollout) channel,
      ground (arith, channel, h₁, h₂, h₃),
      handle_close_lem c' up',
      ap (λ l. l ++ (closing ∷ [])) calls ∙ append_assoc c.calls (closing ∷ []) (closing ∷ []),
      (
        without conn s,
        remove_lem conn s one,
        remove_again conn (without conn s) (omega (arith, rest conn.conn_id, m, has_id_self conn)),
      ),
    )
