-- ===== src/Connector/Stopping.antt =====
-- A stop during an attempt, and a start after it.
use netfish.Prelude.{
  ℕ, ◌≡◌, refl, ap, ◌∙◌, true, false, [], ◌∷◌, none, arith, ok, err, assertion_failed,
}
use netfish.Channel.{Channel, on_write, handle_event}
use netfish.Connector.{
  Connector, connected, Kernel, Answer, start, stop, handle_all, handle, close, start_in_loop,
  finish, hand_over, remove_socket, remove_timer,
}
use netfish.Connector.Valid.{IsTrying, remove_socket_self, remove_timer_nil}
use netfish.Connector.Rounds.{happens, handle_one, handle_active, round, one}
use netfish.Connector.Handling.{do_pending_reset, torn, handle_write_lem}

-- A stop while an attempt is under way leaves a connector that can not be started again: when the
-- socket connects, it is closed, and the state stays `kConnected`, so the assert of the next start
-- fails.
pub stop_blocks_start :
    (k : Kernel) (ch : Channel) (a : Answer) (n fd : ℕ) (c : Connector)
    → c.pending ≡ []
    → IsTrying n fd c
    → handle_event ch ≡ on_write ∷ []
    → a.so_error ≡ false
    → a.self_connect ≡ false
    → (c' : Connector) × (one k (happens ch a) (stop true c) ≡ ok c')
      × (c'.sockets ≡ [])
      × (c'.handed_on ≡ c.handed_on)
      × (c'.state ≡ connected)
      × (start true k c' ≡ err assertion_failed)
unfolding round handle_active handle_one handle_all handle finish hand_over stop start start_in_loop
stop_blocks_start k ch a n fd c p t e no_error not_self =
    let c₁ = stop true c in
    let t₁ : IsTrying n fd c₁ = record {
      state = t.state;
      sockets = t.sockets;
      timers = ap (remove_timer c.timer_id) t.timers ∙ remove_timer_nil c.timer_id;
      channel = t.channel;
      delay = t.delay;
    } in
    let closed : Connector = close fd (record (torn fd c₁) { state = connected }) in
    let f : finish a fd (torn fd c₁) ≡ closed = ground (arith, no_error, not_self) in
    (
      record closed { channel = none; pending = [] },
      ground (arith, e, handle_write_lem a n fd c₁ p t₁, f, do_pending_reset (λ n. k) closed refl),
      ap (remove_socket fd) t.sockets ∙ remove_socket_self fd,
      refl,
      refl,
      refl,
    )
