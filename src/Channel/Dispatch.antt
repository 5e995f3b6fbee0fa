-- ===== src/Channel/Dispatch.antt =====
-- Which callbacks an event sets off.
use netfish.Prelude.{
  ◌≡◌, refl, ◌⊎◌, inl, inr, Bool, true, false, ◌||◌, [], ◌∷◌, arith, ok, err, assertion_failed,
}
use netfish.Channel.{
  Channel, Handlers, Callback, on_error, on_write, when_set, handle_event, destroy, begin_handling,
  end_handling,
}

-- Only the callbacks for errors and for writing are set, as a connector sets them.
abbrev pub connecting_handlers : Handlers
connecting_handlers = record {
  close_callback = false;
  error_callback = true;
  read_callback = false;
  write_callback = true;
}

when_set_cases : (b : Bool) (c : Callback) → (when_set b c ≡ []) ⊎ (when_set b c ≡ c ∷ [])
when_set_cases true c = inr refl
when_set_cases false c = inl refl

-- Such a channel has its error callback called, then its write callback.
pub connecting-cases :
    (ch : Channel)
    → ch.handlers ≡ connecting_handlers
    → (handle_event ch ≡ [])
      ⊎ (handle_event ch ≡ on_error ∷ [])
      ⊎ (handle_event ch ≡ on_write ∷ [])
      ⊎ (handle_event ch ≡ on_error ∷ on_write ∷ [])
unfolding handle_event
connecting-cases ch e = ground (
  arith,
  e,
  when_set_cases (ch.revents.pollerr || ch.revents.pollnval) on_error,
  when_set_cases ch.revents.pollout on_write,
)

-- A channel can be deleted when `handleEvent` has returned, and not in one of its own callbacks.
destroy_lem :
    (ch : Channel)
    → (destroy (begin_handling ch) ≡ err assertion_failed)
      × (destroy (end_handling (begin_handling ch)) ≡ ok tt)
unfolding destroy begin_handling end_handling
destroy_lem ch = (refl, refl)
