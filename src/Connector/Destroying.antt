-- ===== src/Connector/Destroying.antt =====
-- Connector.cc: the destructor of a connector.
use netfish.Prelude.{
  ℕ, ◌≡◌, ◌⊎◌, inl, inr, Bool, true, false, ◌||◌, ◌==◌, if◌then◌else◌, List, [], ◌∷◌, Option, none,
  some, arith, Outcome, ok, err, assertion_failed, assert, ◌>>◌,
}
use netfish.Connector.{Connector, is_connecting, cancel, remove_timer}
use netfish.Connector.Safety.{Reachable, Reachable-IsSound}

-- Whether a timer under this id is set.
abbrev pub has_timer : ℕ → List (ℕ × ℕ) → Bool
has_timer id [] = false
has_timer id (t ∷ ts) = (t.0 == id) || has_timer id ts

has_timer-remove :
    (removed id : ℕ) (ts : List (ℕ × ℕ))
    → has_timer id (remove_timer removed ts) ≡ (if id == removed then false else has_timer id ts)
unfolding remove_timer
has_timer-remove removed id [] = ground arith
has_timer-remove removed id (t ∷ ts) = ground (arith, has_timer-remove removed id ts)

abbrev is_null : Option (ℕ × Bool) → Bool
is_null none = true
is_null (some ch) = false

-- `~Connector`, in the loop's thread.
unfoldable pub destroy : Connector → Outcome Connector
destroy c = do let c' = cancel c.timer_id c; assert (is_null c'.channel); ok c'

-- Destroying a connector between two rounds, however it came there: while an attempt to connect is
-- under way it aborts, since the channel is still there. Otherwise it succeeds, and no socket of its
-- own is open, and of its timers exactly those under the id of the last one set are cancelled; so a
-- timer under another id, as of an earlier start that was refused, is left.
pub destroy_connecting :
    (c : Connector)
    → Reachable c
    → ((is_connecting c.state ≡ true) × (destroy c ≡ err assertion_failed))
      ⊎ ((is_connecting c.state ≡ false)
          × ((c' : Connector) × (destroy c ≡ ok c')
              × (c'.sockets ≡ [])
              × ((id : ℕ)
                  → has_timer id c'.timers
                    ≡ (if id == c.timer_id then false else has_timer id c.timers))))
unfolding destroy
destroy_connecting c r = elim (Reachable-IsSound c r).attempt [
  | inl (i, s, n) ↦ inr (
    i,
    (cancel c.timer_id c, ground (arith, n), s, λ id. has_timer-remove c.timer_id id c.timers),
  )
  | inr (i, (fd, s, n)) ↦ inl (ground (arith, i), ground (arith, n))
]
