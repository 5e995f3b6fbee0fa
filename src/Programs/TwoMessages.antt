-- ===== src/Programs/TwoMessages.antt =====
-- testTcpConnectionSend.cc: a server that sends two messages and closes.
use netfish.Prelude.{
  ℕ, ◌≡◌, ◌≤◌, ◌⊎◌, inl, inr, ap, ◌∙◌, true, not, List, [], ◌∷◌, ◌++◌, append_assoc, Option, none,
  some, replicate, length, arith, Fault, StopsBuffer, if◌then◌else◌, Outcome, ok, err, ◌>>=◌,
}
use netfish.Channel.{is_writing}
use netfish.Buffer.{max_size}
use netfish.TcpConnection.{
  TcpConnection, connected, disconnecting, Write, send, send_in_loop, shutdown, shutdown_in_loop,
  is_connected,
}
use netfish.TcpConnection.Valid.{IsOpen, stream}
use netfish.TcpConnection.Sending.{Answers, send_in_loop-Extends}
use netfish.TcpConnection.Kept.{send_in_loop-Kept}

-- What `main` takes from its arguments: the two lengths, and the number of threads if it is set.
unfoldable pub config : List ℕ → ℕ × ℕ × Option ℕ
config [] = (500, 100, none)
config (a ∷ []) = (500, 100, none)
config (a ∷ b ∷ []) = (a, b, none)
config (a ∷ b ∷ c ∷ rest) = (a, b, some a)

abbrev pub msg1 : ℕ → List ℕ
msg1 len1 = replicate len1 b'A'

abbrev pub msg2 : ℕ → List ℕ
msg2 len2 = replicate len2 b'B'

-- `onConnection` with its two messages, and what `write` answers to each; a connection that goes down
-- is only reported.
unfoldable pub on_connection :
    Write → Write → List ℕ → List ℕ → TcpConnection → Outcome TcpConnection
on_connection w₁ w₂ m₁ m₂ c =
    if is_connected c.state
    then (send true w₁ m₁ c >>= λ c₁. send true w₂ m₂ c₁ >>= λ c₂. ok (shutdown true c₂))
    else ok c

send_up :
    (w : Write) (m : List ℕ) (c : TcpConnection)
    → c.state ≡ connected
    → send true w m c ≡ send_in_loop w m c
unfolding send
send_up w m c up = ground (arith, up)

-- The connection after `shutdown`.
abbrev pub closing : TcpConnection → TcpConnection
closing c = record c {
  state = disconnecting;
  shut = if not (is_writing c.channel) then true else c.shut;
}

shutdown_up : (c : TcpConnection) → c.state ≡ connected → shutdown true c ≡ closing c
unfolding shutdown shutdown_in_loop
shutdown_up c up = ground (arith, up)

on_connection_up :
    (w₁ w₂ : Write) (m₁ m₂ : List ℕ) (c : TcpConnection)
    → c.state ≡ connected
    → on_connection w₁ w₂ m₁ m₂ c
      ≡ (send true w₁ m₁ c >>= λ c₁. send true w₂ m₂ c₁ >>= λ c₂. ok (shutdown true c₂))
unfolding on_connection
on_connection_up w₁ w₂ m₁ m₂ c up = ground (arith, up)

-- On a connection that is up, whatever `write` takes at once of either message: both go behind what was
-- sent before, in order and whole; the connection is closing, and its socket is shut down at once if
-- nothing waits to be written, and otherwise is as it was; or the buffer's asserts or a vector that
-- would be too long stop it.
pub on_connection_lem :
    (w₁ w₂ : Write) (m₁ m₂ : List ℕ) (c : TcpConnection)
    → IsOpen c
    → c.state ≡ connected
    → Answers w₁ m₁
    → Answers w₂ m₂
    → length m₁ ≤ max_size
    → length m₂ ≤ max_size
    → ((c' : TcpConnection) × (on_connection w₁ w₂ m₁ m₂ c ≡ ok (closing c'))
        × IsOpen c'
        × (stream (closing c') ≡ stream c ++ (m₁ ++ m₂)))
      ⊎ ((e : Fault) × StopsBuffer e × (on_connection w₁ w₂ m₁ m₂ c ≡ err e))
on_connection_lem w₁ w₂ m₁ m₂ c v up h₁ h₂ s₁ s₂ =
    let second : TcpConnection → Outcome TcpConnection =
      λ c₁. send true w₂ m₂ c₁ >>= λ c₂. ok (shutdown true c₂) in
    let last : Outcome TcpConnection → Outcome TcpConnection =
      λ o. o >>= λ c₂. ok (shutdown true c₂) in
    let start = on_connection_up w₁ w₂ m₁ m₂ c up in
    elim (send_in_loop-Extends w₁ m₁ c v h₁ s₁) [
      | inr (e, n, f) ↦ inr (e, n, start ∙ ap (λ o. o >>= second) (send_up w₁ m₁ c up ∙ f))
      | inl (c₁, f, v₁, g₁) ↦
          let up₁ = (send_in_loop-Kept w₁ m₁ c c₁ f).state ∙ up in
          let first = start ∙ ap (λ o. o >>= second) (send_up w₁ m₁ c up ∙ f) in
          elim (send_in_loop-Extends w₂ m₂ c₁ v₁ h₂ s₂) [
            | inr (e, n, k) ↦ inr (e, n, first ∙ ap last (send_up w₂ m₂ c₁ up₁ ∙ k))
            | inl (c₂, k, v₂, g₂) ↦
                let up₂ = (send_in_loop-Kept w₂ m₂ c₁ c₂ k).state ∙ up₁ in
                inl (
                  c₂,
                  first ∙ ap last (send_up w₂ m₂ c₁ up₁ ∙ k) ∙ ap (λ d. ok d) (shutdown_up c₂ up₂),
                  v₂,
                  g₂ ∙ ap (λ l. l ++ m₂) g₁ ∙ append_assoc (stream c) m₁ m₂,
                )
          ]
    ]
