-- ===== src/TcpConnection/Kept.antt =====
-- What sending and writing leave as it was.
use netfish.Prelude.{
  ℕ, ◌≡◌, refl, ◌∙◌, Bool-cases, inl, inr, List, length, drop, ltb, arith, Outcome-cases, ok,
  if◌then◌else◌,
}
use netfish.Channel.{enable_writing, disable_writing}
use netfish.Buffer.{append, retrieve}
use netfish.TcpConnection.{
  TcpConnection, Write, wrote, no_write, is_idle, write_now, keep_rest, send_in_loop, drained,
  after_write, handle_write,
}

-- The state, the input buffer, the message callback and whether it waits to read are the same.
pub record Kept (c c' : TcpConnection) : Type 0 where
  pub state : c'.state ≡ c.state
  pub input : c'.input_buffer ≡ c.input_buffer
  pub message : c'.message_callback ≡ c.message_callback
  pub reading : c'.channel.events.pollin ≡ c.channel.events.pollin

keep_rest-Kept : (rest : List ℕ) (c c' : TcpConnection) → keep_rest rest c ≡ ok c' → Kept c c'
unfolding keep_rest enable_writing
keep_rest-Kept rest c c' e = elim (Outcome-cases (append rest c.output_buffer)) [
  | inl (b, h) ↦ ground (arith, rw h at e)
  | inr (f, h) ↦ absurd (cc (rw h at e))
]

write_now-Kept : (w : Write) (msg : List ℕ) (c : TcpConnection) → Kept c (write_now w msg c).1
unfolding write_now
write_now-Kept no_write msg c = record {
  state = refl;
  input = refl;
  message = refl;
  reading = refl;
}
write_now-Kept (wrote n) msg c = record {
  state = refl;
  input = refl;
  message = refl;
  reading = refl;
}

Kept-trans : {c c' c'' : TcpConnection} → Kept c c' → Kept c' c'' → Kept c c''
Kept-trans k l = record {
  state = l.state ∙ k.state;
  input = l.input ∙ k.input;
  message = l.message ∙ k.message;
  reading = l.reading ∙ k.reading;
}

Kept-refl : (c : TcpConnection) → Kept c c
Kept-refl c = record { state = refl; input = refl; message = refl; reading = refl }

-- What is left after the direct `write`, from `r`, which holds what it took.
rest-Kept :
    (r : ℕ × TcpConnection) (msg : List ℕ) (c c' : TcpConnection)
    → Kept c r.1
    → (if ltb r.0 (length msg) then keep_rest (drop r.0 msg) r.1 else ok r.1) ≡ ok c'
    → Kept c c'
rest-Kept r msg c c' k e = elim (Bool-cases (ltb r.0 (length msg))) [
  | inl more ↦ Kept-trans k (keep_rest-Kept (drop r.0 msg) r.1 c' (rw more at e))
  | inr all ↦ ground (arith, k, rw all at e)
]

pub send_in_loop-Kept :
    (w : Write) (msg : List ℕ) (c c' : TcpConnection) → send_in_loop w msg c ≡ ok c' → Kept c c'
unfolding send_in_loop
send_in_loop-Kept w msg c c' e = elim (Bool-cases (is_idle c)) [
  | inl idle ↦ rest-Kept (write_now w msg c) msg c c' (write_now-Kept w msg c) (rw idle at e)
  | inr busy ↦ rest-Kept (0, c) msg c c' (Kept-refl c) (rw busy at e)
]

pub handle_write-Kept : (w : Write) (c c' : TcpConnection) → handle_write w c ≡ ok c' → Kept c c'
unfolding handle_write after_write drained disable_writing
handle_write-Kept no_write c c' e = ground (arith, e)
handle_write-Kept (wrote n) c c' e = elim (Outcome-cases (retrieve n c.output_buffer)) [
  | inl (b, h) ↦ ground (arith, h, e)
  | inr (f, h) ↦ ground (arith, h, e)
]
