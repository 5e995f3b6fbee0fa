-- ===== src/TcpConnection/Sending.antt =====
-- `sendInLoop`, whatever part of the message `write` takes.
use netfish.Prelude.{
  ℕ, ◌≡◌, ◌≤◌, ◌<◌, inl, inr, true, not, List, [], ap, sym, ◌∙◌, ◌++◌, arith, length, Fault,
  assertion_failed, length_error, an_assert, too_long, ok, err, refl, Bool-cases, drop, take,
  append_assoc, append-nil, take-append-drop, length-drop, length-append, ltb, take_all,
  if◌then◌else◌,
}
use netfish.Channel.{is_writing, enable_writing}
use netfish.Buffer.{Buffer, append, max_size}
use netfish.Buffer.Valid.{contents}
use netfish.Buffer.Room.{append_outcome}
use netfish.TcpConnection.{
  TcpConnection, Write, wrote, no_write, write_now, keep_rest, is_idle, send_in_loop,
}
use netfish.TcpConnection.Valid.{IsOpen, stream, Extends, contents_empty, and_right}

-- The connection after `keep_rest`, given the new output buffer.
kept : Buffer → TcpConnection → TcpConnection
kept b c = record c {
  output_buffer = b;
  channel = if not (is_writing c.channel) then enable_writing c.channel else c.channel;
}

keep_rest_ok :
    (rest : List ℕ) (c : TcpConnection) (b : Buffer)
    → append rest c.output_buffer ≡ ok b
    → keep_rest rest c ≡ ok (kept b c)
unfolding keep_rest kept
keep_rest_ok rest c b e = ground (arith, e)

keep_rest_err :
    (rest : List ℕ) (c : TcpConnection) (f : Fault)
    → append rest c.output_buffer ≡ err f
    → keep_rest rest c ≡ err f
unfolding keep_rest
keep_rest_err rest c f e = ground (arith, e)

kept-writing : (b : Buffer) (c : TcpConnection) → is_writing (kept b c).channel ≡ true
unfolding kept is_writing enable_writing
kept-writing b c = ground arith

not_empty : (xs ys : List ℕ) → 0 < length ys → xs ++ ys ≡ [] → ⊥
not_empty xs ys h e = omega (arith, h, length-append xs ys, ap length e)

pub keep_rest-Extends :
    (rest : List ℕ) (c : TcpConnection)
    → IsOpen c
    → 0 < length rest
    → length rest ≤ max_size
    → Extends c rest (keep_rest rest c)
unfolding kept
keep_rest-Extends rest c v some_left h = elim (append_outcome c.output_buffer rest v.output h) [
  | inl (room, (b, e, ok_buffer, content)) ↦ inl (
    kept b c,
    keep_rest_ok rest c b e,
    record {
      input = v.input;
      output = ok_buffer;
      waits = λ idle. absurd (ground (arith, idle, kept-writing b c));
      busy = λ e. absurd (not_empty (contents c.output_buffer) rest some_left (sym content ∙ e));
    },
    ap (λ l. c.written ++ l) content ∙ sym (append_assoc c.written (contents c.output_buffer) rest),
  )
  | inr (inl (gap, e)) ↦ inr (assertion_failed, an_assert, keep_rest_err rest c assertion_failed e)
  | inr (inr (long, e)) ↦ inr (length_error, too_long, keep_rest_err rest c length_error e)
]

-- What `write` may answer for a message: no more bytes than it has.
abbrev pub Answers : Write → List ℕ → Type 0
Answers (wrote n) msg = n ≤ length msg
Answers no_write msg = Unit {0}

-- A message of which `n` bytes are already behind the stream.
rest-Extends :
    (n : ℕ) (msg : List ℕ) (c c₁ : TcpConnection)
    → IsOpen c₁
    → length msg ≤ max_size
    → n ≤ length msg
    → stream c₁ ≡ stream c ++ take n msg
    → Extends c msg (if ltb n (length msg) then keep_rest (drop n msg) c₁ else ok c₁)
rest-Extends n msg c c₁ v small h e = elim (Bool-cases (ltb n (length msg))) [
  | inl more ↦
      rw more
        (elim (keep_rest-Extends (drop n msg) c₁ v (ground (arith, more, length-drop n msg))
          (omega (arith, length-drop n msg))) [
            | inl (c', f, v', s) ↦ inl (
              c',
              f,
              v',
              s
                  ∙ ap (λ l. l ++ drop n msg) e
                  ∙ append_assoc (stream c) (take n msg) (drop n msg)
                  ∙ ap (λ l. stream c ++ l) (take-append-drop n msg),
            )
            | inr fault ↦ inr fault
          ])
  | inr all ↦
      rw all (inl (c₁, refl, v, e ∙ ap (λ l. stream c ++ l) (take_all n msg (ground (arith, all)))))
]

-- The direct `write`, on an empty output buffer.
write_now_lem :
    (w : Write) (msg : List ℕ) (c : TcpConnection)
    → IsOpen c
    → contents c.output_buffer ≡ []
    → Answers w msg
    → IsOpen (write_now w msg c).1
      × ((write_now w msg c).0 ≤ length msg)
      × (stream (write_now w msg c).1 ≡ stream c ++ take (write_now w msg c).0 msg)
unfolding write_now
write_now_lem no_write msg c v e h = (v, omega arith, sym (append-nil (stream c)))
write_now_lem (wrote n) msg c v e h = (
  record { input = v.input; output = v.output; waits = v.waits; busy = v.busy },
  h,
  rw e (
      append-nil (c.written ++ take n msg)
      ∙ ap (λ l. l ++ take n msg) (sym (append-nil c.written))),
)

-- `sendInLoop` on an open connection, whatever `write` takes of the message at once: the message
-- goes behind the bytes written and those that wait, all of it and in order, and if any byte waits
-- then the channel waits to write; or the output buffer's assert or vector stops it.
pub send_in_loop-Extends :
    (w : Write) (msg : List ℕ) (c : TcpConnection)
    → IsOpen c
    → Answers w msg
    → length msg ≤ max_size
    → Extends c msg (send_in_loop w msg c)
unfolding send_in_loop
send_in_loop-Extends w msg c v h small = elim (Bool-cases (is_idle c)) [
  | inl idle ↦
      let (v₁, n, s) = write_now_lem w msg c v (contents_empty v.output (and_right _ _ idle)) h in
      rw idle (rest-Extends (write_now w msg c).0 msg c (write_now w msg c).1 v₁ small n s)
  | inr busy ↦ rw busy (rest-Extends 0 msg c c v small (omega arith) (sym (append-nil (stream c))))
]
