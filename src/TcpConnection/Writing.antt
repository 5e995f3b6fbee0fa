-- ===== src/TcpConnection/Writing.antt =====
-- `handleWrite`, whatever part of the output buffer `write` takes.
use netfish.Prelude.{
  ap₂, ℕ, ◌≡◌, ◌≤◌, inl, inr, false, true, ◌&&◌, [], ap, ◌∙◌, ◌++◌, arith, length, Outcome, ok,
  ◌==◌, refl, Bool, Bool-cases, drop, take, append_assoc, take-append-drop, ltb, slice,
  if◌then◌else◌,
}
use netfish.Channel.{is_writing, disable_writing}
use netfish.Buffer.{Buffer, readable_bytes, retrieve, peek}
use netfish.Buffer.Valid.{contents, length-contents}
use netfish.Buffer.Contents.{retrieve-Yields}
use netfish.TcpConnection.{
  TcpConnection, disconnecting, Write, wrote, no_write, after_write, drained, handle_write,
  shutdown_in_loop,
}
use netfish.TcpConnection.Valid.{
  IsOpen, stream, readable_lem, contents_empty, readable_none, and_left,
}
use netfish.TcpConnection.Sending.{Answers}

-- The connection when `n` bytes have gone out, with the output buffer that is left.
abbrev pub sent_out : ℕ → Buffer → TcpConnection → TcpConnection
sent_out n b c = record c {
  output_buffer = b;
  written = c.written ++ take n (contents c.output_buffer);
}

bytes_lem :
    (n : ℕ) (c : TcpConnection)
    → IsOpen c
    → take n (slice (peek c.output_buffer) (readable_bytes c.output_buffer) c.output_buffer.buffer)
      ≡ take n (contents c.output_buffer)
bytes_lem n c v =
    ap (λ m. take n (slice c.output_buffer.reader_index m c.output_buffer.buffer))
      (readable_lem v.output ∙ length-contents v.output)

pub after_write_lem :
    (n : ℕ) (c : TcpConnection)
    → IsOpen c
    → n ≤ length (contents c.output_buffer)
    → (b : Buffer) × netfish.Buffer.Valid.IsValid b
      × (contents b ≡ drop n (contents c.output_buffer))
      × (after_write n c
          ≡ ok (if readable_bytes b == 0 then drained (sent_out n b c) else sent_out n b c))
unfolding after_write
after_write_lem n c v h =
    let (b, e, v', content) = retrieve-Yields c.output_buffer n v.output h in
    (b, v', content, rw (e, bytes_lem n c v) refl)

drained-IsOpen :
    (c : TcpConnection)
    → netfish.Buffer.Valid.IsValid c.input_buffer
    → netfish.Buffer.Valid.IsValid c.output_buffer
    → contents c.output_buffer ≡ []
    → IsOpen (drained c)
unfolding drained is_writing disable_writing
drained-IsOpen c i o e = record { input = i; output = o; waits = λ idle. e; busy = λ same. refl }

-- What a write of `n` bytes of the output buffer comes to.
pub record Written (n : ℕ) (c c' : TcpConnection) : Type 0 where
  pub open_still : IsOpen c'
  pub written : c'.written ≡ c.written ++ take n (contents c.output_buffer)
  pub left : contents c'.output_buffer ≡ drop n (contents c.output_buffer)
  pub state : c'.state ≡ c.state
  pub shut :
      c.state ≡ disconnecting → c.shut ≡ false → c'.shut ≡ (readable_bytes c'.output_buffer == 0)

drained-Written :
    (n : ℕ) (b : Buffer) (c : TcpConnection)
    → IsOpen c
    → netfish.Buffer.Valid.IsValid b
    → contents b ≡ drop n (contents c.output_buffer)
    → (readable_bytes b == 0) ≡ true
    → Written n c (drained (sent_out n b c))
unfolding drained shutdown_in_loop is_writing disable_writing
drained-Written n b c v w e empty = record {
  open_still = drained-IsOpen (sent_out n b c) v.input w (contents_empty w empty);
  written = refl;
  left = e;
  state = refl;
  shut = λ s f. ground (arith, s, empty);
}

waiting-Written :
    (n : ℕ) (b : Buffer) (c : TcpConnection)
    → IsOpen c
    → is_writing c.channel ≡ true
    → netfish.Buffer.Valid.IsValid b
    → contents b ≡ drop n (contents c.output_buffer)
    → (readable_bytes b == 0) ≡ false
    → Written n c (sent_out n b c)
waiting-Written n b c v writing w e more = record {
  open_still = record {
    input = v.input;
    output = w;
    waits = λ idle. absurd (ground (arith, idle, writing));
    busy = λ none_left. absurd (ground (arith, more, readable_none w none_left));
  };
  written = refl;
  left = e;
  state = refl;
  shut = λ s f. ground (arith, f, more);
}

pub after_write-Written :
    (n : ℕ) (c : TcpConnection)
    → IsOpen c
    → is_writing c.channel ≡ true
    → n ≤ length (contents c.output_buffer)
    → (c' : TcpConnection) × (after_write n c ≡ ok c') × Written n c c'
after_write-Written n c v writing h =
    let (b, w, left, e) = after_write_lem n c v h in
    let result : Bool → Outcome TcpConnection =
      λ t. ok (if t then drained (sent_out n b c) else sent_out n b c) in
    elim (Bool-cases (readable_bytes b == 0)) [
      | inl empty ↦
          (drained (sent_out n b c), e ∙ ap result empty, drained-Written n b c v w left empty)
      | inr more ↦ (sent_out n b c, e ∙ ap result more, waiting-Written n b c v writing w left more)
    ]

pub stream_same : {n : ℕ} {c c' : TcpConnection} → Written n c c' → stream c' ≡ stream c
stream_same {n} {c} d =
    ap₂ ◌++◌ d.written d.left
    ∙ append_assoc c.written (take n (contents c.output_buffer)) (drop n (contents c.output_buffer))
    ∙ ap (λ l. c.written ++ l) (take-append-drop n (contents c.output_buffer))

-- `handleWrite` on an open connection, whatever `write` takes of the output buffer: it succeeds,
-- and no byte of the stream is lost, repeated or moved.
pub handle_write-IsOpen :
    (w : Write) (c : TcpConnection)
    → IsOpen c
    → Answers w (contents c.output_buffer)
    → (c' : TcpConnection) × (handle_write w c ≡ ok c') × IsOpen c' × (stream c' ≡ stream c)
unfolding handle_write
handle_write-IsOpen no_write c v h = (c, refl, v, refl)
handle_write-IsOpen (wrote n) c v h = elim (Bool-cases (is_writing c.channel && ltb 0 n)) [
  | inl goes ↦ rw goes (
      let (c', e, d) = after_write-Written n c v (and_left _ _ goes) h in
      (c', e, d.open_still, stream_same d))
  | inr stays ↦ (c, rw stays refl, v, refl)
]
