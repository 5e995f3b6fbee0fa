-- ===== src/TcpConnection/Closing.antt =====
-- `shutdown`, with bytes that wait in the output buffer or a message that another thread queued.
use netfish.Prelude.{
  ℕ, ◌+◌, ◌≡◌, ◌≤◌, ◌<◌, inl, inr, false, true, List, [], ◌∷◌, ap, sym, ◌∙◌, ◌++◌, arith, length,
  Outcome, ok, ◌>>=◌, ◌==◌, refl, Bool-cases, drop, drop-drop, length-drop,
}
use netfish.Channel.{is_writing, enable_writing}
use netfish.Buffer.{Buffer, readable_bytes, append, max_size}
use netfish.Buffer.Room.{HasRoom, append-Yields}
use netfish.Buffer.Valid.{contents}
use netfish.TcpConnection.{
  TcpConnection, connected, disconnecting, send_functor, Write, wrote, no_write, handle_write,
  shutdown, shutdown_in_loop, send, send_in_loop, write_now, run_functor, keep_rest,
}
use netfish.TcpConnection.Valid.{IsOpen, stream, readable_lem, contents_empty, readable_none}
use netfish.TcpConnection.Writing.{Written, stream_same, after_write-Written}

-- The calls of `handleWrite` in which `write` takes these numbers of bytes.
unfoldable pub write_all : List ℕ → TcpConnection → Outcome TcpConnection
write_all [] c = ok c
write_all (n ∷ ns) c = do c' ← handle_write (wrote n) c; write_all ns c'

unfoldable pub total : List ℕ → ℕ
total [] = 0
total (n ∷ ns) = n + total ns

abbrev pub AllPositive : List ℕ → Type 0
AllPositive [] = Unit {0}
AllPositive (n ∷ ns) = (0 < n) × AllPositive ns

-- A connection that shuts down: it is shut exactly when nothing waits.
record IsDraining (c : TcpConnection) : Type 0 where
  still_open : IsOpen c
  state : c.state ≡ disconnecting
  shut : c.shut ≡ (readable_bytes c.output_buffer == 0)

-- One `handleWrite` with bytes to write.
write_one :
    (n : ℕ) (c : TcpConnection)
    → IsOpen c
    → 0 < n
    → n ≤ length (contents c.output_buffer)
    → (c' : TcpConnection) × (handle_write (wrote n) c ≡ ok c') × Written n c c'
unfolding handle_write
write_one n c v pos h = elim (Bool-cases (is_writing c.channel)) [
  | inl writing ↦
      let (c', e, w) = after_write-Written n c v writing h in (c', ground (arith, writing, e), w)
  | inr idle ↦ absurd (omega (arith, pos, h, ap length (v.waits idle)))
]

Written-IsDraining :
    {n : ℕ} {c c' : TcpConnection}
    → IsDraining c
    → 0 < n
    → n ≤ length (contents c.output_buffer)
    → Written n c c'
    → IsDraining c'
Written-IsDraining {n} {c} {c'} d pos h w = record {
  still_open = w.open_still;
  state = w.state ∙ d.state;
  shut = w.shut d.state (ground (arith, d.shut, readable_lem d.still_open.output));
}

drain_lem :
    (ns : List ℕ) (c : TcpConnection)
    → IsDraining c
    → AllPositive ns
    → total ns ≤ length (contents c.output_buffer)
    → (c' : TcpConnection) × (write_all ns c ≡ ok c')
      × IsDraining c'
      × (stream c' ≡ stream c)
      × (contents c'.output_buffer ≡ drop (total ns) (contents c.output_buffer))
unfolding write_all total
drain_lem [] c d p h = (c, refl, d, refl, refl)
drain_lem (n ∷ ns) c d (pos, p) h =
    let q = contents c.output_buffer in
    let (c₁, e, w) = write_one n c d.still_open pos (omega arith) in
    let (c', e', d', same, left) =
      drain_lem ns c₁ (Written-IsDraining d pos (omega arith) w) p
        (omega (arith, ap length w.left, length-drop n q)) in
    (
      c',
      rw e e',
      d',
      same ∙ stream_same w,
      left ∙ ap (drop (total ns)) w.left ∙ drop-drop (total ns) n q,
    )

shutdown-IsDraining :
    (c : TcpConnection)
    → IsOpen c
    → c.state ≡ connected
    → c.shut ≡ false
    → IsDraining (shutdown_in_loop (record c { state = disconnecting }))
unfolding shutdown_in_loop
shutdown-IsDraining c v s f = record {
  still_open = record { input = v.input; output = v.output; waits = v.waits; busy = v.busy };
  state = refl;
  shut = elim (Bool-cases (is_writing c.channel)) [
    | inl writing ↦ rw writing (
        f
        ∙ sym (elim (Bool-cases (readable_bytes c.output_buffer == 0)) [
          | inl empty ↦ absurd (ground (arith, writing, v.busy (contents_empty v.output empty)))
          | inr more ↦ more
        ]))
    | inr idle ↦ rw idle (sym (readable_none v.output (v.waits idle)))
  ];
}

shutdown_here :
    (c : TcpConnection)
    → c.state ≡ connected
    → shutdown true c ≡ shutdown_in_loop (record c { state = disconnecting })
unfolding shutdown
shutdown_here c s = ground (arith, s)

-- After `shutdown` in the loop's thread, however the writes of the output buffer split it: every
-- byte that was sent goes out, in order, and the socket's write side is shut exactly when none is
-- left.
pub shutdown_lem :
    (ns : List ℕ) (c : TcpConnection)
    → IsOpen c
    → c.state ≡ connected
    → c.shut ≡ false
    → AllPositive ns
    → total ns ≤ length (contents c.output_buffer)
    → (c' : TcpConnection) × (write_all ns (shutdown true c) ≡ ok c')
      × IsOpen c'
      × (stream c' ≡ stream c)
      × (contents c'.output_buffer ≡ drop (total ns) (contents c.output_buffer))
      × (c'.shut ≡ (readable_bytes c'.output_buffer == 0))
unfolding shutdown_in_loop
shutdown_lem ns c v s f p h =
    let (c', e, d, same, left) = drain_lem ns _ (shutdown-IsDraining c v s f) p h in
    (c', rw (shutdown_here c s) e, d.still_open, same, left, d.shut)

-- Writing fails on a socket that was shut: the message goes into the output buffer.
late_lem :
    (msg : List ℕ) (b : Buffer) (c : TcpConnection)
    → 0 < length msg
    → is_writing c.channel ≡ false
    → (readable_bytes c.output_buffer == 0) ≡ true
    → append msg c.output_buffer ≡ ok b
    → send_in_loop no_write msg c
      ≡ ok (record c { output_buffer = b; channel = enable_writing c.channel })
unfolding send_in_loop write_now keep_rest
late_lem msg b c h idle empty e = ground (arith, h, idle, empty, e)

-- When the loop's thread shuts an idle connection down while a message that another thread has sent
-- still waits in the loop's queue, the message is sent after the socket's write side is shut:
-- `write` fails, and the message, if it fits into the output buffer, stays there, with the channel
-- waiting to write.
pub late_send :
    (msg : List ℕ) (w : Write) (c : TcpConnection)
    → IsOpen c
    → c.state ≡ connected
    → c.pending ≡ []
    → contents c.output_buffer ≡ []
    → 0 < length msg
    → length msg ≤ max_size
    → HasRoom (length msg) c.output_buffer
    → (c₁ c₂ : TcpConnection) × (send false w msg c ≡ ok c₁)
      × (c₁.pending ≡ send_functor msg ∷ [])
      × ((shutdown true c₁).shut ≡ true)
      × (run_functor no_write (send_functor msg) (shutdown true c₁) ≡ ok c₂)
      × (c₂.shut ≡ true)
      × (c₂.written ≡ c.written)
      × (contents c₂.output_buffer ≡ msg)
      × (is_writing c₂.channel ≡ true)
unfolding send run_functor shutdown_in_loop enable_writing is_writing
late_send msg w c v s p e h small room =
    let idle = v.busy e in
    let c₁ : TcpConnection = record c { pending = send_functor msg ∷ [] } in
    let d = shutdown_in_loop (record c₁ { state = disconnecting }) in
    let (b, f, w', content) = append-Yields c.output_buffer msg v.output small room in
    let shut : d.shut ≡ true = ground (arith, idle) in
    (
      c₁,
      record d { output_buffer = b; channel = enable_writing d.channel },
      ground (arith, s, p),
      refl,
      ap (λ x. x.shut) (shutdown_here c₁ s) ∙ shut,
      ap (send_in_loop no_write msg) (shutdown_here c₁ s)
          ∙ late_lem msg b d h idle (readable_none v.output e) f,
      shut,
      refl,
      content ∙ ap (λ l. l ++ msg) e,
      refl,
    )
