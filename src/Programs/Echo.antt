-- ===== src/Programs/Echo.antt =====
-- Every byte that comes goes back.
use netfish.Prelude.{
  ℕ, suc, ◌+◌, ◌≤◌, ◌≡◌, ◌⊎◌, inl, inr, refl, sym, ap, ◌∙◌, true, List, [], ◌∷◌, ◌++◌, append-nil,
  append_assoc, length, length-append, arith, Fault, StopsBuffer, an_assert, assertion_failed,
  subst, Outcome, ok, err, ◌>>=◌,
}
use netfish.Buffer.{Buffer, received, readable_bytes, retrieve_as_string, max_size, extrabuf_size}
use netfish.Buffer.Valid.{contents, writable}
use netfish.Buffer.Contents.{retrieve_as_string_lem}
use netfish.TcpConnection.{TcpConnection, connected, Write, send, send_in_loop, call, message}
use netfish.TcpConnection.Valid.{IsOpen, stream, readable_lem}
use netfish.TcpConnection.Sending.{Answers, send_in_loop-Extends}
use netfish.TcpConnection.Writing.{handle_write-IsOpen}
use netfish.TcpConnection.Reading.{arrived, received_lem}
use netfish.TcpConnection.Kept.{send_in_loop-Kept, handle_write-Kept}
use netfish.Programs.PingPong.{
  on_message, Session, count_message, session_on_message, Event, arrives, writable as room,
  handle_event, handle_events,
}

-- A connection of the program between two events: up, with nothing left to read.
pub record IsEchoing (c : TcpConnection) : Type 0 where
  pub up : c.state ≡ connected
  pub open_still : IsOpen c
  pub read_all : contents c.input_buffer ≡ []
  pub heard : c.message_callback ≡ true

-- The bytes that an event brings.
abbrev pub bytes_of : Event → List ℕ
bytes_of (arrives x xs w) = x ∷ xs
bytes_of (room w) = []

abbrev pub all_bytes : List Event → List ℕ
all_bytes [] = []
all_bytes (e ∷ es) = bytes_of e ++ all_bytes es

-- What is asked of the answers: `readv` fills no more than its two blocks, `write` takes no more than
-- it is given, and no vector comes near its largest size.
abbrev pub Fits : Event → TcpConnection → Type 0
Fits (arrives x xs w) c =
    (suc (length xs) ≤ netfish.Buffer.Valid.writable c.input_buffer + extrabuf_size)
    × (length c.input_buffer.buffer + (netfish.Buffer.Valid.writable c.input_buffer + extrabuf_size)
        ≤ max_size)
    × Answers w (x ∷ xs)
Fits (room w) c = Answers w (contents c.output_buffer)

-- After an event: the connection goes on echoing, the bytes are behind the others in the stream, and
-- the session has counted them both ways; or the buffer's asserts or vectors stopped it.
Echoes : List ℕ → Session × TcpConnection → Outcome (Session × TcpConnection) → Type 0
Echoes bytes p r =
    ((p' : Session × TcpConnection) × (r ≡ ok p')
      × IsEchoing p'.1
      × (stream p'.1 ≡ stream p.1 ++ bytes)
      × (p'.0.bytes_read ≡ p.0.bytes_read + length bytes)
      × (p'.0.bytes_written ≡ p.0.bytes_written + length bytes))
    ⊎ ((e : Fault) × StopsBuffer e × (r ≡ err e))

-- `onMessage`, with what `retrieveAsString` and `sendInLoop` come to.
on_message_step :
    (w : Write) (c : TcpConnection) (b : Buffer)
    → c.state ≡ connected
    → retrieve_as_string c.input_buffer ≡ ok (contents c.input_buffer, b)
    → on_message w c ≡ send_in_loop w (contents c.input_buffer) (record c { input_buffer = b })
unfolding on_message send
on_message_step w c b up e = ground (arith, up, e)

session_step :
    (w : Write) (s : Session) (c : TcpConnection)
    → session_on_message w (s, c)
      ≡ (on_message w c >>= λ c'. ok (count_message c.input_buffer s, c'))
unfolding session_on_message
session_step w s c = refl

-- `onMessage` on the connection that has just read.
on_message-Echoes :
    (w : Write) (s : Session) (c : TcpConnection)
    → IsOpen c
    → c.state ≡ connected
    → c.message_callback ≡ true
    → Answers w (contents c.input_buffer)
    → length (contents c.input_buffer) ≤ max_size
    → Echoes (contents c.input_buffer) (s, c) (session_on_message w (s, c))
unfolding Echoes count_message
on_message-Echoes w s c v up heard h small =
    let bytes : List ℕ = contents c.input_buffer in
    let (b, e, vb, none_left) = retrieve_as_string_lem c.input_buffer v.input in
    let c₀ : TcpConnection = record c { input_buffer = b } in
    let v₀ : IsOpen c₀ = record { input = vb; output = v.output; waits = v.waits; busy = v.busy } in
    let next : Outcome TcpConnection → Outcome (Session × TcpConnection) =
      λ o. o >>= λ c'. ok (count_message c.input_buffer s, c') in
    let run = session_step w s c ∙ ap next (on_message_step w c b up e) in
    elim (send_in_loop-Extends w bytes c₀ v₀ h small) [
      | inl (c', f, v', grown) ↦
          let k = send_in_loop-Kept w bytes c₀ c' f in
          inl (
            (count_message c.input_buffer s, c'),
            run ∙ ap next f,
            record {
              up = k.state ∙ up;
              open_still = v';
              read_all = ap contents k.input ∙ none_left;
              heard = k.message ∙ heard;
            },
            grown,
            ap (λ n. s.bytes_read + n) (readable_lem v.input),
            ap (λ n. s.bytes_written + n) (readable_lem v.input),
          )
      | inr (f, n, g) ↦ inr (f, n, run ∙ ap next g)
    ]

-- The connection with its new bytes, when its message callback is called.
abbrev hearing : Buffer → TcpConnection → TcpConnection
hearing b c = call message (record c { input_buffer = b })

arrived_lem :
    (x : ℕ) (xs : List ℕ) (b : Buffer) (c : TcpConnection)
    → c.message_callback ≡ true
    → arrived (x ∷ xs) (record c { input_buffer = b }) ≡ hearing b c
unfolding arrived
arrived_lem x xs b c heard = ground (arith, heard)

arrives-Echoes :
    (x : ℕ) (xs : List ℕ) (w : Write) (s : Session) (c : TcpConnection)
    → IsEchoing c
    → Fits (arrives x xs w) c
    → Echoes (x ∷ xs) (s, c) (handle_event (arrives x xs w) (s, c))
unfolding handle_event Echoes
arrives-Echoes x xs w s c v (fits, room_left, h) =
    let next : Outcome TcpConnection → Outcome (Session × TcpConnection) =
      λ o. o >>= λ c'. session_on_message w (s, c') in
    elim (received_lem (x ∷ xs) c (inl v.up) v.open_still.input fits room_left) [
      | inl (b, vb, more, e) ↦
          let now : contents b ≡ x ∷ xs = more ∙ ap (λ l. l ++ (x ∷ xs)) v.read_all in
          let small : length (x ∷ xs) ≤ max_size = omega (arith, room_left, fits) in
          let run = ap next (e ∙ ap (λ c'. ok c') (arrived_lem x xs b c v.heard)) in
          let o = v.open_still in
          let open_now : IsOpen (hearing b c) = record {
            input = vb;
            output = o.output;
            waits = o.waits;
            busy = o.busy;
          } in
          let answers = subst (λ l. Answers w l) (sym now) h in
          let short = subst (λ l. length l ≤ max_size) (sym now) small in
          let r = on_message-Echoes w s (hearing b c) open_now v.up v.heard answers short in
          subst (λ o'. Echoes (x ∷ xs) (s, c) o') (sym run)
            (subst (λ l. Echoes l (s, hearing b c) (session_on_message w (s, hearing b c))) now r)
      | inr (o, e) ↦ inr (assertion_failed, an_assert, ap next e)
    ]

writable-Echoes :
    (w : Write) (s : Session) (c : TcpConnection)
    → IsEchoing c
    → Fits (room w) c
    → Echoes [] (s, c) (handle_event (room w) (s, c))
unfolding handle_event Echoes
writable-Echoes w s c v h =
    let (c', e, v', same) = handle_write-IsOpen w c v.open_still h in
    let k = handle_write-Kept w c c' e in
    let next : Outcome TcpConnection → Outcome (Session × TcpConnection) =
      λ o. o >>= λ c''. ok (s, c'') in
    inl (
      (s, c'),
      ap next e,
      record {
        up = k.state ∙ v.up;
        open_still = v';
        read_all = ap contents k.input ∙ v.read_all;
        heard = k.message ∙ v.heard;
      },
      same ∙ sym (append-nil (stream c)),
      omega arith,
      omega arith,
    )

handle_event-Echoes :
    (e : Event) (s : Session) (c : TcpConnection)
    → IsEchoing c
    → Fits e c
    → Echoes (bytes_of e) (s, c) (handle_event e (s, c))
handle_event-Echoes (arrives x xs w) s c v h = arrives-Echoes x xs w s c v h
handle_event-Echoes (room w) s c v h = writable-Echoes w s c v h

abbrev pub AllFit : List Event → Session × TcpConnection → Type 0
AllFit [] p = Unit {0}
AllFit (e ∷ es) p =
    Fits e p.1 × ((p' : Session × TcpConnection) → handle_event e p ≡ ok p' → AllFit es p')

-- Whatever bytes come, however `readv` cuts them up and however much of each answer `write` takes at
-- once and later: on a connection of the program that is up, the bytes written and those that wait
-- are what they were followed by exactly the bytes that came, in order; nothing is left unread; and
-- the session has counted each byte as read and as written. Only a failed assert or a vector
-- that would be too long stops it.
pub echo_lem :
    (es : List Event) (s : Session) (c : TcpConnection)
    → IsEchoing c
    → AllFit es (s, c)
    → ((s' : Session) × (c' : TcpConnection) × (handle_events es (s, c) ≡ ok (s', c'))
        × IsEchoing c'
        × (stream c' ≡ stream c ++ all_bytes es)
        × (s'.bytes_read ≡ s.bytes_read + length (all_bytes es))
        × (s'.bytes_written ≡ s.bytes_written + length (all_bytes es)))
      ⊎ ((f : Fault) × StopsBuffer f × (handle_events es (s, c) ≡ err f))
unfolding handle_events Echoes
echo_lem [] s c v h = inl (s, c, refl, v, sym (append-nil (stream c)), omega arith, omega arith)
echo_lem (e ∷ es) s c v (h, hs) = elim (handle_event-Echoes e s c v h) [
  | inr (f, n, g) ↦ inr (f, n, ap (λ o. o >>= handle_events es) g)
  | inl (p₁, g, v₁, grown, read, sent) ↦ elim (echo_lem es p₁.0 p₁.1 v₁ (hs p₁ g)) [
    | inr (f, n, g') ↦ inr (f, n, ap (λ o. o >>= handle_events es) g ∙ g')
    | inl (s', c', g', v', grown', read', sent') ↦ inl (
      s',
      c',
      ap (λ o. o >>= handle_events es) g ∙ g',
      v',
      grown'
          ∙ ap (λ l. l ++ all_bytes es) grown
          ∙ append_assoc (stream c) (bytes_of e) (all_bytes es),
      omega (arith, read, read', length-append (bytes_of e) (all_bytes es)),
      omega (arith, sent, sent', length-append (bytes_of e) (all_bytes es)),
    )
  ]
]
