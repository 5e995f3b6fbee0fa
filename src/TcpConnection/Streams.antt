-- ===== src/TcpConnection/Streams.antt =====
-- A connection between its establishment and its close, under any sequence of calls and events.
use netfish.Prelude.{
  ℕ, ◌≡◌, ◌≤◌, ◌⊎◌, inl, inr, false, true, List, [], ◌∷◌, ap, sym, ◌∙◌, ◌++◌, length, Outcome, ok,
  err, Fault, StopsBuffer, ◌>>=◌, refl, Bool, Bool-cases, append_assoc, append-nil, if◌then◌else◌,
}
use netfish.Buffer.{max_size}
use netfish.Buffer.Valid.{contents}
use netfish.TcpConnection.{
  TcpConnection, disconnecting, is_connected, Functor, write_complete, send_functor,
  shutdown_functor, Write, handle_write, shutdown, shutdown_in_loop, send, run_functor, queue,
}
use netfish.TcpConnection.Valid.{IsOpen, stream, Extends}
use netfish.TcpConnection.Sending.{Answers, send_in_loop-Extends}
use netfish.TcpConnection.Writing.{handle_write-IsOpen}

-- What can come, with the answer of `write` where there is one. `runs` is the loop that takes the
-- first functor of its queue.
pub data Op : Type 0 where
  sends : Bool → Write → List ℕ → Op
  shuts : Bool → Op
  writable : Write → Op
  runs : Write → Op

pub run_first : Write → List Functor → TcpConnection → Outcome TcpConnection
run_first w [] c = ok c
run_first w (f ∷ fs) c = run_functor w f (record c { pending = fs })

pub step : Op → TcpConnection → Outcome TcpConnection
step (sends here w msg) c = send here w msg c
step (shuts here) c = ok (shutdown here c)
step (writable w) c = handle_write w c
step (runs w) c = run_first w c.pending c

-- The message that a call or event hands to `sendInLoop`.
abbrev pub message_of : Functor → List ℕ
message_of (send_functor msg) = msg
message_of _ = []

abbrev pub first_message : List Functor → List ℕ
first_message [] = []
first_message (f ∷ fs) = message_of f

pub sent_by : Op → TcpConnection → List ℕ
sent_by (sends true w msg) c = if is_connected c.state then msg else []
sent_by (sends false w msg) c = []
sent_by (shuts here) c = []
sent_by (writable w) c = []
sent_by (runs w) c = first_message c.pending

-- What is asked of a call: `write` takes no more than it is given, and a string is no longer than a
-- vector can be.
abbrev pub Allowed : Op → TcpConnection → Type 0
Allowed (sends here w msg) c = Answers w msg × (length msg ≤ max_size)
Allowed (shuts here) c = Unit {0}
Allowed (writable w) c = Answers w (contents c.output_buffer)
Allowed (runs w) c =
    Answers w (first_message c.pending) × (length (first_message c.pending) ≤ max_size)

same-Extends : (c c' : TcpConnection) → IsOpen c' → stream c' ≡ stream c → Extends c [] (ok c')
same-Extends c c' v e = inl (c', refl, v, e ∙ sym (append-nil (stream c)))

send-Extends :
    (here : Bool) (w : Write) (msg : List ℕ) (c : TcpConnection)
    → IsOpen c
    → Answers w msg
    → length msg ≤ max_size
    → Extends c (sent_by (sends here w msg) c) (send here w msg c)
unfolding send sent_by
send-Extends true w msg c v h small = elim (Bool-cases (is_connected c.state)) [
  | inl up ↦ rw up (send_in_loop-Extends w msg c v h small)
  | inr down ↦ rw down (same-Extends c c v refl)
]
send-Extends false w msg c v h small = elim (Bool-cases (is_connected c.state)) [
  | inl up ↦ rw up (
      same-Extends c (queue (send_functor msg) c)
        (record { input = v.input; output = v.output; waits = v.waits; busy = v.busy }) refl)
  | inr down ↦ rw down (same-Extends c c v refl)
]

shutdown_in_loop-Extends : (c : TcpConnection) → IsOpen c → Extends c [] (ok (shutdown_in_loop c))
unfolding shutdown_in_loop
shutdown_in_loop-Extends c v =
    same-Extends c _ (record { input = v.input; output = v.output; waits = v.waits; busy = v.busy })
      refl

shuts-Extends : (here : Bool) (c : TcpConnection) → IsOpen c → Extends c [] (ok (shutdown here c))
unfolding shutdown
shuts-Extends here c v =
    let v' : IsOpen (record c { state = disconnecting }) = record {
      input = v.input;
      output = v.output;
      waits = v.waits;
      busy = v.busy;
    } in
    elim (Bool-cases (is_connected c.state)) [
      | inl up ↦ rw up (elim (Bool-cases here) [
        | inl e ↦ rw e (shutdown_in_loop-Extends (record c { state = disconnecting }) v')
        | inr e ↦ rw e (
            same-Extends c (queue shutdown_functor (record c { state = disconnecting }))
              (record { input = v.input; output = v.output; waits = v.waits; busy = v.busy }) refl)
      ])
      | inr down ↦ rw down (same-Extends c c v refl)
    ]

run_functor-Extends :
    (w : Write) (f : Functor) (c : TcpConnection)
    → IsOpen c
    → Answers w (message_of f)
    → length (message_of f) ≤ max_size
    → Extends c (message_of f) (run_functor w f c)
unfolding run_functor
run_functor-Extends w write_complete c v h small = same-Extends c c v refl
run_functor-Extends w (send_functor msg) c v h small = send_in_loop-Extends w msg c v h small
run_functor-Extends w shutdown_functor c v h small = shutdown_in_loop-Extends c v

run_first-Extends :
    (w : Write) (fs : List Functor) (c : TcpConnection)
    → IsOpen c
    → Answers w (first_message fs)
    → length (first_message fs) ≤ max_size
    → Extends c (first_message fs) (run_first w fs c)
unfolding run_first
run_first-Extends w [] c v h small = same-Extends c c v refl
run_first-Extends w (f ∷ fs) c v h small =
    run_functor-Extends w f (record c { pending = fs })
      (record { input = v.input; output = v.output; waits = v.waits; busy = v.busy }) h small

step-Extends :
    (o : Op) (c : TcpConnection) → IsOpen c → Allowed o c → Extends c (sent_by o c) (step o c)
unfolding step sent_by
step-Extends (sends true w msg) c v (h, small) = send-Extends true w msg c v h small
step-Extends (sends false w msg) c v (h, small) = send-Extends false w msg c v h small
step-Extends (shuts here) c v a = shuts-Extends here c v
step-Extends (writable w) c v h =
    let (c', e, v', s) = handle_write-IsOpen w c v h in
    inl (c', e, v', s ∙ sym (append-nil (stream c)))
step-Extends (runs w) c v (h, small) = run_first-Extends w c.pending c v h small

-- A run, with the messages that it hands to `sendInLoop`, in order.
pub run : List Op → TcpConnection → Outcome (List ℕ × TcpConnection)
run [] c = ok ([], c)
run (o ∷ os) c = do c' ← step o c; r ← run os c'; ok (sent_by o c ++ r.0, r.1)

abbrev pub AllAllowed : List Op → TcpConnection → Type 0
AllAllowed [] c = Unit {0}
AllAllowed (o ∷ os) c = Allowed o c × ((c' : TcpConnection) → step o c ≡ ok c' → AllAllowed os c')

-- Between its establishment and its close, whatever messages are sent from whatever thread, whenever
-- the socket can be written to, the loop takes a functor of the connection or it is shut down, and
-- however `write` splits the bytes: the bytes written, followed by those that wait, are what they were
-- at first followed by the messages handed to `sendInLoop`, in order; and only a failed assert or a
-- vector that would be too long stops a run.
pub run_streams :
    (os : List Op) (c : TcpConnection)
    → IsOpen c
    → AllAllowed os c
    → ((sent : List ℕ) × (c' : TcpConnection) × (run os c ≡ ok (sent, c'))
        × IsOpen c'
        × (stream c' ≡ stream c ++ sent))
      ⊎ ((e : Fault) × StopsBuffer e × (run os c ≡ err e))
unfolding run
run_streams [] c v a = inl ([], c, refl, v, sym (append-nil (stream c)))
run_streams (o ∷ os) c v (a, rest) = elim (step-Extends o c v a) [
  | inr (e, n, f) ↦ inr (e, n, rw f refl)
  | inl (c₁, f, v₁, s) ↦ elim (run_streams os c₁ v₁ (rest c₁ f)) [
    | inr (e, n, g) ↦ inr (e, n, rw (f, g) refl)
    | inl (sent, c', g, v', s') ↦ inl (
      sent_by o c ++ sent,
      c',
      rw (f, g) refl,
      v',
      s' ∙ ap (λ l. l ++ sent) s ∙ append_assoc (stream c) (sent_by o c) sent,
    )
  ]
]
