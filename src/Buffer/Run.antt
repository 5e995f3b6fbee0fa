-- ===== src/Buffer/Run.antt =====
-- A buffer under any sequence of calls, beside a queue of bytes.
use netfish.Prelude.{
  ℕ, ◌≤◌, ◌<◌, ◌⊎◌, ◌≡◌, List, [], ◌∷◌, ◌++◌, length, drop, Outcome, ok, err, Fault,
  assertion_failed, length_error, ◌>>=◌,
}
use netfish.Buffer.{Buffer, max_size, append, retrieve, retrieve_as_string, prepend}
use netfish.Buffer.Valid.{IsValid, contents}
use netfish.Buffer.Room.{InGap, TooLong}

-- The calls of a client.
pub data Op : Type 0 where
  appends : List ℕ → Op
  prepends : List ℕ → Op
  retrieves : ℕ → Op
  drains : Op

-- One call: the bytes that it hands out, and the buffer after it.
abbrev silent : Outcome Buffer → Outcome (List ℕ × Buffer)
silent r = r >>= λ b. ok ([], b)

pub step : Op → Buffer → Outcome (List ℕ × Buffer)
step (appends xs) b = silent (append xs b)
step (prepends xs) b = silent (prepend xs b)
step (retrieves n) b = silent (retrieve n b)
step drains b = retrieve_as_string b

-- The bytes handed out by a sequence of calls, and the buffer after it.
pub run : List Op → Buffer → Outcome (List ℕ × Buffer)
run [] b = ok ([], b)
run (o ∷ os) b = do r ← step o b; s ← run os r.1; ok (r.0 ++ s.0, s.1)

-- The same for a queue of bytes.
unfoldable pub step_queue : Op → List ℕ → List ℕ × List ℕ
step_queue (appends xs) q = ([], q ++ xs)
step_queue (prepends xs) q = ([], xs ++ q)
step_queue (retrieves n) q = ([], drop n q)
step_queue drains q = (q, [])

unfoldable pub run_queue : List Op → List ℕ → List ℕ × List ℕ
run_queue [] q = ([], q)
run_queue (o ∷ os) q = let r = step_queue o q in let s = run_queue os r.1 in (r.0 ++ s.0, s.1)

-- A string is no longer than a vector can be.
abbrev pub Fits : List Op → Type 0
Fits [] = Unit {0}
Fits (appends xs ∷ os) = (length xs ≤ max_size) × Fits os
Fits (_ ∷ os) = Fits os

-- When a call is stopped, and by what; `retrieveAsString` never is.
abbrev pub Stops : Op → Buffer → Fault → Type 0
Stops (appends xs) b e =
    (InGap (length xs) b × (e ≡ assertion_failed)) ⊎ (TooLong (length xs) b × (e ≡ length_error))
Stops (prepends xs) b e = (b.reader_index < length xs) × (e ≡ assertion_failed)
Stops (retrieves n) b e = (length (contents b) < n) × (e ≡ assertion_failed)
Stops drains b e = ⊥

-- A call or a run that ends hands out what the queue does, on a valid buffer with the queue's bytes.
abbrev pub Agrees : Outcome (List ℕ × Buffer) → List ℕ × List ℕ → Type 0
Agrees r q = (b : Buffer) × (r ≡ ok (q.0, b)) × IsValid b × (contents b ≡ q.1)

-- A run that is stopped: the calls before agree with the queue, and the next one is stopped.
abbrev pub IsStopped : List Op → Buffer → Type 0
IsStopped ops b =
    (done rest : List Op) × (o : Op) × (b' : Buffer) × (e : Fault) × (ops ≡ done ++ (o ∷ rest))
    × (run done b ≡ ok ((run_queue done (contents b)).0, b'))
    × IsValid b'
    × (contents b' ≡ (run_queue done (contents b)).1)
    × Stops o b' e
    × (run ops b ≡ err e)
