-- ===== src/Buffer/Contents.antt =====
-- What the reading side of the buffer, and `prepend`, do to the readable bytes.
use netfish.Prelude.{
  ℕ, ◌+◌, ◌-◌, ◌≤◌, ◌<◌, ◌≡◌, ap, ◌∙◌, List, [], ◌++◌, arith, length, drop, slice, length-overwrite,
  slice-overwrite_start, slice-drop, drop_all, Outcome, ok, err, assertion_failed, overwrite,
}
use netfish.Buffer.{Buffer, retrieve, retrieve_until, retrieve_as_string, prepend}
use netfish.Buffer.Valid.{IsValid, contents, length-contents, retrieve_lem}

-- The call succeeds with a valid buffer that holds the bytes `q`.
abbrev pub Yields : Outcome Buffer → List ℕ → Type 0
Yields r q = (b : Buffer) × (r ≡ ok b) × IsValid b × (contents b ≡ q)

-- `retrieve(n)` drops the `n` oldest readable bytes, if there are so many.
pub retrieve-Yields :
    (b : Buffer) (n : ℕ)
    → IsValid b
    → n ≤ length (contents b)
    → Yields (retrieve n b) (drop n (contents b))
retrieve-Yields b n v h = (
  record b { reader_index = b.reader_index + n },
  retrieve_lem n v (omega (arith, length-contents v)),
  omega (arith, length-contents v),
  ap (λ k. slice (b.reader_index + n) k b.buffer) (omega arith)
      ∙ slice-drop b.reader_index n (b.writer_index - b.reader_index) b.buffer
          (omega (arith, length-contents v)),
)

-- Asked for more than there is, `retrieve` aborts.
pub retrieve_aborts :
    (b : Buffer) (n : ℕ) → IsValid b → length (contents b) < n → retrieve n b ≡ err assertion_failed
unfolding retrieve
retrieve_aborts b n v h = ground (arith, length-contents v)

-- `retrieveUntil(end)` drops the bytes before `end`, for an `end` between `peek()` and
-- `beginWrite()`, and aborts for every other.
pub retrieve_until-Yields :
    (b : Buffer) (end : ℕ)
    → IsValid b
    → b.reader_index ≤ end
    → end ≤ b.writer_index
    → Yields (retrieve_until end b) (drop (end - b.reader_index) (contents b))
unfolding retrieve_until
retrieve_until-Yields b end v h k =
    let (b', e, v', c) =
      retrieve-Yields b (end - b.reader_index) v (omega (arith, length-contents v)) in
    (b', ground (arith, e), v', c)

-- `retrieveAsString` returns all readable bytes in order, and leaves a valid buffer with none.
pub retrieve_as_string_lem :
    (b : Buffer)
    → IsValid b
    → (b' : Buffer) × (retrieve_as_string b ≡ ok (contents b, b')) × IsValid b' × (contents b' ≡ [])
unfolding retrieve_as_string
retrieve_as_string_lem b v =
    let (b', e, v', c) =
      retrieve-Yields b (b.writer_index - b.reader_index) v (omega (arith, length-contents v)) in
    (b', ground (arith, e), v', c ∙ drop_all _ (contents b) (omega (arith, length-contents v)))

-- `prepend` puts its bytes before the readable ones, if they fit before the reader index.
pub prepend-Yields :
    (b : Buffer) (xs : List ℕ)
    → IsValid b
    → length xs ≤ b.reader_index
    → Yields (prepend xs b) (xs ++ contents b)
unfolding prepend
prepend-Yields b xs v h = (
  record b {
    buffer = overwrite xs (b.reader_index - length xs) b.buffer;
    reader_index = b.reader_index - length xs;
  },
  ground arith,
  omega (arith, length-overwrite xs (b.reader_index - length xs) b.buffer),
  ap (λ k. slice start k (overwrite xs start b.buffer)) (omega arith)
      ∙ slice-overwrite_start start (b.writer_index - b.reader_index) xs b.buffer (omega arith)
      ∙ ap (λ k. xs ++ slice k (b.writer_index - b.reader_index) b.buffer) (omega arith),
)
  where
    start : ℕ
    start = b.reader_index - length xs

-- More bytes than fit there make `prepend` abort.
pub prepend_aborts :
    (b : Buffer) (xs : List ℕ) → b.reader_index < length xs → prepend xs b ≡ err assertion_failed
unfolding prepend
prepend_aborts b xs h = ground arith
