-- ===== src/Buffer/Shrink.antt =====
-- `shrink` makes a new vector with the readable bytes at `kCheapPrepend`, and leaves the indices.
use netfish.Prelude.{
  ℕ, ◌+◌, ◌-◌, ◌≤◌, ◌<◌, ◌≡◌, sym, ap, ◌∙◌, List, [], ◌++◌, arith, length, take, drop, replicate,
  overwrite, slice, slice-overwrite_self, length-overwrite, length-replicate, length-take,
  length-drop, drop-append_le, drop-append_ge, take-append_ge, drop-replicate, drop-drop,
  take-replicate, ok, take_all,
}
use netfish.Buffer.{Buffer, cheap_prepend, max_size, add_size, readable_bytes, fresh_vector, shrink}
use netfish.Buffer.Valid.{IsValid, contents, length-contents}
use netfish.Buffer.Contents.{Yields}

-- The size of the new vector.
abbrev shrunk_size : ℕ → Buffer → ℕ
shrunk_size reserve b = cheap_prepend + (b.writer_index - b.reader_index) + reserve

abbrev pub shrunk : ℕ → Buffer → Buffer
shrunk reserve b = record b {
  buffer = overwrite (contents b) cheap_prepend (replicate (shrunk_size reserve b) 0);
}

fresh_vector_lem :
    (size : ℕ) (xs : List ℕ)
    → cheap_prepend + length xs ≤ size
    → size ≤ max_size
    → fresh_vector size xs ≡ ok (overwrite xs cheap_prepend (replicate size 0))
unfolding fresh_vector
fresh_vector_lem size xs h k =
    ground (arith, take_all {A = ℕ} size [] (omega arith), length-replicate {A = ℕ} size 0)

shrink_lem :
    {b : Buffer} (reserve : ℕ)
    → IsValid b
    → shrunk_size reserve b ≤ max_size
    → shrink reserve b ≡ ok (shrunk reserve b)
unfolding shrink
shrink_lem {b} reserve v h =
    let size : add_size (add_size cheap_prepend (readable_bytes b)) reserve
        ≡ shrunk_size reserve b =
      omega arith in
    let readable : readable_bytes b ≡ b.writer_index - b.reader_index = omega arith in
    rw size (
      rw readable (
        rw (
          fresh_vector_lem (shrunk_size reserve b) (contents b) (omega (arith, length-contents v))
            h)))

size-shrunk :
    {b : Buffer} (reserve : ℕ)
    → IsValid b
    → length (shrunk reserve b).buffer ≡ shrunk_size reserve b
size-shrunk {b} reserve v = omega (
  arith,
  length-overwrite (contents b) cheap_prepend (replicate {A = ℕ} (shrunk_size reserve b) 0),
  length-contents v,
  length-replicate {A = ℕ} (shrunk_size reserve b) 0,
)

shrunk-IsValid :
    {b : Buffer} (reserve : ℕ)
    → IsValid b
    → b.reader_index ≤ cheap_prepend + reserve
    → shrunk_size reserve b ≤ max_size
    → IsValid (shrunk reserve b)
shrunk-IsValid {b} reserve v h k = record {
  order = v.order;
  within = omega (arith, size-shrunk reserve v, v.order);
  small = rw (size-shrunk reserve v) k;
}

-- On a buffer whose readable bytes start at `kCheapPrepend`, `shrink` keeps them, and the vector
-- has the size that the comment gives it.
pub shrink_at_front :
    (b : Buffer) (reserve : ℕ)
    → IsValid b
    → b.reader_index ≡ cheap_prepend
    → cheap_prepend + length (contents b) + reserve ≤ max_size
    → (b' : Buffer) × (shrink reserve b ≡ ok b')
      × IsValid b'
      × (contents b' ≡ contents b)
      × (length b'.buffer ≡ cheap_prepend + length (contents b) + reserve)
shrink_at_front b reserve v e h = (
  shrunk reserve b,
  shrink_lem reserve v (omega (arith, length-contents v)),
  shrunk-IsValid reserve v (omega arith) (omega (arith, length-contents v)),
  ap (λ k. slice k (b.writer_index - b.reader_index) (shrunk reserve b).buffer) e
      ∙ ap (λ k. slice cheap_prepend k (shrunk reserve b).buffer) (sym (length-contents v))
      ∙ slice-overwrite_self cheap_prepend (contents b) (replicate (shrunk_size reserve b) 0)
          (omega (arith, length-contents v, length-replicate {A = ℕ} (shrunk_size reserve b) 0)),
  omega (arith, size-shrunk reserve v, length-contents v),
)

window_past :
    (k n r : ℕ) (xs : List ℕ)
    → length xs ≡ n
    → k ≤ n
    → k ≤ r
    → take n (drop k (xs ++ replicate r 0)) ≡ drop k xs ++ replicate k 0
window_past k n r xs e h g =
    ap (take n) (drop-append_le k xs (replicate r 0) (omega arith))
    ∙ take-append_ge n (drop k xs) (replicate r 0) (omega (arith, length-drop k xs))
    ∙ ap (λ l. drop k xs ++ l)
        (ap (λ j. take j (replicate r 0)) (omega (arith, length-drop k xs))
          ∙ take-replicate k r 0 g)

drop_past :
    (b : Buffer) (k reserve : ℕ)
    → IsValid b
    → drop (cheap_prepend + k) (shrunk reserve b).buffer
      ≡ drop k (contents b ++ replicate reserve 0)
drop_past b k reserve v =
    sym (drop-drop k cheap_prepend (shrunk reserve b).buffer)
    ∙ ap (drop k) (
        drop-append_ge cheap_prepend (take cheap_prepend zeros) _ (omega (arith, front))
        ∙ ap (λ j. drop j (contents b ++ drop (cheap_prepend + length (contents b)) zeros)) {y = 0}
            (omega (arith, front))
        ∙ ap (λ l. contents b ++ l)
            (drop-replicate (cheap_prepend + length (contents b)) (shrunk_size reserve b) 0
              ∙ ap (λ j. replicate j 0) (omega (arith, length-contents v))))
  where
    zeros : List ℕ
    zeros = replicate (shrunk_size reserve b) 0

    front : length (take cheap_prepend zeros) ≡ cheap_prepend
    front =
        omega (
          arith,
          length-take cheap_prepend zeros,
          length-replicate {A = ℕ} (shrunk_size reserve b) 0,
        )

-- Where the readable bytes start `k` bytes further on, the indices miss the moved bytes: within
-- the reserve the first `k` bytes are lost and `k` zeros follow the rest.
pub shrink_displaces :
    (b : Buffer) (k reserve : ℕ)
    → IsValid b
    → b.reader_index ≡ cheap_prepend + k
    → k ≤ length (contents b)
    → k ≤ reserve
    → cheap_prepend + length (contents b) + reserve ≤ max_size
    → Yields (shrink reserve b) (drop k (contents b) ++ replicate k 0)
shrink_displaces b k reserve v e h g s = (
  shrunk reserve b,
  shrink_lem reserve v (omega (arith, length-contents v)),
  shrunk-IsValid reserve v (omega arith) (omega (arith, length-contents v)),
  ap (λ j. slice j (b.writer_index - b.reader_index) (shrunk reserve b).buffer) e
      ∙ ap (take (b.writer_index - b.reader_index)) (drop_past b k reserve v)
      ∙ window_past k (b.writer_index - b.reader_index) reserve (contents b) (length-contents v)
          (omega (arith, length-contents v)) g,
)

-- Further on than the reserve, the writer index is left past the end of the new vector.
pub shrink_breaks :
    (b : Buffer) (reserve : ℕ)
    → IsValid b
    → cheap_prepend + reserve < b.reader_index
    → cheap_prepend + length (contents b) + reserve ≤ max_size
    → (b' : Buffer) × (shrink reserve b ≡ ok b') × (length b'.buffer < b'.writer_index)
shrink_breaks b reserve v h s = (
  shrunk reserve b,
  shrink_lem reserve v (omega (arith, length-contents v)),
  omega (arith, size-shrunk reserve v),
)
