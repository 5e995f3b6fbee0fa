-- ===== src/Buffer/Input.antt =====
-- `readFd`: what `readv` scatters over the vector and `extrabuf` ends up behind the readable bytes.
use netfish.Prelude.{
  ℕ, ◌+◌, ◌-◌, ◌≤◌, ◌<◌, ◌≡◌, refl, ap, ◌∙◌, ◌⊎◌, inl, inr, List, ◌++◌, append_assoc, arith, length,
  take, drop, overwrite, slice-overwrite_end, length-overwrite, length-take, length-drop,
  take-append-drop, ok, err, assertion_failed,
}
use native.Mathlib.Decide.{dec_le}
use netfish.Buffer.{
  Buffer, cheap_prepend, max_size, append, received, extrabuf_size, read_within, read_beyond,
  read_fd,
}
use netfish.Buffer.Valid.{IsValid, contents, writable}
use netfish.Buffer.Contents.{Yields}
use netfish.Buffer.Room.{HasRoom, append-Yields, append_aborts, room_cases}

-- The buffer with `xs` written behind the readable bytes.
filled : List ℕ → Buffer → Buffer
filled xs b = record b {
  buffer = overwrite xs b.writer_index b.buffer;
  writer_index = b.writer_index + length xs;
}

filled-IsValid :
    {b : Buffer} (xs : List ℕ) → IsValid b → length xs ≤ writable b → IsValid (filled xs b)
unfolding filled
filled-IsValid {b} xs v h = omega (arith, length-overwrite xs b.writer_index b.buffer)

contents-filled :
    {b : Buffer} (xs : List ℕ)
    → IsValid b
    → length xs ≤ writable b
    → contents (filled xs b) ≡ contents b ++ xs
unfolding filled
contents-filled {b} xs v h =
    slice-overwrite_end b.reader_index b.writer_index xs b.buffer (omega arith) (omega arith)

read_within_lem :
    {b : Buffer} (xs : List ℕ)
    → IsValid b
    → length xs ≤ writable b
    → read_within xs b ≡ ok (filled xs b)
unfolding read_within filled
read_within_lem xs v h = ground arith

length_front :
    (b : Buffer) (xs : List ℕ) → writable b < length xs → length (take (writable b) xs) ≡ writable b
length_front b xs h = omega (arith, length-take (writable b) xs)

-- The second `iovec` goes through `append`, on a buffer that is full.
read_beyond_lem :
    {b : Buffer} (xs : List ℕ)
    → IsValid b
    → writable b < length xs
    → read_beyond xs b ≡ append (drop (writable b) xs) (filled (take (writable b) xs) b)
unfolding read_beyond filled
read_beyond_lem {b} xs v h =
    ground
      (arith, length_front b xs h, length-overwrite (take (writable b) xs) b.writer_index b.buffer)

-- The readv result lands in the gap of `append`: the bytes beyond the writable ones would fit
-- before the reader index only with the `kCheapPrepend` bytes.
pub record Overruns (xs : List ℕ) (b : Buffer) : Type 0 where
  pub over : writable b < length xs
  pub passes : length xs ≤ writable b + b.reader_index
  pub forgets : writable b + b.reader_index < length xs + cheap_prepend

module _ (b : Buffer) (xs : List ℕ) (v : IsValid b) (over : writable b < length xs) where
  full : Buffer
  full = filled (take (writable b) xs) b

  full-IsValid : IsValid full
  unfolding full
  full-IsValid = filled-IsValid (take (writable b) xs) v (omega (arith, length_front b xs over))

  writable-full : writable full ≡ 0
  unfolding full filled
  writable-full = omega (
    arith,
    length_front b xs over,
    length-overwrite (take (writable b) xs) b.writer_index b.buffer,
  )

  reader_index-full : full.reader_index ≡ b.reader_index
  unfolding full filled
  reader_index-full = refl

  size-full : length full.buffer ≡ length b.buffer
  unfolding full filled
  size-full =
      length-overwrite (take (writable b) xs) b.writer_index b.buffer
        (omega (arith, length_front b xs over))

  contents-full : contents full ++ drop (writable b) xs ≡ contents b ++ xs
  unfolding full
  contents-full =
      ap (λ l. l ++ drop (writable b) xs)
        (contents-filled (take (writable b) xs) v (omega (arith, length_front b xs over)))
      ∙ append_assoc (contents b) (take (writable b) xs) (drop (writable b) xs)
      ∙ ap (λ l. contents b ++ l) (take-append-drop (writable b) xs)

  read_beyond-Yields :
      length b.buffer + length xs ≤ max_size
      → HasRoom (length (drop (writable b) xs)) full
      → Yields (read_beyond xs b) (contents b ++ xs)
  unfolding full
  read_beyond-Yields s room =
      let (b', e, v', c) =
        append-Yields full (drop (writable b) xs) full-IsValid
          (omega (arith, length-drop (writable b) xs)) room in
      (b', read_beyond_lem xs v over ∙ e, v', c ∙ contents-full)

  -- An empty rest of the vector leaves the two other ways to find room.
  read_beyond_cases :
      length b.buffer + length xs ≤ max_size
      → Yields (read_beyond xs b) (contents b ++ xs)
        ⊎ (Overruns xs b × (read_beyond xs b ≡ err assertion_failed))
  read_beyond_cases s = elim (room_cases (length (drop (writable b) xs)) full) [
    | inl room ↦ inl (read_beyond-Yields s room)
    | inr (inl gap) ↦ inr (
      record {
        over = over;
        passes = omega (arith, rest, writable-full, reader_index-full, gap.passes);
        forgets = omega (arith, rest, writable-full, reader_index-full, gap.forgets);
      },
      read_beyond_lem xs v over
          ∙ unfold full in
            append_aborts full (drop (writable b) xs) full-IsValid gap.short gap.passes gap.forgets,
    )
    | inr (inr long) ↦ absurd (omega (arith, rest, size-full, full-IsValid, long.beyond))
  ]
    where
      rest : length (drop (writable b) xs) ≡ length xs - writable b
      rest = length-drop (writable b) xs

-- What `readFd` does with the bytes that `readv` brings, as many as the vector and `extrabuf`
-- take: it puts them behind the readable bytes and returns their number; or they overrun the
-- vector into the gap, and an assert fails.
pub read_fd_outcome :
    (b : Buffer) (xs : List ℕ)
    → IsValid b
    → length xs ≤ writable b + extrabuf_size
    → length b.buffer + (writable b + extrabuf_size) ≤ max_size
    → ((b' : Buffer) × (read_fd (received xs) b ≡ ok (b', received xs))
        × IsValid b'
        × (contents b' ≡ contents b ++ xs))
      ⊎ (Overruns xs b × (read_fd (received xs) b ≡ err assertion_failed))
unfolding read_fd
read_fd_outcome b xs v h s = elim (dec_le (length xs) (writable b)) [
  | yes k ↦ inl (
    filled xs b,
    ground (arith, read_within_lem xs v k),
    filled-IsValid xs v k,
    contents-filled xs v k,
  )
  | no k ↦ elim (read_beyond_cases b xs v (omega arith) (omega arith)) [
    | inl (b', e, v', c) ↦ inl (b', ground (arith, e), v', c)
    | inr (o, e) ↦ inr (o, ground (arith, e))
  ]
]
