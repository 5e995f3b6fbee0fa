-- ===== src/Buffer/Room.antt =====
-- `ensureWritableBytes` and `append`: when they find room, what they keep, and when they abort.
use netfish.Prelude.{
  ℕ, ◌+◌, ◌-◌, ◌≤◌, ◌<◌, ◌≡◌, refl, ap, ◌∙◌, ◌⊎◌, inl, inr, List, ◌++◌, arith, length, slice,
  overwrite, slice-overwrite_self, slice-overwrite_end, slice-append, replicate, length-overwrite,
  length-append, length-replicate, ok, err, assertion_failed, length_error,
}
use native.Mathlib.Decide.{dec_le, dec_lt}
use netfish.Buffer.{
  Buffer, cheap_prepend, max_size, grow, move_down, make_room, ensure_writable_bytes, append,
  has_written,
}
use netfish.Buffer.Valid.{
  IsValid, contents, writable, length-contents, grow_lem, move_down_lem, move_down_fails, grown,
  moved, grown-IsValid, moved-IsValid,
}
use netfish.Buffer.Contents.{Yields}

-- There is room for `len` more bytes: behind the writer index, by growing the vector, or by
-- moving the readable bytes down to `kCheapPrepend`.
pub data HasRoom (len : ℕ) (b : Buffer) : Type 0 where
  behind : len ≤ writable b → HasRoom len b
  growing : writable b + b.reader_index < len → b.writer_index + len ≤ max_size → HasRoom len b
  moving : writable b < len → len + cheap_prepend ≤ writable b + b.reader_index → HasRoom len b

contents-grown : {b : Buffer} (len : ℕ) → IsValid b → contents (grown len b) ≡ contents b
contents-grown {b} len v =
    slice-append b.reader_index (b.writer_index - b.reader_index) b.buffer _ (omega arith)

contents-moved :
    {b : Buffer} → IsValid b → cheap_prepend < b.reader_index → contents (moved b) ≡ contents b
contents-moved {b} v h =
    ap (λ k. slice cheap_prepend k (moved b).buffer) (omega (arith, length-contents v))
    ∙ slice-overwrite_self cheap_prepend (contents b) b.buffer (omega (arith, length-contents v))

-- The three ways through `make_room`.
make_room-grow :
    {b : Buffer} (len : ℕ)
    → IsValid b
    → writable b + b.reader_index < len
    → make_room len b ≡ grow len b
unfolding make_room
make_room-grow len v h = ground arith

make_room-move_down :
    {b : Buffer} (len : ℕ)
    → IsValid b
    → writable b < len
    → len ≤ writable b + b.reader_index
    → make_room len b ≡ move_down b
unfolding make_room
make_room-move_down len v h k = ground arith

make_room_behind : {b : Buffer} (len : ℕ) → IsValid b → len ≤ writable b → make_room len b ≡ ok b
unfolding make_room
make_room_behind len v h = ground arith

-- The assert at the end of `ensureWritableBytes` holds of what `make_room` found.
ensure_of_room :
    (b : Buffer) {b' : Buffer} (len : ℕ)
    → IsValid b'
    → make_room len b ≡ ok b'
    → len ≤ writable b'
    → ensure_writable_bytes len b ≡ ok b'
unfolding ensure_writable_bytes
ensure_of_room b len v e h = rw e (ground arith)

writable-grown :
    {b : Buffer} (len : ℕ)
    → IsValid b
    → length b.buffer ≤ b.writer_index + len
    → len ≤ writable (grown len b)
writable-grown {b} len v h = omega (
  arith,
  length-append b.buffer (replicate (b.writer_index + len - length b.buffer) 0),
  length-replicate {A = ℕ} (b.writer_index + len - length b.buffer) 0,
)

writable-moved :
    {b : Buffer}
    → IsValid b
    → cheap_prepend < b.reader_index
    → writable (moved b) + cheap_prepend ≡ writable b + b.reader_index
writable-moved {b} v h =
    omega (arith, length-overwrite (contents b) cheap_prepend b.buffer, length-contents v)

-- Where there is room, `ensureWritableBytes` keeps the readable bytes and the invariant, and
-- leaves as many writable bytes as it was asked for.
pub ensure_writable_bytes_lem :
    (b : Buffer) (len : ℕ)
    → IsValid b
    → len ≤ max_size
    → HasRoom len b
    → (b' : Buffer) × (ensure_writable_bytes len b ≡ ok b')
      × IsValid b'
      × (contents b' ≡ contents b)
      × (len ≤ writable b')
ensure_writable_bytes_lem b len v s (behind h) =
    (b, ensure_of_room b len v (make_room_behind len v h) h, v, refl, h)
ensure_writable_bytes_lem b len v s (growing h k) =
    let v' = grown-IsValid len v (omega arith) k in
    let w = writable-grown {b = b} len v (omega arith) in
    (
      grown len b,
      ensure_of_room b len v' (make_room-grow len v h ∙ grow_lem len v (omega arith) k) w,
      v',
      contents-grown len v,
      w,
    )
ensure_writable_bytes_lem b len v s (moving h k) =
    let r : cheap_prepend < b.reader_index = omega arith in
    let v' = moved-IsValid v r in
    let w : len ≤ writable (moved b) = omega (arith, writable-moved v r) in
    (
      moved b,
      ensure_of_room b len v' (make_room-move_down len v h (omega arith) ∙ move_down_lem v r) w,
      v',
      contents-moved v r,
      w,
    )

-- With room for it, `append` puts the string behind the readable bytes.
pub append-Yields :
    (b : Buffer) (xs : List ℕ)
    → IsValid b
    → length xs ≤ max_size
    → HasRoom (length xs) b
    → Yields (append xs b) (contents b ++ xs)
unfolding append has_written
append-Yields b xs v s room =
    let (b', e, v', c, w) = ensure_writable_bytes_lem b (length xs) v s room in
    (
      record b' {
        buffer = overwrite xs b'.writer_index b'.buffer;
        writer_index = b'.writer_index + length xs;
      },
      rw e (ground arith),
      omega (arith, length-overwrite xs b'.writer_index b'.buffer),
      slice-overwrite_end b'.reader_index b'.writer_index xs b'.buffer (omega arith) (omega arith)
          ∙ ap (λ l. l ++ xs) c,
    )

-- In the gap that the test of `ensureWritableBytes` leaves, less than `kCheapPrepend` bytes short,
-- an assert fails.
ensure_writable_bytes_aborts :
    (b : Buffer) (len : ℕ)
    → IsValid b
    → writable b < len
    → len ≤ writable b + b.reader_index
    → writable b + b.reader_index < len + cheap_prepend
    → ensure_writable_bytes len b ≡ err assertion_failed
unfolding ensure_writable_bytes
ensure_writable_bytes_aborts b len v h k g = elim (dec_lt cheap_prepend b.reader_index) [
  | yes r ↦
      rw (make_room-move_down len v h k, move_down_lem v r)
        (ground (arith, writable-moved v r, moved-IsValid v r))
  | no r ↦ rw (make_room-move_down len v h k, move_down_fails b (omega arith))
]

-- `append` aborts for a string that would fit in the vector only with the `kCheapPrepend` bytes
-- that the buffer keeps free: the test forgets them, and an assert fails.
pub append_aborts :
    (b : Buffer) (xs : List ℕ)
    → IsValid b
    → writable b < length xs
    → length xs ≤ writable b + b.reader_index
    → writable b + b.reader_index < length xs + cheap_prepend
    → append xs b ≡ err assertion_failed
unfolding append
append_aborts b xs v h k g = rw (ensure_writable_bytes_aborts b (length xs) v h k g)

-- A vector that would be too long throws.
pub append_throws :
    (b : Buffer) (xs : List ℕ)
    → IsValid b
    → length xs ≤ max_size
    → writable b + b.reader_index < length xs
    → max_size < b.writer_index + length xs
    → append xs b ≡ err length_error
unfolding append ensure_writable_bytes grow
append_throws b xs v s h k = rw (make_room-grow (length xs) v h) (ground arith)

-- The gap in which `append` aborts.
pub record InGap (len : ℕ) (b : Buffer) : Type 0 where
  pub short : writable b < len
  pub passes : len ≤ writable b + b.reader_index
  pub forgets : writable b + b.reader_index < len + cheap_prepend

-- The vector would be longer than a vector can be.
pub record TooLong (len : ℕ) (b : Buffer) : Type 0 where
  pub short : writable b + b.reader_index < len
  pub beyond : max_size < b.writer_index + len

pub room_cases : (len : ℕ) (b : Buffer) → HasRoom len b ⊎ InGap len b ⊎ TooLong len b
room_cases len b = elim (dec_le len (writable b)) [
  | yes h ↦ inl (behind h)
  | no h ↦ elim (dec_lt (writable b + b.reader_index) len) [
    | yes g ↦ elim (dec_le (b.writer_index + len) max_size) [
      | yes k ↦ inl (growing g k)
      | no k ↦ inr (inr (record { short = g; beyond = omega arith }))
    ]
    | no g ↦ elim (dec_le (len + cheap_prepend) (writable b + b.reader_index)) [
      | yes k ↦ inl (moving (omega arith) k)
      | no k ↦
          inr (inl (record { short = omega arith; passes = omega arith; forgets = omega arith }))
    ]
  ]
]

-- What `append` does on a valid buffer, whatever the string: it puts the string behind the
-- readable bytes, exactly where there is room; or the string is in the gap and an assert fails;
-- or the vector would be too long and throws. It never writes out of bounds.
pub append_outcome :
    (b : Buffer) (xs : List ℕ)
    → IsValid b
    → length xs ≤ max_size
    → (HasRoom (length xs) b × Yields (append xs b) (contents b ++ xs))
      ⊎ (InGap (length xs) b × (append xs b ≡ err assertion_failed))
      ⊎ (TooLong (length xs) b × (append xs b ≡ err length_error))
append_outcome b xs v s = elim (room_cases (length xs) b) [
  | inl room ↦ inl (room, append-Yields b xs v s room)
  | inr (inl gap) ↦ inr (inl (gap, append_aborts b xs v gap.short gap.passes gap.forgets))
  | inr (inr long) ↦ inr (inr (long, append_throws b xs v s long.short long.beyond))
]
