-- ===== src/Buffer/Valid.antt =====
-- The picture at the top of Buffer.h as an invariant, and what each operation of the buffer is
-- on a valid one, with the `size_t` arithmetic worked out.
use netfish.Prelude.{
  ℕ, ◌+◌, ◌-◌, ◌≤◌, ◌<◌, ◌≡◌, List, ◌++◌, arith, length, replicate, slice, overwrite, length-append,
  length-replicate, length-slice, length-overwrite, take_all, ok, err, assertion_failed,
}
use netfish.Buffer.{Buffer, cheap_prepend, max_size, retrieve, grow, move_down}

pub record IsValid (b : Buffer) : Type 0 where
  pub order : b.reader_index ≤ b.writer_index
  pub within : b.writer_index ≤ length b.buffer
  pub small : length b.buffer ≤ max_size

-- The readable bytes, oldest first.
abbrev pub contents : Buffer → List ℕ
contents b = slice b.reader_index (b.writer_index - b.reader_index) b.buffer

-- `writableBytes()` of a valid buffer.
abbrev pub writable : Buffer → ℕ
writable b = length b.buffer - b.writer_index

pub length-contents :
    {b : Buffer} → IsValid b → length (contents b) ≡ b.writer_index - b.reader_index
length-contents {b} v =
    length-slice b.reader_index (b.writer_index - b.reader_index) b.buffer (omega arith)

pub retrieve_lem :
    {b : Buffer} (n : ℕ)
    → IsValid b
    → b.reader_index + n ≤ b.writer_index
    → retrieve n b ≡ ok (record b { reader_index = b.reader_index + n })
unfolding retrieve
retrieve_lem n v h = ground arith

-- The buffer that `grow` makes.
abbrev pub grown : ℕ → Buffer → Buffer
grown len b = record b { buffer = b.buffer ++ replicate (b.writer_index + len - length b.buffer) 0 }

pub grow_lem :
    {b : Buffer} (len : ℕ)
    → IsValid b
    → length b.buffer ≤ b.writer_index + len
    → b.writer_index + len ≤ max_size
    → grow len b ≡ ok (grown len b)
unfolding grow
grow_lem {b} len v h k = ground (arith, take_all (b.writer_index + len) b.buffer)

-- The buffer that `move_down` makes.
abbrev pub moved : Buffer → Buffer
moved b = record {
  buffer = overwrite (contents b) cheap_prepend b.buffer;
  reader_index = cheap_prepend;
  writer_index = cheap_prepend + (b.writer_index - b.reader_index);
}

pub move_down_lem :
    {b : Buffer} → IsValid b → cheap_prepend < b.reader_index → move_down b ≡ ok (moved b)
unfolding move_down
move_down_lem v h = ground (arith, length-contents v)

pub move_down_fails :
    (b : Buffer) → b.reader_index ≤ cheap_prepend → move_down b ≡ err assertion_failed
unfolding move_down
move_down_fails b h = ground arith

pub moved-IsValid : {b : Buffer} → IsValid b → cheap_prepend < b.reader_index → IsValid (moved b)
moved-IsValid {b} v h =
    omega (arith, length-overwrite (contents b) cheap_prepend b.buffer, length-contents v)

pub grown-IsValid :
    {b : Buffer} (len : ℕ)
    → IsValid b
    → length b.buffer ≤ b.writer_index + len
    → b.writer_index + len ≤ max_size
    → IsValid (grown len b)
grown-IsValid {b} len v h k = omega (
  arith,
  length-append b.buffer (replicate (b.writer_index + len - length b.buffer) 0),
  length-replicate {A = ℕ} (b.writer_index + len - length b.buffer) 0,
)
