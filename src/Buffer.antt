-- ===== src/Buffer.antt =====
-- Buffer.h and Buffer.cc: the byte buffer of a connection, read from the front and written at the
-- back. An operation that changes the buffer returns the new one, or the fault that stops it.
-- A `const char*` into the buffer is its offset from `begin()`.
pub mod Valid
pub mod Contents
pub mod Room
pub mod Input
pub mod Shrink
pub mod Run
pub mod New
mod Tests
use netfish.Prelude.{
  ℕ, ◌+◌, ◌-◌, ◌%◌, ◌^◌, Bool, true, false, List, [], ◌++◌, arith, ltb, leb, ◌==◌, if◌then◌else◌,
  length, take, drop, replicate, slice, overwrite, Outcome, ok, err, out_of_bounds, length_error,
  guard, assert, ◌>>=◌, ◌>>◌,
}

-- `size_t` arithmetic wraps.
abbrev pub add_size : ℕ → ℕ → ℕ
add_size a b = (a + b) % 2 ^ 64

abbrev pub sub_size : ℕ → ℕ → ℕ
sub_size a b = (a + 2 ^ 64 - b) % 2 ^ 64

-- The largest `std::vector<char>`.
abbrev pub max_size : ℕ
max_size = 2 ^ 63 - 1

-- `std::vector<char>::resize`: new bytes are 0.
abbrev pub resize : ℕ → List ℕ → Outcome (List ℕ)
resize n v =
    if ltb max_size n then err length_error else ok (take n v ++ replicate (n - length v) 0)

-- `std::copy` of the bytes `xs` to the vector's index `i`.
abbrev pub copy_to : List ℕ → ℕ → List ℕ → Outcome (List ℕ)
copy_to xs i v = if leb (i + length xs) (length v) then ok (overwrite xs i v) else err out_of_bounds

pub record Buffer : Type 0 where
  pub buffer : List ℕ
  pub reader_index : ℕ
  pub writer_index : ℕ

abbrev pub cheap_prepend : ℕ
cheap_prepend = 8

abbrev pub initial_size : ℕ
initial_size = 1024

abbrev pub readable_bytes : Buffer → ℕ
readable_bytes b = sub_size b.writer_index b.reader_index

abbrev pub writable_bytes : Buffer → ℕ
writable_bytes b = sub_size (length b.buffer) b.writer_index

abbrev pub prependable_bytes : Buffer → ℕ
prependable_bytes b = b.reader_index

-- The constructor, with its asserts.
unfoldable pub new : Outcome Buffer
new = do
  let b : Buffer = record {
    buffer = replicate (cheap_prepend + initial_size) 0;
    reader_index = cheap_prepend;
    writer_index = cheap_prepend;
  }
  assert (readable_bytes b == 0)
  assert (writable_bytes b == initial_size)
  assert (prependable_bytes b == cheap_prepend)
  ok b

unfoldable pub swap : Buffer → Buffer → Buffer × Buffer
swap b rhs = (
  record { buffer = rhs.buffer; reader_index = rhs.reader_index; writer_index = rhs.writer_index },
  record { buffer = b.buffer; reader_index = b.reader_index; writer_index = b.writer_index },
)

abbrev pub peek : Buffer → ℕ
peek b = b.reader_index

abbrev pub begin_write : Buffer → ℕ
begin_write b = b.writer_index

unfoldable pub retrieve : ℕ → Buffer → Outcome Buffer
retrieve len b = do
  assert (leb len (readable_bytes b))
  ok (record b { reader_index = add_size b.reader_index len })

unfoldable pub retrieve_until : ℕ → Buffer → Outcome Buffer
unfolding retrieve
retrieve_until end b = do
  assert (leb (peek b) end)
  assert (leb end (begin_write b))
  retrieve (end - peek b) b

unfoldable pub retrieve_all : Buffer → Outcome Buffer
unfolding retrieve
retrieve_all b = retrieve (readable_bytes b) b

unfoldable pub retrieve_as_string : Buffer → Outcome (List ℕ × Buffer)
unfolding retrieve_all
retrieve_as_string b = do
  let str = slice (peek b) (readable_bytes b) b.buffer
  b' ← retrieve_all b
  ok (str, b')

unfoldable pub has_written : ℕ → Buffer → Buffer
has_written len b = record b { writer_index = add_size b.writer_index len }

-- `buffer_.resize(writerIndex_ + len)`.
unfoldable pub grow : ℕ → Buffer → Outcome Buffer
grow len b = do v ← resize (add_size b.writer_index len) b.buffer; ok (record b { buffer = v })

-- The other branch: the readable bytes move down to `kCheapPrepend`.
unfoldable pub move_down : Buffer → Outcome Buffer
move_down b = do
  assert (ltb cheap_prepend b.reader_index)
  let readable = readable_bytes b
  v ← copy_to (slice b.reader_index readable b.buffer) cheap_prepend b.buffer
  let moved : Buffer = record {
    buffer = v;
    reader_index = cheap_prepend;
    writer_index = add_size cheap_prepend readable;
  }
  assert (readable == readable_bytes moved)
  ok moved

unfoldable pub make_room : ℕ → Buffer → Outcome Buffer
make_room len b =
    if ltb (writable_bytes b) len
    then (if ltb (add_size (writable_bytes b) (prependable_bytes b)) len
        then grow len b
        else move_down b)
    else ok b

unfoldable pub ensure_writable_bytes : ℕ → Buffer → Outcome Buffer
ensure_writable_bytes len b = do b' ← make_room len b; assert (leb len (writable_bytes b')); ok b'

unfoldable pub append : List ℕ → Buffer → Outcome Buffer
append str b = do
  b' ← ensure_writable_bytes (length str) b
  v ← copy_to str (begin_write b') b'.buffer
  ok (has_written (length str) (record b' { buffer = v }))

unfoldable pub prepend : List ℕ → Buffer → Outcome Buffer
prepend bytes b = do
  assert (leb (length bytes) (prependable_bytes b))
  let start = sub_size b.reader_index (length bytes)
  v ← copy_to bytes start b.buffer
  ok (record b { buffer = v; reader_index = start })

-- A new vector of `size` zeros, with `bytes` copied to `kCheapPrepend`.
unfoldable pub fresh_vector : ℕ → List ℕ → Outcome (List ℕ)
fresh_vector size bytes = do v ← resize size []; copy_to bytes cheap_prepend v

-- The indices stay as they were.
unfoldable pub shrink : ℕ → Buffer → Outcome Buffer
shrink reserve b = do
  let size = add_size (add_size cheap_prepend (readable_bytes b)) reserve
  v ← fresh_vector size (slice (peek b) (readable_bytes b) b.buffer)
  ok (record b { buffer = v })

-- What `readv` answers: the bytes that it read, or -1 with `errno`.
pub data Readv : Type 0 where
  received : List ℕ → Readv
  failed : ℕ → Readv

abbrev pub extrabuf_size : ℕ
extrabuf_size = 65536

-- `n <= writable`: all bytes are behind `beginWrite()`.
unfoldable pub read_within : List ℕ → Buffer → Outcome Buffer
read_within bytes b = do
  v ← copy_to bytes (begin_write b) b.buffer
  ok (record b { buffer = v; writer_index = add_size b.writer_index (length bytes) })

-- The kernel filled the writable part, and `extrabuf` with the rest.
unfoldable pub read_beyond : List ℕ → Buffer → Outcome Buffer
read_beyond bytes b = do
  let writable = writable_bytes b
  v ← copy_to (take writable bytes) (begin_write b) b.buffer
  append (drop writable bytes) (record b { buffer = v; writer_index = length v })

-- The new buffer, with the value that `readFd` returns or the `errno` that it saves.
unfoldable pub read_fd : Readv → Buffer → Outcome (Buffer × Readv)
read_fd (failed errno) b = ok (b, failed errno)
read_fd (received bytes) b = do
  b' ← if leb (length bytes) (writable_bytes b) then read_within bytes b else read_beyond bytes b
  ok (b', received bytes)
