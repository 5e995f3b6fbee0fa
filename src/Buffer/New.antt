-- ===== src/Buffer/New.antt =====
-- The constructor and `swap`.
use netfish.Prelude.{◌+◌, ◌≡◌, refl, [], arith, replicate, ok}
use netfish.Buffer.{Buffer, cheap_prepend, initial_size, new}
use netfish.Buffer.Valid.{IsValid, contents, writable}

abbrev pub fresh : Buffer
fresh = record {
  buffer = replicate (cheap_prepend + initial_size) 0;
  reader_index = cheap_prepend;
  writer_index = cheap_prepend;
}

-- The constructor's asserts hold, and the new buffer is valid, empty, and has `kInitialSize`
-- writable bytes.
pub new_lem :
    (new ≡ ok fresh) × IsValid fresh × (contents fresh ≡ []) × (writable fresh ≡ initial_size)
unfolding new
new_lem = (refl, omega arith, refl, refl)
