-- ===== src/Buffer/Tests.antt =====
-- Runs of the buffer, and the theorems at buffers that show each branch.
use netfish.Prelude.{
  ◌≡◌, ◌≤◌, ◌<◌, ◌⊎◌, refl, List, [], ◌∷◌, ◌++◌, arith, length, replicate, ok, err,
  assertion_failed, length_error,
}
use netfish.Buffer.{
  Buffer, append, ensure_writable_bytes, make_room, move_down, has_written, received, read_fd,
  retrieve_as_string, prepend, shrink,
}
use netfish.Buffer.Valid.{IsValid, contents, writable}
use netfish.Buffer.New.{fresh}
use netfish.Buffer.Contents.{Yields, retrieve_as_string_lem, prepend-Yields}
use netfish.Buffer.Room.{HasRoom, InGap, TooLong, append_outcome, ensure_writable_bytes_lem, moving}
use netfish.Buffer.Input.{Overruns, read_fd_outcome}
use netfish.Buffer.Shrink.{shrink_at_front, shrink_displaces, shrink_breaks}
use netfish.Buffer.Run.{Op, appends, prepends, retrieves, drains}

-- A small vector with the bytes 5 6 readable at index 12.
abbrev small : Buffer
small = record { buffer = replicate 12 0 ++ (5 ∷ 6 ∷ []); reader_index = 12; writer_index = 14 }

small-IsValid : IsValid small
small-IsValid = omega arith

-- One byte more than the initial size is in the gap: a new buffer cannot take 1025 bytes.
append_1025 : append (replicate 1025 7) fresh ≡ err assertion_failed
unfolding append ensure_writable_bytes make_room move_down
append_1025 = refl

append_4 :
    append (1 ∷ 2 ∷ 3 ∷ 4 ∷ []) small
    ≡ ok (record {
      buffer = replicate 8 0 ++ (5 ∷ 6 ∷ 1 ∷ 2 ∷ 3 ∷ 4 ∷ []);
      reader_index = 8;
      writer_index = 14;
    })
unfolding append ensure_writable_bytes make_room move_down has_written
append_4 = refl

append_outcome_example :
    (HasRoom 3 small × Yields (append (1 ∷ 2 ∷ 3 ∷ []) small) (5 ∷ 6 ∷ 1 ∷ 2 ∷ 3 ∷ []))
    ⊎ (InGap 3 small × (append (1 ∷ 2 ∷ 3 ∷ []) small ≡ err assertion_failed))
    ⊎ (TooLong 3 small × (append (1 ∷ 2 ∷ 3 ∷ []) small ≡ err length_error))
append_outcome_example = append_outcome small (1 ∷ 2 ∷ 3 ∷ []) small-IsValid (omega arith)

ensure_writable_bytes_example :
    (b' : Buffer) × (ensure_writable_bytes 4 small ≡ ok b')
    × IsValid b'
    × (contents b' ≡ 5 ∷ 6 ∷ [])
    × (4 ≤ writable b')
ensure_writable_bytes_example =
    ensure_writable_bytes_lem small 4 small-IsValid (omega arith)
      (moving (omega arith) (omega arith))

read_fd_outcome_example :
    ((b' : Buffer) × (read_fd (received (1 ∷ 2 ∷ [])) small ≡ ok (b', received (1 ∷ 2 ∷ [])))
      × IsValid b'
      × (contents b' ≡ 5 ∷ 6 ∷ 1 ∷ 2 ∷ []))
    ⊎ (Overruns (1 ∷ 2 ∷ []) small × (read_fd (received (1 ∷ 2 ∷ [])) small ≡ err assertion_failed))
read_fd_outcome_example =
    read_fd_outcome small (1 ∷ 2 ∷ []) small-IsValid (omega arith) (omega arith)

retrieved_all :
    (b' : Buffer) × (retrieve_as_string small ≡ ok (5 ∷ 6 ∷ [], b'))
    × IsValid b'
    × (contents b' ≡ [])
retrieved_all = retrieve_as_string_lem small small-IsValid

prepend_example : Yields (prepend (9 ∷ []) small) (9 ∷ 5 ∷ 6 ∷ [])
prepend_example = prepend-Yields small (9 ∷ []) small-IsValid (omega arith)

shrink_displaces_example :
    Yields (shrink 6 (record small { reader_index = 10 })) (5 ∷ 6 ∷ 0 ∷ 0 ∷ [])
shrink_displaces_example =
    shrink_displaces (record small { reader_index = 10 }) 2 6 (omega arith) refl (omega arith)
      (omega arith) (omega arith)

shrunk_past_end : (b' : Buffer) × (shrink 0 small ≡ ok b') × (length b'.buffer < b'.writer_index)
shrunk_past_end = shrink_breaks small 0 small-IsValid (omega arith) (omega arith)

shrink_at_front_example :
    (b' : Buffer) × (shrink 2 (record small { reader_index = 8 }) ≡ ok b')
    × IsValid b'
    × (contents b' ≡ 0 ∷ 0 ∷ 0 ∷ 0 ∷ 5 ∷ 6 ∷ [])
    × (length b'.buffer ≡ 16)
shrink_at_front_example =
    shrink_at_front (record small { reader_index = 8 }) 2 (omega arith) refl (omega arith)

abbrev script : List Op
script = appends (7 ∷ []) ∷ retrieves 1 ∷ prepends (3 ∷ []) ∷ drains ∷ []
