-- ===== src/TcpConnection/Valid.antt =====
-- A connection that has not been closed, and the stream of bytes that goes out of it.
use netfish.Prelude.{
  ℕ, ◌≡◌, ◌⊎◌, false, true, List, [], ◌∷◌, ap, ◌++◌, arith, length, Fault, StopsBuffer, Outcome, ok,
  err, ◌==◌, ◌&&◌, refl, Bool,
}
use netfish.Channel.{is_writing}
use netfish.Buffer.{Buffer, readable_bytes}
use netfish.Buffer.Valid.{contents, length-contents}
use netfish.TcpConnection.{TcpConnection}

-- The channel waits to write exactly when bytes wait in the output buffer.
pub record IsOpen (c : TcpConnection) : Type 0 where
  pub input : netfish.Buffer.Valid.IsValid c.input_buffer
  pub output : netfish.Buffer.Valid.IsValid c.output_buffer
  pub waits : is_writing c.channel ≡ false → contents c.output_buffer ≡ []
  pub busy : contents c.output_buffer ≡ [] → is_writing c.channel ≡ false

-- What has been written, and what waits to be.
abbrev pub stream : TcpConnection → List ℕ
stream c = c.written ++ contents c.output_buffer

-- The outcome of an operation that puts `bytes` at the end of the stream: only the buffer's asserts
-- and a vector that would be too long stop it.
abbrev pub Extends : TcpConnection → List ℕ → Outcome TcpConnection → Type 0
Extends c bytes r =
    ((c' : TcpConnection) × (r ≡ ok c') × IsOpen c' × (stream c' ≡ stream c ++ bytes))
    ⊎ ((e : Fault) × StopsBuffer e × (r ≡ err e))

pub readable_lem :
    {b : Buffer} → netfish.Buffer.Valid.IsValid b → readable_bytes b ≡ length (contents b)
readable_lem {b} v = ground (arith, length-contents v)

nil_of_length : (xs : List ℕ) → length xs ≡ 0 → xs ≡ []
nil_of_length [] h = refl
nil_of_length (x ∷ xs) h = absurd (omega (arith, h))

pub contents_empty :
    {b : Buffer} → netfish.Buffer.Valid.IsValid b → (readable_bytes b == 0) ≡ true → contents b ≡ []
contents_empty {b} v h = nil_of_length (contents b) (ground (arith, readable_lem v, h))

pub readable_none :
    {b : Buffer} → netfish.Buffer.Valid.IsValid b → contents b ≡ [] → (readable_bytes b == 0) ≡ true
readable_none {b} v h =
    let e : length (contents b) ≡ 0 = ap length h in ground (arith, readable_lem v, e)

pub and_left : (a b : Bool) → (a && b) ≡ true → a ≡ true
and_left true b h = refl
and_left false b h = absurd (ground (arith, h))

pub and_right : (a b : Bool) → (a && b) ≡ true → b ≡ true
and_right true b h = h
and_right false b h = absurd (ground (arith, h))
