-- ===== src/Nanopb/Program.antt =====
-- What the codec takes from the program around it: generated descriptor arrays, callbacks and
-- extensions (pb.h), and the state that decoding changes.
use smolokellner.Base.{ℕ, Option, List}
use smolokellner.Nanopb.Status.{Action, ok, fail, fault}
use smolokellner.Nanopb.Istream.{IStream, Reader}
use smolokellner.Nanopb.Ostream.{Writer}
use smolokellner.Nanopb.Field.{Field}
use smolokellner.Nanopb.Memory.{Memory}

-- The stream that is read and the memory that the message stands in. Both are left on failure.
pub record Decoding : Type 0 where
  pub stream : IStream
  pub memory : Memory

abbrev pub Decoder : Type 0
Decoder = Action Decoding (Unit {0})

-- A reader leaves the memory alone, a write leaves the stream alone.
abbrev pub reads : {A : Type 0} → Reader A → Action Decoding A
reads m d = elim (m d.stream) [
  | ok a t ↦ ok a (record d { stream = t })
  | fail t ↦ fail (record d { stream = t })
  | fault ↦ fault
]

abbrev pub writes : (Memory → Memory) → Decoder
writes change d = ok tt (record d { memory = change d.memory })

-- `pb_extension_t` with its type: the program's functions, or NULL for the default ones; the field
-- of the default ones; `dest`; and the addresses of the members `dest` and `found`.
pub record Extension : Type 0 where
  pub encode : Option Writer
  pub decode : Option (ℕ → ℕ → Decoder)
  pub field : Field
  pub dest : ℕ
  pub dest_at : ℕ
  pub found_at : ℕ

-- The descriptor arrays by number, the functions of the `pb_callback_t` at an address, the
-- extensions that a pointer leads to, and a bound on strings behind pointers.
pub record Program : Type 0 where
  pub table : ℕ → List Field
  pub encode_callback : ℕ → Option (Field → Writer)
  pub decode_callback : ℕ → Option (Field → Decoder)
  pub extensions : ℕ → List Extension
  pub longest : ℕ
