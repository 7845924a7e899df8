-- ===== src/Nanopb/Status.antt =====
-- How the functions of pb_encode.c and pb_decode.c end. They return a bool and change the stream
-- that they are given, on failure too; `PB_RETURN_ERROR` keeps the first message (pb.h).
use smolokellner.Base.{Option, none, some}

pub data Message : Type 0 where
  end_of_stream io_error varint_overflow invalid_wire_type parent_stream_too_short : Message
  stream_full array_max_size_exceeded array_overflow invalid_field_type : Message
  no_malloc_support callback_error callback_failed missing_required_field : Message
  submsg_size_changed invalid_data_size bytes_size_exceeded invalid_field_descriptor : Message
  integer_too_large bytes_overflow string_overflow size_too_large : Message
  incorrect_fixed_length_bytes_size : Message

-- `ok a s` returns true with the result `a`, `fail s` returns false; both leave the stream `s`.
-- `fault` is no end of the C code: an access outside of its object, or a loop cut off by its fuel.
pub data Outcome (S : Type 0) (A : Type 0) : Type 0 where
  ok : A → S → Outcome S A
  fail : S → Outcome S A
  fault : Outcome S A

abbrev pub Action : Type 0 → Type 0 → Type 0
Action S A = S → Outcome S A

infixl 5 ◌>>=◌ ◌>>◌
abbrev pub ◌>>=◌ : {S A B : Type 0} → Action S A → (A → Action S B) → Action S B
◌>>=◌ m f s = elim (m s) [ ok a t ↦ f a t | fail t ↦ fail t | fault ↦ fault ]

abbrev pub ◌>>◌ : {S B : Type 0} → Action S (Unit {0}) → Action S B → Action S B
◌>>◌ m k s = elim (m s) [ ok _ t ↦ k t | fail t ↦ fail t | fault ↦ fault ]

abbrev pub return : {S A : Type 0} → A → Action S A
return a s = ok a s

-- `PB_SET_ERROR`: the first message stays.
abbrev pub pb_set_error : Option Message → Message → Option Message
pb_set_error none m = some m
pb_set_error (some first) m = some first
