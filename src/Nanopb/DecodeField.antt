-- ===== src/Nanopb/DecodeField.antt =====
-- pb_decode.c: the decoders of one value. PB_ENABLE_MALLOC is off, as in the pod, so a field behind
-- a pointer is refused. `decode` and `decode_noinit` are those of messages, which
-- `pb_dec_submessage` calls.
use smolokellner.Base.{ℕ, ◌+◌, ◌*◌, ◌%◌, ◌^◌, Bool, true, false, ◌||◌, not}
use smolokellner.Base.{ltb, ◌==◌, if◌then◌else◌, replicate}
use smolokellner.Nanopb.Status.{Message, Outcome, Action, ok, fail, fault, return, ◌>>=◌, ◌>>◌}
use smolokellner.Nanopb.Status.{invalid_data_size, integer_too_large, bytes_overflow}
use smolokellner.Nanopb.Status.{size_too_large, string_overflow, no_malloc_support}
use smolokellner.Nanopb.Status.{invalid_field_descriptor, incorrect_fixed_length_bytes_size}
use smolokellner.Nanopb.Istream.{IStream, Reader, pb_read, pb_decode_varint, pb_decode_varint32}
use smolokellner.Nanopb.Istream
use smolokellner.Nanopb.Substream.{pb_decode_svarint, pb_decode_fixed32, pb_decode_fixed64}
use smolokellner.Nanopb.Substream.{pb_make_string_substream, pb_close_string_substream}
use smolokellner.Nanopb.Field.{Field, null, submsg, default, pb_htype, pb_atype}
use smolokellner.Nanopb.Field.{ltype_varint, ltype_uvarint, ltype_svarint, ltype_fixed32}
use smolokellner.Nanopb.Field.{ltype_fixed64, ltype_bytes, ltype_string, ltype_submessage}
use smolokellner.Nanopb.Field.{ltype_fixed_length_bytes, atype_pointer, htype_repeated, pb_size_max}
use smolokellner.Nanopb.Memory.{store, store_byte, store_bytes, sign_extend}
use smolokellner.Nanopb.Program.{Decoding, Decoder, reads, writes}

abbrev pub pb_return_error : {A : Type 0} → Message → Action Decoding A
pb_return_error m = reads (Istream.pb_return_error m)

-- The cast of a pattern of 64 bits to a signed type and back.
abbrev pub signed_cast : ℕ → ℕ → ℕ
signed_cast bits x = sign_extend bits (x % 2 ^ bits)

abbrev pub is_int_size : ℕ → Bool
is_int_size size = size == 8 || size == 4 || size == 2 || size == 1

-- The value is stored before the test for overflow.
abbrev store_clamped : ℕ → ℕ → ℕ → ℕ → Decoder
store_clamped dest size value clamped = do
  writes (store dest size value)
  if clamped == value then return tt else pb_return_error integer_too_large

-- The end of `pb_dec_varint` and of `pb_dec_svarint`.
unfoldable pub store_signed : ℕ → ℕ → ℕ → Decoder
store_signed dest size svalue =
    if size == 8
    then writes (store dest 8 svalue)
    else if is_int_size size
    then store_clamped dest size svalue (signed_cast (8 * size) svalue)
    else pb_return_error invalid_data_size

unfoldable pub store_unsigned : ℕ → ℕ → ℕ → Decoder
store_unsigned dest size value =
    if is_int_size size
    then store_clamped dest size value (value % 2 ^ (8 * size))
    else pb_return_error invalid_data_size

unfoldable pub pb_dec_varint : Field → ℕ → Decoder
pb_dec_varint field dest = do
  value ← reads pb_decode_varint
  store_signed dest field.data_size (if field.data_size == 8 then value else signed_cast 32 value)

unfoldable pub pb_dec_uvarint : Field → ℕ → Decoder
pb_dec_uvarint field dest = do
  value ← reads pb_decode_varint
  store_unsigned dest field.data_size value

unfoldable pub pb_dec_svarint : Field → ℕ → Decoder
pb_dec_svarint field dest = do
  value ← reads pb_decode_svarint
  store_signed dest field.data_size value

unfoldable pub pb_dec_fixed32 : Field → ℕ → Decoder
pb_dec_fixed32 field dest = do value ← reads pb_decode_fixed32; writes (store dest 4 value)

unfoldable pub pb_dec_fixed64 : Field → ℕ → Decoder
pb_dec_fixed64 field dest = do value ← reads pb_decode_fixed64; writes (store dest 8 value)

-- The bytes that `pb_read` delivers, stored at `addr`.
abbrev read_into : ℕ → ℕ → Decoder
read_into addr size = do bytes ← reads (pb_read size); writes (store_bytes addr bytes)

unfoldable pub pb_dec_bytes : Field → ℕ → Decoder
pb_dec_bytes field dest = do
  size ← reads pb_decode_varint32
  let alloc_size = (size + 4) % 2 ^ 64
  if ltb pb_size_max size
      then pb_return_error bytes_overflow
      else if ltb alloc_size size
      then pb_return_error size_too_large
      else if pb_atype field.type == atype_pointer
      then pb_return_error no_malloc_support
      else if ltb field.data_size alloc_size
      then pb_return_error bytes_overflow
      else (writes (store dest 4 size) >> read_into (dest + 4) size)

-- `status = pb_read(…)` and the terminator, which is written whether it succeeds or not.
abbrev terminated : ℕ → Outcome Decoding (Unit {0}) → Outcome Decoding (Unit {0})
terminated addr (ok _ d) = ok tt (record d { memory = store_byte addr 0 d.memory })
terminated addr (fail d) = fail (record d { memory = store_byte addr 0 d.memory })
terminated addr fault = fault

-- The sum wraps in the 32 bits of `size`.
unfoldable pub pb_dec_string : Field → ℕ → Decoder
pb_dec_string field dest = do
  size ← reads pb_decode_varint32
  let alloc_size = (size + 1) % 2 ^ 32
  if ltb alloc_size size
      then pb_return_error size_too_large
      else if pb_atype field.type == atype_pointer
      then pb_return_error no_malloc_support
      else if ltb field.data_size alloc_size
      then pb_return_error string_overflow
      else (λ d. terminated (dest + size) (read_into dest size d))

unfoldable pub pb_dec_fixed_length_bytes : Field → ℕ → Decoder
pb_dec_fixed_length_bytes field dest = do
  size ← reads pb_decode_varint32
  if ltb pb_size_max size
      then pb_return_error bytes_overflow
      else if size == 0
      then writes (store_bytes dest (replicate field.data_size 0))
      else if not (size == field.data_size)
      then pb_return_error incorrect_fixed_length_bytes_size
      else read_into dest field.data_size

-- The close of a substream `t` behind a decoder that returned `status`: the memory stays, and the
-- result is the status unless the close fails.
unfoldable pub close_with : IStream → Bool → Decoding → Outcome Decoding (Unit {0})
close_with stream status t =
    (do reads (pb_close_string_substream t.stream); if status then return tt else (λ d. fail d))
      (record t { stream = stream })

-- A decoder on a substream of the stream, and its close.
unfoldable pub on_substream : IStream → Decoder → Decoder
on_substream substream decode d = elim (decode (record d { stream = substream })) [
  | ok _ t ↦ close_with d.stream true t
  | fail t ↦ close_with d.stream false t
  | fault ↦ fault
]

module _ (decode decode_noinit : ℕ → ℕ → Decoder) where
  unfoldable pub pb_dec_submessage : Field → ℕ → Decoder
  pb_dec_submessage field dest = do
    substream ← reads pb_make_string_substream
    elim field.ptr [
      | null ↦ pb_return_error invalid_field_descriptor
      | default _ ↦ λ d. fault
      | submsg fields ↦ on_substream substream (
          if pb_htype field.type == htype_repeated
          then decode fields dest
          else decode_noinit fields dest)
    ]

  -- `PB_DECODERS`; the entry of extensions is NULL, and there are ten entries.
  unfoldable pub decoder : ℕ → Field → ℕ → Decoder
  decoder ltype field dest =
      if ltype == ltype_varint
      then pb_dec_varint field dest
      else if ltype == ltype_uvarint
      then pb_dec_uvarint field dest
      else if ltype == ltype_svarint
      then pb_dec_svarint field dest
      else if ltype == ltype_fixed32
      then pb_dec_fixed32 field dest
      else if ltype == ltype_fixed64
      then pb_dec_fixed64 field dest
      else if ltype == ltype_bytes
      then pb_dec_bytes field dest
      else if ltype == ltype_string
      then pb_dec_string field dest
      else if ltype == ltype_submessage
      then pb_dec_submessage field dest
      else if ltype == ltype_fixed_length_bytes
      then pb_dec_fixed_length_bytes field dest
      else λ d. fault
