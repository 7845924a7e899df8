-- ===== src/Nanopb/Substream.antt =====
-- pb_decode.c: raw values for callbacks, length-delimited substreams, and the scalar readers
-- `pb_decode_svarint`, `pb_decode_fixed32` and `pb_decode_fixed64`.
use smolokellner.Base.{ℕ, zero, suc, ◌+◌, ◌-◌, ◌*◌, ◌/◌, ◌%◌, ◌^◌, bit_and, bit_or, bit_xor}
use smolokellner.Base.{List, [], ◌++◌, none, some}
use smolokellner.Base.{ltb, ◌==◌, if◌then◌else◌, get_elem?}
use smolokellner.Nanopb.Status.{ok, fail, fault, return, ◌>>=◌}
use smolokellner.Nanopb.Status.{invalid_wire_type, parent_stream_too_short}
use smolokellner.Nanopb.Istream.{IStream, Reader, pb_return_error, pb_read, pb_decode_varint32}
use smolokellner.Nanopb.Istream.{pb_decode_varint, continues, first_byte}
use smolokellner.Nanopb.Istream.{wt_varint, wt_64bit, wt_32bit}

-- The loop of `read_raw_value` over a varint, with the bytes that are in the buffer so far. Over
-- `max_size` it returns false and sets no message.
unfoldable pub raw_varint_loop : ℕ → ℕ → List ℕ → Reader (List ℕ)
raw_varint_loop zero size buf s = fault
raw_varint_loop (suc rounds) size buf s =
    let more = raw_varint_loop rounds (size + 1) in
    if ltb 10 (size + 1)
    then fail s
    else (do
      bytes ← pb_read 1
      let buf' = buf ++ bytes
      if continues (first_byte bytes) then more buf' else return buf')
        s

-- `read_raw_value` with the buffer of ten bytes that `decode_callback_field` passes: the bytes
-- that it stores, whose number is the `*size` that it returns.
unfoldable pub read_raw_value : ℕ → Reader (List ℕ)
unfolding raw_varint_loop
read_raw_value wire_type =
    if wire_type == wt_varint
    then raw_varint_loop 11 0 []
    else if wire_type == wt_64bit
    then pb_read 8
    else if wire_type == wt_32bit
    then pb_read 4
    else pb_return_error invalid_wire_type

-- The substream that it makes; the parent keeps its read pointer and loses the bytes.
unfoldable pub pb_make_string_substream : Reader IStream
pb_make_string_substream = do
  size ← pb_decode_varint32
  λ s.
      if ltb s.bytes_left size
      then pb_return_error parent_stream_too_short s
      else ok (record s { bytes_left = size }) (record s { bytes_left = s.bytes_left - size })

-- The unread rest of a substream is read and dropped.
unfoldable pub drain : Reader (Unit {0})
drain substream =
    if substream.bytes_left == 0
    then ok tt substream
    else (do bytes ← pb_read substream.bytes_left; return tt) substream

-- The parent takes over the read pointer and the message, unless draining failed.
unfoldable pub pb_close_string_substream : IStream → Reader (Unit {0})
pb_close_string_substream substream s = elim (drain substream) [
  | ok _ t ↦ ok tt (record s { state = t.state; errmsg = t.errmsg })
  | fail _ ↦ fail s
  | fault ↦ fault
]

-- `~` of 64 bits.
abbrev pub not64 : ℕ → ℕ
not64 x = bit_xor x (2 ^ 64 - 1)

-- The `int64_t` as its bit pattern.
unfoldable pub pb_decode_svarint : Reader ℕ
pb_decode_svarint = do
  value ← pb_decode_varint
  return (if bit_and value 1 == 0 then value / 2 else not64 (value / 2))

-- `(uint32_t)bytes[i] << shift`, in `width` bits.
abbrev pub byte_shl : ℕ → List ℕ → ℕ → ℕ → ℕ
byte_shl width bytes i shift = elim (get_elem? bytes i) [
  | some b ↦ b * 2 ^ shift % 2 ^ width
  | none ↦ 0
]

unfoldable pub pb_decode_fixed32 : Reader ℕ
pb_decode_fixed32 = do
  bytes ← pb_read 4
  return (
      bit_or
        (bit_or (bit_or (byte_shl 32 bytes 0 0) (byte_shl 32 bytes 1 8)) (byte_shl 32 bytes 2 16))
        (byte_shl 32 bytes 3 24))

unfoldable pub pb_decode_fixed64 : Reader ℕ
pb_decode_fixed64 = do
  bytes ← pb_read 8
  let low =
      bit_or
        (bit_or (bit_or (byte_shl 64 bytes 0 0) (byte_shl 64 bytes 1 8)) (byte_shl 64 bytes 2 16))
        (byte_shl 64 bytes 3 24)
  let low' = bit_or (bit_or low (byte_shl 64 bytes 4 32)) (byte_shl 64 bytes 5 40)
  return (bit_or (bit_or low' (byte_shl 64 bytes 6 48)) (byte_shl 64 bytes 7 56))
