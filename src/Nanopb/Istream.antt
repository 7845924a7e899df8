-- ===== src/Nanopb/Istream.antt =====
-- pb_decode.c: input streams over a memory buffer (`pb_istream_from_buffer`), the readers of
-- varints and tags, and skipping. `size_t` has 64 bits, `pb_byte_t` eight.
use smolokellner.Base.{ℕ, zero, suc, ◌+◌, ◌-◌, ◌*◌, ◌/◌, ◌%◌, ◌^◌, bit_and, bit_or}
use smolokellner.Base.{Bool, true, Option, none, List, [], ◌∷◌}
use smolokellner.Base.{ltb, leb, ◌==◌, not, if◌then◌else◌, length, take, drop}
use smolokellner.Nanopb.Status.{Message, ok, fail, fault, Action, return, pb_set_error}
use smolokellner.Nanopb.Status.{◌>>=◌, ◌>>◌}
use smolokellner.Nanopb.Status.{end_of_stream, varint_overflow, invalid_wire_type}

-- `state` is the buffer from the read pointer to its end.
pub record IStream : Type 0 where
  pub state : List ℕ
  pub bytes_left : ℕ
  pub errmsg : Option Message

abbrev pub Reader : Type 0 → Type 0
Reader A = Action IStream A

abbrev pub pb_return_error : {A : Type 0} → Message → Reader A
pb_return_error m s = fail (record s { errmsg = pb_set_error s.errmsg m })

unfoldable pub pb_istream_from_buffer : List ℕ → ℕ → IStream
pb_istream_from_buffer buf bufsize = record { state = buf; bytes_left = bufsize; errmsg = none }

-- The callback `buf_read`: the bytes that it copies. A copy past the end of the buffer is a fault.
unfoldable pub buf_read : ℕ → Reader (List ℕ)
buf_read count s =
    if leb count (length s.state)
    then ok (take count s.state) (record s { state = drop count s.state })
    else fault

-- `stream->bytes_left -= count`, after a test that it does not wrap.
abbrev pub consumed : ℕ → Reader (Unit {0})
consumed count s = ok tt (record s { bytes_left = s.bytes_left - count })

-- The bytes read; a call with a NULL buffer drops them.
unfoldable pub pb_read : ℕ → Reader (List ℕ)
pb_read count s =
    if ltb s.bytes_left count
    then pb_return_error end_of_stream s
    else (do bytes ← buf_read count; consumed count; return bytes) s

abbrev pub first_byte : List ℕ → ℕ
first_byte [] = 0
first_byte (b ∷ bs) = b

unfoldable pub pb_readbyte : Reader ℕ
pb_readbyte s =
    if s.bytes_left == 0
    then pb_return_error end_of_stream s
    else (do bytes ← buf_read 1; consumed 1; return (first_byte bytes)) s

-- `byte & 0x80`
abbrev pub continues : ℕ → Bool
continues byte = not (bit_and byte 0x80 == 0)

-- The loop of `pb_decode_varint32`: `result |= (uint32_t)(byte & 0x7F) << bitpos`. It ends within
-- five rounds, since `bitpos` is then 35; the argument counts them.
unfoldable pub varint32_loop : ℕ → ℕ → ℕ → Reader ℕ
varint32_loop zero bitpos result s = fault
varint32_loop (suc rounds) bitpos result s =
    let more = varint32_loop rounds in
    if leb 32 bitpos
    then pb_return_error varint_overflow s
    else (do
      byte ← pb_readbyte
      let result' = bit_or result (bit_and byte 0x7f * 2 ^ bitpos % 2 ^ 32)
      if continues byte then more ((bitpos + 7) % 2 ^ 8) result' else return result')
        s

unfoldable pub pb_decode_varint32 : Reader ℕ
pb_decode_varint32 = do
  byte ← pb_readbyte
  if continues byte then varint32_loop 5 7 (bit_and byte 0x7f) else return byte

-- The loop of `pb_decode_varint`, with at most eleven rounds.
unfoldable pub varint_loop : ℕ → ℕ → ℕ → Reader ℕ
varint_loop zero bitpos result s = fault
varint_loop (suc rounds) bitpos result s =
    let more = varint_loop rounds in
    if leb 64 bitpos
    then pb_return_error varint_overflow s
    else (do
      byte ← pb_readbyte
      let result' = bit_or result (bit_and byte 0x7f * 2 ^ bitpos % 2 ^ 64)
      if continues byte then more ((bitpos + 7) % 2 ^ 8) result' else return result')
        s

unfoldable pub pb_decode_varint : Reader ℕ
pb_decode_varint = varint_loop 11 0 0

-- `pb_skip_varint`; each round reads a byte, so `bytes_left + 1` rounds are enough.
unfoldable pub skip_varint_loop : ℕ → Reader (Unit {0})
skip_varint_loop zero s = fault
skip_varint_loop (suc rounds) s =
    let more = skip_varint_loop rounds in
    (do bytes ← pb_read 1; if continues (first_byte bytes) then more else return tt) s

unfoldable pub pb_skip_varint : Reader (Unit {0})
pb_skip_varint s = skip_varint_loop (suc s.bytes_left) s

unfoldable pub pb_skip_string : Reader (Unit {0})
pb_skip_string = do length' ← pb_decode_varint32; bytes ← pb_read length'; return tt

-- `pb_decode_tag` with its out-parameters: a tag with its wire type, or `false` with `*eof`.
pub data TagResult : Type 0 where
  found : ℕ → ℕ → TagResult
  no_tag : Bool → TagResult

unfoldable pub pb_decode_tag : Reader TagResult
pb_decode_tag s = elim (pb_decode_varint32 s) [
  | ok temp t ↦ ok (if temp == 0 then no_tag true else found (bit_and temp 7) (temp / 2 ^ 3)) t
  | fail t ↦ ok (no_tag (t.bytes_left == 0)) t
  | fault ↦ fault
]

-- enum pb_wire_type_t of pb.h. The code casts any three bits to it.
abbrev pub wt_varint : ℕ
wt_varint = 0

abbrev pub wt_64bit : ℕ
wt_64bit = 1

abbrev pub wt_string : ℕ
wt_string = 2

abbrev pub wt_32bit : ℕ
wt_32bit = 5

abbrev pub dropping : ℕ → Reader (Unit {0})
dropping count = do bytes ← pb_read count; return tt

unfoldable pub pb_skip_field : ℕ → Reader (Unit {0})
pb_skip_field wire_type =
    if wire_type == wt_varint
    then pb_skip_varint
    else if wire_type == wt_64bit
    then dropping 8
    else if wire_type == wt_string
    then pb_skip_string
    else if wire_type == wt_32bit
    then dropping 4
    else pb_return_error invalid_wire_type
