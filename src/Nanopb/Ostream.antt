-- ===== src/Nanopb/Ostream.antt =====
-- pb_encode.c: output streams into a memory buffer (`pb_ostream_from_buffer`) or for sizing
-- (`PB_OSTREAM_SIZING`), and the writers of the wire format. `size_t` has 64 bits.
use smolokellner.Base.{ℕ, zero, suc, ◌+◌, ◌-◌, ◌*◌, ◌/◌, ◌%◌, ◌^◌, bit_and, bit_or, bit_xor}
use smolokellner.Base.{Bool, true, false, Option, none, some, List, [], ◌∷◌, ◌++◌}
use smolokellner.Base.{ltb, leb, ◌==◌, if◌then◌else◌, length, take}
use smolokellner.Nanopb.Status.{Message, Action, ok, fail, fault, pb_set_error, ◌>>◌}
use smolokellner.Nanopb.Status.{stream_full}

-- `callback` tells `buf_write` from NULL. `state` is what stands in the buffer before the write
-- pointer, and `room` counts the bytes of the buffer from there on.
pub record OStream : Type 0 where
  pub callback : Bool
  pub state : List ℕ
  pub room : ℕ
  pub max_size : ℕ
  pub bytes_written : ℕ
  pub errmsg : Option Message

abbrev pub Writer : Type 0
Writer = Action OStream (Unit {0})

abbrev pub pb_return_error : Message → Writer
pb_return_error m s = fail (record s { errmsg = pb_set_error s.errmsg m })

-- `capacity` is the size of the array, `bufsize` what the caller says of it.
unfoldable pub pb_ostream_from_buffer : ℕ → ℕ → OStream
pb_ostream_from_buffer capacity bufsize = record {
  callback = true;
  state = [];
  room = capacity;
  max_size = bufsize;
  bytes_written = 0;
  errmsg = none;
}

abbrev pub pb_ostream_sizing : OStream
pb_ostream_sizing = record {
  callback = false;
  state = [];
  room = 0;
  max_size = 0;
  bytes_written = 0;
  errmsg = none;
}

-- The callback `buf_write`. It reads `count` bytes of `buf`, where NULL has none, and writes them.
unfoldable pub buf_write : List ℕ → ℕ → Writer
buf_write buf count s =
    if leb count (length buf)
    then if leb count s.room
      then ok tt (record s { state = s.state ++ take count buf; room = s.room - count })
      else fault
    else fault

abbrev pub counted : ℕ → Writer
counted count s = ok tt (record s { bytes_written = (s.bytes_written + count) % 2 ^ 64 })

-- The sum in the test wraps, as `size_t` does.
unfoldable pub pb_write : List ℕ → ℕ → Writer
pb_write buf count s =
    if s.callback
    then if ltb s.max_size ((s.bytes_written + count) % 2 ^ 64)
      then pb_return_error stream_full s
      else (buf_write buf count >> counted count) s
    else counted count s

-- The loop of `pb_encode_varint` over `buffer`, with the bytes stored so far and the space left in
-- its ten bytes; `none` is a write behind them.
unfoldable pub fill_varint : ℕ → ℕ → List ℕ → Option (List ℕ)
fill_varint zero value buffer = if value == 0 then some buffer else none
fill_varint (suc space) value buffer =
    let more =
      fill_varint space (value / 2 ^ 7)
        (buffer ++ (bit_or (bit_and value 0x7f) 0x80 % 2 ^ 8) ∷ []) in
    if value == 0 then some buffer else more

-- `buffer[i-1] &= 0x7F`
unfoldable pub unset_top_bit : List ℕ → List ℕ
unset_top_bit [] = []
unset_top_bit (b ∷ []) = bit_and b 0x7f ∷ []
unset_top_bit (b ∷ c ∷ bs) = b ∷ unset_top_bit (c ∷ bs)

abbrev pub write_all : List ℕ → Writer
write_all bytes = pb_write bytes (length bytes)

unfoldable pub pb_encode_varint : ℕ → Writer
pb_encode_varint value =
    if leb value 0x7f then pb_write ((value % 2 ^ 8) ∷ []) 1 else elim (fill_varint 10 value []) [
      | some buffer ↦ write_all (unset_top_bit buffer)
      | none ↦ λ s. fault
    ]

-- `int64_t` as its bit pattern: the negative ones are at least 2 ^ 63.
unfoldable pub zigzagged : ℕ → ℕ
zigzagged value =
    if ltb value (2 ^ 63) then value * 2 % 2 ^ 64 else bit_xor (value * 2 % 2 ^ 64) (2 ^ 64 - 1)

unfoldable pub pb_encode_svarint : ℕ → Writer
pb_encode_svarint value = pb_encode_varint (zigzagged value)

-- `(pb_byte_t)((val >> shift) & 0xFF)`
abbrev pub byte_shr : ℕ → ℕ → ℕ
byte_shr val shift = bit_and (val / 2 ^ shift) 0xff

unfoldable pub pb_encode_fixed32 : ℕ → Writer
pb_encode_fixed32 val =
    pb_write (byte_shr val 0 ∷ byte_shr val 8 ∷ byte_shr val 16 ∷ byte_shr val 24 ∷ []) 4

unfoldable pub pb_encode_fixed64 : ℕ → Writer
pb_encode_fixed64 val =
    pb_write
      (byte_shr val 0
        ∷ byte_shr val 8
        ∷ byte_shr val 16
        ∷ byte_shr val 24
        ∷ byte_shr val 32
        ∷ byte_shr val 40
        ∷ byte_shr val 48
        ∷ byte_shr val 56
        ∷ [])
      8

unfoldable pub pb_encode_tag : ℕ → ℕ → Writer
pb_encode_tag wiretype field_number =
    pb_encode_varint (bit_or (field_number * 2 ^ 3 % 2 ^ 64) wiretype)

unfoldable pub pb_encode_string : List ℕ → ℕ → Writer
pb_encode_string buffer size = pb_encode_varint size >> pb_write buffer size
