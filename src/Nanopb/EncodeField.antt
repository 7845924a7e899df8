-- ===== src/Nanopb/EncodeField.antt =====
-- pb_encode.c: the encoders of one value, the tag of a field, and submessages. `sub` is
-- `pb_encode`, which `pb_enc_submessage` calls.
use smolokellner.Base.{ℕ, zero, suc, ◌+◌, ◌-◌, ◌%◌, ◌^◌, Bool, true, false, ◌&&◌, ◌||◌, not}
use smolokellner.Base.{Option, none, some, [], ltb, ◌==◌, if◌then◌else◌}
use smolokellner.Nanopb.Status.{Outcome, ok, fail, fault, ◌>>◌, invalid_data_size}
use smolokellner.Nanopb.Status.{bytes_size_exceeded, invalid_field_descriptor, invalid_field_type}
use smolokellner.Nanopb.Status.{stream_full, submsg_size_changed}
use smolokellner.Nanopb.Istream.{wt_varint, wt_64bit, wt_string, wt_32bit}
use smolokellner.Nanopb.Ostream.{OStream, Writer, pb_return_error, pb_write, pb_ostream_sizing}
use smolokellner.Nanopb.Ostream.{pb_encode_varint, pb_encode_svarint, pb_encode_fixed32}
use smolokellner.Nanopb.Ostream.{pb_encode_fixed64, pb_encode_tag, pb_encode_string}
use smolokellner.Nanopb.Field.{Field, null, submsg, default, pb_ltype, pb_atype}
use smolokellner.Nanopb.Field.{ltype_varint, ltype_uvarint, ltype_svarint, ltype_fixed32}
use smolokellner.Nanopb.Field.{ltype_fixed64, ltype_bytes, ltype_string, ltype_submessage}
use smolokellner.Nanopb.Field.{ltype_fixed_length_bytes, atype_static}
use smolokellner.Nanopb.Field.{atype_pointer}
use smolokellner.Nanopb.Memory.{Memory, load, load_bytes, sign_extend}

-- The wire type of `pb_encode_tag_for_field`; `none` is its default case.
unfoldable pub wire_type_of : ℕ → Option ℕ
wire_type_of ltype =
    if ltype == ltype_varint || ltype == ltype_uvarint || ltype == ltype_svarint
    then some wt_varint
    else if ltype == ltype_fixed32
    then some wt_32bit
    else if ltype == ltype_fixed64
    then some wt_64bit
    else if ltype == ltype_bytes
        || ltype == ltype_string
        || ltype == ltype_submessage
        || ltype == ltype_fixed_length_bytes
    then some wt_string
    else none

unfoldable pub pb_encode_tag_for_field : Field → Writer
pb_encode_tag_for_field field = elim (wire_type_of (pb_ltype field.type)) [
  | some wiretype ↦ pb_encode_tag wiretype field.tag
  | none ↦ pb_return_error invalid_field_type
]

-- The end of `pb_encode_submessage`: the substream `t` is behind its own bytes.
unfoldable pub join_substream : ℕ → OStream → Bool → OStream → Outcome OStream (Unit {0})
join_substream size s status t =
    let s' = record s {
      bytes_written = (s.bytes_written + t.bytes_written) % 2 ^ 64;
      state = t.state;
      room = t.room;
      errmsg = t.errmsg;
    } in
    if t.bytes_written == size
    then if status then ok tt s' else fail s'
    else pb_return_error submsg_size_changed s'

unfoldable pub write_measured : Writer → ℕ → Writer
write_measured encode size s =
    if not s.callback
    then pb_write [] size s
    else if ltb s.max_size ((s.bytes_written + size) % 2 ^ 64)
    then pb_return_error stream_full s
    else elim (encode (record s { max_size = size; bytes_written = 0; errmsg = none })) [
      | ok _ t ↦ join_substream size s true t
      | fail t ↦ join_substream size s false t
      | fault ↦ fault
    ]

-- `pb_encode_submessage`, where `encode` is the call of `pb_encode` that it makes twice: into a
-- sizing stream first, and then into a substream with as much room as that counted.
unfoldable pub pb_encode_submessage : Writer → Writer
pb_encode_submessage encode s = elim (encode pb_ostream_sizing) [
  | ok _ t ↦ (pb_encode_varint t.bytes_written >> write_measured encode t.bytes_written) s
  | fail t ↦ fail (record s { errmsg = t.errmsg })
  | fault ↦ fault
]

-- The scan of `pb_enc_string`, with a limit on its rounds; `none` is past that limit.
unfoldable pub string_size : Memory → ℕ → ℕ → ℕ → ℕ → Option ℕ
string_size mem zero max_size size p = none
string_size mem (suc rounds) max_size size p =
    let more = string_size mem rounds max_size (size + 1) (p + 1) in
    if ltb size max_size && not (mem p == 0) then more else some size

-- What the encoders take from the program: `longest` bounds a string behind a pointer, and `sub`
-- encodes the message with a descriptor array of the table at an address.
module _ (mem : Memory) (longest : ℕ) (sub : ℕ → ℕ → Writer) where
  unfoldable pub pb_enc_varint : Field → ℕ → Writer
  pb_enc_varint field src =
      if field.data_size == 1
      then pb_encode_varint (sign_extend 8 (load mem src 1))
      else if field.data_size == 2
      then pb_encode_varint (sign_extend 16 (load mem src 2))
      else if field.data_size == 4
      then pb_encode_varint (sign_extend 32 (load mem src 4))
      else if field.data_size == 8
      then pb_encode_varint (load mem src 8)
      else pb_return_error invalid_data_size

  unfoldable pub pb_enc_uvarint : Field → ℕ → Writer
  pb_enc_uvarint field src =
      if field.data_size == 1
        || field.data_size == 2
        || field.data_size == 4
        || field.data_size == 8
      then pb_encode_varint (load mem src field.data_size)
      else pb_return_error invalid_data_size

  unfoldable pub pb_enc_svarint : Field → ℕ → Writer
  pb_enc_svarint field src =
      if field.data_size == 1
      then pb_encode_svarint (sign_extend 8 (load mem src 1))
      else if field.data_size == 2
      then pb_encode_svarint (sign_extend 16 (load mem src 2))
      else if field.data_size == 4
      then pb_encode_svarint (sign_extend 32 (load mem src 4))
      else if field.data_size == 8
      then pb_encode_svarint (load mem src 8)
      else pb_return_error invalid_data_size

  unfoldable pub pb_enc_fixed32 : Field → ℕ → Writer
  pb_enc_fixed32 field src = pb_encode_fixed32 (load mem src 4)

  unfoldable pub pb_enc_fixed64 : Field → ℕ → Writer
  pb_enc_fixed64 field src = pb_encode_fixed64 (load mem src 8)

  -- `pb_bytes_array_t`: a `pb_size_t` of four bytes and the bytes.
  unfoldable pub pb_enc_bytes : Field → ℕ → Writer
  pb_enc_bytes field src =
      let size = load mem src 4 in
      if src == 0
      then pb_encode_string [] 0
      else if pb_atype field.type == atype_static && ltb field.data_size (size + 4)
      then pb_return_error bytes_size_exceeded
      else pb_encode_string (load_bytes mem (src + 4) size) size

  unfoldable pub pb_enc_string : Field → ℕ → Writer
  pb_enc_string field src =
      let pointer = pb_atype field.type == atype_pointer in
      let rounds = if pointer then longest + 1 else field.data_size + 1 in
      let max_size = if pointer then 2 ^ 64 - 1 else field.data_size in
      if src == 0 then pb_encode_string [] 0 else elim (string_size mem rounds max_size 0 src) [
        | some size ↦ pb_encode_string (load_bytes mem src size) size
        | none ↦ λ s. fault
      ]

  -- A `ptr` that is no descriptor array is no pointer that the code may follow.
  unfoldable pub pb_enc_submessage : Field → ℕ → Writer
  pb_enc_submessage field src = elim field.ptr [
    | null ↦ pb_return_error invalid_field_descriptor
    | submsg fields ↦ pb_encode_submessage (sub fields src)
    | default _ ↦ λ s. fault
  ]

  unfoldable pub pb_enc_fixed_length_bytes : Field → ℕ → Writer
  pb_enc_fixed_length_bytes field src =
      pb_encode_string (load_bytes mem src field.data_size) field.data_size

  -- `PB_ENCODERS`. The entry of extensions is NULL, and there are ten entries.
  unfoldable pub encoder : ℕ → Field → ℕ → Writer
  encoder ltype field src =
      if ltype == ltype_varint
      then pb_enc_varint field src
      else if ltype == ltype_uvarint
      then pb_enc_uvarint field src
      else if ltype == ltype_svarint
      then pb_enc_svarint field src
      else if ltype == ltype_fixed32
      then pb_enc_fixed32 field src
      else if ltype == ltype_fixed64
      then pb_enc_fixed64 field src
      else if ltype == ltype_bytes
      then pb_enc_bytes field src
      else if ltype == ltype_string
      then pb_enc_string field src
      else if ltype == ltype_submessage
      then pb_enc_submessage field src
      else if ltype == ltype_fixed_length_bytes
      then pb_enc_fixed_length_bytes field src
      else λ s. fault
