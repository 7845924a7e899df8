-- ===== src/Nanopb/Field.antt =====
-- pb.h: the field descriptors that the generated code consists of, and the constants of their
-- types. The pod is built with PB_FIELD_32BIT: `pb_size_t` has 32 bits.
use smolokellner.Base.{ℕ, zero, suc, ◌-◌, ◌^◌, bit_and, List, [], ◌∷◌}

-- `const void *ptr`: the descriptors of a submessage, named by their number in the program's table
-- of descriptor arrays, or a default value as the bytes that `memcpy` reads.
pub data Ptr : Type 0 where
  null : Ptr
  submsg : ℕ → Ptr
  default : List ℕ → Ptr

-- `size_offset` is an `int32_t`, here as the 64 bits that it is extended to in pointer arithmetic.
pub record Field : Type 0 where
  pub tag : ℕ
  pub type : ℕ
  pub data_offset : ℕ
  pub size_offset : ℕ
  pub data_size : ℕ
  pub array_size : ℕ
  pub ptr : Ptr

-- `PB_LAST_FIELD`
abbrev pub pb_last_field : Field
pb_last_field = record {
  tag = 0;
  type = 0;
  data_offset = 0;
  size_offset = 0;
  data_size = 0;
  array_size = 0;
  ptr = null;
}

abbrev pub pb_size_max : ℕ
pb_size_max = 2 ^ 32 - 1

unfoldable pub pb_ltype : ℕ → ℕ
pb_ltype x = bit_and x 0x0f

unfoldable pub pb_htype : ℕ → ℕ
pb_htype x = bit_and x 0x30

unfoldable pub pb_atype : ℕ → ℕ
pb_atype x = bit_and x 0xc0

abbrev pub ltype_varint : ℕ
ltype_varint = 0x00

abbrev pub ltype_uvarint : ℕ
ltype_uvarint = 0x01

abbrev pub ltype_svarint : ℕ
ltype_svarint = 0x02

abbrev pub ltype_fixed32 : ℕ
ltype_fixed32 = 0x03

abbrev pub ltype_fixed64 : ℕ
ltype_fixed64 = 0x04

abbrev pub ltype_last_packable : ℕ
ltype_last_packable = 0x04

abbrev pub ltype_bytes : ℕ
ltype_bytes = 0x05

abbrev pub ltype_string : ℕ
ltype_string = 0x06

abbrev pub ltype_submessage : ℕ
ltype_submessage = 0x07

abbrev pub ltype_extension : ℕ
ltype_extension = 0x08

abbrev pub ltype_fixed_length_bytes : ℕ
ltype_fixed_length_bytes = 0x09

abbrev pub htype_required : ℕ
htype_required = 0x00

abbrev pub htype_optional : ℕ
htype_optional = 0x10

abbrev pub htype_repeated : ℕ
htype_repeated = 0x20

abbrev pub htype_oneof : ℕ
htype_oneof = 0x30

abbrev pub atype_static : ℕ
atype_static = 0x00

abbrev pub atype_pointer : ℕ
atype_pointer = 0x80

abbrev pub atype_callback : ℕ
atype_callback = 0x40

-- The entry of a descriptor array. The list holds the entries before `PB_LAST_FIELD`.
abbrev pub field_at : List Field → ℕ → Field
field_at [] i = pb_last_field
field_at (f ∷ fs) zero = f
field_at (f ∷ fs) (suc i) = field_at fs i
