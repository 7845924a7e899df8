-- ===== src/Nanopb/EncodeMessage.antt =====
-- pb_encode.c: arrays, fields, extensions and whole messages. The nesting of messages is bounded
-- by a number of levels; a call below the last one is a fault of the model.
use smolokellner.Base.{ℕ, zero, suc, ◌+◌, ◌*◌, ◌%◌, ◌^◌, Bool, true, false, ◌&&◌, ◌||◌, not}
use smolokellner.Base.{Option, none, some, List, [], ◌∷◌, ltb, leb, ◌==◌, if◌then◌else◌, length}
use smolokellner.Nanopb.Status.{Outcome, Action, ok, fail, fault, return, ◌>>=◌, ◌>>◌}
use smolokellner.Nanopb.Status.{invalid_field_type, array_max_size_exceeded, callback_error}
use smolokellner.Nanopb.Status.{missing_required_field}
use smolokellner.Nanopb.Istream.{wt_string}
use smolokellner.Nanopb.Ostream.{OStream, Writer, pb_return_error, pb_write, pb_ostream_sizing}
use smolokellner.Nanopb.Ostream.{pb_encode_varint, pb_encode_tag}
use smolokellner.Nanopb.Field.{Field, null, submsg, default, pb_ltype, pb_htype, pb_atype}
use smolokellner.Nanopb.Field.{ltype_fixed32, ltype_fixed64, ltype_bytes, ltype_string}
use smolokellner.Nanopb.Field.{ltype_submessage, ltype_extension, ltype_fixed_length_bytes}
use smolokellner.Nanopb.Field.{ltype_last_packable, atype_static, atype_pointer, atype_callback}
use smolokellner.Nanopb.Field.{htype_required, htype_optional, htype_repeated, htype_oneof}
use smolokellner.Nanopb.Iter.{Iter, at_pos, add_ptr, pb_field_iter_begin, pb_field_iter_next}
use smolokellner.Nanopb.Memory.{Memory, load}
use smolokellner.Nanopb.Program.{Program, Extension}
use smolokellner.Nanopb.EncodeField.{encoder, pb_encode_tag_for_field, pb_encode_submessage}

-- `count` items from `p` on, `step` bytes apart.
unfoldable pub each_item : (ℕ → Writer) → ℕ → ℕ → ℕ → Writer
each_item encode step zero p = return tt
each_item encode step (suc count) p =
    let rest = each_item encode step count (add_ptr p step) in encode p >> rest

unfoldable pub zero_bytes : Memory → ℕ → ℕ → Bool
zero_bytes mem p zero = true
zero_bytes mem p (suc count) = mem p == 0 && zero_bytes mem (p + 1) count

-- The do-while loop of `pb_check_proto3_default_value` over a submessage.
unfoldable pub all_default : (Field → ℕ → Option Bool) → ℕ → Iter → Option Bool
all_default check zero iter = none
all_default check (suc rounds) iter =
    let more = all_default check rounds in
    elim (check (at_pos iter) iter.p_data) [
      | none ↦ none
      | some false ↦ some false
      | some true ↦
          let (iter', again) = pb_field_iter_next iter in if again then more iter' else some true
    ]

module _ (program : Program) (mem : Memory) where
  -- `none` is a submessage below the last level, or with no descriptors.
  unfoldable pub pb_check_proto3_default_value : ℕ → Field → ℕ → Option Bool
  pb_check_proto3_default_value zero field p = none
  pb_check_proto3_default_value (suc levels) field p =
      let ltype = pb_ltype field.type in
      let check = pb_check_proto3_default_value levels in
      if not (pb_atype field.type == atype_static)
      then some (zero_bytes mem p field.data_size)
      else if ltype == ltype_bytes
      then some (load mem p 4 == 0)
      else if ltype == ltype_string
      then some (mem p == 0)
      else if ltype == ltype_fixed_length_bytes
      then some (field.data_size == 0)
      else if ltype == ltype_submessage
      then elim field.ptr [
        | submsg fields ↦
            let (iter, any) = pb_field_iter_begin (program.table fields) p in
            if any then all_default check (length (program.table fields)) iter else some true
        | null ↦ none
        | default _ ↦ none
      ]
      else some (zero_bytes mem p field.data_size)

  -- Fields of messages with `levels` more levels below them; `sub` encodes those.
  module _ (levels : ℕ) (sub : ℕ → ℕ → Writer) where
    abbrev func : Field → ℕ → Writer
    func field = encoder mem program.longest sub (pb_ltype field.type) field

    -- The size of a packed array; the failure of the sizing stream leaves no message behind.
    unfoldable pub packed_size : Field → ℕ → ℕ → Action OStream ℕ
    packed_size field p count s =
        if pb_ltype field.type == ltype_fixed32
        then ok (4 * count % 2 ^ 64) s
        else if pb_ltype field.type == ltype_fixed64
        then ok (8 * count % 2 ^ 64) s
        else elim (each_item (func field) field.data_size count p pb_ostream_sizing) [
          | ok _ t ↦ ok t.bytes_written s
          | fail t ↦ fail s
          | fault ↦ fault
        ]

    abbrev packed_items : Field → ℕ → ℕ → ℕ → Writer
    packed_items field p count size s =
        if s.callback then each_item (func field) field.data_size count p s else pb_write [] size s

    -- An entry of an array that is not packed. Strings and bytes behind a pointer are pointers.
    abbrev tagged_item : Field → ℕ → Writer
    tagged_item field p =
        let behind =
          pb_atype field.type == atype_pointer
          && (pb_ltype field.type == ltype_string || pb_ltype field.type == ltype_bytes) in
        pb_encode_tag_for_field field >> func field (if behind then load mem p 8 else p)

    unfoldable pub encode_array : Field → ℕ → ℕ → Writer
    encode_array field p_data count =
        if count == 0
        then return tt
        else if not (pb_atype field.type == atype_pointer) && ltb field.array_size count
        then pb_return_error array_max_size_exceeded
        else if leb (pb_ltype field.type) ltype_last_packable
        then (do
          pb_encode_tag wt_string field.tag
          size ← packed_size field p_data count
          pb_encode_varint size
          packed_items field p_data count size)
        else each_item (tagged_item field) field.data_size count p_data

    -- The value of a field with its tag in front.
    abbrev tagged : Field → ℕ → Writer
    tagged field src = pb_encode_tag_for_field field >> func field src

    -- The four rules of `encode_basic_field`: `src` is the data, `has` and `count` read `*pSize`,
    -- and `explicit` tells that `pSize` is a member of the message. Without one the count of an
    -- array and the tag of a union would be read from a local bool.
    abbrev by_rule : Field → ℕ → Bool → ℕ → Bool → Writer
    by_rule field src has count explicit =
        if pb_htype field.type == htype_required
        then (if src == 0 then pb_return_error missing_required_field else tagged field src)
        else if pb_htype field.type == htype_optional
        then (if has then tagged field src else return tt)
        else if not explicit
        then (λ s. fault)
        else if pb_htype field.type == htype_repeated
        then encode_array field src count
        else if pb_htype field.type == htype_oneof
        then (if count == field.tag then tagged field src else return tt)
        else pb_return_error invalid_field_type

    unfoldable pub encode_basic_field : Field → ℕ → Writer
    encode_basic_field field p_data =
        let explicit = not (field.size_offset == 0) in
        let p_size = add_ptr p_data field.size_offset in
        let pointer = pb_atype field.type == atype_pointer in
        let src = if pointer then load mem p_data 8 else p_data in
        let basic = by_rule field src in
        if explicit
        then basic (not (mem p_size == 0)) (load mem p_size 4) true
        else if pointer
        then basic (not (src == 0)) 0 false
        else if pb_htype field.type == htype_optional
        then elim (pb_check_proto3_default_value (suc levels) field p_data) [
          | some zero_value ↦ basic (not zero_value) 0 false
          | none ↦ λ s. fault
        ]
        else basic true 0 false

    unfoldable pub encode_callback_field : Field → ℕ → Writer
    encode_callback_field field p_data = elim (program.encode_callback p_data) [
      | none ↦ return tt
      | some encode ↦ λ s. elim (encode field s) [
        | ok _ t ↦ ok tt t
        | fail t ↦ pb_return_error callback_error t
        | fault ↦ fault
      ]
    ]

    unfoldable pub encode_field : Field → ℕ → Writer
    encode_field field p_data =
        let atype = pb_atype field.type in
        if atype == atype_static || atype == atype_pointer
        then encode_basic_field field p_data
        else if atype == atype_callback
        then encode_callback_field field p_data
        else pb_return_error invalid_field_type

    unfoldable pub default_extension_encoder : Extension → Writer
    default_extension_encoder extension =
        if pb_atype extension.field.type == atype_pointer
        then encode_field extension.field extension.dest_at
        else encode_field extension.field extension.dest

    unfoldable pub each_extension : List Extension → Writer
    each_extension [] = return tt
    each_extension (extension ∷ next) =
        let rest = each_extension next in
        elim extension.encode [
          | some encode ↦ encode >> rest
          | none ↦ default_extension_encoder extension >> rest
        ]

    unfoldable pub encode_extension_field : ℕ → Writer
    encode_extension_field p_data = each_extension (program.extensions (load mem p_data 8))

    -- The do-while loop of `pb_encode`; a message with `n` fields takes `n` rounds.
    unfoldable pub encode_fields : ℕ → Iter → Writer
    encode_fields zero iter = λ s. fault
    encode_fields (suc rounds) iter =
        let (iter', again) = pb_field_iter_next iter in
        let rest = if again then encode_fields rounds iter' else return tt in
        (if pb_ltype (at_pos iter).type == ltype_extension
          then encode_extension_field iter.p_data
          else encode_field (at_pos iter) iter.p_data)
        >> rest

  unfoldable pub pb_encode : ℕ → List Field → ℕ → Writer
  pb_encode zero fields src = λ s. fault
  pb_encode (suc levels) fields src =
      let sub = λ (number : ℕ) (p : ℕ). pb_encode levels (program.table number) p in
      let (iter, any) = pb_field_iter_begin fields src in
      if any then encode_fields levels sub (length fields) iter else return tt

  unfoldable pub pb_encode_delimited : ℕ → List Field → ℕ → Writer
  pb_encode_delimited levels fields src = pb_encode_submessage (pb_encode levels fields src)

  -- The size, or `none` where it returns false.
  unfoldable pub pb_get_encoded_size : ℕ → List Field → ℕ → Outcome OStream ℕ
  pb_get_encoded_size levels fields src = elim (pb_encode levels fields src pb_ostream_sizing) [
    | ok _ t ↦ ok t.bytes_written t
    | fail t ↦ fail t
    | fault ↦ fault
  ]
