-- ===== src/Nanopb/Defaults.antt =====
-- pb_decode.c: the initial values of a message, and iterators for extensions.
use smolokellner.Base.{ℕ, zero, suc, ◌&&◌, ◌||◌, not}
use smolokellner.Base.{List, [], ◌∷◌, ◌==◌, if◌then◌else◌, length, take, replicate, leb}
use smolokellner.Nanopb.Status.{fault, return, ◌>>◌}
use smolokellner.Nanopb.Field.{Field, null, submsg, default, pb_ltype, pb_htype, pb_atype}
use smolokellner.Nanopb.Field.{ltype_extension, ltype_submessage, atype_static, atype_pointer}
use smolokellner.Nanopb.Field.{htype_optional, htype_repeated, htype_oneof}
use smolokellner.Nanopb.Iter.{Iter, at_pos, pb_field_iter_begin, pb_field_iter_next}
use smolokellner.Nanopb.Memory.{load, store, store_byte, store_bytes}
use smolokellner.Nanopb.Program.{Program, Extension, Decoder, writes}

abbrev pub zero_fill : ℕ → ℕ → Decoder
zero_fill addr count = writes (store_bytes addr (replicate count 0))

-- `iter_from_extension`: an iterator that stands at the field of an extension.
unfoldable pub iter_from_extension : Extension → Iter
iter_from_extension extension =
    let iter = (pb_field_iter_begin (extension.field ∷ []) extension.dest).0 in
    record iter {
      p_data =
          if pb_atype extension.field.type == atype_pointer
          then extension.dest_at
          else extension.dest;
      p_size = extension.found_at;
    }

module _ (program : Program) where
  -- The loop over the extensions of a message, with the step for one of them.
  unfoldable pub default_extensions : (Iter → Decoder) → List Extension → Decoder
  default_extensions set_to_default [] = return tt
  default_extensions set_to_default (extension ∷ next) =
      let rest = default_extensions set_to_default next in
      (do
        writes (store_byte extension.found_at 0)
        set_to_default (iter_from_extension extension)
        rest)

  -- The do-while loop of `pb_message_set_to_defaults`.
  unfoldable pub default_fields : (Iter → Decoder) → ℕ → Iter → Decoder
  default_fields set_to_default zero iter = λ d. fault
  default_fields set_to_default (suc rounds) iter =
      let (iter', again) = pb_field_iter_next iter in
      let rest = if again then default_fields set_to_default rounds iter' else return tt in
      set_to_default iter >> rest

  abbrev defaults_of : (Iter → Decoder) → List Field → ℕ → Decoder
  defaults_of set_to_default fields dest =
      let (iter, any) = pb_field_iter_begin fields dest in
      if any then default_fields set_to_default (length fields) iter else return tt

  -- The data of a static field: a submessage, the default value, or zeros. A default value shorter
  -- than the field would be read past its end.
  abbrev default_data : (Iter → Decoder) → Iter → Decoder
  default_data set_to_default iter =
      let field = at_pos iter in
      if pb_ltype field.type == ltype_submessage
      then elim field.ptr [
        | submsg fields ↦ defaults_of set_to_default (program.table fields) iter.p_data
        | null ↦ λ d. fault
        | default _ ↦ λ d. fault
      ]
      else elim field.ptr [
        | null ↦ zero_fill iter.p_data field.data_size
        | submsg _ ↦ λ d. fault
        | default bytes ↦
            if leb field.data_size (length bytes)
            then writes (store_bytes iter.p_data (take field.data_size bytes))
            else λ d. fault
      ]

  -- `levels` bounds the nesting of messages and extensions.
  unfoldable pub pb_field_set_to_default : ℕ → Iter → Decoder
  pb_field_set_to_default zero iter = λ d. fault
  pb_field_set_to_default (suc levels) iter =
      let field = at_pos iter in
      let htype = pb_htype field.type in
      let inner = pb_field_set_to_default levels in
      if pb_ltype field.type == ltype_extension
      then (λ d. default_extensions inner (program.extensions (load d.memory iter.p_data 8)) d)
      else if pb_atype field.type == atype_static
      then (if htype == htype_optional && not (iter.p_size == iter.p_data)
          then writes (store_byte iter.p_size 0) >> default_data inner iter
          else if htype == htype_repeated || htype == htype_oneof
          then writes (store iter.p_size 4 0)
          else default_data inner iter)
      else if pb_atype field.type == atype_pointer
      then (writes (store iter.p_data 8 0)
          >> (if htype == htype_repeated || htype == htype_oneof
              then writes (store iter.p_size 4 0)
              else return tt))
      else return tt

  unfoldable pub pb_message_set_to_defaults : ℕ → List Field → ℕ → Decoder
  pb_message_set_to_defaults levels = defaults_of (pb_field_set_to_default levels)
