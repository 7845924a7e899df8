-- ===== src/Nanopb/DecodeMessage.antt =====
-- pb_decode.c: fields by their rules, callbacks and extensions. `levels` bounds the nesting of
-- messages, and the loops that read from a stream
-- take one round more than it has bytes.
use smolokellner.Base.{ℕ, zero, suc, ◌+◌, ◌*◌, Bool, true, false, ◌&&◌}
use smolokellner.Base.{none, some, List, [], ◌∷◌, ltb, leb, ◌==◌, if◌then◌else◌, length, not}
use smolokellner.Nanopb.Status.{Outcome, ok, fail, fault, return, ◌>>=◌, ◌>>◌}
use smolokellner.Nanopb.Status.{array_overflow, invalid_field_type, no_malloc_support}
use smolokellner.Nanopb.Status.{callback_failed}
use smolokellner.Nanopb.Istream.{IStream, pb_istream_from_buffer}
use smolokellner.Nanopb.Istream.{pb_skip_field, wt_string}
use smolokellner.Nanopb.Substream.{pb_make_string_substream}
use smolokellner.Nanopb.Substream.{read_raw_value}
use smolokellner.Nanopb.Field.{Field, null, submsg, default, pb_ltype, pb_htype, pb_atype}
use smolokellner.Nanopb.Field.{ltype_submessage, ltype_last_packable, atype_static, atype_pointer}
use smolokellner.Nanopb.Field.{atype_callback, htype_required, htype_optional, htype_repeated}
use smolokellner.Nanopb.Field.{htype_oneof}
use smolokellner.Nanopb.Iter.{Iter, at_pos, add_ptr}
use smolokellner.Nanopb.Memory.{load, store, store_byte}
use smolokellner.Nanopb.Program.{Program, Extension, Decoding, Decoder, reads, writes}
use smolokellner.Nanopb.Defaults.{zero_fill, iter_from_extension, pb_message_set_to_defaults}
use smolokellner.Nanopb.DecodeField.{decoder, pb_return_error, close_with}

module _ (program : Program) (levels : ℕ) (decode decode_noinit : ℕ → ℕ → Decoder) where
  abbrev func : Field → ℕ → Decoder
  func field = decoder decode decode_noinit (pb_ltype field.type) field

  -- `iter->pData + data_size * *size`, where `*size` is the count in the message.
  abbrev item_at : Iter → ℕ → ℕ
  item_at iter size = add_ptr iter.p_data ((at_pos iter).data_size * size)

  -- The loop over a packed array, on the substream.
  unfoldable pub packed_loop : ℕ → Iter → Decoder
  packed_loop zero iter d = fault
  packed_loop (suc rounds) iter d =
      let size = load d.memory iter.p_size 4 in
      let rest = packed_loop rounds iter in
      if ltb 0 d.stream.bytes_left && ltb size (at_pos iter).array_size
      then (do
        func (at_pos iter) (item_at iter size)
        writes (store iter.p_size 4 (size + 1))
        rest)
          d
      else ok tt d

  -- Behind the loop: bytes that are left are an error of the parent, whatever the status.
  unfoldable pub close_packed : IStream → Bool → Decoding → Outcome Decoding (Unit {0})
  close_packed stream status t =
      if t.stream.bytes_left == 0
      then close_with stream status t
      else pb_return_error array_overflow (record t { stream = stream })

  unfoldable pub decode_packed : Iter → Decoder
  decode_packed iter = do
    substream ← reads pb_make_string_substream
    λ d. elim (packed_loop (substream.bytes_left + 1) iter (record d { stream = substream })) [
      | ok _ t ↦ close_packed d.stream true t
      | fail t ↦ close_packed d.stream false t
      | fault ↦ fault
    ]

  -- One more item of an array.
  unfoldable pub decode_item : Iter → Decoder
  decode_item iter d =
      let size = load d.memory iter.p_size 4 in
      if leb (at_pos iter).array_size size
      then pb_return_error array_overflow d
      else (do writes (store iter.p_size 4 (size + 1)); func (at_pos iter) (item_at iter size)) d

  unfoldable pub decode_oneof : Iter → Decoder
  decode_oneof iter =
      let field = at_pos iter in
      let fresh : Decoder = elim field.ptr [
        | submsg fields ↦
            pb_message_set_to_defaults program levels (program.table fields) iter.p_data
        | null ↦ λ d. fault
        | default _ ↦ λ d. fault
      ] in
      (do
        writes (store iter.p_size 4 field.tag)
        if pb_ltype field.type == ltype_submessage
            then zero_fill iter.p_data field.data_size >> fresh
            else return tt
        func field iter.p_data)

  unfoldable pub decode_static_field : ℕ → Iter → Decoder
  decode_static_field wire_type iter =
      let field = at_pos iter in
      let htype = pb_htype field.type in
      if htype == htype_required
      then func field iter.p_data
      else if htype == htype_optional
      then ((if iter.p_size == iter.p_data then return tt else writes (store_byte iter.p_size 1))
          >> func field iter.p_data)
      else if htype == htype_repeated
      then (if wire_type == wt_string && leb (pb_ltype field.type) ltype_last_packable
          then decode_packed iter
          else decode_item iter)
      else if htype == htype_oneof
      then decode_oneof iter
      else pb_return_error invalid_field_type

  -- Without PB_ENABLE_MALLOC.
  unfoldable pub decode_pointer_field : ℕ → Iter → Decoder
  decode_pointer_field wire_type iter = pb_return_error no_malloc_support

  -- The do-while loop of `decode_callback_field`, which calls the program's function until the
  -- substream is used up; nothing but a bound on the rounds ends it for a function that reads
  -- nothing.
  unfoldable pub callback_loop : ℕ → Decoder → Decoder
  callback_loop zero callback d = fault
  callback_loop (suc rounds) callback d =
      let rest = callback_loop rounds callback in
      elim (callback d) [
        | ok _ t ↦ if t.stream.bytes_left == 0 then ok tt t else rest t
        | fail t ↦ fail t
        | fault ↦ fault
      ]

  unfoldable pub callback_string : Decoder → Decoder
  callback_string callback = do
    substream ← reads pb_make_string_substream
    λ d.
        elim (callback_loop (substream.bytes_left + 1) callback (record d { stream = substream })) [
          | ok _ t ↦ close_with d.stream true t
          | fail t ↦ pb_return_error callback_failed (record t { stream = d.stream })
          | fault ↦ fault
        ]

  -- The callback on the bytes of one scalar; the stream is behind them, and keeps its message.
  unfoldable pub callback_scalar : ℕ → Decoder → Decoder
  callback_scalar wire_type callback = do
    buffer ← reads (read_raw_value wire_type)
    λ d. elim (callback (record d { stream = pb_istream_from_buffer buffer (length buffer) })) [
      | ok _ t ↦ ok tt (record t { stream = d.stream })
      | fail t ↦ fail (record t { stream = d.stream })
      | fault ↦ fault
    ]

  unfoldable pub decode_callback_field : ℕ → Iter → Decoder
  decode_callback_field wire_type iter = elim (program.decode_callback iter.p_data) [
    | none ↦ reads (pb_skip_field wire_type)
    | some decode ↦
        if wire_type == wt_string
        then callback_string (decode (at_pos iter))
        else callback_scalar wire_type (decode (at_pos iter))
  ]

  unfoldable pub decode_field : ℕ → Iter → Decoder
  decode_field wire_type iter =
      let atype = pb_atype (at_pos iter).type in
      if atype == atype_static
      then decode_static_field wire_type iter
      else if atype == atype_pointer
      then decode_pointer_field wire_type iter
      else if atype == atype_callback
      then decode_callback_field wire_type iter
      else pb_return_error invalid_field_type

  unfoldable pub default_extension_decoder : Extension → ℕ → ℕ → Decoder
  default_extension_decoder extension tag wire_type =
      if not (extension.field.tag == tag)
      then return tt
      else writes (store_byte extension.found_at 1)
        >> decode_field wire_type (iter_from_extension extension)

  -- The loop of `decode_extension` goes on while nothing has been read.
  unfoldable pub extension_loop : ℕ → ℕ → ℕ → List Extension → Decoder
  extension_loop tag wire_type pos [] d = ok tt d
  extension_loop tag wire_type pos (extension ∷ next) d =
      let rest = extension_loop tag wire_type pos next in
      if not (pos == d.stream.bytes_left) then ok tt d else elim extension.decode [
        | some decode ↦ (decode tag wire_type >> rest) d
        | none ↦ (default_extension_decoder extension tag wire_type >> rest) d
      ]

  unfoldable pub decode_extension : ℕ → ℕ → Iter → Decoder
  decode_extension tag wire_type iter d =
      extension_loop tag wire_type d.stream.bytes_left
        (program.extensions (load d.memory iter.p_data 8)) d
