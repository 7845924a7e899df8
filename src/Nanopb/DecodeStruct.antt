-- ===== src/Nanopb/DecodeStruct.antt =====
-- pb_decode.c: `pb_decode_noinit`, `pb_decode` and `pb_decode_delimited`.
pub mod Required
use smolokellner.Base.{ℕ, zero, suc, ◌+◌, ◌-◌, ◌/◌, ◌%◌, ◌^◌, bit_or, Bool, true, false, ◌&&◌}
use smolokellner.Base.{
  Option, none, some, List, [], ◌∷◌, ltb, leb, ◌==◌, if◌then◌else◌, length, not,
}
use smolokellner.Base.{get_elem?, set}
use smolokellner.Nanopb.Status.{Action, ok, fail, fault, return, ◌>>=◌, ◌>>◌}
use smolokellner.Nanopb.Status.{missing_required_field}
use smolokellner.Nanopb.Istream.{pb_decode_tag, found, no_tag, pb_skip_field}
use smolokellner.Nanopb.Substream.{pb_make_string_substream}
use smolokellner.Nanopb.Field.{Field, pb_htype, htype_required}
use smolokellner.Nanopb.Iter.{Iter, at_pos, pb_field_iter_begin, pb_field_iter_next}
use smolokellner.Nanopb.Iter.{pb_field_iter_find, find_extension_field}
use smolokellner.Nanopb.Program.{Program, Decoding, Decoder, reads}
use smolokellner.Nanopb.Defaults.{pb_message_set_to_defaults}
use smolokellner.Nanopb.DecodeField.{pb_return_error, on_substream}
use smolokellner.Nanopb.DecodeMessage.{decode_field, decode_extension}

-- `PB_MAX_REQUIRED_FIELDS` and `allbits`.
abbrev pub pb_max_required_fields : ℕ
pb_max_required_fields = 64

abbrev pub allbits : ℕ
allbits = 2 ^ 32 - 1

-- The local variables of `pb_decode_noinit`. `fields_seen` has two words.
pub record Progress : Type 0 where
  pub iter : Iter
  pub fields_seen : List ℕ
  pub extension_range_start : ℕ

-- `fields_seen[index >> 5] |= 1 << (index & 31)`
unfoldable pub mark_seen : ℕ → List ℕ → List ℕ
mark_seen index seen = elim (get_elem? seen (index / 32)) [
  | some word ↦ set seen (index / 32) (bit_or word (2 ^ (index % 32)))
  | none ↦ seen
]

-- `none` is a read behind `fields_seen`.
unfoldable pub whole_words : List ℕ → ℕ → Option Bool
whole_words seen zero = some true
whole_words [] (suc count) = none
whole_words (word ∷ seen) (suc count) =
    if word == allbits then whole_words seen count else some false

-- The test of the last word, against `allbits >> (32 - bits)`. `none` is a read behind
-- `fields_seen`, or a shift by 32, which C leaves undefined.
unfoldable pub last_word : Option ℕ → ℕ → Option Bool
last_word none bits = none
last_word (some word) bits = if bits == 0 then none else some (word == allbits / 2 ^ (32 - bits))

-- The test of all required fields but for the count.
unfoldable pub required_present : List ℕ → ℕ → Option Bool
required_present seen count =
    if count == 0 then some true else elim (whole_words seen (count / 32)) [
      | none ↦ none
      | some false ↦ some false
      | some true ↦ last_word (get_elem? seen (count / 32)) (count % 32)
    ]

-- The loop that seeks the end of the array: the index of the last field among the required ones,
-- its type, and the iterator, which is back at the start.
unfoldable pub seek_end : ℕ → Iter → Option (ℕ × ℕ × Iter)
seek_end zero iter = none
seek_end (suc rounds) iter =
    let (iter', again) = pb_field_iter_next iter in
    let more = seek_end rounds iter' in
    if again then more else some (iter.required_field_index, (at_pos iter).type, iter')

unfoldable pub required_count : Iter → Option ℕ
required_count iter = elim (seek_end (length iter.start + 1) iter) [
  | none ↦ none
  | some (count, last_type, iter') ↦ some (
      if pb_htype last_type == htype_required && not ((at_pos iter').tag == 0)
      then count + 1
      else count)
]

unfoldable pub check_required : Progress → Decoder
check_required p = elim (required_count p.iter) [
  | none ↦ λ d. fault
  | some count ↦ elim (required_present p.fields_seen count) [
    | none ↦ λ d. fault
    | some true ↦ return tt
    | some false ↦ pb_return_error missing_required_field
  ]
]

module _ (program : Program) (levels : ℕ) (decode decode_noinit : ℕ → ℕ → Decoder) where
  -- A field that the message does not have: an extension takes it, or it is skipped.
  unfoldable pub try_extension : ℕ → ℕ → Progress → Action Decoding Progress
  try_extension tag wire_type p d =
      let skipped = (reads (pb_skip_field wire_type) >> return p) d in
      if leb p.extension_range_start tag
      then (do
        decode_extension program levels decode decode_noinit tag wire_type p.iter
        λ t.
            if t.stream.bytes_left == d.stream.bytes_left
            then (reads (pb_skip_field wire_type) >> return p) t
            else ok p t)
          d
      else skipped

  unfoldable pub unknown_field : ℕ → ℕ → Progress → Action Decoding Progress
  unknown_field tag wire_type p =
      if leb p.extension_range_start tag
      then elim (find_extension_field p.iter) [
        | none ↦ λ d. fault
        | some (iter, false) ↦
            try_extension tag wire_type (record p { iter = iter; extension_range_start = allbits })
        | some (iter, true) ↦
            try_extension tag wire_type
              (record p { iter = iter; extension_range_start = (at_pos iter).tag })
      ]
      else (reads (pb_skip_field wire_type) >> return p)

  -- A field of the message, where the iterator stands.
  unfoldable pub known_field : ℕ → Progress → Action Decoding Progress
  known_field wire_type p =
      let index = p.iter.required_field_index in
      let required =
        pb_htype (at_pos p.iter).type == htype_required && ltb index pb_max_required_fields in
      decode_field program levels decode decode_noinit wire_type p.iter
      >> return (if required then record p { fields_seen = mark_seen index p.fields_seen } else p)

  unfoldable pub one_field : ℕ → ℕ → Progress → Action Decoding Progress
  one_field tag wire_type p = elim (pb_field_iter_find p.iter tag) [
    | none ↦ λ d. fault
    | some (iter, false) ↦ unknown_field tag wire_type (record p { iter = iter })
    | some (iter, true) ↦ known_field wire_type (record p { iter = iter })
  ]

  -- The loop over the stream. Each round reads a tag, so a byte at least.
  unfoldable pub fields_loop : ℕ → Progress → Action Decoding Progress
  fields_loop zero p d = fault
  fields_loop (suc rounds) p d =
      let rest = fields_loop rounds in
      if d.stream.bytes_left == 0 then ok p d else elim (reads pb_decode_tag d) [
        | ok (found wire_type tag) t ↦ (one_field tag wire_type p >>= rest) t
        | ok (no_tag true) t ↦ ok p t
        | ok (no_tag false) t ↦ fail t
        | fail t ↦ fail t
        | fault ↦ fault
      ]

  unfoldable pub decode_fields : List Field → ℕ → Decoder
  decode_fields fields dest d =
      (do
        p ← fields_loop (d.stream.bytes_left + 1) (record {
          iter = (pb_field_iter_begin fields dest).0;
          fields_seen = 0 ∷ 0 ∷ [];
          extension_range_start = 0;
        })
        check_required p)
        d

module _ (program : Program) where
  unfoldable pub pb_decode_noinit : ℕ → List Field → ℕ → Decoder
  pb_decode_noinit zero fields dest = λ d. fault
  pb_decode_noinit (suc levels) fields dest =
      let noinit = λ (number : ℕ) (p : ℕ). pb_decode_noinit levels (program.table number) p in
      let full = λ (number : ℕ) (p : ℕ).
        pb_message_set_to_defaults program levels (program.table number) p >> noinit number p in
      decode_fields program levels full noinit fields dest

  unfoldable pub pb_decode : ℕ → List Field → ℕ → Decoder
  pb_decode levels fields dest =
      pb_message_set_to_defaults program levels fields dest >> pb_decode_noinit levels fields dest

  unfoldable pub pb_decode_delimited : ℕ → List Field → ℕ → Decoder
  pb_decode_delimited levels fields dest = do
    substream ← reads pb_make_string_substream
    on_substream substream (pb_decode levels fields dest)
