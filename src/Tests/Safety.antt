-- ===== src/Tests/Safety.antt =====
-- The theorems on the bounds of streams and on the required fields at concrete inputs.
use smolokellner.Base.{◌+◌, ◌-◌, ◌^◌, ◌≤◌, ◌<◌, ◌≡◌, ◌⊎◌, refl, arith, none, some, false}
use smolokellner.Base.{[], ◌∷◌, take, drop, ◌==◌, if◌then◌else◌}
use smolokellner.Nanopb.Status.{ok, fail, pb_set_error, end_of_stream}
use smolokellner.Nanopb.Istream.{IStream, pb_read, pb_skip_field}
use smolokellner.Nanopb.Substream.{pb_make_string_substream, pb_close_string_substream}
use smolokellner.Nanopb.DecodeStruct.{required_present}
use smolokellner.Nanopb.DecodeStruct.Required.{required_present_lem, required_present_undefined}
use smolokellner.Nanopb.Safety.Bounds.{Within}
use smolokellner.Nanopb.Safety.Read.{pb_read_lem}
use smolokellner.Nanopb.Safety.Varints.{pb_skip_field-Within}
use smolokellner.Nanopb.Safety.Substreams.{close_string_substream_lem, make_string_substream-Splits}
use smolokellner.Nanopb.Safety.Substreams.{Splits}

-- A string of two bytes and one byte more than the stream promises.
abbrev text : IStream
text = record { state = 2 ∷ 104 ∷ 105 ∷ 8 ∷ 77 ∷ []; bytes_left = 4; errmsg = none }

-- The substream over the string, before and after its first byte, and the parent.
abbrev inner : IStream
inner = record { state = 104 ∷ 105 ∷ 8 ∷ 77 ∷ []; bytes_left = 2; errmsg = none }

abbrev inner_used : IStream
inner_used = record { state = 105 ∷ 8 ∷ 77 ∷ []; bytes_left = 1; errmsg = some end_of_stream }

abbrev outer : IStream
outer = record { state = 104 ∷ 105 ∷ 8 ∷ 77 ∷ []; bytes_left = 1; errmsg = none }

pb_read_lem_example :
    ((3 ≤ text.bytes_left)
      × (pb_read 3 text
          ≡ ok
              (take 3 text.state)
              (record text { state = drop 3 text.state; bytes_left = text.bytes_left - 3 })))
    ⊎ ((text.bytes_left < 3)
        × (pb_read 3 text ≡ fail (record text { errmsg = pb_set_error text.errmsg end_of_stream })))
pb_read_lem_example = pb_read_lem 3 text (omega arith)

pb_skip_field-Within_example : Within text (pb_skip_field 2 text)
pb_skip_field-Within_example = pb_skip_field-Within 2 text (omega arith)

make_string_substream-Splits_example : Splits text (pb_make_string_substream text)
make_string_substream-Splits_example = make_string_substream-Splits text (omega arith)

close_string_substream_lem_example :
    pb_close_string_substream inner_used outer
    ≡ ok tt (record outer { state = 8 ∷ 77 ∷ []; errmsg = some end_of_stream })
close_string_substream_lem_example =
    close_string_substream_lem inner inner_used outer refl (omega arith) (omega arith, refl)

required_present_lem_example :
    (required_present (7 ∷ 0 ∷ []) 3 ≡ some (7 == 2 ^ 3 - 1))
    × (required_present (7 ∷ 0 ∷ []) (32 + 3)
        ≡ some (if 7 == 2 ^ 32 - 1 then 0 == 2 ^ 3 - 1 else false))
required_present_lem_example = required_present_lem 7 0 3 (omega arith) (omega arith)

required_present_undefined_example :
    (required_present ((2 ^ 32 - 1) ∷ 0 ∷ []) 32
      ≡ (if 2 ^ 32 - 1 == 2 ^ 32 - 1 then none else some false))
    × (required_present ((2 ^ 32 - 1) ∷ 0 ∷ []) 64 ≡ (
        if 2 ^ 32 - 1 == 2 ^ 32 - 1
        then if 0 == 2 ^ 32 - 1 then none else some false
        else some false))
required_present_undefined_example = required_present_undefined (2 ^ 32 - 1) 0
