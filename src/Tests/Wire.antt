-- ===== src/Tests/Wire.antt =====
-- The theorems on the wire format at concrete inputs.
use smolokellner.Base.{ℕ, ◌+◌, ◌-◌, ◌*◌, ◌^◌, ◌≤◌, ◌≡◌, arith, inr, none, some, true}
use smolokellner.Base.{List, [], ◌∷◌, ◌++◌, length, replicate}
use smolokellner.Nanopb.Status.{ok, fail, varint_overflow}
use smolokellner.Nanopb.Istream.{pb_decode_varint, pb_decode_varint32, pb_decode_tag, found}
use smolokellner.Nanopb.Substream.{pb_decode_svarint, pb_decode_fixed64}
use smolokellner.Nanopb.Ostream.{OStream, pb_encode_varint}
use smolokellner.Nanopb.Ostream.{pb_encode_svarint, pb_encode_fixed64}
use smolokellner.Nanopb.Ostream.{pb_encode_tag}
use smolokellner.Nanopb.Varint.{shortest}
use smolokellner.Nanopb.Ostream.{zigzagged}
use smolokellner.Nanopb.Decode.Steps.{reading}
use smolokellner.Nanopb.Decode.Varints.{pb_decode_varint-value, pb_decode_varint_overflow}
use smolokellner.Nanopb.Decode.Varints32.{pb_decode_varint32-value}
use smolokellner.Nanopb.Encode.Emits.{wrote}
use smolokellner.Nanopb.RoundTrip.Scalars.{decode_varint-encode, decode_svarint-encode}
use smolokellner.Nanopb.RoundTrip.Scalars.{decode_tag-encode}
use smolokellner.Nanopb.RoundTrip.Fixed.{decode_fixed64-encode}

-- A buffer of twenty bytes with one byte in it.
abbrev started : OStream
started = record {
  callback = true;
  state = 7 ∷ [];
  room = 19;
  max_size = 20;
  bytes_written = 1;
  errmsg = none;
}

-- A buffer with room for two bytes.
abbrev scarce : OStream
scarce = record started { max_size = started.bytes_written + 2; room = 2 }

decode_varint-encode_example :
    (1 ≤ length (shortest 9 300))
    × (length (shortest 9 300) ≤ 10)
    × (pb_encode_varint 300 scarce ≡ ok tt (wrote (shortest 9 300) scarce))
    × (pb_decode_varint (reading (shortest 9 300 ++ 9 ∷ []) (length (shortest 9 300) + 1) none)
        ≡ ok 300 (reading (9 ∷ []) 1 none))
unfolding shortest zigzagged
decode_varint-encode_example =
    decode_varint-encode 300 scarce (9 ∷ []) 1 none (omega arith)
      (omega arith, inr (omega arith, omega arith))

decode_svarint-encode_example :
    (1 ≤ length (shortest 9 (zigzagged (2 ^ 64 - 300))))
    × (length (shortest 9 (zigzagged (2 ^ 64 - 300))) ≤ 10)
    × (pb_encode_svarint (2 ^ 64 - 300) scarce
        ≡ ok tt (wrote (shortest 9 (zigzagged (2 ^ 64 - 300))) scarce))
    × (pb_decode_svarint (
          reading
            (shortest 9 (zigzagged (2 ^ 64 - 300)) ++ 9 ∷ [])
            (length (shortest 9 (zigzagged (2 ^ 64 - 300))) + 1)
            none)
        ≡ ok (2 ^ 64 - 300) (reading (9 ∷ []) 1 none))
unfolding shortest zigzagged
decode_svarint-encode_example =
    decode_svarint-encode (2 ^ 64 - 300) scarce (9 ∷ []) 1 none (omega arith)
      (omega arith, inr (omega arith, omega arith))

decode_tag-encode_example :
    (1 ≤ length (shortest 9 (77 * 8 + 2)))
    × (length (shortest 9 (77 * 8 + 2)) ≤ 5)
    × (pb_encode_tag 2 77 scarce ≡ ok tt (wrote (shortest 9 (77 * 8 + 2)) scarce))
    × (pb_decode_tag
          (reading (shortest 9 (77 * 8 + 2) ++ 9 ∷ []) (length (shortest 9 (77 * 8 + 2)) + 1) none)
        ≡ ok (found 2 77) (reading (9 ∷ []) 1 none))
unfolding shortest zigzagged
decode_tag-encode_example =
    decode_tag-encode 2 77 scarce (9 ∷ []) 1 none (omega arith) (omega arith) (omega arith)
      (omega arith, inr (omega arith, omega arith))

decode_fixed64-encode_example :
    (bytes : List ℕ) × (length bytes ≡ 8)
    × (pb_encode_fixed64 (2 ^ 60 + 5) started ≡ ok tt (wrote bytes started))
    × (pb_decode_fixed64 (reading (bytes ++ 9 ∷ []) (8 + 1) none)
        ≡ ok (2 ^ 60 + 5) (reading (9 ∷ []) 1 none))
decode_fixed64-encode_example =
    decode_fixed64-encode (2 ^ 60 + 5) started (9 ∷ []) 1 none (omega arith)
      (omega arith, inr (omega arith, omega arith))

pb_decode_varint-value_example :
    pb_decode_varint (reading (0xac ∷ 0x02 ∷ 5 ∷ []) (2 + 1) none)
    ≡ ok 300 (reading (5 ∷ []) 1 none)
pb_decode_varint-value_example =
    pb_decode_varint-value (0xac ∷ 0x02 ∷ []) (5 ∷ []) 1 none (omega arith) (omega arith)

pb_decode_varint_overflow_example :
    pb_decode_varint (reading (replicate 10 0xff ++ 1 ∷ []) (10 + 1) none)
    ≡ fail (reading (1 ∷ []) 1 (some varint_overflow))
pb_decode_varint_overflow_example =
    pb_decode_varint_overflow (replicate 10 0xff) (1 ∷ []) 1 none (omega arith) (omega arith)

pb_decode_varint32-value_example :
    pb_decode_varint32 (reading (0xac ∷ 0x02 ∷ 5 ∷ []) (2 + 1) none)
    ≡ ok 300 (reading (5 ∷ []) 1 none)
pb_decode_varint32-value_example =
    pb_decode_varint32-value (0xac ∷ 0x02 ∷ []) (5 ∷ []) 1 none (omega arith) (omega arith)
