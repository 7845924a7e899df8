-- ===== src/Nanopb/RoundTrip/Scalars.antt =====
-- pb_encode.c and pb_decode.c together: varints, zigzag varints and tags.
use smolokellner.Base.{ℕ, ◌+◌, ◌-◌, ◌*◌, ◌/◌, ◌%◌, ◌^◌, ◌≤◌, ◌<◌, ◌≡◌, ap, ◌∙◌}
use smolokellner.Base.{Option, List, ◌++◌, length, arith}
use smolokellner.Nanopb.Status.{Message, ok, ◌>>=◌}
use smolokellner.Nanopb.Istream.{pb_decode_varint, pb_decode_varint32, pb_decode_tag}
use smolokellner.Nanopb.Istream.{TagResult, found, no_tag}
use smolokellner.Nanopb.Ostream.{OStream, pb_encode_varint}
use smolokellner.Nanopb.Varint.{
  shortest, shortest-IsVarint, value-shortest, length-shortest, shortest-nonempty,
}
use smolokellner.Nanopb.Varint.{shortest_enough}
use smolokellner.Nanopb.Decode.Steps.{reading}
use smolokellner.Nanopb.Decode.Varints.{pb_decode_varint-value}
use smolokellner.Nanopb.Decode.Varints32.{pb_decode_varint32-value}
use smolokellner.Nanopb.Encode.Emits.{Accepts, wrote}
use smolokellner.Nanopb.Encode.Varints.{encode_varint-Emits}
use smolokellner.Base.{true, bit_and, bit_or, ◌==◌, if◌then◌else◌}
use smolokellner.Base.Bits.{bit_and_ones, bit_or_above, bit_or_comm}
use smolokellner.Base.Xor.{bit_xor_ones}
use smolokellner.Nanopb.Substream.{not64, pb_decode_svarint}
use smolokellner.Nanopb.Ostream.{zigzagged, pb_encode_svarint, pb_encode_tag}
use native.Mathlib.Nat.{mod-eq_of_lt}

pub read_shortest :
    (v : ℕ) (rest : List ℕ) (left : ℕ) (e : Option Message)
    → v < 2 ^ 64
    → pb_decode_varint (reading (shortest 9 v ++ rest) (length (shortest 9 v) + left) e)
      ≡ ok v (reading rest left e)
read_shortest v rest left e h =
    pb_decode_varint-value (shortest 9 v) rest left e (shortest-IsVarint 9 v (omega arith))
      (omega (arith, length-shortest 9 v))
    ∙ ap (λ (x : ℕ). ok x (reading rest left e))
        (ap (λ (x : ℕ). x % 2 ^ 64) (value-shortest 9 v (omega arith)) ∙ mod-eq_of_lt h)

pub read_shortest32 :
    (v : ℕ) (rest : List ℕ) (left : ℕ) (e : Option Message)
    → v < 2 ^ 32
    → pb_decode_varint32 (reading (shortest 9 v ++ rest) (length (shortest 9 v) + left) e)
      ≡ ok v (reading rest left e)
read_shortest32 v rest left e h = rw (shortest_enough 4 9 v (omega arith) (omega arith)) (
    pb_decode_varint32-value (shortest 4 v) rest left e (shortest-IsVarint 4 v (omega arith))
      (omega (arith, length-shortest 4 v))
    ∙ ap (λ (x : ℕ). ok x (reading rest left e))
        (ap (λ (x : ℕ). x % 2 ^ 32) (value-shortest 4 v (omega arith)) ∙ mod-eq_of_lt h))

-- A `uint64_t` has a form of one to ten bytes, its shortest varint: `pb_encode_varint` puts exactly
-- these bytes into any stream that accepts as many, a sizing stream counting them, and
-- `pb_decode_varint` reads the number back from them, whatever follows. A stream accepts so many
-- bytes when it only counts, or has room for them within its limit and its buffer, and when fewer
-- than 2 ^ 64 bytes are then counted in all.
pub decode_varint-encode :
    (v : ℕ) (s : OStream) (rest : List ℕ) (left : ℕ) (e : Option Message)
    → v < 2 ^ 64
    → Accepts s (length (shortest 9 v))
    → (1 ≤ length (shortest 9 v))
      × (length (shortest 9 v) ≤ 10)
      × (pb_encode_varint v s ≡ ok tt (wrote (shortest 9 v) s))
      × (pb_decode_varint (reading (shortest 9 v ++ rest) (length (shortest 9 v) + left) e)
          ≡ ok v (reading rest left e))
decode_varint-encode v s rest left e h room = (
  shortest-nonempty 9 v,
  omega (arith, length-shortest 9 v),
  encode_varint-Emits v h s room,
  read_shortest v rest left e h,
)

not64_lem : (x : ℕ) → x < 2 ^ 64 → not64 x ≡ 2 ^ 64 - 1 - x
not64_lem x h = bit_xor_ones 64 x h

-- The zigzag map of two's complement patterns, and its inverse as the decoder writes it.
zigzagged-lt : (v : ℕ) → v < 2 ^ 64 → zigzagged v < 2 ^ 64
unfolding zigzagged
zigzagged-lt v h = ground (arith, not64_lem (v * 2 % 2 ^ 64))

abbrev unzigzag : ℕ → ℕ
unzigzag z = if bit_and z 1 == 0 then z / 2 else not64 (z / 2)

unzigzag-zigzagged : (v : ℕ) → v < 2 ^ 64 → unzigzag (zigzagged v) ≡ v
unfolding zigzagged
unzigzag-zigzagged v h = ground (
  arith,
  not64_lem (v * 2 % 2 ^ 64),
  not64_lem (not64 (v * 2 % 2 ^ 64) / 2),
  bit_and_ones 1 (v * 2 % 2 ^ 64),
  bit_and_ones 1 (not64 (v * 2 % 2 ^ 64)),
)

-- The bytes of an `int64_t`, as its bit pattern, are one to ten, the shortest varint of its zigzag
-- form: `pb_encode_svarint` puts exactly these bytes into any stream that accepts as many, a sizing
-- stream counting them, and `pb_decode_svarint` reads the number back from them, whatever follows.
-- A stream accepts so many bytes when it only counts, or has room for them within its limit and its
-- buffer, and when fewer than 2 ^ 64 bytes are then counted in all.
pub decode_svarint-encode :
    (v : ℕ) (s : OStream) (rest : List ℕ) (left : ℕ) (e : Option Message)
    → v < 2 ^ 64
    → Accepts s (length (shortest 9 (zigzagged v)))
    → (1 ≤ length (shortest 9 (zigzagged v)))
      × (length (shortest 9 (zigzagged v)) ≤ 10)
      × (pb_encode_svarint v s ≡ ok tt (wrote (shortest 9 (zigzagged v)) s))
      × (pb_decode_svarint (
            reading (shortest 9 (zigzagged v) ++ rest) (length (shortest 9 (zigzagged v)) + left) e)
          ≡ ok v (reading rest left e))
unfolding pb_encode_svarint pb_decode_svarint
decode_svarint-encode v s rest left e h room =
    let z = zigzagged v in
    let fits = zigzagged-lt v h in
    (
      shortest-nonempty 9 z,
      omega (arith, length-shortest 9 z),
      encode_varint-Emits z fits s room,
      rw (read_shortest z rest left e fits, ◌>>=◌)
          (ap (λ (x : ℕ). ok x (reading rest left e)) (unzigzag-zigzagged v h)),
    )

-- The zigzag form is small for numbers near zero: `n` goes to `2 n`, and `-n - 1`, whose pattern
-- is `2 ^ 64 - 1 - n`, goes to `2 n + 1`.
pub zigzagged_small :
    (n : ℕ) → n < 2 ^ 63 → (zigzagged n ≡ 2 * n) × (zigzagged (2 ^ 64 - 1 - n) ≡ 2 * n + 1)
unfolding zigzagged
zigzagged_small n h = ground (arith, not64_lem ((2 ^ 64 - 1 - n) * 2 % 2 ^ 64))

tag_bits :
    (wiretype field_number : ℕ)
    → wiretype < 8
    → field_number < 2 ^ 29
    → bit_or (field_number * 2 ^ 3 % 2 ^ 64) wiretype ≡ field_number * 8 + wiretype
tag_bits w f hw hf =
    ap (λ (x : ℕ). bit_or x w) {x = f * 2 ^ 3 % 2 ^ 64} {y = f * 2 ^ 3} (omega arith)
    ∙ bit_or_comm (f * 2 ^ 3) w
    ∙ bit_or_above 3 w f (omega arith)
    ∙ omega arith

-- For a field number from 1 to 2 ^ 29 - 1 and a wire type of three bits, the tag is one to five
-- bytes, the shortest varint of eight times the number and the type: `pb_encode_tag` puts exactly
-- these bytes into any stream that accepts as many, a sizing stream counting them, and
-- `pb_decode_tag` finds number and type again in them, whatever follows. A stream accepts so
-- many bytes when it only counts, or has room for them within its limit and its buffer, and when
-- fewer than 2 ^ 64 bytes are then counted in all.
pub decode_tag-encode :
    (wiretype field_number : ℕ) (s : OStream) (rest : List ℕ) (left : ℕ) (e : Option Message)
    → wiretype < 8
    → field_number < 2 ^ 29
    → 0 < field_number
    → Accepts s (length (shortest 9 (field_number * 8 + wiretype)))
    → (1 ≤ length (shortest 9 (field_number * 8 + wiretype)))
      × (length (shortest 9 (field_number * 8 + wiretype)) ≤ 5)
      × (pb_encode_tag wiretype field_number s
          ≡ ok tt (wrote (shortest 9 (field_number * 8 + wiretype)) s))
      × (pb_decode_tag (
            reading
              (shortest 9 (field_number * 8 + wiretype) ++ rest)
              (length (shortest 9 (field_number * 8 + wiretype)) + left)
              e)
          ≡ ok (found wiretype field_number) (reading rest left e))
unfolding pb_encode_tag pb_decode_tag
decode_tag-encode wiretype field_number s rest left e hw hf pos room =
    let tag = field_number * 8 + wiretype in
    (
      shortest-nonempty 9 tag,
      short tag (omega arith),
      rw (tag_bits wiretype field_number hw hf) (encode_varint-Emits tag (omega arith) s room),
      rw (read_shortest32 tag rest left e (omega arith), pb_decode_tag)
          (ap (λ (x : TagResult). ok x (reading rest left e)) tag_parts),
    )
  where
    short : (t : ℕ) → t < 2 ^ 32 → length (shortest 9 t) ≤ 5
    short t h = rw (shortest_enough 4 9 t (omega arith) (omega arith)) (length-shortest 4 t)

    tag_parts :
        (if field_number * 8 + wiretype == 0
          then no_tag true
          else found
              (bit_and (field_number * 8 + wiretype) 7)
              ((field_number * 8 + wiretype) / 2 ^ 3))
        ≡ found wiretype field_number
    tag_parts = ground (arith, bit_and_ones 3 (field_number * 8 + wiretype))
