-- ===== src/Nanopb/RoundTrip/Fixed.antt =====
-- Numbers of four and of eight bytes, lowest byte first.
use smolokellner.Base.{ℕ, ◌+◌, ◌*◌, ◌/◌, ◌%◌, ◌^◌, ◌<◌, ◌≡◌, refl, ap, ◌∙◌}
use smolokellner.Base.{bit_or, Option, List, [], ◌∷◌, ◌++◌, length, arith}
use smolokellner.Base.Bits.{bit_and_ones, or_shifted}
use smolokellner.Nanopb.Status.{Message, ok, ◌>>=◌}
use smolokellner.Nanopb.Substream.{byte_shl, pb_decode_fixed32, pb_decode_fixed64}
use smolokellner.Nanopb.Ostream.{OStream, byte_shr, pb_encode_fixed32, pb_encode_fixed64}
use smolokellner.Nanopb.Decode.Steps.{reading, read-block}
use smolokellner.Nanopb.Encode.Emits.{Accepts, wrote, write_all-Emits}
use native.Mathlib.Nat.{mod-lt, one-le-pow}

abbrev pub bytes4 : ℕ → List ℕ
bytes4 v = byte_shr v 0 ∷ byte_shr v 8 ∷ byte_shr v 16 ∷ byte_shr v 24 ∷ []

abbrev pub bytes8 : ℕ → List ℕ
bytes8 v =
    byte_shr v 0
    ∷ byte_shr v 8
    ∷ byte_shr v 16
    ∷ byte_shr v 24
    ∷ byte_shr v 32
    ∷ byte_shr v 40
    ∷ byte_shr v 48
    ∷ byte_shr v 56
    ∷ []

byte_shr_lem : (v s : ℕ) → byte_shr v s ≡ v / 2 ^ s % 256
byte_shr_lem v s = bit_and_ones 8 (v / 2 ^ s)

-- The low `s + 8` bits of `v` from its low `s` bits and the byte above them, in `t + s` bits.
join_byte :
    (t s v : ℕ)
    → bit_or (v % 2 ^ s) (byte_shr v s * 2 ^ s % 2 ^ (t + s))
      ≡ (v % 2 ^ s + v / 2 ^ s % 256 * 2 ^ s) % 2 ^ (t + s)
join_byte t s v =
    or_shifted t s (byte_shr v s) (v % 2 ^ s) (mod-lt v (one-le-pow s 2 (omega arith)))
    ∙ ap (λ (x : ℕ). (v % 2 ^ s + x * 2 ^ s) % 2 ^ (t + s)) (byte_shr_lem v s)

join32_bytes :
    (v : ℕ)
    → v < 2 ^ 32
    → bit_or
        (bit_or
          (bit_or (byte_shl 32 (bytes4 v) 0 0) (byte_shl 32 (bytes4 v) 1 8))
          (byte_shl 32 (bytes4 v) 2 16))
        (byte_shl 32 (bytes4 v) 3 24)
      ≡ v
join32_bytes v h = rw (first) (rw (second) (rw (third) (rw (fourth) refl)))
  where
    first : byte_shr v 0 * 2 ^ 0 % 2 ^ 32 ≡ v % 2 ^ 8
    first = omega (arith, byte_shr_lem v 0)

    second : bit_or (v % 2 ^ 8) (byte_shr v 8 * 2 ^ 8 % 2 ^ 32) ≡ v % 2 ^ 16
    second = omega (arith, join_byte 24 8 v)

    third : bit_or (v % 2 ^ 16) (byte_shr v 16 * 2 ^ 16 % 2 ^ 32) ≡ v % 2 ^ 24
    third = omega (arith, join_byte 16 16 v)

    fourth : bit_or (v % 2 ^ 24) (byte_shr v 24 * 2 ^ 24 % 2 ^ 32) ≡ v
    fourth = omega (arith, join_byte 8 24 v)

join64_low :
    (v : ℕ)
    → bit_or
        (bit_or
          (bit_or (byte_shl 64 (bytes8 v) 0 0) (byte_shl 64 (bytes8 v) 1 8))
          (byte_shl 64 (bytes8 v) 2 16))
        (byte_shl 64 (bytes8 v) 3 24)
      ≡ v % 2 ^ 32
join64_low v = rw (first) (rw (second) (rw (third) (rw (fourth) refl)))
  where
    first : byte_shr v 0 * 2 ^ 0 % 2 ^ 64 ≡ v % 2 ^ 8
    first = omega (arith, byte_shr_lem v 0)

    second : bit_or (v % 2 ^ 8) (byte_shr v 8 * 2 ^ 8 % 2 ^ 64) ≡ v % 2 ^ 16
    second = omega (arith, join_byte 56 8 v)

    third : bit_or (v % 2 ^ 16) (byte_shr v 16 * 2 ^ 16 % 2 ^ 64) ≡ v % 2 ^ 24
    third = omega (arith, join_byte 48 16 v)

    fourth : bit_or (v % 2 ^ 24) (byte_shr v 24 * 2 ^ 24 % 2 ^ 64) ≡ v % 2 ^ 32
    fourth = omega (arith, join_byte 40 24 v)

join64_high :
    (v : ℕ)
    → v < 2 ^ 64
    → bit_or
        (bit_or
          (bit_or (bit_or (v % 2 ^ 32) (byte_shl 64 (bytes8 v) 4 32)) (byte_shl 64 (bytes8 v) 5 40))
          (byte_shl 64 (bytes8 v) 6 48))
        (byte_shl 64 (bytes8 v) 7 56)
      ≡ v
join64_high v h = rw (fifth) (rw (sixth) (rw (seventh) (rw (eighth) refl)))
  where
    fifth : bit_or (v % 2 ^ 32) (byte_shr v 32 * 2 ^ 32 % 2 ^ 64) ≡ v % 2 ^ 40
    fifth = omega (arith, join_byte 32 32 v)

    sixth : bit_or (v % 2 ^ 40) (byte_shr v 40 * 2 ^ 40 % 2 ^ 64) ≡ v % 2 ^ 48
    sixth = omega (arith, join_byte 24 40 v)

    seventh : bit_or (v % 2 ^ 48) (byte_shr v 48 * 2 ^ 48 % 2 ^ 64) ≡ v % 2 ^ 56
    seventh = omega (arith, join_byte 16 48 v)

    eighth : bit_or (v % 2 ^ 56) (byte_shr v 56 * 2 ^ 56 % 2 ^ 64) ≡ v
    eighth = omega (arith, join_byte 8 56 v)

read_fixed32 :
    (v : ℕ) (rest : List ℕ) (left : ℕ) (e : Option Message)
    → v < 2 ^ 32
    → pb_decode_fixed32 (reading (bytes4 v ++ rest) (4 + left) e) ≡ ok v (reading rest left e)
unfolding pb_decode_fixed32
read_fixed32 v rest left e h =
    rw (read-block (bytes4 v) rest left e, ◌>>=◌)
      (ap (λ (x : ℕ). ok x (reading rest left e)) (join32_bytes v h))

read_fixed64 :
    (v : ℕ) (rest : List ℕ) (left : ℕ) (e : Option Message)
    → v < 2 ^ 64
    → pb_decode_fixed64 (reading (bytes8 v ++ rest) (8 + left) e) ≡ ok v (reading rest left e)
unfolding pb_decode_fixed64
read_fixed64 v rest left e h =
    rw (read-block (bytes8 v) rest left e, ◌>>=◌)
      (ap (λ (x : ℕ). ok x (reading rest left e)) (rw (join64_low v) (join64_high v h)))

-- `pb_encode_fixed32` appends four bytes to any stream that accepts them, and `pb_decode_fixed32`
-- reads the `uint32_t` back from them, whatever follows.
pub decode_fixed32-encode :
    (v : ℕ) (s : OStream) (rest : List ℕ) (left : ℕ) (e : Option Message)
    → v < 2 ^ 32
    → Accepts s 4
    → (bytes : List ℕ) × (length bytes ≡ 4)
      × (pb_encode_fixed32 v s ≡ ok tt (wrote bytes s))
      × (pb_decode_fixed32 (reading (bytes ++ rest) (4 + left) e) ≡ ok v (reading rest left e))
unfolding pb_encode_fixed32
decode_fixed32-encode v s rest left e h room =
    (bytes4 v, refl, write_all-Emits (bytes4 v) s room, read_fixed32 v rest left e h)

-- `pb_encode_fixed64` appends eight bytes to any stream that accepts them, and
-- `pb_decode_fixed64` reads the `uint64_t` back from them, whatever follows.
pub decode_fixed64-encode :
    (v : ℕ) (s : OStream) (rest : List ℕ) (left : ℕ) (e : Option Message)
    → v < 2 ^ 64
    → Accepts s 8
    → (bytes : List ℕ) × (length bytes ≡ 8)
      × (pb_encode_fixed64 v s ≡ ok tt (wrote bytes s))
      × (pb_decode_fixed64 (reading (bytes ++ rest) (8 + left) e) ≡ ok v (reading rest left e))
unfolding pb_encode_fixed64
decode_fixed64-encode v s rest left e h room =
    (bytes8 v, refl, write_all-Emits (bytes8 v) s room, read_fixed64 v rest left e h)
