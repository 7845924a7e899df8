-- ===== src/Nanopb/Decode/Varints32.antt =====
-- pb_decode.c: `pb_decode_varint32`, which reads tags and lengths.
use smolokellner.Base.{ℕ, zero, suc, ◌+◌, ◌*◌, ◌%◌, ◌^◌, ◌≤◌, ◌<◌, ◌≡◌, refl, ap, ◌∙◌}
use smolokellner.Base.{Option, List, [], ◌∷◌, ◌++◌, arith, length, All}
use smolokellner.Nanopb.Status.{Message, ok, fail, pb_set_error, varint_overflow, end_of_stream}
use smolokellner.Nanopb.Status.{◌>>=◌}
use smolokellner.Nanopb.Istream.{varint32_loop, pb_decode_varint32}
use smolokellner.Nanopb.Varint.{IsVarint, IsInner, value}
use smolokellner.Nanopb.Decode.Steps.{reading, readbyte-cons, continues-inner, continues-last}
use smolokellner.Nanopb.Decode.Steps.{readbyte_end, low_group, join32, join32}
use smolokellner.Base.Bits.{pow-add}
use Prim.Native.Nat.add
use native.Mathlib.Nat.{pow-le-pow_right, mod-eq_of_lt, mod-lt, mod-le}

-- One round on an inner byte, and the round on the last one.
loop_inner :
    (rounds bitpos acc b : ℕ) (bs : List ℕ) (left : ℕ) (e : Option Message)
    → IsInner b
    → bitpos ≤ 31
    → acc < 2 ^ bitpos
    → varint32_loop (suc rounds) bitpos acc (reading (b ∷ bs) (suc left) e)
      ≡ varint32_loop rounds
          (bitpos + 7)
          ((acc + b % 128 * 2 ^ bitpos) % 2 ^ 32)
          (reading bs left e)
unfolding varint32_loop
loop_inner rounds bitpos acc b bs left e (lo, hi) h fits = ground (
  arith,
  readbyte-cons b bs left e,
  continues-inner b lo hi,
  join32 acc b bitpos (omega arith) fits,
)

loop_last :
    (rounds bitpos acc b : ℕ) (bs : List ℕ) (left : ℕ) (e : Option Message)
    → b < 128
    → bitpos ≤ 31
    → acc < 2 ^ bitpos
    → varint32_loop (suc rounds) bitpos acc (reading (b ∷ bs) (suc left) e)
      ≡ ok ((acc + b % 128 * 2 ^ bitpos) % 2 ^ 32) (reading bs left e)
unfolding varint32_loop
loop_last rounds bitpos acc b bs left e last h fits = ground (
  arith,
  readbyte-cons b bs left e,
  continues-last b last,
  join32 acc b bitpos (omega arith) fits,
)

-- The bits read so far, joined with one more group.
module _ (acc b bitpos : ℕ) (fits : acc < 2 ^ bitpos) where
  seven_more : 2 ^ (bitpos + 7) ≡ 2 ^ bitpos * 128
  seven_more = pow-add bitpos 7

  joined-lt : acc + b % 128 * 2 ^ bitpos < 2 ^ (bitpos + 7)
  joined-lt = grind (arith, seven_more, mod-lt b {m = 128} (omega arith))

  joined_mod-lt : (acc + b % 128 * 2 ^ bitpos) % 2 ^ 32 < 2 ^ (bitpos + 7)
  joined_mod-lt = omega (arith, joined-lt, mod-le (acc + b % 128 * 2 ^ bitpos) (2 ^ 32))

  joined_no_wrap : bitpos ≤ 21 → (acc + b % 128 * 2 ^ bitpos) % 2 ^ 32 ≡ acc + b % 128 * 2 ^ bitpos
  joined_no_wrap h =
      mod-eq_of_lt (omega (arith, joined-lt, pow-le-pow_right {n = 2} (omega arith) small))
    where
      small : bitpos + 7 ≤ 31
      small = omega arith

  regroup :
      (high : ℕ)
      → acc + b % 128 * 2 ^ bitpos + high * 2 ^ (bitpos + 7)
        ≡ acc + (b % 128 + 128 * high) * 2 ^ bitpos
  regroup high = omega (arith, ap (λ (t : ℕ). high * t) seven_more)

-- A whole varint of at most the groups that still fit.
varint32_loop-IsVarint :
    (bs rest : List ℕ) (rounds bitpos acc total left : ℕ) (e : Option Message)
    → IsVarint bs
    → bitpos + 7 * length bs ≤ 35
    → length bs ≤ rounds
    → acc < 2 ^ bitpos
    → total ≡ length bs + left
    → varint32_loop rounds bitpos acc (reading (bs ++ rest) total e)
      ≡ ok ((acc + value bs * 2 ^ bitpos) % 2 ^ 32) (reading rest left e)
varint32_loop-IsVarint [] rest rounds bitpos acc total left e h room enough fits t = elim h [ ]
varint32_loop-IsVarint (b ∷ bs) rest zero bitpos acc total left e h room enough fits t =
    absurd (omega arith)
varint32_loop-IsVarint (b ∷ bs) rest (suc rounds) bitpos acc zero left e h room enough fits t =
    absurd (omega arith)
varint32_loop-IsVarint (b ∷ []) rest (suc rounds) bitpos acc (suc total) left e h room enough fits
      t =
    ground (arith, loop_last rounds bitpos acc b rest total e h (omega arith) fits)
varint32_loop-IsVarint (b ∷ c ∷ bs) rest (suc rounds) bitpos acc (suc total) left e h room enough
      fits t =
    loop_inner rounds bitpos acc b (c ∷ (bs ++ rest)) total e h.0 (omega arith) fits
    ∙ rw (joined_no_wrap acc b bitpos fits (omega arith)) (
        varint32_loop-IsVarint (c ∷ bs) rest rounds (bitpos + 7) (acc + b % 128 * 2 ^ bitpos) total
          left e h.1 (omega arith) (omega arith) (joined-lt acc b bitpos fits) (omega arith))
    ∙ ap (λ (x : ℕ). ok (x % 2 ^ 32) (reading rest left e))
        (regroup acc b bitpos fits (value (c ∷ bs)))

-- Inner bytes up to the last bit position, and inner bytes where the stream ends.
varint32_loop_overflow :
    (bs rest : List ℕ) (rounds bitpos acc total left : ℕ) (e : Option Message)
    → All IsInner bs
    → bitpos + 7 * length bs ≡ 35
    → length bs < rounds
    → acc < 2 ^ bitpos
    → total ≡ length bs + left
    → varint32_loop rounds bitpos acc (reading (bs ++ rest) total e)
      ≡ fail (reading rest left (pb_set_error e varint_overflow))
unfolding varint32_loop
varint32_loop_overflow bs rest zero bitpos acc total left e h room enough fits t =
    absurd (omega arith)
varint32_loop_overflow [] rest (suc rounds) bitpos acc total left e h room enough fits t =
    ground arith
varint32_loop_overflow (b ∷ bs) rest (suc rounds) bitpos acc zero left e h room enough fits t =
    absurd (omega arith)
varint32_loop_overflow (b ∷ bs) rest (suc rounds) bitpos acc (suc total) left e h room enough fits
      t =
    loop_inner rounds bitpos acc b (bs ++ rest) total e h.0 (omega arith) fits
    ∙ varint32_loop_overflow bs rest rounds (bitpos + 7) ((acc + b % 128 * 2 ^ bitpos) % 2 ^ 32)
        total left e h.1 (omega arith) (omega arith) (joined_mod-lt acc b bitpos fits) (omega arith)

varint32_loop_truncated :
    (bs rest : List ℕ) (rounds bitpos acc total : ℕ) (e : Option Message)
    → All IsInner bs
    → bitpos + 7 * length bs ≤ 28
    → length bs < rounds
    → acc < 2 ^ bitpos
    → total ≡ length bs
    → varint32_loop rounds bitpos acc (reading (bs ++ rest) total e)
      ≡ fail (reading rest 0 (pb_set_error e end_of_stream))
unfolding varint32_loop
varint32_loop_truncated bs rest zero bitpos acc total e h room enough fits t = absurd (omega arith)
varint32_loop_truncated [] rest (suc rounds) bitpos acc total e h room enough fits t =
    ground (arith, readbyte_end rest e)
varint32_loop_truncated (b ∷ bs) rest (suc rounds) bitpos acc zero e h room enough fits t =
    absurd (omega arith)
varint32_loop_truncated (b ∷ bs) rest (suc rounds) bitpos acc (suc total) e h room enough fits t =
    loop_inner rounds bitpos acc b (bs ++ rest) total e h.0 (omega arith) fits
    ∙ varint32_loop_truncated bs rest rounds (bitpos + 7) ((acc + b % 128 * 2 ^ bitpos) % 2 ^ 32)
        total e h.1 (omega arith) (omega arith) (joined_mod-lt acc b bitpos fits) (omega arith)

-- The round before the loop, on a byte with the top bit set.
first_inner :
    (b : ℕ) (bs : List ℕ) (left : ℕ) (e : Option Message)
    → IsInner b
    → pb_decode_varint32 (reading (b ∷ bs) (suc left) e)
      ≡ varint32_loop 5 7 (b % 128) (reading bs left e)
unfolding pb_decode_varint32
first_inner b bs left e (lo, hi) =
    rw (readbyte-cons b bs left e, ◌>>=◌) (rw (continues-inner b lo hi, low_group b))

-- On a varint of at most five bytes `pb_decode_varint32` returns its value modulo 2 ^ 32, takes
-- the bytes of the varint and no more, and leaves the message alone.
pub pb_decode_varint32-value :
    (bs rest : List ℕ) (left : ℕ) (e : Option Message)
    → IsVarint bs
    → length bs ≤ 5
    → pb_decode_varint32 (reading (bs ++ rest) (length bs + left) e)
      ≡ ok (value bs % 2 ^ 32) (reading rest left e)
unfolding pb_decode_varint32
pb_decode_varint32-value [] rest left e h short = elim h [ ]
pb_decode_varint32-value (b ∷ []) rest left e h short =
    rw (add.suc 0 left, add.zero left)
      (rw (readbyte-cons b rest left e, ◌>>=◌)
        (rw (continues-last b h) (ap (λ (x : ℕ). ok x (reading rest left e)) (omega arith))))
pb_decode_varint32-value (b ∷ c ∷ bs) rest left e h short = rw (add.suc (length (c ∷ bs)) left) (
    first_inner b (c ∷ (bs ++ rest)) (length (c ∷ bs) + left) e h.0
    ∙ varint32_loop-IsVarint (c ∷ bs) rest 5 7 (b % 128) (length (c ∷ bs) + left) left e h.1
        (omega arith) (omega arith) (omega arith) refl
    ∙ ap (λ (x : ℕ). ok (x % 2 ^ 32) (reading rest left e)) (omega arith))

-- After five bytes with the top bit set `pb_decode_varint32` returns false with "varint overflow",
-- unless an earlier message stands.
pub pb_decode_varint32_overflow :
    (bs rest : List ℕ) (left : ℕ) (e : Option Message)
    → All IsInner bs
    → length bs ≡ 5
    → pb_decode_varint32 (reading (bs ++ rest) (length bs + left) e)
      ≡ fail (reading rest left (pb_set_error e varint_overflow))
pb_decode_varint32_overflow [] rest left e h five = absurd (omega arith)
pb_decode_varint32_overflow (b ∷ bs) rest left e h five = rw (add.suc (length bs) left) (
    first_inner b (bs ++ rest) (length bs + left) e h.0
    ∙ varint32_loop_overflow bs rest 5 7 (b % 128) (length bs + left) left e h.1 (omega arith)
        (omega arith) (omega arith) refl)

-- Where the stream ends after at most four bytes, all with the top bit set, `pb_decode_varint32`
-- returns false with "end-of-stream", unless an earlier message stands, and no byte is left.
pub pb_decode_varint32_truncated :
    (bs rest : List ℕ) (e : Option Message)
    → All IsInner bs
    → length bs ≤ 4
    → pb_decode_varint32 (reading (bs ++ rest) (length bs) e)
      ≡ fail (reading rest 0 (pb_set_error e end_of_stream))
unfolding pb_decode_varint32
pb_decode_varint32_truncated [] rest e h few = rw (readbyte_end rest e, ◌>>=◌)
pb_decode_varint32_truncated (b ∷ bs) rest e h few =
    first_inner b (bs ++ rest) (length bs) e h.0
    ∙ varint32_loop_truncated bs rest 5 7 (b % 128) (length bs) e h.1 (omega arith) (omega arith)
        (omega arith) refl
