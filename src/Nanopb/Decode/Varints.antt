-- ===== src/Nanopb/Decode/Varints.antt =====
-- pb_decode.c: `pb_decode_varint`.
use smolokellner.Base.{ℕ, zero, suc, ◌+◌, ◌*◌, ◌%◌, ◌^◌, ◌≤◌, ◌<◌, ◌≡◌, refl, ap, ◌∙◌}
use smolokellner.Base.{Option, List, [], ◌∷◌, ◌++◌, arith, length, All}
use smolokellner.Nanopb.Status.{Message, ok, fail, pb_set_error, varint_overflow, end_of_stream}
use smolokellner.Nanopb.Istream.{varint_loop, pb_decode_varint}
use smolokellner.Nanopb.Varint.{IsVarint, IsInner, value}
use smolokellner.Nanopb.Decode.Steps.{reading, readbyte-cons, continues-inner, continues-last}
use smolokellner.Nanopb.Decode.Steps.{readbyte_end, join64}
use smolokellner.Base.Bits.{pow-add}
use native.Mathlib.Nat.{pow-le-pow_right, mod-eq_of_lt, mod-lt, mod-le}

-- One round on an inner byte, and the round on the last one.
loop_inner :
    (rounds bitpos acc b : ℕ) (bs : List ℕ) (left : ℕ) (e : Option Message)
    → IsInner b
    → bitpos ≤ 63
    → acc < 2 ^ bitpos
    → varint_loop (suc rounds) bitpos acc (reading (b ∷ bs) (suc left) e)
      ≡ varint_loop rounds (bitpos + 7) ((acc + b % 128 * 2 ^ bitpos) % 2 ^ 64) (reading bs left e)
unfolding varint_loop
loop_inner rounds bitpos acc b bs left e (lo, hi) h fits = ground (
  arith,
  readbyte-cons b bs left e,
  continues-inner b lo hi,
  join64 acc b bitpos (omega arith) fits,
)

loop_last :
    (rounds bitpos acc b : ℕ) (bs : List ℕ) (left : ℕ) (e : Option Message)
    → b < 128
    → bitpos ≤ 63
    → acc < 2 ^ bitpos
    → varint_loop (suc rounds) bitpos acc (reading (b ∷ bs) (suc left) e)
      ≡ ok ((acc + b % 128 * 2 ^ bitpos) % 2 ^ 64) (reading bs left e)
unfolding varint_loop
loop_last rounds bitpos acc b bs left e last h fits = ground (
  arith,
  readbyte-cons b bs left e,
  continues-last b last,
  join64 acc b bitpos (omega arith) fits,
)

-- The bits read so far, joined with one more group.
module _ (acc b bitpos : ℕ) (fits : acc < 2 ^ bitpos) where
  seven_more : 2 ^ (bitpos + 7) ≡ 2 ^ bitpos * 128
  seven_more = pow-add bitpos 7

  joined-lt : acc + b % 128 * 2 ^ bitpos < 2 ^ (bitpos + 7)
  joined-lt = grind (arith, seven_more, mod-lt b {m = 128} (omega arith))

  joined_mod-lt : (acc + b % 128 * 2 ^ bitpos) % 2 ^ 64 < 2 ^ (bitpos + 7)
  joined_mod-lt = omega (arith, joined-lt, mod-le (acc + b % 128 * 2 ^ bitpos) (2 ^ 64))

  joined_no_wrap : bitpos ≤ 56 → (acc + b % 128 * 2 ^ bitpos) % 2 ^ 64 ≡ acc + b % 128 * 2 ^ bitpos
  joined_no_wrap h =
      mod-eq_of_lt (omega (arith, joined-lt, pow-le-pow_right {n = 2} (omega arith) small))
    where
      small : bitpos + 7 ≤ 63
      small = omega arith

  regroup :
      (high : ℕ)
      → acc + b % 128 * 2 ^ bitpos + high * 2 ^ (bitpos + 7)
        ≡ acc + (b % 128 + 128 * high) * 2 ^ bitpos
  regroup high = omega (arith, ap (λ (t : ℕ). high * t) seven_more)

-- A whole varint of at most the groups that still fit.
varint_loop-IsVarint :
    (bs rest : List ℕ) (rounds bitpos acc total left : ℕ) (e : Option Message)
    → IsVarint bs
    → bitpos + 7 * length bs ≤ 70
    → length bs ≤ rounds
    → acc < 2 ^ bitpos
    → total ≡ length bs + left
    → varint_loop rounds bitpos acc (reading (bs ++ rest) total e)
      ≡ ok ((acc + value bs * 2 ^ bitpos) % 2 ^ 64) (reading rest left e)
varint_loop-IsVarint [] rest rounds bitpos acc total left e h room enough fits t = elim h [ ]
varint_loop-IsVarint (b ∷ bs) rest zero bitpos acc total left e h room enough fits t =
    absurd (omega arith)
varint_loop-IsVarint (b ∷ bs) rest (suc rounds) bitpos acc zero left e h room enough fits t =
    absurd (omega arith)
varint_loop-IsVarint (b ∷ []) rest (suc rounds) bitpos acc (suc total) left e h room enough fits t =
    ground (arith, loop_last rounds bitpos acc b rest total e h (omega arith) fits)
varint_loop-IsVarint (b ∷ c ∷ bs) rest (suc rounds) bitpos acc (suc total) left e h room enough fits
      t =
    loop_inner rounds bitpos acc b (c ∷ (bs ++ rest)) total e h.0 (omega arith) fits
    ∙ rw (joined_no_wrap acc b bitpos fits (omega arith)) (
        varint_loop-IsVarint (c ∷ bs) rest rounds (bitpos + 7) (acc + b % 128 * 2 ^ bitpos) total
          left e h.1 (omega arith) (omega arith) (joined-lt acc b bitpos fits) (omega arith))
    ∙ ap (λ (x : ℕ). ok (x % 2 ^ 64) (reading rest left e))
        (regroup acc b bitpos fits (value (c ∷ bs)))

-- Inner bytes up to the last bit position, and inner bytes where the stream ends.
varint_loop_overflow :
    (bs rest : List ℕ) (rounds bitpos acc total left : ℕ) (e : Option Message)
    → All IsInner bs
    → bitpos + 7 * length bs ≡ 70
    → length bs < rounds
    → acc < 2 ^ bitpos
    → total ≡ length bs + left
    → varint_loop rounds bitpos acc (reading (bs ++ rest) total e)
      ≡ fail (reading rest left (pb_set_error e varint_overflow))
unfolding varint_loop
varint_loop_overflow bs rest zero bitpos acc total left e h room enough fits t =
    absurd (omega arith)
varint_loop_overflow [] rest (suc rounds) bitpos acc total left e h room enough fits t =
    ground arith
varint_loop_overflow (b ∷ bs) rest (suc rounds) bitpos acc zero left e h room enough fits t =
    absurd (omega arith)
varint_loop_overflow (b ∷ bs) rest (suc rounds) bitpos acc (suc total) left e h room enough fits t =
    loop_inner rounds bitpos acc b (bs ++ rest) total e h.0 (omega arith) fits
    ∙ varint_loop_overflow bs rest rounds (bitpos + 7) ((acc + b % 128 * 2 ^ bitpos) % 2 ^ 64) total
        left e h.1 (omega arith) (omega arith) (joined_mod-lt acc b bitpos fits) (omega arith)

varint_loop_truncated :
    (bs rest : List ℕ) (rounds bitpos acc total : ℕ) (e : Option Message)
    → All IsInner bs
    → bitpos + 7 * length bs ≤ 63
    → length bs < rounds
    → acc < 2 ^ bitpos
    → total ≡ length bs
    → varint_loop rounds bitpos acc (reading (bs ++ rest) total e)
      ≡ fail (reading rest 0 (pb_set_error e end_of_stream))
unfolding varint_loop
varint_loop_truncated bs rest zero bitpos acc total e h room enough fits t = absurd (omega arith)
varint_loop_truncated [] rest (suc rounds) bitpos acc total e h room enough fits t =
    ground (arith, readbyte_end rest e)
varint_loop_truncated (b ∷ bs) rest (suc rounds) bitpos acc zero e h room enough fits t =
    absurd (omega arith)
varint_loop_truncated (b ∷ bs) rest (suc rounds) bitpos acc (suc total) e h room enough fits t =
    loop_inner rounds bitpos acc b (bs ++ rest) total e h.0 (omega arith) fits
    ∙ varint_loop_truncated bs rest rounds (bitpos + 7) ((acc + b % 128 * 2 ^ bitpos) % 2 ^ 64)
        total e h.1 (omega arith) (omega arith) (joined_mod-lt acc b bitpos fits) (omega arith)

-- On a varint of at most ten bytes `pb_decode_varint` returns its value modulo 2 ^ 64, takes the
-- bytes of the varint and no more, and leaves the message alone.
pub pb_decode_varint-value :
    (bs rest : List ℕ) (left : ℕ) (e : Option Message)
    → IsVarint bs
    → length bs ≤ 10
    → pb_decode_varint (reading (bs ++ rest) (length bs + left) e)
      ≡ ok (value bs % 2 ^ 64) (reading rest left e)
unfolding pb_decode_varint
pb_decode_varint-value bs rest left e h short =
    varint_loop-IsVarint bs rest 11 0 0 (length bs + left) left e h (omega arith) (omega arith)
      (omega arith) refl
    ∙ ap (λ (x : ℕ). ok (x % 2 ^ 64) (reading rest left e)) (omega arith)

-- After ten bytes with the top bit set `pb_decode_varint` returns false with "varint overflow",
-- unless an earlier message stands.
pub pb_decode_varint_overflow :
    (bs rest : List ℕ) (left : ℕ) (e : Option Message)
    → All IsInner bs
    → length bs ≡ 10
    → pb_decode_varint (reading (bs ++ rest) (length bs + left) e)
      ≡ fail (reading rest left (pb_set_error e varint_overflow))
unfolding pb_decode_varint
pb_decode_varint_overflow bs rest left e h ten =
    varint_loop_overflow bs rest 11 0 0 (length bs + left) left e h (omega arith) (omega arith)
      (omega arith) refl

-- Where the stream ends after at most nine bytes, all with the top bit set, `pb_decode_varint`
-- returns false with "end-of-stream", unless an earlier message stands, and no byte is left.
pub pb_decode_varint_truncated :
    (bs rest : List ℕ) (e : Option Message)
    → All IsInner bs
    → length bs ≤ 9
    → pb_decode_varint (reading (bs ++ rest) (length bs) e)
      ≡ fail (reading rest 0 (pb_set_error e end_of_stream))
unfolding pb_decode_varint
pb_decode_varint_truncated bs rest e h few =
    varint_loop_truncated bs rest 11 0 0 (length bs) e h (omega arith) (omega arith) (omega arith)
      refl
