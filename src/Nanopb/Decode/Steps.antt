-- ===== src/Nanopb/Decode/Steps.antt =====
-- One read of pb_decode.c on a stream that holds what is read, and the bits of one byte.
use smolokellner.Base.{ℕ, suc, ◌+◌, ◌-◌, ◌*◌, ◌%◌, ◌^◌, ◌≤◌, ◌<◌, ◌≡◌, refl}
use smolokellner.Base.{bit_and, bit_or, true, false, Option, List, [], ◌∷◌, ◌++◌, arith}
use smolokellner.Base.{length, leb, length-append, take-append, drop-append}
use smolokellner.Base.Bits.{bit_and_ones, bit_and_single, or_shifted}
use smolokellner.Nanopb.Status.{Message, ok, fail, pb_set_error, end_of_stream}
use smolokellner.Nanopb.Istream.{IStream, buf_read, pb_read, pb_readbyte, continues}

-- A stream by its fields.
abbrev pub reading : List ℕ → ℕ → Option Message → IStream
reading bytes left e = record { state = bytes; bytes_left = left; errmsg = e }

copy-block :
    (block rest : List ℕ) (left : ℕ) (e : Option Message)
    → buf_read (length block) (reading (block ++ rest) left e) ≡ ok block (reading rest left e)
unfolding buf_read
copy-block block rest left e = rw (lt_length, take-append block rest, drop-append block rest)
  where
    lt_length : leb (length block) (length (block ++ rest)) ≡ true
    lt_length = ground (arith, length-append block rest)

pub readbyte-cons :
    (b : ℕ) (bs : List ℕ) (left : ℕ) (e : Option Message)
    → pb_readbyte (reading (b ∷ bs) (suc left) e) ≡ ok b (reading bs left e)
unfolding pb_readbyte
readbyte-cons b bs left e = ground (arith, copy-block (b ∷ []) bs (suc left) e)

pub readbyte_end :
    (bs : List ℕ) (e : Option Message)
    → pb_readbyte (reading bs 0 e) ≡ fail (reading bs 0 (pb_set_error e end_of_stream))
unfolding pb_readbyte
readbyte_end bs e = refl

-- Reading as many bytes as a block has.
pub read-block :
    (block rest : List ℕ) (left : ℕ) (e : Option Message)
    → pb_read (length block) (reading (block ++ rest) (length block + left) e)
      ≡ ok block (reading rest left e)
unfolding pb_read
read-block block rest left e = ground (arith, copy-block block rest (length block + left) e)

pub low_group : (b : ℕ) → bit_and b 0x7f ≡ b % 128
low_group b = bit_and_ones 7 b

pub continues-inner : (b : ℕ) → 128 ≤ b → b < 256 → continues b ≡ true
continues-inner b h k = ground (arith, bit_and_single 7 b)

pub continues-last : (b : ℕ) → b < 128 → continues b ≡ false
continues-last b h = ground (arith, bit_and_single 7 b)

-- One group joined to the bits below `bitpos`, in 64 and in 32 bits.
pub join64 :
    (acc b bitpos : ℕ)
    → bitpos ≤ 64
    → acc < 2 ^ bitpos
    → bit_or acc (bit_and b 0x7f * 2 ^ bitpos % 2 ^ 64) ≡ (acc + b % 128 * 2 ^ bitpos) % 2 ^ 64
join64 acc b bitpos h fits =
    rw (low_group b) (rw (width) at (or_shifted (64 - bitpos) bitpos (b % 128) acc fits))
  where
    width : 64 - bitpos + bitpos ≡ 64
    width = omega arith

pub join32 :
    (acc b bitpos : ℕ)
    → bitpos ≤ 32
    → acc < 2 ^ bitpos
    → bit_or acc (bit_and b 0x7f * 2 ^ bitpos % 2 ^ 32) ≡ (acc + b % 128 * 2 ^ bitpos) % 2 ^ 32
join32 acc b bitpos h fits =
    rw (low_group b) (rw (width) at (or_shifted (32 - bitpos) bitpos (b % 128) acc fits))
  where
    width : 32 - bitpos + bitpos ≡ 32
    width = omega arith
