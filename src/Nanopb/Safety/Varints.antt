-- ===== src/Nanopb/Safety/Varints.antt =====
-- The readers of varints, tags and substreams, and `pb_skip_field`, on any bytes.
use smolokellner.Base.{ℕ, zero, suc, ◌+◌, ◌*◌, ◌%◌, ◌^◌, ◌/◌, ◌≤◌, ◌<◌, bit_and}
use smolokellner.Base.{true, false, inl, inr, arith, leb, ◌==◌, if◌then◌else◌, Bool-cases, Bool}
use smolokellner.Nanopb.Status.{
  pb_set_error, Message, Outcome, invalid_wire_type, ok, fail, fault, return, varint_overflow,
}
use smolokellner.Nanopb.Istream.{IStream, Reader, pb_read, pb_readbyte, continues, first_byte}
use smolokellner.Nanopb.Istream.{varint_loop, varint32_loop, skip_varint_loop, pb_skip_varint}
use smolokellner.Nanopb.Istream.{pb_decode_varint, pb_decode_varint32, pb_skip_string}
use smolokellner.Nanopb.Istream.{
  TagResult, found, no_tag, dropping, pb_return_error, pb_decode_tag, pb_skip_field,
}
use smolokellner.Nanopb.Istream.{wt_varint, wt_64bit, wt_string, wt_32bit}
use smolokellner.Nanopb.Safety.Bounds.{IsBounded, Advanced-errmsg, Within, Within-bind}
use smolokellner.Nanopb.Safety.Read.{Takes-bind, read-Takes, readbyte-Takes}

return-Within : {A : Type 0} (a : A) (s : IStream) → IsBounded s → Within s (return a s)
unfolding Within
return-Within a s bound = Advanced-errmsg s s.errmsg

if-Within :
    {A : Type 0} (b : Bool) (m k : Reader A) (s : IStream)
    → Within s (m s)
    → Within s (k s)
    → Within s ((if b then m else k) s)
if-Within true m k s hm hk = hm
if-Within false m k s hm hk = hk

fail-Within :
    (A : Type 0) (e : Message) (s : IStream) → IsBounded s → Within {A = A} s (pb_return_error e s)
unfolding Within
fail-Within A e s bound = Advanced-errmsg s (pb_set_error s.errmsg e)

-- The shift grows by seven with each round and is at most 70.
varint_loop-Within :
    (rounds bitpos result : ℕ) (s : IStream)
    → IsBounded s
    → 70 < bitpos + 7 * rounds
    → bitpos ≤ 70
    → Within s (varint_loop rounds bitpos result s)
unfolding varint_loop
varint_loop-Within zero bitpos result s bound enough small = absurd (omega arith)
varint_loop-Within (suc rounds) bitpos result s bound enough small =
    elim (Bool-cases (leb 64 bitpos)) [
      | inl over ↦ rw (over) (fail-Within ℕ varint_overflow s bound)
      | inr go ↦ rw (go) (
          Takes-bind 1 pb_readbyte _ s bound (readbyte-Takes s bound) (λ byte t b less.
            if-Within (continues byte) _ _ t
              (varint_loop-Within rounds ((bitpos + 7) % 2 ^ 8) _ t b (ground arith) (ground arith))
              (return-Within _ t b)))
    ]

varint32_loop-Within :
    (rounds bitpos result : ℕ) (s : IStream)
    → IsBounded s
    → 38 < bitpos + 7 * rounds
    → bitpos ≤ 38
    → Within s (varint32_loop rounds bitpos result s)
unfolding varint32_loop
varint32_loop-Within zero bitpos result s bound enough small = absurd (omega arith)
varint32_loop-Within (suc rounds) bitpos result s bound enough small =
    elim (Bool-cases (leb 32 bitpos)) [
      | inl over ↦ rw (over) (fail-Within ℕ varint_overflow s bound)
      | inr go ↦ rw (go) (
          Takes-bind 1 pb_readbyte _ s bound (readbyte-Takes s bound) (λ byte t b less.
            if-Within (continues byte) _ _ t
              (varint32_loop-Within rounds ((bitpos + 7) % 2 ^ 8) _ t b (ground arith)
                (ground arith))
              (return-Within _ t b)))
    ]

pub varint32-Within : (s : IStream) → IsBounded s → Within s (pb_decode_varint32 s)
unfolding pb_decode_varint32
varint32-Within s bound =
    Takes-bind 1 pb_readbyte _ s bound (readbyte-Takes s bound) (λ byte t b less.
      if-Within (continues byte) _ _ t (varint32_loop-Within 5 7 _ t b (omega arith) (omega arith))
        (return-Within byte t b))

skip_varint_loop-Within :
    (rounds : ℕ) (s : IStream)
    → IsBounded s
    → s.bytes_left < rounds
    → Within s (skip_varint_loop rounds s)
unfolding skip_varint_loop
skip_varint_loop-Within zero s bound enough = absurd (omega arith)
skip_varint_loop-Within (suc rounds) s bound enough =
    Takes-bind 1 (pb_read 1) _ s bound (read-Takes 1 s bound) (λ bytes t b less.
      if-Within (continues (first_byte bytes)) _ _ t
        (skip_varint_loop-Within rounds t b (omega arith)) (return-Within tt t b))

skip_varint-Within : (s : IStream) → IsBounded s → Within s (pb_skip_varint s)
unfolding pb_skip_varint
skip_varint-Within s bound = skip_varint_loop-Within (suc s.bytes_left) s bound (omega arith)

dropping-Within : (count : ℕ) (s : IStream) → IsBounded s → Within s (dropping count s)
dropping-Within count s bound =
    Takes-bind count (pb_read count) _ s bound (read-Takes count s bound)
      (λ bytes t b less. return-Within tt t b)

skip_string-Within : (s : IStream) → IsBounded s → Within s (pb_skip_string s)
unfolding pb_skip_string
skip_string-Within s bound =
    Within-bind pb_decode_varint32 _ s bound (varint32-Within s bound)
      (λ size t b. dropping-Within size t b)

-- On any bytes and for any wire type, where the buffer has the bytes that the stream promises,
-- `pb_skip_field` ends: it returns true or false, reads nothing behind the buffer, and leaves the
-- stream without some of its first bytes, as many in the buffer as in the promise.
pub pb_skip_field-Within :
    (wire_type : ℕ) (s : IStream) → IsBounded s → Within s (pb_skip_field wire_type s)
unfolding pb_skip_field
pb_skip_field-Within wire_type s bound =
    if-Within (wire_type == wt_varint) _ _ s (skip_varint-Within s bound) (
      if-Within (wire_type == wt_64bit) _ _ s (dropping-Within 8 s bound) (
        if-Within (wire_type == wt_string) _ _ s (skip_string-Within s bound) (
          if-Within (wire_type == wt_32bit) _ _ s (dropping-Within 4 s bound)
            (fail-Within (Unit {0}) invalid_wire_type s bound))))

-- On any bytes, where the buffer has the bytes that the stream promises, `pb_decode_varint` ends
-- within its eleven rounds, reads nothing behind the buffer, and leaves the stream without some of
-- its first bytes, as many in the buffer as in the promise.
pub pb_decode_varint-Within : (s : IStream) → IsBounded s → Within s (pb_decode_varint s)
unfolding pb_decode_varint
pb_decode_varint-Within s bound = varint_loop-Within 11 0 0 s bound (omega arith) (omega arith)

tag_outcome :
    (s : IStream) (r : Outcome IStream ℕ)
    → Within s r
    → Within s (elim r as (λ x. Outcome IStream TagResult) [
      | ok temp t ↦ ok (if temp == 0 then no_tag true else found (bit_and temp 7) (temp / 2 ^ 3)) t
      | fail t ↦ ok (no_tag (t.bytes_left == 0)) t
      | fault ↦ fault
    ])
unfolding Within
tag_outcome s (ok temp t) h = h
tag_outcome s (fail t) h = h
tag_outcome s fault h = h

-- On any bytes, where the buffer has the bytes that the stream promises, `pb_decode_tag` ends,
-- reads nothing behind the buffer, and leaves the stream without some of its first bytes, as many
-- in the buffer as in the promise.
pub pb_decode_tag-Within : (s : IStream) → IsBounded s → Within s (pb_decode_tag s)
unfolding pb_decode_tag
pb_decode_tag-Within s bound = tag_outcome s (pb_decode_varint32 s) (varint32-Within s bound)
