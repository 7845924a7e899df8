-- ===== src/Nanopb/Encode/Write.antt =====
-- `pb_write` on every branch, and `pb_encode_submessage`.
use smolokellner.Base.{
  ℕ, ◌+◌, ◌-◌, ◌^◌, ◌%◌, sym, ap₂, ◌≤◌, ◌<◌, ◌≡◌, ◌⊎◌, inl, inr, refl, ap, ◌∙◌, arith,
}
use smolokellner.Base.{Bool, true, false, none, List, ◌++◌, length, length-append}
use smolokellner.Base.{Bool-cases, eq→==, le-or_lt, lt→ltb, le→ltb}
use smolokellner.Nanopb.Status.{ok, fail, pb_set_error, stream_full, ◌>>◌}
use smolokellner.Nanopb.Ostream.{OStream, Writer, pb_write, pb_ostream_sizing, pb_encode_varint}
use smolokellner.Nanopb.EncodeField.{pb_encode_submessage, write_measured, join_substream}
use smolokellner.Nanopb.Varint.{shortest}
use smolokellner.Nanopb.Encode.Emits.{
  Emits, Accepts, wrote, write_all-Emits, Accepts-first, Accepts-second,
}
use smolokellner.Nanopb.Encode.Emits.{wrote-append}
use smolokellner.Nanopb.Encode.Varints.{encode_varint-Emits}
use native.Mathlib.Nat.{mod-eq_of_lt}

full :
    (bytes : List ℕ) (s : OStream)
    → s.bytes_written + length bytes < 2 ^ 64
    → s.callback ≡ true
    → s.max_size < s.bytes_written + length bytes
    → pb_write bytes (length bytes) s
      ≡ fail (record s { errmsg = pb_set_error s.errmsg stream_full })
unfolding pb_write
full bytes s total buffer over =
    rw (buffer, mod-eq_of_lt total, lt→ltb s.max_size (s.bytes_written + length bytes) over) refl

-- Where the buffer reaches to the limit of the stream, and the bytes written before and those of a
-- block are fewer than 2 ^ 64 together, so that the sum in the guard does not wrap: `pb_write` of
-- the whole block on a sizing stream returns true and counts its bytes, and stores none. Into a
-- buffer it returns true exactly where the block ends within the limit, and then appends the block
-- and counts it; where the block ends behind the limit it returns false with "stream full", or the
-- earlier message, and writes nothing.
pub pb_write_lem :
    (bytes : List ℕ) (s : OStream)
    → s.bytes_written + length bytes < 2 ^ 64
    → s.max_size ≤ s.bytes_written + s.room
    → ((s.callback ≡ false) × (pb_write bytes (length bytes) s ≡ ok tt (wrote bytes s)))
      ⊎ ((s.callback ≡ true)
          × (s.bytes_written + length bytes ≤ s.max_size)
          × (pb_write bytes (length bytes) s ≡ ok tt (wrote bytes s)))
      ⊎ ((s.callback ≡ true)
          × (s.max_size < s.bytes_written + length bytes)
          × (pb_write bytes (length bytes) s
              ≡ fail (record s { errmsg = pb_set_error s.errmsg stream_full })))
pb_write_lem bytes s total reach = elim (Bool-cases s.callback) [
  | inr sizing ↦ inl (sizing, write_all-Emits bytes s (total, inl sizing))
  | inl buffer ↦ elim (le-or_lt (s.bytes_written + length bytes) s.max_size) [
    | inl fits ↦ inr (inl (buffer, fits, write_all-Emits bytes s (total, inr (fits, omega arith))))
    | inr over ↦ inr (inr (buffer, over, full bytes s total buffer over))
  ]
]

-- The second pass of a submessage, where both passes write the same bytes.
measured_sizing :
    (encode : Writer) (bytes : List ℕ) (s : OStream)
    → s.callback ≡ false
    → s.bytes_written + length bytes < 2 ^ 64
    → write_measured encode (length bytes) s ≡ ok tt (wrote bytes s)
unfolding write_measured pb_write
measured_sizing encode bytes s sizing total = rw (sizing, mod-eq_of_lt total) refl

-- The substream as the second pass leaves it.
abbrev behind : List ℕ → OStream → OStream
behind bytes s = record s {
  callback = true;
  state = s.state ++ bytes;
  room = s.room - length bytes;
  max_size = length bytes;
  bytes_written = 0 + length bytes;
  errmsg = none;
}

joined :
    (bytes : List ℕ) (s : OStream)
    → s.bytes_written + length bytes < 2 ^ 64
    → join_substream (length bytes) s true (behind bytes s)
      ≡ ok tt (record s {
        state = s.state ++ bytes;
        room = s.room - length bytes;
        bytes_written = s.bytes_written + length bytes;
        errmsg = none;
      })
unfolding join_substream
joined bytes s total = rw (eq→== (0 + length bytes) (length bytes) (omega arith)) (
    ap
      (λ (n : ℕ). ok tt (record s {
        state = s.state ++ bytes;
        room = s.room - length bytes;
        bytes_written = n;
        errmsg = none;
      }))
      (ap (λ (n : ℕ). (s.bytes_written + n) % 2 ^ 64) counted_all ∙ mod-eq_of_lt total))
  where
    counted_all : 0 + length bytes ≡ length bytes
    counted_all = omega arith

measured_buffer :
    (encode : Writer) (bytes : List ℕ) (s : OStream)
    → Emits encode bytes
    → s.errmsg ≡ none
    → s.callback ≡ true
    → s.bytes_written + length bytes < 2 ^ 64
    → s.bytes_written + length bytes ≤ s.max_size
    → length bytes ≤ s.room
    → write_measured encode (length bytes) s ≡ ok tt (wrote bytes s)
unfolding write_measured
measured_buffer encode bytes s emits quiet buffer total limit room =
    rw
      (
        buffer,
        mod-eq_of_lt total,
        le→ltb s.max_size (s.bytes_written + length bytes) limit,
        emits
            (record s {
              callback = true;
              max_size = length bytes;
              bytes_written = 0;
              errmsg = none;
            })
            (omega arith, inr (omega arith, room)),
      )
      (joined bytes s total
        ∙ ap₂
            (λ (c : Bool) e. ok tt (record s {
              callback = c;
              state = s.state ++ bytes;
              room = s.room - length bytes;
              bytes_written = s.bytes_written + length bytes;
              errmsg = e;
            }))
            buffer (sym quiet))

measured :
    (encode : Writer) (bytes : List ℕ) (s : OStream)
    → Emits encode bytes
    → s.errmsg ≡ none
    → Accepts s (length bytes)
    → write_measured encode (length bytes) s ≡ ok tt (wrote bytes s)
measured encode bytes s emits quiet (total, inl sizing) =
    measured_sizing encode bytes s sizing total
measured encode bytes s emits quiet (total, inr (limit, room)) = elim (Bool-cases s.callback) [
  | inl buffer ↦ measured_buffer encode bytes s emits quiet buffer total limit room
  | inr sizing ↦ measured_sizing encode bytes s sizing total
]

-- Where the call of `pb_encode` puts the same bytes into every stream that accepts them,
-- `pb_encode_submessage` puts their number as the shortest varint and then these bytes into any
-- stream that accepts both and has no message yet, sizing streams included.
pub pb_encode_submessage_lem :
    (encode : Writer) (bytes : List ℕ) (s : OStream)
    → Emits encode bytes
    → s.errmsg ≡ none
    → Accepts s (length (shortest 9 (length bytes) ++ bytes))
    → pb_encode_submessage encode s ≡ ok tt (wrote (shortest 9 (length bytes) ++ bytes) s)
unfolding pb_encode_submessage
pb_encode_submessage_lem encode bytes s emits quiet room =
    rw (pb_encode_submessage, emits pb_ostream_sizing (below, inl refl))
      (ap (λ (n : ℕ). (pb_encode_varint n >> write_measured encode n) s) all_counted
        ∙ then_measured)
  where
    both : Accepts s (length (shortest 9 (length bytes)) + length bytes)
    both = rw (length-append (shortest 9 (length bytes)) bytes) at room

    below : 0 + length bytes < 2 ^ 64
    below = omega (arith, both.0)

    all_counted : 0 + length bytes ≡ length bytes
    all_counted = omega arith

    then_measured :
        (pb_encode_varint (length bytes) >> write_measured encode (length bytes)) s
        ≡ ok tt (wrote (shortest 9 (length bytes) ++ bytes) s)
    then_measured =
        rw
          (
            encode_varint-Emits (length bytes) (omega (arith, below)) s
                (Accepts-first (length (shortest 9 (length bytes))) (length bytes) s both),
            ◌>>◌,
          )
          (measured encode bytes (wrote (shortest 9 (length bytes)) s) emits quiet
              (Accepts-second (shortest 9 (length bytes)) (length bytes) s both)
            ∙ ap (ok tt) (wrote-append (shortest 9 (length bytes)) bytes s))
