-- ===== src/Nanopb/Encode/Emits.antt =====
-- Writers that put known bytes into every stream with room for them, into a buffer or for sizing.
use smolokellner.Base.{ℕ, ◌+◌, ◌-◌, ◌^◌, ◌≤◌, ◌<◌, ◌≡◌, ◌⊎◌, inl, inr, ap, ◌∙◌}
use smolokellner.Base.{true, false, List, ◌++◌, length, leb, arith, if◌then◌else◌}
use smolokellner.Base.{length-append, append_assoc, take-length}
use native.Mathlib.Nat.{mod-eq_of_lt}
use smolokellner.Nanopb.Status.{ok, ◌>>◌}
use smolokellner.Nanopb.Ostream.{OStream, Writer, pb_write, buf_write, write_all}

-- `count` more bytes are within the limit of the stream and within its buffer.
abbrev pub Accepts : OStream → ℕ → Type 0
Accepts s count =
    (s.bytes_written + count < 2 ^ 64)
    × ((s.callback ≡ false) ⊎ ((s.bytes_written + count ≤ s.max_size) × (count ≤ s.room)))

-- The stream behind the bytes. A sizing stream counts them only.
abbrev pub wrote : List ℕ → OStream → OStream
wrote bytes s = record s {
  state = if s.callback then s.state ++ bytes else s.state;
  room = if s.callback then s.room - length bytes else s.room;
  bytes_written = s.bytes_written + length bytes;
}

abbrev pub Emits : Writer → List ℕ → Type 0
Emits m bytes = (s : OStream) → Accepts s (length bytes) → m s ≡ ok tt (wrote bytes s)

copy_fits :
    (bytes : List ℕ) (s : OStream)
    → length bytes ≤ s.room
    → buf_write bytes (length bytes) s
      ≡ ok tt (record s { state = s.state ++ bytes; room = s.room - length bytes })
unfolding buf_write
copy_fits bytes s h = rw (whole, fits, take-length bytes)
  where
    whole : leb (length bytes) (length bytes) ≡ true
    whole = ground arith

    fits : leb (length bytes) s.room ≡ true
    fits = ground arith

-- `pb_write` of a whole block.
pub write_all-Emits : (bytes : List ℕ) → Emits (write_all bytes) bytes
unfolding pb_write
write_all-Emits bytes s (total, inl sizing) = ground (arith, mod-eq_of_lt total)
write_all-Emits bytes s (total, inr (limit, room)) =
    ground (arith, mod-eq_of_lt total, copy_fits bytes s room)

pub Accepts-le : {n m : ℕ} (s : OStream) → n ≤ m → Accepts s m → Accepts s n
Accepts-le s h (total, inl sizing) = (omega arith, inl sizing)
Accepts-le s h (total, inr (limit, room)) = (omega arith, inr (omega arith, omega arith))

pub Accepts-first : (n m : ℕ) (s : OStream) → Accepts s (n + m) → Accepts s n
Accepts-first n m s (total, inl sizing) = (omega arith, inl sizing)
Accepts-first n m s (total, inr (limit, room)) = (omega arith, inr (omega arith, omega arith))

pub Accepts-second :
    (bytes : List ℕ) (m : ℕ) (s : OStream)
    → Accepts s (length bytes + m)
    → Accepts (wrote bytes s) m
Accepts-second bytes m s (total, inl sizing) = (omega arith, inl sizing)
Accepts-second bytes m s (total, inr (limit, room)) = (omega arith, inr (omega arith, ground arith))

pub wrote-append : (xs ys : List ℕ) (s : OStream) → wrote ys (wrote xs s) ≡ wrote (xs ++ ys) s
wrote-append xs ys s = ground (arith, append_assoc s.state xs ys, length-append xs ys)

-- One writer behind another.
pub then-Emits :
    (m k : Writer) (xs ys : List ℕ) → Emits m xs → Emits k ys → Emits (m >> k) (xs ++ ys)
then-Emits m k xs ys hm hk s h =
    rw (hm s (Accepts-first (length xs) (length ys) s both), ◌>>◌)
      (hk (wrote xs s) (Accepts-second xs (length ys) s both) ∙ ap (ok tt) (wrote-append xs ys s))
  where
    both : Accepts s (length xs + length ys)
    both = rw (length-append xs ys) at h
