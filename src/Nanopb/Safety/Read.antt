-- ===== src/Nanopb/Safety/Read.antt =====
-- pb_decode.c: `pb_read` and `pb_readbyte`.
use smolokellner.Base.{ℕ, ◌+◌, ◌-◌, ◌≤◌, ◌<◌, ◌≡◌, ◌⊎◌, inl, inr, true, arith, le-or_lt}
use smolokellner.Base.{length, take, drop, leb, ap}
use smolokellner.Nanopb.Status.{Outcome, ok, fail, pb_set_error, end_of_stream, ◌>>=◌}
use smolokellner.Nanopb.Istream.{IStream, Reader, buf_read, pb_read, pb_readbyte, first_byte}
use smolokellner.Nanopb.Safety.Bounds.{IsBounded, Advanced, Advanced-errmsg}
use smolokellner.Nanopb.Safety.Bounds.{Advanced-IsBounded, Within, Within-weaken}

copies :
    (count : ℕ) (s : IStream)
    → count ≤ length s.state
    → buf_read count s ≡ ok (take count s.state) (record s { state = drop count s.state })
unfolding buf_read
copies count s h = rw (fits)
  where
    fits : leb count (length s.state) ≡ true
    fits = ground arith

pub read_fits :
    (count : ℕ) (s : IStream)
    → count ≤ s.bytes_left
    → IsBounded s
    → pb_read count s
      ≡ ok
          (take count s.state)
          (record s { state = drop count s.state; bytes_left = s.bytes_left - count })
unfolding pb_read
read_fits count s h bound = ground (arith, copies count s (omega arith))

read_short :
    (count : ℕ) (s : IStream)
    → s.bytes_left < count
    → pb_read count s ≡ fail (record s { errmsg = pb_set_error s.errmsg end_of_stream })
unfolding pb_read
read_short count s h = ground arith

-- On a stream that promises no more bytes than its buffer has, `pb_read` hands out the next
-- `count` bytes and takes them from the stream where it promises so many, and else returns false
-- with "end-of-stream" (or the earlier message) and takes none.
pub pb_read_lem :
    (count : ℕ) (s : IStream)
    → IsBounded s
    → ((count ≤ s.bytes_left)
        × (pb_read count s
            ≡ ok
                (take count s.state)
                (record s { state = drop count s.state; bytes_left = s.bytes_left - count })))
      ⊎ ((s.bytes_left < count)
          × (pb_read count s ≡ fail (record s { errmsg = pb_set_error s.errmsg end_of_stream })))
pb_read_lem count s bound = elim (le-or_lt count s.bytes_left) [
  | inl fits ↦ inl (fits, read_fits count s fits bound)
  | inr short ↦ inr (short, read_short count s short)
]

readbyte_fits :
    (s : IStream)
    → 0 < s.bytes_left
    → IsBounded s
    → pb_readbyte s
      ≡ ok
          (first_byte (take 1 s.state))
          (record s { state = drop 1 s.state; bytes_left = s.bytes_left - 1 })
unfolding pb_readbyte
readbyte_fits s h bound = ground (arith, copies 1 s (omega arith))

readbyte_short :
    (s : IStream)
    → s.bytes_left ≡ 0
    → pb_readbyte s ≡ fail (record s { errmsg = pb_set_error s.errmsg end_of_stream })
unfolding pb_readbyte
readbyte_short s h = ground arith

-- A read that takes at least `count` bytes, or fails and takes none.
abbrev pub Takes : {A : Type 0} → ℕ → IStream → Outcome IStream A → Type 0
Takes {A = A} count s r =
    ((a : A) × (t : IStream) × Advanced s t × (t.bytes_left + count ≤ s.bytes_left) × (r ≡ ok a t))
    ⊎ ((t : IStream) × Advanced s t × (r ≡ fail t))

pub read-Takes : (count : ℕ) (s : IStream) → IsBounded s → Takes count s (pb_read count s)
read-Takes count s bound = elim (pb_read_lem count s bound) [
  | inl (fits, same) ↦ inl (
    take count s.state,
    record s { state = drop count s.state; bytes_left = s.bytes_left - count },
    (omega arith, ap (λ k. drop k s.state) (omega arith)),
    omega arith,
    same,
  )
  | inr (short, same) ↦ inr (
    record s { errmsg = pb_set_error s.errmsg end_of_stream },
    Advanced-errmsg s (pb_set_error s.errmsg end_of_stream),
    same,
  )
]

pub readbyte-Takes : (s : IStream) → IsBounded s → Takes 1 s (pb_readbyte s)
readbyte-Takes s bound = elim (le-or_lt 1 s.bytes_left) [
  | inl fits ↦ inl (
    first_byte (take 1 s.state),
    record s { state = drop 1 s.state; bytes_left = s.bytes_left - 1 },
    (omega arith, ap (λ k. drop k s.state) (one_taken fits)),
    omega arith,
    readbyte_fits s (omega arith) bound,
  )
  | inr short ↦ inr (
    record s { errmsg = pb_set_error s.errmsg end_of_stream },
    Advanced-errmsg s (pb_set_error s.errmsg end_of_stream),
    readbyte_short s (omega arith),
  )
]
  where
    one_taken : 1 ≤ s.bytes_left → 1 ≡ s.bytes_left - (s.bytes_left - 1)
    one_taken fits = omega arith

-- What follows a read may rely on a stream that is shorter by what it took.
pub Takes-bind :
    {A B : Type 0} (count : ℕ) (m : Reader A) (f : A → Reader B) (s : IStream)
    → IsBounded s
    → Takes count s (m s)
    → ((a : A) (t : IStream) → IsBounded t → t.bytes_left + count ≤ s.bytes_left → Within t (f a t))
    → Within s ((m >>= f) s)
unfolding Within
Takes-bind count m f s bound (inl (a, t, next, less, same)) k =
    rw (same, ◌>>=◌)
      (Within-weaken s t (f a t) next (k a t (Advanced-IsBounded s t bound next) less))
Takes-bind count m f s bound (inr (t, next, same)) k = rw (same, ◌>>=◌) next
