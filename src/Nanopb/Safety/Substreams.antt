-- ===== src/Nanopb/Safety/Substreams.antt =====
-- Length-delimited substreams: made, used and closed.
use smolokellner.Base.{
  ℕ, ◌+◌, ◌-◌, ◌≤◌, ◌≡◌, inl, inr, sym, refl, ap, ◌∙◌, arith, length, drop, ap₂, length-drop, List,
}
use smolokellner.Base.{
  drop-drop, ltb, ◌==◌, true, Bool-cases, le-or_lt, lt→ltb, le→ltb, if◌then◌else◌,
}
use smolokellner.Nanopb.Status.{parent_stream_too_short, Outcome, ok, fail, fault, ◌>>=◌}
use smolokellner.Nanopb.Istream.{IStream, Reader, pb_return_error, pb_decode_varint32}
use smolokellner.Nanopb.Substream.{pb_make_string_substream, pb_close_string_substream, drain}
use smolokellner.Nanopb.Safety.Bounds.{IsBounded, Advanced, Within}
use smolokellner.Nanopb.Safety.Read.{read_fits}
use smolokellner.Nanopb.Safety.Varints.{varint32-Within}

-- A call on `s` ended: with a substream that promises the length that stands in front, and the
-- parent what is left behind it, both at the read pointer behind the length; or with false, after
-- some of the first bytes.
unfoldable pub Splits : IStream → Outcome IStream IStream → Type 0
Splits s (ok sub p) =
    (pb_decode_varint32 s
      ≡ ok sub.bytes_left (record p { bytes_left = sub.bytes_left + p.bytes_left }))
    × (sub.state ≡ p.state)
    × Advanced s (record p { bytes_left = sub.bytes_left + p.bytes_left })
Splits s (fail t) = Advanced s t
Splits s fault = ⊥

-- `pb_make_string_substream` behind the length.
abbrev split_at : ℕ → Reader IStream
split_at size s =
    if ltb s.bytes_left size
    then pb_return_error parent_stream_too_short s
    else ok (record s { bytes_left = size }) (record s { bytes_left = s.bytes_left - size })

split_at-Splits :
    (size : ℕ) (s t : IStream)
    → pb_decode_varint32 s ≡ ok size t
    → Advanced s t
    → Splits s (split_at size t)
unfolding Splits
split_at-Splits size s t told (le, taken) = elim (le-or_lt size t.bytes_left) [
  | inl fits ↦ rw (le→ltb t.bytes_left size fits) (
    told ∙ ap (λ (n : ℕ). ok size (record t { bytes_left = n })) (sym (whole fits)),
    refl,
    rw (whole fits) (le, taken),
  )
  | inr short ↦ rw (lt→ltb t.bytes_left size short) (le, taken)
]
  where
    whole : size ≤ t.bytes_left → size + (t.bytes_left - size) ≡ t.bytes_left
    whole fits = omega arith

split_outcome :
    (s : IStream) (r : Outcome IStream ℕ)
    → pb_decode_varint32 s ≡ r
    → Within s r
    → Splits s (((λ x. r) >>= split_at) s)
unfolding Within Splits
split_outcome s (ok size t) told h = split_at-Splits size s t told h
split_outcome s (fail t) told h = h
split_outcome s fault told h = h

-- On any bytes, where the buffer has the bytes that the stream promises,
-- `pb_make_string_substream` ends and reads nothing behind the buffer. If it returns true, the
-- substream promises exactly the length that `pb_decode_varint32` reads in front, the parent what
-- the stream promised behind it less that length, and both read from the byte behind the length; if
-- it returns false, the stream has lost some of its first bytes.
pub make_string_substream-Splits :
    (s : IStream) → IsBounded s → Splits s (pb_make_string_substream s)
unfolding pb_make_string_substream
make_string_substream-Splits s bound =
    split_outcome s (pb_decode_varint32 s) refl (varint32-Within s bound)

drained :
    (t : IStream)
    → IsBounded t
    → drain t ≡ ok tt (record t { state = drop t.bytes_left t.state; bytes_left = 0 })
unfolding drain
drained t bound = elim (Bool-cases (t.bytes_left == 0)) [
  | inl none_left ↦ rw (none_left) (
      ap₂ (λ xs (k : ℕ). ok tt (record t { state = xs; bytes_left = k }))
        (ap (λ k. drop k t.state) (empty none_left)) (sym (empty none_left)))
  | inr some_left ↦
      rw (some_left, read_fits t.bytes_left t (omega arith) bound, ◌>>=◌)
        (ap (λ (k : ℕ). ok tt (record t { state = drop t.bytes_left t.state; bytes_left = k }))
          gone)
]
  where
    empty : (t.bytes_left == 0) ≡ true → 0 ≡ t.bytes_left
    empty h = ground arith

    gone : t.bytes_left - t.bytes_left ≡ 0
    gone = omega arith

-- Whatever was read of a substream, with or without an error message in it, closing it leaves the
-- parent right behind the bytes of the substream: it ends, takes the rest, keeps what the parent
-- promises, and passes the message on.
pub close_string_substream_lem :
    (sub t p : IStream)
    → sub.state ≡ p.state
    → sub.bytes_left ≤ length p.state
    → Advanced sub t
    → pb_close_string_substream t p
      ≡ ok tt (record p { state = drop sub.bytes_left p.state; errmsg = t.errmsg })
unfolding pb_close_string_substream
close_string_substream_lem sub t p same room (le, taken) =
    rw (pb_close_string_substream, drained t bound)
      (ap (λ (k : List ℕ). ok tt (record p { state = k; errmsg = t.errmsg })) front)
  where
    bound : IsBounded t
    bound = omega (
      arith,
      ap length taken,
      length-drop (sub.bytes_left - t.bytes_left) sub.state,
      ap length same,
    )

    whole : sub.bytes_left - t.bytes_left + t.bytes_left ≡ sub.bytes_left
    whole = omega arith

    front : drop t.bytes_left t.state ≡ drop sub.bytes_left p.state
    front =
        ap (drop t.bytes_left) taken
        ∙ drop-drop t.bytes_left (sub.bytes_left - t.bytes_left) sub.state
        ∙ ap₂ drop whole same
