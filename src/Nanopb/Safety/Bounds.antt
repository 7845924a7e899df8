-- ===== src/Nanopb/Safety/Bounds.antt =====
-- pb_decode.c: streams and their buffers.
use smolokellner.Base.{Option, ◌-◌, ◌≤◌, ◌≡◌, ap, ◌∙◌}
use smolokellner.Base.{length, drop, drop-drop, length-drop, arith}
use smolokellner.Nanopb.Status.{Message, Outcome, ok, fail, fault, ◌>>=◌}
use smolokellner.Nanopb.Istream.{IStream, Reader}

-- The stream promises no more bytes than its buffer has.
abbrev pub IsBounded : IStream → Type 0
IsBounded s = s.bytes_left ≤ length s.state

-- The stream `t` is `s` with the first bytes taken, as many in the promise as in the buffer.
abbrev pub Advanced : IStream → IStream → Type 0
Advanced s t =
    (t.bytes_left ≤ s.bytes_left) × (t.state ≡ drop (s.bytes_left - t.bytes_left) s.state)

-- A call on the stream `s` ended, with true or false, and took bytes from the front only.
unfoldable pub Within : {A : Type 0} → IStream → Outcome IStream A → Type 0
Within s (ok a t) = Advanced s t
Within s (fail t) = Advanced s t
Within s fault = ⊥

pub Advanced-errmsg : (s : IStream) (e : Option Message) → Advanced s (record s { errmsg = e })
Advanced-errmsg s e = (omega arith, ap (λ k. drop k s.state) none_taken)
  where
    none_taken : 0 ≡ s.bytes_left - s.bytes_left
    none_taken = omega arith

pub Advanced-trans : (s t u : IStream) → Advanced s t → Advanced t u → Advanced s u
Advanced-trans s t u (le, same) (le', same') = (
  omega arith,
  same'
      ∙ ap (drop (t.bytes_left - u.bytes_left)) same
      ∙ drop-drop (t.bytes_left - u.bytes_left) (s.bytes_left - t.bytes_left) s.state
      ∙ ap (λ k. drop k s.state) (omega arith),
)

pub Advanced-IsBounded : (s t : IStream) → IsBounded s → Advanced s t → IsBounded t
Advanced-IsBounded s t bound (le, same) =
    omega (arith, ap length same, length-drop (s.bytes_left - t.bytes_left) s.state)

pub Within-weaken :
    {A : Type 0} (s t : IStream) (r : Outcome IStream A) → Advanced s t → Within t r → Within s r
unfolding Within
Within-weaken s t (ok a u) le h = Advanced-trans s t u le h
Within-weaken s t (fail u) le h = Advanced-trans s t u le h
Within-weaken s t fault le h = h

bind_outcome :
    {A B : Type 0} (s : IStream) (r : Outcome IStream A) (f : A → Reader B)
    → IsBounded s
    → Within s r
    → ((a : A) (t : IStream) → IsBounded t → Within t (f a t))
    → Within s (((λ x. r) >>= f) s)
unfolding Within
bind_outcome s (ok a t) f bound h k =
    Within-weaken s t (f a t) h (k a t (Advanced-IsBounded s t bound h))
bind_outcome s (fail t) f bound h k = h
bind_outcome s fault f bound h k = h

pub Within-bind :
    {A B : Type 0} (m : Reader A) (f : A → Reader B) (s : IStream)
    → IsBounded s
    → Within s (m s)
    → ((a : A) (t : IStream) → IsBounded t → Within t (f a t))
    → Within s ((m >>= f) s)
Within-bind m f s bound h k = bind_outcome s (m s) f bound h k
