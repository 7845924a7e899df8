-- ===== src/Nanopb/Encode/Varints.antt =====
-- pb_encode.c: `pb_encode_varint`.
use smolokellner.Base.{ℕ, zero, suc, ◌+◌, ◌/◌, ◌%◌, ◌^◌, ◌<◌, ◌≡◌, refl, ap}
use smolokellner.Base.{bit_and, bit_or, ltb, leb, some, List, [], ◌∷◌, ◌++◌}
use smolokellner.Base.{length, arith, append_assoc, if◌then◌else◌, Bool-cases, inl, inr}
use smolokellner.Base.Bits.{bit_and_ones, bit_or_above}
use smolokellner.Nanopb.Ostream.{fill_varint, unset_top_bit, pb_encode_varint, write_all}
use smolokellner.Nanopb.Varint.{shortest}
use smolokellner.Nanopb.Encode.Emits.{Emits, write_all-Emits}
use native.Mathlib.Nat.{pow-suc, mod-eq_of_lt}

-- What the loop stores: the shortest form with the top bit set on the last byte too.
all_inner : ℕ → ℕ → List ℕ
all_inner zero v = (v % 128 + 128) ∷ []
all_inner (suc k) v =
    let rest = all_inner k (v / 128) in
    if ltb v 128 then (v % 128 + 128) ∷ [] else (v % 128 + 128) ∷ rest

stored_byte : (v : ℕ) → bit_or (bit_and v 0x7f) 0x80 % 2 ^ 8 ≡ v % 128 + 128
stored_byte v =
    omega
      (arith, bit_and_ones 7 v, bit_or_above 7 (bit_and v 0x7f) 1 (omega (arith, bit_and_ones 7 v)))

fill_done : (space : ℕ) (buffer : List ℕ) → fill_varint space 0 buffer ≡ some buffer
unfolding fill_varint
fill_done zero buffer = refl
fill_done (suc space) buffer = refl

fill-all_inner :
    (k space v : ℕ) (buffer : List ℕ)
    → 0 < v
    → v < 128 ^ suc k
    → k < space
    → fill_varint space v buffer ≡ some (buffer ++ all_inner k v)
unfolding fill_varint all_inner
fill-all_inner k zero v buffer pos below room = absurd (omega arith)
fill-all_inner zero (suc space) v buffer pos below room =
    ground (arith, stored_byte v, fill_done space (buffer ++ (v % 128 + 128) ∷ []))
fill-all_inner (suc k) (suc space) v buffer pos below room = ground (
  arith,
  stored_byte v,
  fill_done space (buffer ++ (v % 128 + 128) ∷ []),
  append_assoc buffer ((v % 128 + 128) ∷ []) (all_inner k (v / 128)),
  pow-suc 128 (suc k),
  fill-all_inner k space (v / 128) (buffer ++ (v % 128 + 128) ∷ []),
)

nonempty_step :
    (b : ℕ) (bs : List ℕ) → 0 < length bs → unset_top_bit (b ∷ bs) ≡ b ∷ unset_top_bit bs
unfolding unset_top_bit
nonempty_step b [] h = elim h [ ]
nonempty_step b (c ∷ bs) h = refl

length-all_inner : (k v : ℕ) → 0 < length (all_inner k v)
unfolding all_inner
length-all_inner zero v = omega arith
length-all_inner (suc k) v = ground arith

last_byte : (v : ℕ) → v < 128 → bit_and (v % 128 + 128) 0x7f ≡ v
last_byte v h = omega (arith, bit_and_ones 7 (v % 128 + 128))

unset-all_inner : (k v : ℕ) → v < 128 ^ suc k → unset_top_bit (all_inner k v) ≡ shortest k v
unfolding all_inner shortest unset_top_bit
unset-all_inner zero v h = rw (last_byte v (omega arith))
unset-all_inner (suc k) v h = ground (
  arith,
  last_byte v,
  nonempty_step (v % 128 + 128) (all_inner k (v / 128)),
  length-all_inner k (v / 128),
  pow-suc 128 (suc k),
  unset-all_inner k (v / 128),
)

shortest_small : (k v : ℕ) → v < 128 → shortest k v ≡ v ∷ []
unfolding shortest
shortest_small zero v h = refl
shortest_small (suc k) v h = ground arith

-- The branch for one byte and the loop agree.
encode_varint-shortest : (v : ℕ) → v < 2 ^ 64 → pb_encode_varint v ≡ write_all (shortest 9 v)
unfolding pb_encode_varint
encode_varint-shortest v h = elim (Bool-cases (leb v 0x7f)) [
  | inl small ↦
      rw (small, shortest_small 9 v (ground arith))
        (ap (λ (x : ℕ). write_all (x ∷ [])) (mod-eq_of_lt (ground arith)))
  | inr large ↦ rw (
    large,
    fill-all_inner 9 10 v [] (ground arith) (omega arith) (omega arith),
    unset-all_inner 9 v (omega arith),
  )
]

-- `pb_encode_varint` puts the shortest varint of a `uint64_t` into a stream that has room for it.
pub encode_varint-Emits : (v : ℕ) → v < 2 ^ 64 → Emits (pb_encode_varint v) (shortest 9 v)
encode_varint-Emits v h s room =
    rw (encode_varint-shortest v h) (write_all-Emits (shortest 9 v) s room)
