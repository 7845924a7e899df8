-- ===== src/Nanopb/Varint.antt =====
-- The variable-length integers of the protobuf wire format, described apart from the code: seven
-- bits a byte, lowest group first, the top bit set on every byte but the last.
use smolokellner.Base.{ℕ, zero, suc, ◌+◌, ◌*◌, ◌/◌, ◌%◌, ◌^◌, ◌≤◌, ◌<◌, ◌≡◌, refl, arith}
use smolokellner.Base.{List, [], ◌∷◌, length, ltb, if◌then◌else◌}
use native.Mathlib.Nat.{pow-suc}

abbrev pub IsByte : ℕ → Type 0
IsByte b = b < 256

-- A byte with the top bit set.
abbrev pub IsInner : ℕ → Type 0
IsInner b = (128 ≤ b) × (b < 256)

-- Inner bytes and one last byte.
abbrev pub IsVarint : List ℕ → Type 0
IsVarint [] = ⊥
IsVarint (b ∷ []) = b < 128
IsVarint (b ∷ c ∷ bs) = IsInner b × IsVarint (c ∷ bs)

-- The number that the groups stand for, of any size.
abbrev pub value : List ℕ → ℕ
value [] = 0
value (b ∷ bs) = b % 128 + 128 * value bs

-- The shortest form of a number below 128 ^ (k + 1).
unfoldable pub shortest : ℕ → ℕ → List ℕ
shortest zero v = v ∷ []
shortest (suc k) v =
    let rest = shortest k (v / 128) in if ltb v 128 then v ∷ [] else (v % 128 + 128) ∷ rest

pub shortest-nonempty : (k v : ℕ) → 1 ≤ length (shortest k v)
unfolding shortest
shortest-nonempty zero v = omega arith
shortest-nonempty (suc k) v = ground arith

pub length-shortest : (k v : ℕ) → length (shortest k v) ≤ k + 1
unfolding shortest
length-shortest zero v = omega arith
length-shortest (suc k) v = ground (arith, length-shortest k (v / 128))

inner-IsVarint : (b : ℕ) (bs : List ℕ) → IsInner b → IsVarint bs → IsVarint (b ∷ bs)
inner-IsVarint b [] h k = elim k [ ]
inner-IsVarint b (c ∷ bs) h k = (h, k)

pub shortest-IsVarint : (k v : ℕ) → v < 128 ^ suc k → IsVarint (shortest k v)
unfolding shortest
shortest-IsVarint zero v h = omega arith
shortest-IsVarint (suc k) v h = ground (
  arith,
  inner-IsVarint (v % 128 + 128) (shortest k (v / 128)),
  shortest-IsVarint k (v / 128) below,
)
  where
    below : v / 128 < 128 ^ suc k
    below = omega (arith, pow-suc 128 (suc k))

pub value-shortest : (k v : ℕ) → v < 128 ^ suc k → value (shortest k v) ≡ v
unfolding shortest
value-shortest zero v h = omega arith
value-shortest (suc k) v h = ground (arith, value-shortest k (v / 128) below)
  where
    below : v / 128 < 128 ^ suc k
    below = omega (arith, pow-suc 128 (suc k))

-- More room changes nothing.
pub shortest_enough : (k more v : ℕ) → v < 128 ^ suc k → k ≤ more → shortest more v ≡ shortest k v
unfolding shortest
shortest_enough zero zero v h p = refl
shortest_enough zero (suc more) v h p = ground arith
shortest_enough (suc k) zero v h p = absurd (omega arith)
shortest_enough (suc k) (suc more) v h p =
    ground (arith, pow-suc 128 (suc k), shortest_enough k more (v / 128))
