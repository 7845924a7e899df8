-- ===== src/Base64.antt =====
-- fbase64.c of SMOLO+/Pods/FirebaseDatabase/Firebase/Database/third_party/SocketRocket: Base64.
pub mod Encode
pub mod Decode
pub mod Text
pub mod Chars
pub mod Steps
pub mod RoundTrip
pub mod Bounds
pub mod Rfc
use smolokellner.Base.{
  ℕ, ◌-◌, ◌^◌, ◌<◌, ◌≡◌, refl, lt→ltb, ℤ, pos, negsuc, List, [], ◌∷◌, Option, none, some, ltb,
  length, get_elem?, set,
}
use smolokellner.Base.{if◌then◌else◌, bit_or}
use smolokellner.Nanopb.Status.{Action, ok, fail, fault}

-- `Base64` and `Pad64`.
abbrev pub alphabet : List ℕ
alphabet =
    65 ∷ 66 ∷ 67 ∷ 68 ∷ 69 ∷ 70 ∷ 71 ∷ 72 ∷ 73 ∷ 74 ∷ 75 ∷ 76 ∷ 77 ∷ 78 ∷ 79 ∷ 80 ∷ 81 ∷ 82 ∷ 83
    ∷ 84 ∷ 85 ∷ 86 ∷ 87 ∷ 88 ∷ 89 ∷ 90 ∷ 97 ∷ 98 ∷ 99 ∷ 100 ∷ 101 ∷ 102 ∷ 103 ∷ 104 ∷ 105 ∷ 106
    ∷ 107 ∷ 108 ∷ 109 ∷ 110 ∷ 111 ∷ 112 ∷ 113 ∷ 114 ∷ 115 ∷ 116 ∷ 117 ∷ 118 ∷ 119 ∷ 120 ∷ 121 ∷ 122
    ∷ 48 ∷ 49 ∷ 50 ∷ 51 ∷ 52 ∷ 53 ∷ 54 ∷ 55 ∷ 56 ∷ 57 ∷ 43 ∷ 47 ∷ []

abbrev pub pad64 : ℕ
pad64 = 61

-- `Base64[i]`
unfoldable pub char_of : ℕ → ℕ
char_of i = elim (get_elem? alphabet i) [ some c ↦ c | none ↦ 0 ]

-- A `u_int` as an `int`, in two's complement of 32 bits.
unfoldable pub as_int : ℕ → ℤ
as_int n = if ltb n (2 ^ 31) then pos n else negsuc (2 ^ 32 - 1 - n)

pub as_int_lem : (n : ℕ) → n < 2 ^ 31 → as_int n ≡ pos n
unfolding as_int
as_int_lem n h = rw (lt→ltb n (2 ^ 31) h) refl

-- The array behind `target`; `none` is NULL, which only `f_b64_pton` allows.
abbrev pub Target : Type 0
Target = Option (List ℕ)

-- `target[index] = value`; a store behind the array, or through NULL, is a fault.
unfoldable pub store_at : ℕ → ℕ → Action Target (Unit {0})
store_at index value none = fault
store_at index value (some target) =
    if ltb index (length target) then ok tt (some (set target index value)) else fault

-- `target[index] |= value`
unfoldable pub or_at : ℕ → ℕ → Action Target (Unit {0})
or_at index value none = fault
or_at index value (some target) = elim (get_elem? target index) [
  | some old ↦ ok tt (some (set target index (bit_or old value)))
  | none ↦ fault
]
