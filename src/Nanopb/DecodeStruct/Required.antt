-- ===== src/Nanopb/DecodeStruct/Required.antt =====
-- The test of the required fields at the end of `pb_decode_noinit`.
use smolokellner.Base.{
  ap₂, get_elem?, ℕ, suc, ◌+◌, ◌-◌, ◌*◌, ◌/◌, ◌%◌, ◌^◌, ◌≤◌, ◌<◌, ◌≡◌, refl, ap, sym, ◌∙◌, arith,
}
use smolokellner.Base.{
  Option, none, some, Bool, true, false, List, [], ◌∷◌, ◌==◌, if◌then◌else◌, ne→==,
}
use smolokellner.Base.Bits.{pow-add}
use smolokellner.Nanopb.DecodeStruct.{allbits, last_word, whole_words, required_present}
use native.Mathlib.Nat.{div-eq_of_lt-le, one-le-pow, suc-mul}
use native.Mathlib.Numerals.{add-one}

shifted_ones : (a n m : ℕ) → 0 < n → suc a * n ≡ suc m → m / n ≡ a
shifted_ones a n m pos h =
    div-eq_of_lt-le n (omega (arith, suc-mul a n)) (rw (add-one a) (omega (arith, suc-mul a n)))

-- `allbits >> (32 - k)` has the lowest `k` bits.
low_bits : (k : ℕ) → k ≤ 32 → allbits / 2 ^ (32 - k) ≡ 2 ^ k - 1
low_bits k h =
    shifted_ones (2 ^ k - 1) (2 ^ (32 - k)) allbits (one-le-pow (32 - k) 2 (omega arith)) (
      ap (λ (x : ℕ). x * 2 ^ (32 - k)) positive
      ∙ sym (pow-add k (32 - k))
      ∙ ap (λ (x : ℕ). 2 ^ x) whole)
  where
    positive : suc (2 ^ k - 1) ≡ 2 ^ k
    positive = omega (arith, one-le-pow k 2 (omega arith))

    whole : k + (32 - k) ≡ 32
    whole = omega arith

-- The test by the number of whole words and of bits behind them.
abbrev by_words : List ℕ → ℕ → ℕ → Option Bool
by_words seen words bits = elim (whole_words seen words) [
  | none ↦ none
  | some false ↦ some false
  | some true ↦ last_word (get_elem? seen words) bits
]

required_present-by_words :
    (seen : List ℕ) (count words bits : ℕ)
    → 0 < count
    → count / 32 ≡ words
    → count % 32 ≡ bits
    → required_present seen count ≡ by_words seen words bits
unfolding required_present
required_present-by_words seen count words bits pos hw hb =
    rw (ne→== count 0 (λ e. omega arith)) (ap₂ (by_words seen) hw hb)

last_bits : (word k : ℕ) → 0 < k → k < 32 → last_word (some word) k ≡ some (word == 2 ^ k - 1)
unfolding last_word
last_bits word k pos small = rw (ne→== k 0 (λ e. omega arith), low_bits k (omega arith)) refl

-- With 1 to 31 required fields the test holds exactly when the first word of `fields_seen` has the
-- bits of these fields set and no other bit; with 33 to 63, exactly when the first word has all its
-- bits set and the second those of the further fields and no other bit.
pub required_present_lem :
    (first second k : ℕ)
    → 0 < k
    → k < 32
    → (required_present (first ∷ second ∷ []) k ≡ some (first == 2 ^ k - 1))
      × (required_present (first ∷ second ∷ []) (32 + k)
          ≡ some (if first == 2 ^ 32 - 1 then second == 2 ^ k - 1 else false))
unfolding whole_words
required_present_lem first second k pos small = (
  required_present-by_words (first ∷ second ∷ []) k 0 k pos (omega arith) (omega arith)
      ∙ last_bits first k pos small,
  required_present-by_words (first ∷ second ∷ []) (32 + k) 1 k (omega arith) (omega arith)
        (omega arith)
      ∙ two_words (first == allbits) refl,
)
  where
    two_words :
        (set : Bool)
        → set ≡ (first == allbits)
        → by_words (first ∷ second ∷ []) 1 k ≡ some (if set then second == 2 ^ k - 1 else false)
    two_words true h = rw (by_words, ← h) (last_bits second k pos small)
    two_words false h = rw (by_words, ← h) refl

-- With 32 required fields, or with 64, the test is undefined in C as soon as the bits of all of
-- them are set, and else returns false: it shifts by 32, or reads behind `fields_seen`.
pub required_present_undefined :
    (first second : ℕ)
    → (required_present (first ∷ second ∷ []) 32
        ≡ (if first == 2 ^ 32 - 1 then none else some false))
      × (required_present (first ∷ second ∷ []) 64 ≡ (
          if first == 2 ^ 32 - 1
          then if second == 2 ^ 32 - 1 then none else some false
          else some false))
unfolding required_present whole_words last_word
required_present_undefined first second = (ground arith, ground arith)
