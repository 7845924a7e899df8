-- ===== src/Base64/Chars.antt =====
-- The characters of the alphabet: each is found at its place, and none is a blank or the pad.
use smolokellner.Base.{ℕ, zero, suc, ◌+◌, ◌<◌, ◌≡◌, refl, sym, ap, ◌∙◌, arith}
use smolokellner.Base.{Bool, true, false, not, ◌&&◌, ◌==◌, some, List, [], ◌∷◌}
use smolokellner.Base.{get_elem?, get_some, eq→==}
use mathlib.Core.Option.{some-injective}
use smolokellner.Base64.{alphabet, char_of, pad64}
use smolokellner.Base64.Decode.{isspace, index_in}

-- Whether a test holds of every element.
unfoldable every : (ℕ → Bool) → List ℕ → Bool
every p [] = true
every p (x ∷ xs) = p x && every p xs

unfoldable all_different : List ℕ → Bool
all_different [] = true
all_different (x ∷ xs) = every (λ y. not (x == y)) xs && all_different xs

and_left : (a b : Bool) → (a && b) ≡ true → a ≡ true
and_left true b h = refl
and_left false b h = cc

and_right : (a b : Bool) → (a && b) ≡ true → b ≡ true
and_right true b h = h
and_right false b h = cc

flipped : (a : Bool) → not a ≡ true → a ≡ false
flipped true h = cc
flipped false h = refl

every-get :
    (p : ℕ → Bool) (xs : List ℕ) (i c : ℕ)
    → every p xs ≡ true
    → get_elem? xs i ≡ some c
    → p c ≡ true
unfolding every
every-get p [] i c h at = cc
every-get p (x ∷ xs) zero c h at =
    ap p (sym (some-injective x c at)) ∙ and_left (p x) (every p xs) h
every-get p (x ∷ xs) (suc i) c h at = every-get p xs i c (and_right (p x) (every p xs) h) at

index_in-get :
    (xs : List ℕ) (i k c : ℕ)
    → all_different xs ≡ true
    → get_elem? xs i ≡ some c
    → index_in xs c k ≡ some (k + i)
unfolding index_in all_different
index_in-get [] i k c h at = cc
index_in-get (x ∷ xs) zero k c h at = rw (eq→== x c (some-injective x c at)) (ap some (omega arith))
index_in-get (x ∷ xs) (suc i) k c h at = rw (other) (
    index_in-get xs i (suc k) c (and_right (every (λ y. not (x == y)) xs) (all_different xs) h) at
    ∙ ap some moved)
  where
    other : (x == c) ≡ false
    other = flipped (x == c) (
        every-get (λ y. not (x == y)) xs i c
          (and_left (every (λ y. not (x == y)) xs) (all_different xs) h) at)

    moved : suc k + i ≡ k + suc i
    moved = omega arith

alphabet_different : all_different alphabet ≡ true
unfolding all_different every
alphabet_different = refl

no_blank : every (λ c. not (isspace c)) alphabet ≡ true
unfolding every
no_blank = refl

no_pad : every (λ c. not (c == pad64)) alphabet ≡ true
unfolding every
no_pad = refl

char_at : (v : ℕ) → v < 64 → get_elem? alphabet v ≡ some (char_of v)
unfolding char_of
char_at v small = let (c, at) = get_some alphabet v small in rw (at) refl

pub char_of-index : (v : ℕ) → v < 64 → index_in alphabet (char_of v) 0 ≡ some v
char_of-index v small =
    index_in-get alphabet v 0 (char_of v) alphabet_different (char_at v small)
    ∙ ap some (omega arith)

pub char_of-isspace : (v : ℕ) → v < 64 → isspace (char_of v) ≡ false
char_of-isspace v small =
    flipped (isspace (char_of v))
      (every-get (λ c. not (isspace c)) alphabet v (char_of v) no_blank (char_at v small))

pub char_of-pad64 : (v : ℕ) → v < 64 → (char_of v == pad64) ≡ false
char_of-pad64 v small =
    flipped (char_of v == pad64)
      (every-get (λ c. not (c == pad64)) alphabet v (char_of v) no_pad (char_at v small))
