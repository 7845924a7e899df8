-- ===== src/Base64/Rfc.antt =====
-- What `f_b64_ntop` writes, beside the characters of RFC 4648 told by ranges and by the number of
-- each group of three bytes.
use smolokellner.Base.{
  ℕ, zero, suc, ◌+◌, ◌-◌, ◌*◌, ◌/◌, ◌%◌, ◌^◌, ◌≤◌, ◌<◌, ◌≡◌, refl, sym, ap, ap₂, subst, ◌∙◌, arith,
}
use smolokellner.Base.{Bool, true, false, ◌&&◌, ◌==◌, if◌then◌else◌, ltb, All, inl, inr, le-or_lt}
use smolokellner.Base.{pos, List, [], ◌∷◌, ◌++◌, some, length, drop}
use smolokellner.Base.Bits.{bit_and_ones}
use smolokellner.Nanopb.Status.{ok}
use smolokellner.Base64.{char_of}
use smolokellner.Base64.Encode.{sextet0, sextet1, sextet2, sextet3, f_b64_ntop}
use smolokellner.Base64.Text.{text, f_b64_ntop-text}

-- The capital letters, the small ones, the digits, "+" and "/".
unfoldable pub letter : ℕ → ℕ
letter v =
    if ltb v 26
    then v + 65
    else if ltb v 52
    then v + 71
    else if ltb v 62
    then v - 4
    else if v == 62
    then 43
    else 47

-- Three bytes are a number of 24 bits, whose four digits to the base 64 are four characters; of one
-- or two bytes at the end, filled up with zeros, only the first two or three, and "=" behind them.
unfoldable pub characters : List ℕ → List ℕ
characters [] = []
characters (a ∷ []) =
    let n = a * 2 ^ 16 in letter (n / 2 ^ 18) ∷ letter (n / 2 ^ 12 % 64) ∷ 61 ∷ 61 ∷ []
characters (a ∷ b ∷ []) =
    let n = a * 2 ^ 16 + b * 2 ^ 8 in
    letter (n / 2 ^ 18) ∷ letter (n / 2 ^ 12 % 64) ∷ letter (n / 2 ^ 6 % 64) ∷ 61 ∷ []
characters (a ∷ b ∷ c ∷ src) =
    let n = a * 2 ^ 16 + b * 2 ^ 8 + c in
    letter (n / 2 ^ 18)
    ∷ letter (n / 2 ^ 12 % 64)
    ∷ letter (n / 2 ^ 6 % 64)
    ∷ letter (n % 64)
    ∷ characters src

-- The numbers below a bound that pass a test.
unfoldable below : (ℕ → Bool) → ℕ → Bool
below p zero = true
below p (suc n) = p n && below p n

below-lt : (p : ℕ → Bool) (n v : ℕ) → v < n → below p n ≡ true → p v ≡ true
unfolding below
below-lt p zero v h all = absurd (omega arith)
below-lt p (suc n) v h all = elim (le-or_lt n v) [
  | inl top ↦ ap p {x = v} {y = n} (omega arith) ∙ first (p n) (below p n) all
  | inr low ↦ below-lt p n v low (second (p n) (below p n) all)
]
  where
    first : (x y : Bool) → (x && y) ≡ true → x ≡ true
    first true y h = refl
    first false y h = cc

    second : (x y : Bool) → (x && y) ≡ true → y ≡ true
    second true y h = h
    second false y h = cc

same_letters : below (λ v. char_of v == letter v) 64 ≡ true
unfolding below char_of letter
same_letters = refl

char_of-letter : (v w : ℕ) → v < 64 → v ≡ w → char_of v ≡ letter w
char_of-letter v w h e = equal (char_of v) (letter v) same ∙ ap letter e
  where
    same : (char_of v == letter v) ≡ true
    same = below-lt (λ v. char_of v == letter v) 64 v h same_letters

    equal : (x y : ℕ) → (x == y) ≡ true → x ≡ y
    equal x y h = ground arith

-- The characters of three bytes, whose number is `n`.
module _ (a b c n : ℕ) (is : n ≡ a * 2 ^ 16 + b * 2 ^ 8 + c) (ha : a < 256) (hb : b < 256)
    (hc : c < 256) where
  digit0 : char_of (sextet0 a) ≡ letter (n / 2 ^ 18)
  digit0 = char_of-letter (sextet0 a) _ (omega arith) (omega arith)

  digit1 : char_of (sextet1 a b) ≡ letter (n / 2 ^ 12 % 64)
  digit1 =
      char_of-letter (sextet1 a b) _ (omega (arith, bit_and_ones 2 a))
        (omega (arith, bit_and_ones 2 a))

  digit2 : char_of (sextet2 b c) ≡ letter (n / 2 ^ 6 % 64)
  digit2 =
      char_of-letter (sextet2 b c) _ (omega (arith, bit_and_ones 4 b))
        (omega (arith, bit_and_ones 4 b))

  digit3 : char_of (sextet3 c) ≡ letter (n % 64)
  digit3 =
      char_of-letter (sextet3 c) _ (omega (arith, bit_and_ones 6 c))
        (omega (arith, bit_and_ones 6 c))

text-characters : (src : List ℕ) → All (λ b. b < 256) src → text src ≡ characters src
unfolding text characters
text-characters [] h = refl
text-characters (a ∷ []) (ha, _) =
    ap₂ (λ w x. w ∷ x ∷ 61 ∷ 61 ∷ [])
      (digit0 a 0 0 (a * 2 ^ 16) (omega arith) ha (omega arith) (omega arith))
      (digit1 a 0 0 (a * 2 ^ 16) (omega arith) ha (omega arith) (omega arith))
text-characters (a ∷ b ∷ []) (ha, (hb, _)) =
    let n = a * 2 ^ 16 + b * 2 ^ 8 in
    let is : n ≡ a * 2 ^ 16 + b * 2 ^ 8 + 0 = omega arith in
    ap₂ (λ w rest. w ∷ rest) (digit0 a b 0 n is ha hb (omega arith))
      (ap₂ (λ x y. x ∷ y ∷ 61 ∷ []) (digit1 a b 0 n is ha hb (omega arith))
        (digit2 a b 0 n is ha hb (omega arith)))
text-characters (a ∷ b ∷ c ∷ src) (ha, (hb, (hc, h))) =
    let n = a * 2 ^ 16 + b * 2 ^ 8 + c in
    ap₂ (λ w rest. w ∷ rest) (digit0 a b c n refl ha hb hc)
      (ap₂ (λ x rest. x ∷ rest) (digit1 a b c n refl ha hb hc)
        (ap₂ (λ y rest. y ∷ rest) (digit2 a b c n refl ha hb hc)
          (ap₂ (λ z rest. z ∷ rest) (digit3 a b c n refl ha hb hc) (text-characters src h))))

-- Where the characters of RFC 4648 for a sequence of bytes, their padding and a NUL fit into the
-- size that the caller gives, which is below 2 ^ 31 and no more than the array has, `f_b64_ntop`
-- returns the number of these characters and leaves them at the start of the array, behind them a
-- NUL, and all other bytes as they were.
pub f_b64_ntop_lem :
    (src target : List ℕ) (targsize : ℕ)
    → All (λ b. b < 256) src
    → length (characters src) < targsize
    → targsize ≤ length target
    → targsize < 2 ^ 31
    → f_b64_ntop src targsize (some target)
      ≡ ok
          (pos (length (characters src)))
          (some (characters src ++ 0 ∷ drop (suc (length (characters src))) target))
f_b64_ntop_lem src target targsize bytes fits room small =
    let same = text-characters src bytes in
    f_b64_ntop-text src target targsize (subst (λ t. length t < targsize) (sym same) fits) room
      small
    ∙ ap (λ t. ok (pos (length t)) (some (t ++ 0 ∷ drop (suc (length t)) target))) same
