-- ===== src/Base64/Steps.antt =====
-- The steps of `f_b64_pton` on characters of the alphabet, and the bytes that they put together.
use smolokellner.Base.{ℕ, suc, ◌+◌, ◌*◌, ◌/◌, ◌%◌, ◌^◌, ◌<◌, ◌≡◌, refl, ap, subst, arith}
use smolokellner.Base.{List, [], ◌∷◌, ◌++◌, some, length, false, leb, bit_and, bit_or}
use smolokellner.Base.{get-behind, set-behind}
use smolokellner.Base.Bits.{bit_and_ones, bit_or_above, bit_or_comm}
use smolokellner.Nanopb.Status.{ok, ◌>>◌, ◌>>=◌}
use smolokellner.Base64.{Target, or_at, char_of}
use smolokellner.Base64.Encode.{sextet0, sextet1, sextet2, sextet3}
use smolokellner.Base64.Decode.{if_target, in_size, pton_step, pton_loop}
use smolokellner.Base64.Text.{store-append, further-append}
use smolokellner.Base64.Chars.{char_of-index, char_of-isspace, char_of-pad64}
use native.Mathlib.Nat.{mod-eq_of_lt}

or-append :
    (n : ℕ) (done : List ℕ) (x v : ℕ) (rest : List ℕ)
    → length done ≡ n
    → or_at n v (some (done ++ x ∷ rest)) ≡ ok tt (some (done ++ bit_or x v ∷ rest))
unfolding or_at
or-append n done x v rest h =
    subst (λ k. or_at k v (some (done ++ x ∷ rest)) ≡ ok tt (some (done ++ bit_or x v ∷ rest))) h
      (rw (or_at, get-behind done rest x)
        (ap (λ t. ok tt (some t)) (set-behind done rest x (bit_or x v))))

in_size_lem : (n targsize : ℕ) (t : Target) → n < targsize → in_size n targsize t ≡ ok tt t
unfolding in_size
in_size_lem n targsize t h = rw (small) refl
  where
    small : leb targsize n ≡ false
    small = ground arith

next_lem : (n targsize : ℕ) → suc n < targsize → targsize < 2 ^ 32 → (n + 1) % 2 ^ 32 ≡ n + 1
next_lem n targsize h small = mod-eq_of_lt below
  where
    below : n + 1 < 2 ^ 32
    below = omega arith

-- A character of the alphabet is handled by the switch.
loop_char :
    (v : ℕ) (src : List ℕ) (targsize state n : ℕ) (t : Target)
    → v < 64
    → pton_loop (char_of v ∷ src) targsize state n t
      ≡ (pton_step targsize v state n >>= λ (state', n'). pton_loop src targsize state' n') t
unfolding pton_loop
loop_char v src targsize state n t small =
    rw (char_of-isspace v small, char_of-pad64 v small, char_of-index v small) refl

pub loop0 :
    (v : ℕ) (src : List ℕ) (targsize n : ℕ) (done : List ℕ) (x : ℕ) (hole : List ℕ)
    → v < 64
    → length done ≡ n
    → n < targsize
    → pton_loop (char_of v ∷ src) targsize 0 n (some (done ++ x ∷ hole))
      ≡ pton_loop src targsize 1 n (some (done ++ v * 2 ^ 2 % 2 ^ 8 ∷ hole))
unfolding pton_step if_target
loop0 v src targsize n done x hole small h fits =
    rw (loop_char v src targsize 0 n (some (done ++ x ∷ hole)) small) (
      rw
        (
          ◌>>=◌,
          ◌>>◌,
          in_size_lem n targsize (some (done ++ x ∷ hole)) fits,
          store-append n done x (v * 2 ^ 2 % 2 ^ 8) hole h,
        )
        refl)

pub loop1 :
    (v : ℕ) (src : List ℕ) (targsize n : ℕ) (done : List ℕ) (x y : ℕ) (hole : List ℕ)
    → v < 64
    → length done ≡ n
    → suc n < targsize
    → targsize < 2 ^ 32
    → pton_loop (char_of v ∷ src) targsize 1 n (some (done ++ x ∷ y ∷ hole))
      ≡ pton_loop src targsize 2
          (n + 1)
          (some (done ++ bit_or x (v / 2 ^ 4) ∷ bit_and v 0x0f * 2 ^ 4 ∷ hole))
unfolding pton_step if_target
loop1 v src targsize n done x y hole small h fits size =
    rw (loop_char v src targsize 1 n (some (done ++ x ∷ y ∷ hole)) small) (
      rw (next_lem n targsize fits size) (
        rw
          (
            ◌>>=◌,
            ◌>>◌,
            in_size_lem (n + 1) targsize (some (done ++ x ∷ y ∷ hole)) (omega arith),
            or-append n done x (v / 2 ^ 4) (y ∷ hole) h,
            further-append n 1 done (bit_or x (v / 2 ^ 4) ∷ []) y (bit_and v 0x0f * 2 ^ 4) hole h
                refl,
          )
          refl))

pub loop2 :
    (v : ℕ) (src : List ℕ) (targsize n : ℕ) (done : List ℕ) (x y : ℕ) (hole : List ℕ)
    → v < 64
    → length done ≡ n
    → suc n < targsize
    → targsize < 2 ^ 32
    → pton_loop (char_of v ∷ src) targsize 2 n (some (done ++ x ∷ y ∷ hole))
      ≡ pton_loop src targsize 3
          (n + 1)
          (some (done ++ bit_or x (v / 2 ^ 2) ∷ bit_and v 0x03 * 2 ^ 6 ∷ hole))
unfolding pton_step if_target
loop2 v src targsize n done x y hole small h fits size =
    rw (loop_char v src targsize 2 n (some (done ++ x ∷ y ∷ hole)) small) (
      rw (next_lem n targsize fits size) (
        rw
          (
            ◌>>=◌,
            ◌>>◌,
            in_size_lem (n + 1) targsize (some (done ++ x ∷ y ∷ hole)) (omega arith),
            or-append n done x (v / 2 ^ 2) (y ∷ hole) h,
            further-append n 1 done (bit_or x (v / 2 ^ 2) ∷ []) y (bit_and v 0x03 * 2 ^ 6) hole h
                refl,
          )
          refl))

pub loop3 :
    (v : ℕ) (src : List ℕ) (targsize n : ℕ) (done : List ℕ) (x : ℕ) (hole : List ℕ)
    → v < 64
    → length done ≡ n
    → suc n < targsize
    → targsize < 2 ^ 32
    → pton_loop (char_of v ∷ src) targsize 3 n (some (done ++ x ∷ hole))
      ≡ pton_loop src targsize 0 (n + 1) (some (done ++ bit_or x v ∷ hole))
unfolding pton_step if_target
loop3 v src targsize n done x hole small h fits size =
    rw (loop_char v src targsize 3 n (some (done ++ x ∷ hole)) small) (
      rw (next_lem n targsize fits size) (
        rw
          (
            ◌>>=◌,
            ◌>>◌,
            in_size_lem n targsize (some (done ++ x ∷ hole)) (omega arith),
            or-append n done x v hole h,
          )
          refl))

or_parts : (k q r : ℕ) → r < 2 ^ k → bit_or (q * 2 ^ k) r ≡ q * 2 ^ k + r
or_parts k q r h = omega (arith, bit_or_comm (q * 2 ^ k) r, bit_or_above k r q h)

-- The sextets as quotients and remainders.
pub sextet1_lem : (a b : ℕ) → b < 256 → sextet1 a b ≡ a % 4 * 16 + b / 16
sextet1_lem a b h = omega (arith, bit_and_ones 2 a)

pub sextet2_lem : (b c : ℕ) → c < 256 → sextet2 b c ≡ b % 16 * 4 + c / 64
sextet2_lem b c h = omega (arith, bit_and_ones 4 b)

pub sextet3_lem : (c : ℕ) → sextet3 c ≡ c % 64
sextet3_lem c = omega (arith, bit_and_ones 6 c)

pub byte0 :
    (a b : ℕ) → a < 256 → b < 256 → bit_or (sextet0 a * 2 ^ 2 % 2 ^ 8) (sextet1 a b / 2 ^ 4) ≡ a
byte0 a b ha hb =
    rw (sextet1_lem a b hb, whole, part) (omega (arith, or_parts 2 (a / 4) (a % 4) (omega arith)))
  where
    whole : sextet0 a * 2 ^ 2 % 2 ^ 8 ≡ a / 4 * 2 ^ 2
    whole = omega arith

    part : (a % 4 * 16 + b / 16) / 2 ^ 4 ≡ a % 4
    part = omega arith

pub byte1 :
    (a b c : ℕ)
    → b < 256
    → c < 256
    → bit_or (bit_and (sextet1 a b) 0x0f * 2 ^ 4) (sextet2 b c / 2 ^ 2) ≡ b
byte1 a b c hb hc =
    rw (sextet1_lem a b hb, sextet2_lem b c hc, bit_and_ones 4 (a % 4 * 16 + b / 16), high, part)
      (omega (arith, or_parts 4 (b / 16) (b % 16) (omega arith)))
  where
    high : (a % 4 * 16 + b / 16) % 2 ^ 4 ≡ b / 16
    high = omega arith

    part : (b % 16 * 4 + c / 64) / 2 ^ 2 ≡ b % 16
    part = omega arith

pub byte2 : (b c : ℕ) → c < 256 → bit_or (bit_and (sextet2 b c) 0x03 * 2 ^ 6) (sextet3 c) ≡ c
byte2 b c hc =
    rw (sextet2_lem b c hc, sextet3_lem c, bit_and_ones 2 (b % 16 * 4 + c / 64), high)
      (omega (arith, or_parts 6 (c / 64) (c % 64) (omega arith)))
  where
    high : (b % 16 * 4 + c / 64) % 2 ^ 2 ≡ c / 64
    high = omega arith
