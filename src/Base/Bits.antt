-- ===== src/Base/Bits.antt =====
-- `&` with a mask of low bits and `|` of values whose bits are apart, as arithmetic. The native
-- operations compute at numerals only, so the laws come from the digits that they stand for.
use Prim.Native.Nat.{ℕ, zero, suc, ◌+◌, ◌-◌, ◌*◌, ◌/◌, ◌%◌, ◌^◌, ◌≤◌, ◌<◌, min, max}
use Prim.Native.Nat.{bit_and, bit_or, digits, bit_and-bitwise, bit_or-bitwise}
use mathlib.Core.Path.{◌≡◌, refl, sym, ap, ◌∙◌}
use native.Mathlib.Nat.{pow-suc, one-le-pow, mul-add-mod_self_right, mod-eq_of_lt, mod-lt}
use native.Mathlib.Nat.{div-add-mod', div-div-eq-div-mul, div-one}
use Prim.Native.Nat.add
use native.Mathlib.Omega.{arith}

-- More fuel than the first number changes nothing.
module _ (z : ℕ → ℕ) (f : ℕ → ℕ → ℕ) where
  pub digits_enough :
      (fuel more a b : ℕ) → a ≤ fuel → fuel ≤ more → digits z f more a b ≡ digits z f fuel a b
  digits_enough zero zero zero b p q = refl
  digits_enough zero (suc more) zero b p q = refl
  digits_enough zero more (suc a) b p q = absurd (omega arith)
  digits_enough (suc fuel) zero a b p q = absurd (omega arith)
  digits_enough (suc fuel) (suc more) zero b p q = refl
  digits_enough (suc fuel) (suc more) (suc a) b p q =
      ap (λ (t : ℕ). t * 2 + f (suc a % 2) (b % 2))
        (digits_enough fuel more (suc a / 2) (b / 2) (omega arith) (omega arith))

pub bit_and_lowest : (a b : ℕ) → bit_and a b ≡ bit_and (a / 2) (b / 2) * 2 + min (a % 2) (b % 2)
bit_and_lowest zero b = omega (arith, bit_and-bitwise 0 b, bit_and-bitwise 0 (b / 2))
bit_and_lowest (suc a) b = omega (
  arith,
  bit_and-bitwise (suc a) b,
  bit_and-bitwise (suc a / 2) (b / 2),
  digits_enough (λ y. zero) min (suc a / 2) a (suc a / 2) (b / 2) (omega arith) (omega arith),
)

pub bit_or_lowest : (a b : ℕ) → bit_or a b ≡ bit_or (a / 2) (b / 2) * 2 + max (a % 2) (b % 2)
bit_or_lowest zero b = omega (arith, bit_or-bitwise 0 b, bit_or-bitwise 0 (b / 2))
bit_or_lowest (suc a) b = omega (
  arith,
  bit_or-bitwise (suc a) b,
  bit_or-bitwise (suc a / 2) (b / 2),
  digits_enough (λ y. y) max (suc a / 2) a (suc a / 2) (b / 2) (omega arith) (omega arith),
)

zero-bit_or : (b : ℕ) → bit_or 0 b ≡ b
zero-bit_or b = bit_or-bitwise 0 b

twice : (q k : ℕ) → q * 2 ^ suc k ≡ 2 * (q * 2 ^ k)
twice q k = omega (arith, ap (λ (t : ℕ). q * t) (pow-suc 2 k))

-- A value of `k` bits joined to one that is shifted above it.
pub bit_or_above : (k r q : ℕ) → r < 2 ^ k → bit_or r (q * 2 ^ k) ≡ r + q * 2 ^ k
bit_or_above zero zero q fits = omega (arith, zero-bit_or (q * 2 ^ 0))
bit_or_above zero (suc r) q fits = absurd (omega arith)
bit_or_above (suc k) r q fits = omega (
  arith,
  bit_or_lowest r (q * 2 ^ suc k),
  twice q k,
  ap (λ (t : ℕ). bit_or (r / 2) t) half,
  bit_or_above k (r / 2) q (omega (arith, pow-suc 2 k)),
)
  where
    half : q * 2 ^ suc k / 2 ≡ q * 2 ^ k
    half = omega (arith, twice q k)

bit_and-zero_below : (n a : ℕ) → a ≤ n → bit_and a 0 ≡ 0
bit_and-zero_below zero zero h = refl
bit_and-zero_below zero (suc a) h = absurd (omega arith)
bit_and-zero_below (suc n) a h =
    omega (arith, bit_and_lowest a 0, bit_and-zero_below n (a / 2) (omega arith))

-- A quotient and a remainder below the divisor are told by their sum.
pub rem_unique : (q m r : ℕ) → r < m → (q * m + r) % m ≡ r
rem_unique q m r h = mul-add-mod_self_right q m r ∙ mod-eq_of_lt h

mod_double : (m a : ℕ) → 0 < m → a % (2 * m) ≡ 2 * (a / 2 % m) + a % 2
mod_double m a h =
    ap (λ (t : ℕ). t % (2 * m)) parts
    ∙ rem_unique (a / 2 / m) (2 * m) (2 * (a / 2 % m) + a % 2) small
  where
    small : 2 * (a / 2 % m) + a % 2 < 2 * m
    small = omega (arith, mod-lt (a / 2) h)

    parts : a ≡ a / 2 / m * (2 * m) + (2 * (a / 2 % m) + a % 2)
    parts = omega (arith, div-add-mod' (a / 2) m)

-- A mask of `k` ones keeps the remainder by `2 ^ k`.
pub bit_and_ones : (k a : ℕ) → bit_and a (2 ^ k - 1) ≡ a % 2 ^ k
bit_and_ones zero a = omega (arith, bit_and-zero_below a a (omega arith))
bit_and_ones (suc k) a = omega (
  arith,
  bit_and_lowest a (2 ^ suc k - 1),
  ap (λ (t : ℕ). bit_and (a / 2) t) half,
  one-le-pow k 2 (omega arith),
  pow-suc 2 k,
  bit_and_ones k (a / 2),
  mod_double (2 ^ k) a (one-le-pow k 2 (omega arith)),
  ap (λ (t : ℕ). a % t) doubled,
)
  where
    doubled : 2 ^ suc k ≡ 2 * 2 ^ k
    doubled = omega (arith, pow-suc 2 k)

    half : (2 ^ suc k - 1) / 2 ≡ 2 ^ k - 1
    half = omega (arith, pow-suc 2 k, one-le-pow k 2 (omega arith))

-- The mask of the single bit `k`.
pub bit_and_single : (k a : ℕ) → bit_and a (2 ^ k) ≡ a / 2 ^ k % 2 * 2 ^ k
bit_and_single zero a = omega (arith, bit_and_ones 1 a, div-one a)
bit_and_single (suc k) a = omega (
  arith,
  bit_and_lowest a (2 ^ suc k),
  ap (λ (t : ℕ). bit_and (a / 2) t) half,
  bit_and_single k (a / 2),
  ap (λ (t : ℕ). a / t % 2 * 2 ^ suc k) doubled,
  ap (λ (t : ℕ). t % 2 * 2 ^ suc k) (div-div-eq-div-mul a 2 (2 ^ k)),
  twice (a / 2 / 2 ^ k % 2) k,
  pow-suc 2 k,
)
  where
    doubled : 2 ^ suc k ≡ 2 * 2 ^ k
    doubled = omega (arith, pow-suc 2 k)

    half : 2 ^ suc k / 2 ≡ 2 ^ k
    half = omega (arith, pow-suc 2 k)

pub pow-add : (t s : ℕ) → 2 ^ (t + s) ≡ 2 ^ t * 2 ^ s
pow-add zero s = rw (add.zero s) (omega arith)
pow-add (suc t) s =
    rw (add.suc t s)
      (omega (arith, pow-suc 2 (t + s), pow-add t s, ap (λ (x : ℕ). x * 2 ^ s) (pow-suc 2 t)))

-- The low part of a number whose lowest digit is split off, to the base `m`.
pub cut_high : (n m g acc : ℕ) → 0 < n → acc < m → (acc + g * m) % (n * m) ≡ acc + g % n * m
cut_high n m g acc pos fits =
    ap (λ (t : ℕ). t % (n * m)) parts ∙ rem_unique (g / n) (n * m) (acc + g % n * m) below
  where
    parts : acc + g * m ≡ g / n * (n * m) + (acc + g % n * m)
    parts = omega (arith, ap (λ (t : ℕ). t * m) (div-add-mod' g n))

    below : acc + g % n * m < n * m
    below = grind (arith, mod-lt g pos)

-- `acc |= g << s` in `t + s` bits, where `acc` has used the bits below `s`.
pub or_shifted :
    (t s g acc : ℕ)
    → acc < 2 ^ s
    → bit_or acc (g * 2 ^ s % 2 ^ (t + s)) ≡ (acc + g * 2 ^ s) % 2 ^ (t + s)
or_shifted t s g acc fits = rw (pow-add t s) (
    ap (bit_or acc) shifted
    ∙ bit_or_above s acc (g % 2 ^ t) fits
    ∙ sym (cut_high (2 ^ t) (2 ^ s) g acc (one-le-pow t 2 (omega arith)) fits))
  where
    shifted : g * 2 ^ s % (2 ^ t * 2 ^ s) ≡ g % 2 ^ t * 2 ^ s
    shifted =
        sym (ap (λ (x : ℕ). x % (2 ^ t * 2 ^ s)) (add.zero (g * 2 ^ s)))
        ∙ cut_high (2 ^ t) (2 ^ s) g 0 (one-le-pow t 2 (omega arith)) (one-le-pow s 2 (omega arith))
        ∙ add.zero (g % 2 ^ t * 2 ^ s)

bit_or_comm_below : (n a b : ℕ) → a ≤ n → b ≤ n → bit_or a b ≡ bit_or b a
bit_or_comm_below zero zero zero p q = refl
bit_or_comm_below zero zero (suc b) p q = absurd (omega arith)
bit_or_comm_below zero (suc a) b p q = absurd (omega arith)
bit_or_comm_below (suc n) a b p q = omega (
  arith,
  bit_or_lowest a b,
  bit_or_lowest b a,
  bit_or_comm_below n (a / 2) (b / 2) (omega arith) (omega arith),
)

pub bit_or_comm : (a b : ℕ) → bit_or a b ≡ bit_or b a
bit_or_comm a b = bit_or_comm_below (a + b) a b (omega arith) (omega arith)
