-- ===== src/Base64/Bounds.antt =====
-- `f_b64_pton` on any string: what it reads and writes of the target buffer.
use smolokellner.Base.{
  ℕ, zero, suc, ◌+◌, ◌%◌, ◌^◌, ◌<◌, ◌≤◌, ◌≡◌, refl, ap, sym, subst, ◌∙◌, arith, Bool-cases, ◌⊎◌,
  inl, inr,
}
use smolokellner.Base.{ℤ, pos, List, [], ◌∷◌, none, some, length, set, get_some, leb, ltb}
use smolokellner.Base.{true, false, bit_or, if◌then◌else◌, ◌==◌, bit_and, ◌*◌, ◌/◌}
use smolokellner.Nanopb.Status.{Action, Outcome, ok, fail, fault, ◌>>=◌, ◌>>◌, return}
use smolokellner.Base64.{Target, store_at, or_at, pad64, alphabet, as_int, as_int_lem}
use smolokellner.Base64.Decode.{if_target, in_size, pton_step, pton_loop, pton_pads, single_pad}
use smolokellner.Base64.Decode.{slop_checked, all_blank, skip_blank, index_in, isspace, f_b64_pton}

-- The call neither faults nor changes the length of the buffer, and returns -1 or at most `most`.
unfoldable pub IsCounted : ℕ → ℕ → Outcome Target ℕ → Type 0
IsCounted len most (ok n (some ys)) = (length ys ≡ len) × (n ≤ most)
IsCounted len most (fail (some ys)) = length ys ≡ len
IsCounted len most _ = ⊥

-- The byte at `tarindex` was written, unless the state is 0.
abbrev IsBegun : ℕ → ℕ → ℕ → Type 0
IsBegun targsize zero n = n ≤ targsize
IsBegun targsize (suc state) n = n < targsize

begun_within : (targsize state n : ℕ) → IsBegun targsize state n → n ≤ targsize
begun_within targsize zero n h = h
begun_within targsize (suc state) n h = omega arith

within : (n targsize : ℕ) (t : Target) → leb targsize n ≡ false → in_size n targsize t ≡ ok tt t
unfolding in_size
within n targsize t h = rw (h) refl

beyond : (n targsize : ℕ) (t : Target) → leb targsize n ≡ true → in_size n targsize t ≡ fail t
unfolding in_size
beyond n targsize t h = rw (h) refl

length-set : (xs : List ℕ) (i a : ℕ) → length (set xs i a) ≡ length xs
length-set [] i a = refl
length-set (x ∷ xs) zero a = refl
length-set (x ∷ xs) (suc i) a = ap suc (length-set xs i a)

stores :
    (n v : ℕ) (xs : List ℕ) → n < length xs → store_at n v (some xs) ≡ ok tt (some (set xs n v))
unfolding store_at
stores n v xs h = rw (less) refl
  where
    less : ltb n (length xs) ≡ true
    less = ground arith

ors :
    (n v : ℕ) (xs : List ℕ)
    → n < length xs
    → (old : ℕ) × (or_at n v (some xs) ≡ ok tt (some (set xs n (bit_or old v))))
unfolding or_at
ors n v xs h = let (old, at) = get_some xs n h in (old, rw (or_at, at) refl)

last_state :
    (targsize value state n : ℕ)
    → pton_step targsize value (suc (suc (suc state))) n
      ≡ (if_target (in_size n targsize >> or_at n value) >> return (0, (n + 1) % 2 ^ 32))
unfolding pton_step
last_state targsize value state n = rw (no0) (rw (no1) (rw (no2) refl))
  where
    no0 : (suc (suc (suc state)) == 0) ≡ false
    no0 = ground arith

    no1 : (suc (suc (suc state)) == 1) ≡ false
    no1 = ground arith

    no2 : (suc (suc (suc state)) == 2) ≡ false
    no2 = ground arith

module _ (targsize len : ℕ) (room : targsize ≤ len) where
  -- What follows a step keeps the buffer when the step may have been any.
  abbrev Weiter : (ℕ × ℕ → Action Target ℕ) → Type 0
  Weiter k =
      (state n : ℕ) (ys : List ℕ)
      → length ys ≡ len
      → IsBegun targsize state n
      → IsCounted len targsize (k (state, n) (some ys))

  -- A guarded write fails, or writes into the buffer at an index below `targsize`.
  Writes : Action Target (Unit {0}) → List ℕ → ℕ → Type 0
  Writes m xs i =
      (m (some xs) ≡ fail (some xs))
      ⊎ ((ys : List ℕ) × (m (some xs) ≡ ok tt (some ys)) × (length ys ≡ len) × (i < targsize))

  new-Writes :
      (n v : ℕ) (xs : List ℕ) → length xs ≡ len → Writes (in_size n targsize >> store_at n v) xs n
  unfolding Writes
  new-Writes n v xs h = elim (Bool-cases (leb targsize n)) [
    | inl over ↦ inl (rw (◌>>◌, beyond n targsize (some xs) over) refl)
    | inr under ↦
        let lt : n < targsize = ground arith in
        inr (
          _,
          rw (◌>>◌, within n targsize (some xs) under, stores n v xs (omega arith)) refl,
          length-set xs n v ∙ h,
          lt,
        )
  ]

  both-Writes :
      (n m v w : ℕ) (xs : List ℕ)
      → length xs ≡ len
      → n < targsize
      → Writes (in_size m targsize >> or_at n v >> store_at m w) xs m
  unfolding Writes
  both-Writes n m v w xs h begun = elim (Bool-cases (leb targsize m)) [
    | inl over ↦ inl (rw (◌>>◌, beyond m targsize (some xs) over) refl)
    | inr under ↦
        let lt : m < targsize = ground arith in
        let (old, at) = ors n v xs (omega arith) in
        let same : length (set xs n (bit_or old v)) ≡ len = length-set xs n (bit_or old v) ∙ h in
        inr (
          _,
          rw
              (
                ◌>>◌,
                within m targsize (some xs) under,
                at,
                stores m w (set xs n (bit_or old v)) (omega arith),
              )
              refl,
          length-set (set xs n (bit_or old v)) m w ∙ same,
          lt,
        )
  ]

  last-Writes :
      (n v : ℕ) (xs : List ℕ) → length xs ≡ len → Writes (in_size n targsize >> or_at n v) xs n
  unfolding Writes
  last-Writes n v xs h = elim (Bool-cases (leb targsize n)) [
    | inl over ↦ inl (rw (◌>>◌, beyond n targsize (some xs) over) refl)
    | inr under ↦
        let lt : n < targsize = ground arith in
        let (old, at) = ors n v xs (omega arith) in
        inr (
          _,
          rw (◌>>◌, within n targsize (some xs) under, at) refl,
          length-set xs n (bit_or old v) ∙ h,
          lt,
        )
  ]

  step_of :
      (m : Action Target (Unit {0})) (i state n : ℕ) (xs : List ℕ)
      → (k : ℕ × ℕ → Action Target ℕ) → length xs ≡ len
      → Writes m xs i
      → (i < targsize → IsBegun targsize state n)
      → Weiter k
      → IsCounted len targsize (((if_target m >> return (state, n)) >>= k) (some xs))
  unfolding Writes if_target IsCounted
  step_of m i state n xs k h writes begun next = elim writes [
    | inl fails ↦ rw (◌>>=◌, ◌>>◌, fails) h
    | inr (ys, goes, same, lt) ↦ rw (◌>>=◌, ◌>>◌, goes) (next state n ys same (begun lt))
  ]

  step-IsCounted :
      (value state n : ℕ) (xs : List ℕ) (k : ℕ × ℕ → Action Target ℕ)
      → length xs ≡ len
      → IsBegun targsize state n
      → Weiter k
      → IsCounted len targsize ((pton_step targsize value state n >>= k) (some xs))
  unfolding pton_step
  step-IsCounted value zero n xs k h begun next =
      step_of (in_size n targsize >> store_at n (value * 2 ^ 2 % 2 ^ 8)) n 1 n xs k h
        (new-Writes n (value * 2 ^ 2 % 2 ^ 8) xs h) (λ lt. lt) next
  step-IsCounted value (suc zero) n xs k h begun next =
      step_of _ ((n + 1) % 2 ^ 32) 2 ((n + 1) % 2 ^ 32) xs k h
        (both-Writes n ((n + 1) % 2 ^ 32) (value / 2 ^ 4) (bit_and value 0x0f * 2 ^ 4) xs h begun)
        (λ lt. lt) next
  step-IsCounted value (suc (suc zero)) n xs k h begun next =
      step_of _ ((n + 1) % 2 ^ 32) 3 ((n + 1) % 2 ^ 32) xs k h
        (both-Writes n ((n + 1) % 2 ^ 32) (value / 2 ^ 2) (bit_and value 0x03 * 2 ^ 6) xs h begun)
        (λ lt. lt) next
  step-IsCounted value (suc (suc (suc state))) n xs k h begun next =
      rw (last_state targsize value state n) (
        step_of (in_size n targsize >> or_at n value) n 0 ((n + 1) % 2 ^ 32) xs k h
          (last-Writes n value xs h) (λ lt. omega arith) next)

  IsCounted-by :
      (o o' : Outcome Target ℕ) → o ≡ o' → IsCounted len targsize o' → IsCounted len targsize o
  IsCounted-by o o' e h = subst (IsCounted len targsize) (sym e) h

  fail-IsCounted : (xs : List ℕ) → length xs ≡ len → IsCounted len targsize (fail (some xs))
  unfolding IsCounted
  fail-IsCounted xs h = h

  ok-IsCounted :
      (n : ℕ) (xs : List ℕ)
      → length xs ≡ len
      → n ≤ targsize
      → IsCounted len targsize (ok n (some xs))
  unfolding IsCounted
  ok-IsCounted n xs h le = (h, le)

  slop-IsCounted :
      (n : ℕ) (xs : List ℕ)
      → length xs ≡ len
      → n < targsize
      → IsCounted len targsize (slop_checked n (some xs))
  unfolding slop_checked
  slop-IsCounted n xs h lt =
      let (old, at) = get_some xs n (omega arith) in
      elim (Bool-cases (old == 0)) [
        | inl zero_bits ↦
            IsCounted-by _ (ok n (some xs)) (rw (slop_checked, at) (rw (zero_bits) refl))
              (ok-IsCounted n xs h (omega arith))
        | inr bits ↦
            IsCounted-by _ (fail (some xs)) (rw (slop_checked, at) (rw (bits) refl))
              (fail-IsCounted xs h)
      ]

  single-IsCounted :
      (src : List ℕ) (n : ℕ) (xs : List ℕ)
      → length xs ≡ len
      → n < targsize
      → IsCounted len targsize (single_pad src n (some xs))
  unfolding single_pad
  single-IsCounted src n xs h lt = elim (Bool-cases (all_blank src)) [
    | inl blank ↦ rw (blank) (slop-IsCounted n xs h lt)
    | inr other ↦ rw (other) (fail-IsCounted xs h)
  ]

  second_pad :
      (src : List ℕ) (n : ℕ) (xs : List ℕ)
      → length xs ≡ len
      → n < targsize
      → IsCounted len targsize (pton_pads src 2 n (some xs))
  unfolding pton_pads
  second_pad src n xs h lt =
      elim (skip_blank src)
        as (λ cs. IsCounted len targsize (
          (elim cs as (λ x. Action Target ℕ) [
            | [] ↦ fail
            | ch ∷ rest ↦ if ch == pad64 then single_pad rest n else fail
          ])
            (some xs))) [
              | [] ↦ fail-IsCounted xs h
              | ch ∷ rest ↦ elim (Bool-cases (ch == pad64)) [
                | inl pad ↦ rw (pad) (single-IsCounted rest n xs h lt)
                | inr other ↦ rw (other) (fail-IsCounted xs h)
              ]
            ]

  pads-IsCounted :
      (src : List ℕ) (state n : ℕ) (xs : List ℕ)
      → length xs ≡ len
      → IsBegun targsize state n
      → IsCounted len targsize (pton_pads src state n (some xs))
  unfolding pton_pads
  pads-IsCounted src zero n xs h begun = fail-IsCounted xs h
  pads-IsCounted src (suc zero) n xs h begun = fail-IsCounted xs h
  pads-IsCounted src (suc (suc zero)) n xs h begun = second_pad src n xs h begun
  pads-IsCounted src (suc (suc (suc state))) n xs h begun =
      rw (many) (rw (no2) (single-IsCounted src n xs h begun))
    where
      many : leb (suc (suc (suc state))) 1 ≡ false
      many = ground arith

      no2 : (suc (suc (suc state)) == 2) ≡ false
      no2 = ground arith

  -- From any state that the loop can be in.
  loop-IsCounted :
      (src : List ℕ) (state n : ℕ) (xs : List ℕ)
      → length xs ≡ len
      → IsBegun targsize state n
      → IsCounted len targsize (pton_loop src targsize state n (some xs))
  unfolding pton_loop
  loop-IsCounted [] state n xs h begun = elim (Bool-cases (state == 0)) [
    | inl e ↦ rw (e) (ok-IsCounted n xs h (begun_within targsize state n begun))
    | inr e ↦ rw (e) (fail-IsCounted xs h)
  ]
  loop-IsCounted (ch ∷ src) state n xs h begun = elim (Bool-cases (isspace ch)) [
    | inl blank ↦ rw (blank) (loop-IsCounted src state n xs h begun)
    | inr other ↦ elim (Bool-cases (ch == pad64)) [
      | inl pad ↦ rw (other) (rw (pad) (pads-IsCounted src state n xs h begun))
      | inr char ↦ rw (other) (
          rw (char)
            (elim (index_in alphabet ch 0)
              as (λ found. IsCounted len targsize (
                (elim found as (λ x. Action Target ℕ) [
                  | none ↦ fail
                  | some value ↦ pton_step targsize value state n >>= λ (state', n').
                      pton_loop src targsize state' n'
                ])
                  (some xs))) [
                    | none ↦ fail-IsCounted xs h
                    | some value ↦
                        step-IsCounted value state n xs
                          (λ (state', n'). pton_loop src targsize state' n') h begun
                          (λ state' n' ys same goes. loop-IsCounted src state' n' ys same goes)
                  ]))
    ]
  ]

-- The call ends with -1 or with a number of bytes from 0 to `most`, in a buffer of length `len`.
unfoldable pub IsKept : ℕ → ℕ → Outcome Target ℤ → Type 0
IsKept len most (ok (pos n) (some ys)) = (length ys ≡ len) × (n ≤ most)
IsKept len most (fail (some ys)) = length ys ≡ len
IsKept len most _ = ⊥

returned :
    (len most : ℕ)
    → most < 2 ^ 31
    → (r : Outcome Target ℕ) → IsCounted len most r
    → IsKept len most (((λ t. r) >>= λ n. return (as_int n)) none)
unfolding IsCounted IsKept
returned len most small (ok n (some ys)) (same, le) =
    rw (◌>>=◌, as_int_lem n (omega arith)) (same, le)
returned len most small (ok n none) h = elim h [ ]
returned len most small (fail (some ys)) h = h
returned len most small (fail none) h = elim h [ ]
returned len most small fault h = elim h [ ]

-- On any string and any buffer that is no smaller than the caller says, a size below 2 ^ 31,
-- `f_b64_pton` touches nothing outside of the buffer, which keeps its length, and returns -1 or a
-- number of bytes that is at least 0 and at most the size that the caller gives.
pub f_b64_pton-IsKept :
    (src target : List ℕ) (targsize : ℕ)
    → targsize ≤ length target
    → targsize < 2 ^ 31
    → IsKept (length target) targsize (f_b64_pton src targsize (some target))
unfolding f_b64_pton
f_b64_pton-IsKept src target targsize room small =
    returned (length target) targsize small (pton_loop src targsize 0 0 (some target))
      (loop-IsCounted targsize (length target) room src 0 0 target refl (omega arith))
