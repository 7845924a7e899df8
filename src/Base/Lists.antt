-- ===== src/Base/Lists.antt =====
-- Sequences of bytes: lists measured, cut and joined by native numbers.
use Prim.Native.Nat.{ℕ, zero, suc, ◌+◌, ◌-◌, ◌<◌, ◌≤◌, min}
use mathlib.Core.Path.{◌≡◌, refl, ap, sym, subst, ◌∙◌}
use mathlib.Core.Logic.{◌≢◌}
use mathlib.Core.List.{List, [], ◌∷◌, ◌++◌}
use mathlib.Core.Option.{Option, none, some, some-injective}
use native.Mathlib.Omega.{arith}

module _ {ℓ} {A : Type ℓ} where
  abbrev pub length : List A → ℕ
  length [] = 0
  length (x ∷ xs) = suc (length xs)

  abbrev pub get_elem? : List A → ℕ → Option A
  get_elem? [] i = none
  get_elem? (x ∷ xs) zero = some x
  get_elem? (x ∷ xs) (suc i) = get_elem? xs i

  abbrev pub take : ℕ → List A → List A
  take zero xs = []
  take (suc n) [] = []
  take (suc n) (x ∷ xs) = x ∷ take n xs

  abbrev pub drop : ℕ → List A → List A
  drop zero xs = xs
  drop (suc n) [] = []
  drop (suc n) (x ∷ xs) = drop n xs

  abbrev pub set : List A → ℕ → A → List A
  set [] i v = []
  set (x ∷ xs) zero v = v ∷ xs
  set (x ∷ xs) (suc i) v = x ∷ set xs i v

  abbrev pub replicate : ℕ → A → List A
  replicate zero a = []
  replicate (suc n) a = a ∷ replicate n a

  abbrev pub All {κ} : (A → Type κ) → List A → Type κ
  All P [] = Unit {κ}
  All P (x ∷ xs) = P x × All P xs

  pub length-append : (xs ys : List A) → length (xs ++ ys) ≡ length xs + length ys
  length-append [] ys = omega arith
  length-append (x ∷ xs) ys = omega (arith, length-append xs ys)

  pub length-take : (n : ℕ) (xs : List A) → length (take n xs) ≡ min n (length xs)
  length-take zero xs = omega arith
  length-take (suc n) [] = omega arith
  length-take (suc n) (x ∷ xs) = omega (arith, length-take n xs)

  pub length-drop : (n : ℕ) (xs : List A) → length (drop n xs) ≡ length xs - n
  length-drop zero xs = omega arith
  length-drop (suc n) [] = omega arith
  length-drop (suc n) (x ∷ xs) = omega (arith, length-drop n xs)

  -- Cutting at the joint gives the two parts back.
  pub take-append : (xs ys : List A) → take (length xs) (xs ++ ys) ≡ xs
  take-append [] ys = refl
  take-append (x ∷ xs) ys = ap (λ t. x ∷ t) (take-append xs ys)

  pub take-length : (xs : List A) → take (length xs) xs ≡ xs
  take-length [] = refl
  take-length (x ∷ xs) = ap (λ t. x ∷ t) (take-length xs)

  pub drop-append : (xs ys : List A) → drop (length xs) (xs ++ ys) ≡ ys
  drop-append [] ys = refl
  drop-append (x ∷ xs) ys = drop-append xs ys

  pub All-append {κ} : (P : A → Type κ) (xs ys : List A) → All P xs → All P ys → All P (xs ++ ys)
  All-append P [] ys h k = k
  All-append P (x ∷ xs) ys h k = (h.0, All-append P xs ys h.1 k)

  drop_nil : (n : ℕ) → drop n [] ≡ []
  drop_nil zero = refl
  drop_nil (suc n) = refl

  pub drop-drop : (n m : ℕ) (xs : List A) → drop n (drop m xs) ≡ drop (m + n) xs
  drop-drop n zero xs = ap (λ k. drop k xs) (omega arith)
  drop-drop n (suc m) [] = drop_nil n ∙ sym (drop_nil (suc m + n))
  drop-drop n (suc m) (x ∷ xs) = drop-drop n m xs ∙ ap (λ k. drop k (x ∷ xs)) one_more
    where
      one_more : suc (m + n) ≡ suc m + n
      one_more = omega arith

  pub get_some : (xs : List A) (i : ℕ) → i < length xs → (a : A) × (get_elem? xs i ≡ some a)
  get_some [] i h = absurd (omega arith)
  get_some (x ∷ xs) zero h = (x, refl)
  get_some (x ∷ xs) (suc i) h = get_some xs i (omega arith)

  pub All-get_elem {κ} :
      (P : A → Type κ) (xs : List A) (i : ℕ) (a : A) → All P xs → get_elem? xs i ≡ some a → P a
  All-get_elem P [] i a h at = cc
  All-get_elem P (x ∷ xs) zero a h at = subst P (some-injective x a at) h.0
  All-get_elem P (x ∷ xs) (suc i) a h at = All-get_elem P xs i a h.1 at

  pub All-get {κ} :
      (P : A → Type κ) (xs : List A) → ((i : ℕ) (a : A) → get_elem? xs i ≡ some a → P a) → All P xs
  All-get P [] h = tt
  All-get P (x ∷ xs) h = (h 0 x refl, All-get P xs (λ i a at. h (suc i) a at))

  pub All-map {κ μ} :
      {P : A → Type κ} {Q : A → Type μ} (xs : List A) → ((x : A) → P x → Q x) → All P xs → All Q xs
  All-map [] f h = tt
  All-map (x ∷ xs) f h = (f x h.0, All-map xs f h.1)

  pub get_lt : (xs : List A) (i : ℕ) (a : A) → get_elem? xs i ≡ some a → i < length xs
  get_lt [] i a at = cc
  get_lt (x ∷ xs) zero a at = omega arith
  get_lt (x ∷ xs) (suc i) a at = omega (arith, get_lt xs i a at)

  pub length-replicate : (n : ℕ) (a : A) → length (replicate n a) ≡ n
  length-replicate zero a = refl
  length-replicate (suc n) a = ap suc (length-replicate n a)

  pub get-set :
      (xs : List A) (i : ℕ) (a b : A) → get_elem? xs i ≡ some a → get_elem? (set xs i b) i ≡ some b
  get-set [] i a b at = cc
  get-set (x ∷ xs) zero a b at = refl
  get-set (x ∷ xs) (suc i) a b at = get-set xs i a b at

  pub set-set : (xs : List A) (i : ℕ) (a b : A) → set (set xs i a) i b ≡ set xs i b
  set-set [] i a b = refl
  set-set (x ∷ xs) zero a b = refl
  set-set (x ∷ xs) (suc i) a b = ap (λ t. x ∷ t) (set-set xs i a b)

  pub set-get : (xs : List A) (i : ℕ) (a : A) → get_elem? xs i ≡ some a → set xs i a ≡ xs
  set-get [] i a at = refl
  set-get (x ∷ xs) zero a at = ap (λ y. y ∷ xs) (sym (some-injective x a at))
  set-get (x ∷ xs) (suc i) a at = ap (λ t. x ∷ t) (set-get xs i a at)

  -- What stands at an index, in front of which `before` stands.
  pub get-behind :
      (before xs : List A) (x : A) → get_elem? (before ++ x ∷ xs) (length before) ≡ some x
  get-behind [] xs x = refl
  get-behind (b ∷ before) xs x = get-behind before xs x

  pub set-behind :
      (before xs : List A) (x y : A) → set (before ++ x ∷ xs) (length before) y ≡ before ++ y ∷ xs
  set-behind [] xs x y = refl
  set-behind (b ∷ before) xs x y = ap (λ t. b ∷ t) (set-behind before xs x y)

abbrev pub map : {A B : Type 0} → (A → B) → List A → List B
map f [] = []
map f (x ∷ xs) = f x ∷ map f xs

pub map-append :
    {A B : Type 0} (f : A → B) (xs ys : List A) → map f (xs ++ ys) ≡ map f xs ++ map f ys
map-append f [] ys = refl
map-append f (x ∷ xs) ys = ap (λ zs. f x ∷ zs) (map-append f xs ys)

pub length-map : {A B : Type 0} (f : A → B) (xs : List A) → length (map f xs) ≡ length xs
length-map f [] = refl
length-map f (x ∷ xs) = ap suc (length-map f xs)

-- `get-behind` in an image.
pub get-row :
    {A B : Type 0} (f : A → B) (before : List A) (x : A) (xs : List A)
    → get_elem? (map f (before ++ x ∷ xs)) (length before) ≡ some (f x)
get-row f [] x xs = refl
get-row f (b ∷ before) x xs = get-row f before x xs

pub get-none : {A : Type 0} (xs : List A) (i : ℕ) → length xs ≤ i → get_elem? xs i ≡ none
get-none [] i h = refl
get-none (x ∷ xs) zero h = absurd (omega arith)
get-none (x ∷ xs) (suc i) h = get-none xs i (omega arith)

-- No entry twice.
abbrev pub IsUnique : {A : Type 0} → List A → Type 0
IsUnique [] = Unit
IsUnique (x ∷ xs) = All (λ y. x ≢ y) xs × IsUnique xs

pub All-behind :
    {A : Type 0} (P : A → Type 0) (xs : List A) (x : A) (ys : List A) → All P (xs ++ x ∷ ys) → P x
All-behind P [] x ys h = h.0
All-behind P (z ∷ xs) x ys h = All-behind P xs x ys h.1

-- What stands before an entry differs from it.
pub IsUnique-before :
    {A : Type 0} (xs : List A) (x : A) (ys : List A) → IsUnique (xs ++ x ∷ ys) → All (λ y. y ≢ x) xs
IsUnique-before [] x ys h = tt
IsUnique-before (z ∷ xs) x ys h = (All-behind (λ y. z ≢ y) xs x ys h.0, IsUnique-before xs x ys h.1)

pub get-map :
    {A B : Type 0} (f : A → B) (xs : List A) (i : ℕ) (a : A)
    → get_elem? xs i ≡ some a
    → get_elem? (map f xs) i ≡ some (f a)
get-map f [] i a at = cc
get-map f (x ∷ xs) zero a at = ap (λ y. some (f y)) (some-injective x a at)
get-map f (x ∷ xs) (suc i) a at = get-map f xs i a at
