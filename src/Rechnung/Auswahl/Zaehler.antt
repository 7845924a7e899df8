-- ===== src/Rechnung/Auswahl/Zaehler.antt =====
-- The counters of a bill: how much of each item is chosen.
use smolokellner.Base.{ℕ, zero, suc, ◌≤◌, ◌<◌, ◌≡◌, refl, ap, arith}
use smolokellner.Base.{
  some, List, [], ◌∷◌, ℤ, pos, negsuc, pos_part, neg_part, ltb_ℤ, suc_ℤ, pred_ℤ,
}
use smolokellner.Base.{get_elem?, set, length, if◌then◌else◌, true, false, Bool, All}
use mathlib.Core.Option.{some-injective}
use smolokellner.Rechnung.Daten.{◌>>=◌}
use smolokellner.Rechnung.Auswahl.{mehr, weniger}

-- A counter is a number from zero up to the quantity.
abbrev pub IsWithin : ℤ → ℤ → Type 0
IsWithin x m = (neg_part x ≡ 0) × (pos_part x ≤ pos_part m)

-- As many counters as quantities, each within its own.
unfoldable pub IsChosen : List ℤ → List ℤ → Type 0
IsChosen [] [] = Unit
IsChosen (x ∷ xs) (m ∷ ms) = IsWithin x m × IsChosen xs ms
IsChosen _ _ = ⊥

more-IsWithin : (x m : ℤ) → IsWithin x m → IsWithin (if ltb_ℤ x m then suc_ℤ x else x) m
more-IsWithin (pos n) (pos k) h = ground arith
more-IsWithin (pos n) (negsuc k) h = ground arith
more-IsWithin (negsuc n) m h = absurd (omega arith)

less-IsWithin : (x m : ℤ) → IsWithin x m → IsWithin (if ltb_ℤ (pos 0) x then pred_ℤ x else x) m
less-IsWithin (pos zero) m h = ground arith
less-IsWithin (pos (suc n)) m h = ground arith
less-IsWithin (negsuc n) m h = absurd (omega arith)

-- What stands in a row.
pub row-IsWithin :
    (bm menge : List ℤ) (row : ℕ)
    → IsChosen bm menge
    → row < length menge
    → (x m : ℤ) × (get_elem? bm row ≡ some x) × (get_elem? menge row ≡ some m) × IsWithin x m
unfolding IsChosen
row-IsWithin (x ∷ bm) (m ∷ menge) zero h lt = (x, m, refl, refl, h.0)
row-IsWithin (x ∷ bm) (m ∷ menge) (suc row) h lt = row-IsWithin bm menge row h.1 (omega arith)
row-IsWithin [] [] row h lt = absurd (omega arith)
row-IsWithin [] (m ∷ menge) row h lt = elim h [ ]
row-IsWithin (x ∷ bm) [] row h lt = elim h [ ]

set-IsChosen :
    (bm menge : List ℤ) (row : ℕ) (y m : ℤ)
    → IsChosen bm menge
    → get_elem? menge row ≡ some m
    → IsWithin y m
    → IsChosen (set bm row y) menge
unfolding IsChosen
set-IsChosen (x ∷ bm) (k ∷ menge) zero y m h same new = (rw (some-injective k m same) new, h.1)
set-IsChosen (x ∷ bm) (k ∷ menge) (suc row) y m h same new =
    (h.0, set-IsChosen bm menge row y m h.1 same new)
set-IsChosen [] [] row y m h same new = h
set-IsChosen [] (k ∷ menge) row y m h same new = elim h [ ]
set-IsChosen (x ∷ bm) [] row y m h same new = elim h [ ]

if_set :
    (b : Bool) (bm menge : List ℤ) (row : ℕ) (x y m : ℤ)
    → IsChosen bm menge
    → get_elem? menge row ≡ some m
    → IsWithin (if b then y else x) m
    → IsChosen (if b then set bm row y else bm) menge
if_set true bm menge row x y m h same new = set-IsChosen bm menge row y m h same new
if_set false bm menge row x y m h same new = h

-- A tap keeps the counters.
pub mehr-IsChosen :
    (bm menge : List ℤ) (row : ℕ)
    → IsChosen bm menge
    → row < length menge
    → (bm' : List ℤ) × (mehr bm menge row ≡ some bm') × IsChosen bm' menge
unfolding mehr
mehr-IsChosen bm menge row h lt =
    let (x, m, hx, hm, within) = row-IsWithin bm menge row h lt in
    (
      (if ltb_ℤ x m then set bm row (suc_ℤ x) else bm),
      rw (hx, ◌>>=◌) (rw (hm) refl),
      if_set (ltb_ℤ x m) bm menge row x (suc_ℤ x) m h hm (more-IsWithin x m within),
    )

pub weniger-IsChosen :
    (bm menge : List ℤ) (row : ℕ)
    → IsChosen bm menge
    → row < length menge
    → (bm' : List ℤ) × (weniger bm row ≡ some bm') × IsChosen bm' menge
unfolding weniger
weniger-IsChosen bm menge row h lt =
    let (x, m, hx, hm, within) = row-IsWithin bm menge row h lt in
    (
      (if ltb_ℤ (pos 0) x then set bm row (pred_ℤ x) else bm),
      rw (hx, ◌>>=◌) refl,
      if_set (ltb_ℤ (pos 0) x) bm menge row x (pred_ℤ x) m h hm (less-IsWithin x m within),
    )

pub length-IsChosen : (bm menge : List ℤ) → IsChosen bm menge → length bm ≡ length menge
unfolding IsChosen
length-IsChosen [] [] h = refl
length-IsChosen (x ∷ bm) (m ∷ menge) h = ap suc (length-IsChosen bm menge h.1)
length-IsChosen [] (m ∷ menge) h = elim h [ ]
length-IsChosen (x ∷ bm) [] h = elim h [ ]

-- Everything chosen, where no quantity is negative.
pub All-IsChosen : (menge : List ℤ) → All (λ m. neg_part m ≡ 0) menge → IsChosen menge menge
unfolding IsChosen
All-IsChosen [] h = tt
All-IsChosen (m ∷ menge) h = ((h.0, omega arith), All-IsChosen menge h.1)
