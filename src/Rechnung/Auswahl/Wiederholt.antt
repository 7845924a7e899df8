-- ===== src/Rechnung/Auswahl/Wiederholt.antt =====
-- Taps on one item, again and again.
use smolokellner.Base.{ℕ, zero, suc, ◌<◌, ◌≡◌, refl, ap, ◌∙◌, arith}
use smolokellner.Base.{Option, some, List, ℤ, pos, ltb_ℤ, true}
use smolokellner.Base.{get_elem?, set, get-set, set-set, set-get}
use smolokellner.Rechnung.Daten.{◌>>=◌}
use smolokellner.Rechnung.Auswahl.{mehr, weniger}

-- That many taps on an item of a bill.
unfoldable pub mehrmals : ℕ → List ℤ → List ℤ → ℕ → Option (List ℤ)
mehrmals zero bm menge row = some bm
mehrmals (suc n) bm menge row = mehr bm menge row >>= λ bm'. mehrmals n bm' menge row

below : (x m : ℕ) → x < m → ltb_ℤ (pos x) (pos m) ≡ true
below x m h = ground arith

mehr-below :
    (bm menge : List ℤ) (row x m : ℕ)
    → get_elem? bm row ≡ some (pos x)
    → get_elem? menge row ≡ some (pos m)
    → x < m
    → mehr bm menge row ≡ some (set bm row (pos (suc x)))
unfolding mehr
mehr-below bm menge row x m hx hm lt = rw (hx) (rw (hm) (rw (below x m lt) refl))

-- A tap on an item that is not chosen whole, and one on it among the chosen items, leave the
-- counters as they were.
pub weniger-mehr :
    (bm menge : List ℤ) (row x m : ℕ)
    → get_elem? bm row ≡ some (pos x)
    → get_elem? menge row ≡ some (pos m)
    → x < m
    → (mehr bm menge row >>= λ bm'. weniger bm' row) ≡ some bm
unfolding weniger
weniger-mehr bm menge row x m hx hm lt = rw (mehr-below bm menge row x m hx hm lt) (
    rw (get-set bm row (pos x) (pos (suc x)) hx) (
      rw (below 0 (suc x) (omega arith))
        (ap some (set-set bm row (pos (suc x)) (pos x) ∙ set-get bm row (pos x) hx))))
