-- ===== src/Rechnung/Auswahl/Aufklappen.antt =====
-- `toggleSection` of SMOLO+/Views/FertiggestelltVC.swift, for the table of the bills.
pub mod Gueltig
use smolokellner.Base.{
  ℕ, zero, suc, ◌+◌, ◌≤◌, ◌<◌, ◌≡◌, ◌≢◌, refl, sym, subst, ap, ◌∙◌, arith, ◌⊎◌, inl, inr,
}
use smolokellner.Base.{
  Bool, true, false, not, Option, none, some, List, [], ◌∷◌, ◌++◌, All, Bool-cases,
}
use smolokellner.Base.{
  get_elem?, get_some, get_lt, set, length, length-append, append_assoc, append-nil, if◌then◌else◌,
  ◌==◌, eq→==, ne→==,
}
use mathlib.Core.Option.{some-injective}
use native.Mathlib.Nat.{add-zero}
use smolokellner.Rechnung.Daten.{◌>>=◌, BestellungFertig, FertiggestelltVc}
use smolokellner.Rechnung.Auswahl.Zellen.{IsBill, IsDistinct}
use smolokellner.Rechnung.Auswahl.Zustand.{AllBills, IsCopy, IsSelection, IsValid}

module _ {Text Preis : Type 0} where
  -- The body of the loop over the bills.
  unfoldable pub klappe_eine :
      ℕ → ℕ → List (BestellungFertig Text Preis) → Option (List (BestellungFertig Text Preis))
  klappe_eine i section fs =
      if i == section
      then (get_elem? fs section >>= λ f.
          some (set fs section (record f { expanded = not f.expanded })))
      else (get_elem? fs i >>= λ f. some (set fs i (record f { expanded = false })))

  -- The loop from index `i` on, with that many rounds left.
  unfoldable pub klappe :
      ℕ → ℕ → ℕ → List (BestellungFertig Text Preis) → Option (List (BestellungFertig Text Preis))
  klappe zero i section fs = some fs
  klappe (suc rounds) i section fs =
      klappe_eine i section fs >>= λ fs'. klappe rounds (suc i) section fs'

  -- The loop that ends the function reads the items of the bill, and changes nothing since
  -- `BezahltMenge` has no keys.
  unfoldable pub toggle_section :
      ℕ → FertiggestelltVc Text Preis → Option (FertiggestelltVc Text Preis)
  toggle_section section vc =
      klappe (length vc.bestellungen_fertig) 0 section vc.bestellungen_fertig >>= λ fs.
      if length fs == 0
      then some (record vc { bestellungen_fertig = fs })
      else (get_elem? fs section >>= λ f. some (record vc { bestellungen_fertig = fs }))
