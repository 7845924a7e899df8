-- ===== src/Rechnung/Auswahl/Aufklappen/Gueltig.antt =====
-- What a tap on the header of a bill does to the bills and to the screen.
use smolokellner.Base.{ℕ, zero, suc, ◌+◌, ◌≡◌, ◌≢◌, refl, ap, ◌∙◌, arith, inl, inr}
use smolokellner.Base.{true, false, not, some, List, [], ◌∷◌, ◌++◌, All, Bool-cases}
use smolokellner.Base.{
  get_elem?, get_lt, length, length-append, get-behind, set-behind, append_assoc, if◌then◌else◌,
  ◌==◌, ne→==,
}
use mathlib.Core.Option.{some-injective}
use native.Mathlib.Nat.{add-zero}
use smolokellner.Rechnung.Daten.{BestellungFertig, FertiggestelltVc}
use smolokellner.Rechnung.Auswahl.Zellen.{IsDistinct}
use smolokellner.Rechnung.Auswahl.Zustand.{AllBills, IsCopy, IsSelection, IsValid}
use smolokellner.Rechnung.Auswahl.Aufklappen.{klappe_eine, klappe, toggle_section}

module _ {Text Preis : Type 0} where
  -- A bill as the loop leaves it.
  abbrev geklappt : ℕ → ℕ → BestellungFertig Text Preis → BestellungFertig Text Preis
  geklappt i section f = record f { expanded = if i == section then not f.expanded else false }

  unfoldable pub alle_geklappt :
      ℕ → ℕ → List (BestellungFertig Text Preis) → List (BestellungFertig Text Preis)
  alle_geklappt i section [] = []
  alle_geklappt i section (f ∷ fs) = geklappt i section f ∷ alle_geklappt (suc i) section fs

  klappe_eine_lem :
      (section : ℕ) (before fs : List (BestellungFertig Text Preis))
      → (f : BestellungFertig Text Preis)
      → klappe_eine (length before) section (before ++ f ∷ fs)
        ≡ some (before ++ geklappt (length before) section f ∷ fs)
  unfolding klappe_eine
  klappe_eine_lem section before fs f = elim (Bool-cases (length before == section)) [
    | inl e ↦
        rw (e)
          (rw (← same_place e) (rw (get-behind before fs f) (ap some (set-behind before fs f _))))
    | inr e ↦ rw (e) (rw (get-behind before fs f) (ap some (set-behind before fs f _)))
  ]
    where
      same_place : (length before == section) ≡ true → length before ≡ section
      same_place e = ground arith

  klappe_lem :
      (section : ℕ) (before fs : List (BestellungFertig Text Preis))
      → klappe (length fs) (length before) section (before ++ fs)
        ≡ some (before ++ alle_geklappt (length before) section fs)
  unfolding klappe alle_geklappt
  klappe_lem section before [] = refl
  klappe_lem section before (f ∷ fs) = rw (klappe_eine_lem section before fs f) (
      rw
        (
          one_more,
          append_assoc before (geklappt (length before) section f ∷ []) fs,
          append_assoc before (geklappt (length before) section f ∷ [])
              (alle_geklappt (suc (length before)) section fs),
        )
        at (klappe_lem section (before ++ geklappt (length before) section f ∷ []) fs))
    where
      one_more : length (before ++ geklappt (length before) section f ∷ []) ≡ suc (length before)
      one_more = omega (arith, length-append before (geklappt (length before) section f ∷ []))

  klappe-all :
      (section : ℕ) (fs : List (BestellungFertig Text Preis))
      → klappe (length fs) 0 section fs ≡ some (alle_geklappt 0 section fs)
  klappe-all section fs = klappe_lem section [] fs

  length-alle_geklappt :
      (i section : ℕ) (fs : List (BestellungFertig Text Preis))
      → length (alle_geklappt i section fs) ≡ length fs
  unfolding alle_geklappt
  length-alle_geklappt i section [] = refl
  length-alle_geklappt i section (f ∷ fs) = ap suc (length-alle_geklappt (suc i) section fs)

  get-alle_geklappt :
      (i section k : ℕ) (fs : List (BestellungFertig Text Preis)) (f : BestellungFertig Text Preis)
      → get_elem? fs k ≡ some f
      → get_elem? (alle_geklappt i section fs) k ≡ some (geklappt (i + k) section f)
  unfolding alle_geklappt
  get-alle_geklappt i section k [] f at = cc
  get-alle_geklappt i section zero (g ∷ fs) f at = rw (some-injective g f at, add-zero i) refl
  get-alle_geklappt i section (suc k) (g ∷ fs) f at =
      get-alle_geklappt (suc i) section k fs f at ∙ ap (λ j. some (geklappt j section f)) moved
    where
      moved : suc i + k ≡ i + suc k
      moved = omega arith

  All-alle_geklappt :
      (tisch : Text) (i section : ℕ) (fs : List (BestellungFertig Text Preis))
      → All (λ g. g.tischnummer ≢ tisch) fs
      → All (λ g. g.tischnummer ≢ tisch) (alle_geklappt i section fs)
  unfolding alle_geklappt
  All-alle_geklappt tisch i section [] h = h
  All-alle_geklappt tisch i section (f ∷ fs) h =
      (h.0, All-alle_geklappt tisch (suc i) section fs h.1)

  alle_geklappt-IsDistinct :
      (i section : ℕ) (fs : List (BestellungFertig Text Preis))
      → IsDistinct fs
      → IsDistinct (alle_geklappt i section fs)
  unfolding alle_geklappt IsDistinct
  alle_geklappt-IsDistinct i section [] h = h
  alle_geklappt-IsDistinct i section (f ∷ fs) h = (
    All-alle_geklappt f.tischnummer (suc i) section fs h.0,
    alle_geklappt-IsDistinct (suc i) section fs h.1,
  )

  alle_geklappt-AllBills :
      (i section : ℕ) (fs : List (BestellungFertig Text Preis))
      → AllBills i fs
      → AllBills i (alle_geklappt i section fs)
  unfolding alle_geklappt AllBills
  alle_geklappt-AllBills i section [] h = h
  alle_geklappt-AllBills i section (f ∷ fs) (bill, h) = (
    record {
      gezaehlt = bill.gezaehlt;
      stored = bill.stored;
      chosen = bill.chosen;
      counted = bill.counted;
      nonneg = bill.nonneg;
    },
    alle_geklappt-AllBills (suc i) section fs h,
  )

  -- The screen once the section is toggled.
  abbrev nach_toggle : ℕ → FertiggestelltVc Text Preis → FertiggestelltVc Text Preis
  nach_toggle section vc = record vc {
    bestellungen_fertig = alle_geklappt 0 section vc.bestellungen_fertig;
  }

  nach_toggle-IsCopy :
      (vc : FertiggestelltVc Text Preis) (section k : ℕ) (b : BestellungFertig Text Preis)
      → IsCopy vc k b
      → IsCopy (nach_toggle section vc) k b
  nach_toggle-IsCopy vc section k b copy = record {
    original = geklappt k section copy.original;
    there =
        rw (from_start) at
          (get-alle_geklappt 0 section k vc.bestellungen_fertig copy.original copy.there);
    only = copy.only;
    table = copy.table;
    own_table = copy.own_table;
    own_menge = copy.own_menge;
    own_items = copy.own_items;
    bill = copy.bill;
    section = copy.section;
  }
    where
      from_start : 0 + k ≡ k
      from_start = omega arith

  nach_toggle-IsValid :
      (vc : FertiggestelltVc Text Preis) (section : ℕ)
      → IsValid vc
      → IsValid (nach_toggle section vc)
  unfolding IsSelection
  nach_toggle-IsValid vc section valid = record {
    bills = alle_geklappt-AllBills 0 section vc.bestellungen_fertig valid.bills;
    distinct = alle_geklappt-IsDistinct 0 section vc.bestellungen_fertig valid.distinct;
    selection = elim valid.selection [
      | inl (nothing, elsewhere) ↦ inl (
        nothing,
        All-alle_geklappt vc.tischnummer_bezahlen 0 section vc.bestellungen_fertig elsewhere,
      )
      | inr (k, b, copy) ↦ inr (k, b, nach_toggle-IsCopy vc section k b copy)
    ];
  }

  toggled :
      (section : ℕ) (vc : FertiggestelltVc Text Preis) (f : BestellungFertig Text Preis)
      → get_elem? vc.bestellungen_fertig section ≡ some f
      → toggle_section section vc ≡ some (nach_toggle section vc)
  unfolding toggle_section
  toggled section vc f at = rw (klappe-all section vc.bestellungen_fertig) (
      rw (ne→== (length (alle_geklappt 0 section vc.bestellungen_fertig)) 0 some_bill)
        (rw (get-alle_geklappt 0 section section vc.bestellungen_fertig f at) refl))
    where
      some_bill : length (alle_geklappt 0 section vc.bestellungen_fertig) ≢ 0
      some_bill h = absurd (
          omega (
            arith,
            length-alle_geklappt 0 section vc.bestellungen_fertig,
            get_lt vc.bestellungen_fertig section f at,
          ))

  -- A tap on the header of a bill of a valid screen does not trap, and keeps the screen valid.
  pub toggle_section-IsValid :
      (vc : FertiggestelltVc Text Preis) (section : ℕ) (f : BestellungFertig Text Preis)
      → IsValid vc
      → get_elem? vc.bestellungen_fertig section ≡ some f
      → (vc' : FertiggestelltVc Text Preis) × (toggle_section section vc ≡ some vc') × IsValid vc'
  toggle_section-IsValid vc section f valid at =
      (nach_toggle section vc, toggled section vc f at, nach_toggle-IsValid vc section valid)

  -- A tap on the header of a bill turns that bill over, collapses every other one, and leaves what
  -- else the bills hold.
  pub toggle_section_lem :
      (vc : FertiggestelltVc Text Preis) (section k : ℕ) (f g : BestellungFertig Text Preis)
      → get_elem? vc.bestellungen_fertig section ≡ some f
      → get_elem? vc.bestellungen_fertig k ≡ some g
      → (vc' : FertiggestelltVc Text Preis) × (toggle_section section vc ≡ some vc')
        × (get_elem? vc'.bestellungen_fertig k
            ≡ some (record g { expanded = if k == section then not g.expanded else false }))
        × (length vc'.bestellungen_fertig ≡ length vc.bestellungen_fertig)
  toggle_section_lem vc section k f g at there = (
    nach_toggle section vc,
    toggled section vc f at,
    rw (from_start) at (get-alle_geklappt 0 section k vc.bestellungen_fertig g there),
    length-alle_geklappt 0 section vc.bestellungen_fertig,
  )
    where
      from_start : 0 + k ≡ k
      from_start = omega arith
