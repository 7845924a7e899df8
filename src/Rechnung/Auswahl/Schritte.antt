-- ===== src/Rechnung/Auswahl/Schritte.antt =====
-- Every sequence of taps on the bill screen.
use smolokellner.Base.{ℕ, zero, suc, ◌+◌, ◌<◌, ◌≡◌, ◌≢◌, refl, sym, subst, ap, ◌∙◌, arith, inl, inr}
use smolokellner.Base.{Option, some, List, [], ◌∷◌, All, get_elem?, set, get-set, length}
use mathlib.Core.Option.{some-injective}
use native.Mathlib.Nat.{add-zero}
use smolokellner.Rechnung.Daten.{Equal, update, BestellungFertig, FertiggestelltVc}
use smolokellner.Rechnung.Auswahl.{zeilen, merke}
use smolokellner.Rechnung.Auswahl.{waehle_fertig, waehle_abrechnen, alles_bezahlen}
use smolokellner.Rechnung.Auswahl.Aufklappen.{toggle_section}
use smolokellner.Rechnung.Auswahl.Aufklappen.Gueltig.{toggle_section-IsValid}
use smolokellner.Rechnung.Auswahl.Zaehler.{weniger-IsChosen, All-IsChosen}
use smolokellner.Rechnung.Auswahl.Zellen.{IsBill, IsDistinct}
use smolokellner.Rechnung.Auswahl.Zustand.{AllBills, IsCopy, IsSelection, IsValid, AllBills-IsBill}
use smolokellner.Rechnung.Auswahl.Zustand.{with_counters, zeige-IsValid, waehle_fertig-IsValid}

module _ {Text Preis : Type 0} ⦃eq : Equal Text⦄ where
  less_with :
      (vc : FertiggestelltVc Text Preis) (row : ℕ) (b : BestellungFertig Text Preis)
      → IsValid vc
      → IsCopy vc vc.true_section b
      → row < length b.items
      → (vc' : FertiggestelltVc Text Preis) × (waehle_abrechnen row vc ≡ some vc') × IsValid vc'
  unfolding waehle_abrechnen
  less_with vc row b valid copy lt =
      let (bm', hm, hc) =
        weniger-IsChosen copy.bill.gezaehlt b.menge row copy.bill.chosen
          (omega (arith, copy.bill.counted)) in
      let (vc', shows, valid') =
        zeige-IsValid (record vc { bestellungen_bezahlen = merke vc.true_section bm' (b ∷ []) })
          vc.true_section copy.original
          (record b { bezahlt_menge = update b.bezahlt_menge vc.true_section bm' }) valid.bills
          valid.distinct copy.there refl copy.table copy.own_table copy.own_menge copy.own_items
          (with_counters vc.true_section b bm' copy.bill hc) in
      (vc', rw (waehle_abrechnen, copy.only) (rw (copy.bill.stored) (rw (hm) shows)), valid')

  -- A tap on an item of the chosen ones does not trap, and keeps the screen valid.
  pub waehle_abrechnen-IsValid :
      (vc : FertiggestelltVc Text Preis) (row : ℕ)
      → IsValid vc
      → row < zeilen vc.bestellungen_bezahlen
      → (vc' : FertiggestelltVc Text Preis) × (waehle_abrechnen row vc ≡ some vc') × IsValid vc'
  unfolding IsSelection
  waehle_abrechnen-IsValid vc row valid lt = elim valid.selection [
    | inl (nothing, elsewhere) ↦ absurd (omega (arith, ap zeilen nothing))
    | inr (k, b, copy) ↦ elim copy.section [
      | inl no_items ↦ absurd (omega (arith, ap zeilen copy.only))
      | inr here ↦
          less_with vc row b valid (subst (λ i. IsCopy vc i b) (sym here) copy)
            (omega (arith, ap zeilen copy.only))
    ]
  ]

  set-AllBills :
      (fs : List (BestellungFertig Text Preis)) (i k j : ℕ) (f : BestellungFertig Text Preis)
      → AllBills i fs
      → i + k ≡ j
      → IsBill j f
      → AllBills i (set fs k f)
  unfolding AllBills
  set-AllBills [] i k j f h at new = h
  set-AllBills (g ∷ fs) i zero j f h at new = (rw (sym at ∙ add-zero i) at new, h.1)
  set-AllBills (g ∷ fs) i (suc k) j f h at new =
      (h.0, set-AllBills fs (suc i) k j f h.1 (omega arith) new)

  set-All :
      (tisch : Text) (fs : List (BestellungFertig Text Preis)) (k : ℕ)
      → (f g : BestellungFertig Text Preis) → All (λ h. h.tischnummer ≢ tisch) fs
      → get_elem? fs k ≡ some f
      → g.tischnummer ≡ f.tischnummer
      → All (λ h. h.tischnummer ≢ tisch) (set fs k g)
  set-All tisch [] k f g h at table = h
  set-All tisch (x ∷ fs) zero f g h at table =
      ((λ e. h.0 (ap (λ y. y.tischnummer) (some-injective x f at) ∙ sym table ∙ e)), h.1)
  set-All tisch (x ∷ fs) (suc k) f g h at table = (h.0, set-All tisch fs k f g h.1 at table)

  set-IsDistinct :
      (fs : List (BestellungFertig Text Preis)) (k : ℕ) (f g : BestellungFertig Text Preis)
      → IsDistinct fs
      → get_elem? fs k ≡ some f
      → g.tischnummer ≡ f.tischnummer
      → IsDistinct (set fs k g)
  unfolding IsDistinct
  set-IsDistinct [] k f g h at table = h
  set-IsDistinct (x ∷ fs) zero f g h at table =
      (rw (ap (λ y. y.tischnummer) (some-injective x f at) ∙ sym table) at h.0, h.1)
  set-IsDistinct (x ∷ fs) (suc k) f g h at table =
      (set-All x.tischnummer fs k f g h.0 at table, set-IsDistinct fs k f g h.1 at table)

  -- "Alles auswählen" below a bill does not trap, and keeps the screen valid.
  pub alles_bezahlen-IsValid :
      (vc : FertiggestelltVc Text Preis) (section : ℕ) (f : BestellungFertig Text Preis)
      → IsValid vc
      → get_elem? vc.bestellungen_fertig section ≡ some f
      → (vc' : FertiggestelltVc Text Preis) × (alles_bezahlen section vc ≡ some vc') × IsValid vc'
  unfolding alles_bezahlen
  alles_bezahlen-IsValid vc section f valid at =
      let (vc', shows, valid') =
        zeige-IsValid
          (record vc {
            bestellungen_fertig = set vc.bestellungen_fertig section whole;
            bestellungen_bezahlen = whole ∷ [];
            tischnummer_bezahlen = f.tischnummer;
          })
          section whole whole
          (set-AllBills vc.bestellungen_fertig 0 section section whole valid.bills from_start
            chosen)
          (set-IsDistinct vc.bestellungen_fertig section f whole valid.distinct at refl)
          (get-set vc.bestellungen_fertig section f whole at) refl refl refl refl refl chosen in
      (vc', rw (alles_bezahlen, at) shows, valid')
    where
      whole : BestellungFertig Text Preis
      whole = record f { bezahlt_menge = update f.bezahlt_menge section f.menge }

      from_start : 0 + section ≡ section
      from_start = omega arith

      bill : IsBill section f
      bill = rw (from_start) at (AllBills-IsBill vc.bestellungen_fertig 0 section f valid.bills at)

      chosen : IsBill section whole
      chosen = with_counters section f f.menge bill (All-IsChosen f.menge bill.nonneg)

  -- The events that the screen can receive, and what they do.
  pub data Schritt (vc vc' : FertiggestelltVc Text Preis) : Type 0 where
    tap_fertig :
        (section row : ℕ) (f : BestellungFertig Text Preis)
        → get_elem? vc.bestellungen_fertig section ≡ some f
        → row < length f.items
        → waehle_fertig section row vc ≡ some vc'
        → Schritt vc vc'
    tap_abrechnen :
        (row : ℕ)
        → row < zeilen vc.bestellungen_bezahlen
        → waehle_abrechnen row vc ≡ some vc'
        → Schritt vc vc'
    tap_alles :
        (section : ℕ) (f : BestellungFertig Text Preis)
        → get_elem? vc.bestellungen_fertig section ≡ some f
        → alles_bezahlen section vc ≡ some vc'
        → Schritt vc vc'
    tap_header :
        (section : ℕ) (f : BestellungFertig Text Preis)
        → get_elem? vc.bestellungen_fertig section ≡ some f
        → toggle_section section vc ≡ some vc'
        → Schritt vc vc'

  pub data Folge (vc : FertiggestelltVc Text Preis) : FertiggestelltVc Text Preis → Type 0 where
    here : Folge vc vc
    next :
        {vc' vc'' : FertiggestelltVc Text Preis} → Folge vc vc' → Schritt vc' vc'' → Folge vc vc''

  same_end :
      {out : Option (FertiggestelltVc Text Preis)} (vc : FertiggestelltVc Text Preis)
      → ((vc' : FertiggestelltVc Text Preis) × (out ≡ some vc') × IsValid vc')
      → out ≡ some vc
      → IsValid vc
  same_end vc (vc', same, valid) h = subst IsValid (some-injective vc' vc (sym same ∙ h)) valid

  Schritt-IsValid :
      (vc vc' : FertiggestelltVc Text Preis) → Schritt vc vc' → IsValid vc → IsValid vc'
  Schritt-IsValid vc vc' (tap_fertig section row f at lt h) valid =
      same_end vc' (waehle_fertig-IsValid vc section row f valid at lt) h
  Schritt-IsValid vc vc' (tap_abrechnen row lt h) valid =
      same_end vc' (waehle_abrechnen-IsValid vc row valid lt) h
  Schritt-IsValid vc vc' (tap_alles section f at h) valid =
      same_end vc' (alles_bezahlen-IsValid vc section f valid at) h
  Schritt-IsValid vc vc' (tap_header section f at h) valid =
      same_end vc' (toggle_section-IsValid vc section f valid at) h

  -- From a valid screen every sequence of taps leads to a valid screen: each bill and the chosen
  -- copy have a counter from zero to the quantity for each item, and the copy is that of the bill
  -- in its section.
  pub Folge-IsValid :
      (vc vc' : FertiggestelltVc Text Preis) → IsValid vc → Folge vc vc' → IsValid vc'
  Folge-IsValid vc vc' valid here = valid
  Folge-IsValid vc vc'' valid (next {vc' = vc'} r st) =
      Schritt-IsValid vc' vc'' st (Folge-IsValid vc vc' valid r)
