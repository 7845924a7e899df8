-- ===== src/Rechnung/Auswahl/Zustand.antt =====
-- What holds of the bill screen between two taps.
use smolokellner.Base.{ℕ, zero, suc, ◌+◌, ◌<◌, ◌≡◌, ◌≢◌, refl, sym, ap, ◌∙◌, arith, ◌⊎◌, inl, inr}
use smolokellner.Base.{some, List, [], ◌∷◌, ℤ, All, All-get_elem, eq→==, Bool-cases, not}
use smolokellner.Base.{get_elem?, length, if◌then◌else◌}
use smolokellner.Rechnung.Daten.{Equal, update, BestellungFertig, FertiggestelltVc}
use smolokellner.Rechnung.Auswahl.{zeige_abrechnen, zellen, zeilen, merke}
use smolokellner.Rechnung.Auswahl.{waehle_fertig}
use smolokellner.Rechnung.Auswahl.Zaehler.{IsChosen, mehr-IsChosen}
use smolokellner.Rechnung.Auswahl.Zellen.{IsBill, IsDistinct, zellen_lem, shown, suche-some}
use mathlib.Core.Option.{some-injective}
use native.Mathlib.Nat.{add-zero}

module _ {Text Preis : Type 0} where
  -- Every bill is one that the screen can work with as the section in which it stands.
  unfoldable pub AllBills : ℕ → List (BestellungFertig Text Preis) → Type 0
  AllBills i [] = Unit
  AllBills i (f ∷ fs) = IsBill i f × AllBills (suc i) fs

  -- The chosen items are a copy of the bill in section `k`, but for their counters, and
  -- `trueSection` is `k` once a cell has shown them.
  pub record IsCopy (vc : FertiggestelltVc Text Preis) (k : ℕ) (b : BestellungFertig Text Preis)
      : Type 0 where
    pub original : BestellungFertig Text Preis
    pub there : get_elem? vc.bestellungen_fertig k ≡ some original
    pub only : vc.bestellungen_bezahlen ≡ b ∷ []
    pub table : vc.tischnummer_bezahlen ≡ original.tischnummer
    pub own_table : b.tischnummer ≡ original.tischnummer
    pub own_menge : b.menge ≡ original.menge
    pub own_items : b.items ≡ original.items
    pub bill : IsBill k b
    pub section : (length b.items ≡ 0) ⊎ (vc.true_section ≡ k)

  -- Nothing is chosen yet, and no bill has the table number that the screen starts with; or a bill
  -- is chosen.
  unfoldable pub IsSelection : FertiggestelltVc Text Preis → Type 0
  IsSelection vc =
      ((vc.bestellungen_bezahlen ≡ [])
        × All (λ g. g.tischnummer ≢ vc.tischnummer_bezahlen) vc.bestellungen_fertig)
      ⊎ ((k : ℕ) × (b : BestellungFertig Text Preis) × IsCopy vc k b)

  pub record IsValid (vc : FertiggestelltVc Text Preis) : Type 0 where
    pub bills : AllBills 0 vc.bestellungen_fertig
    pub distinct : IsDistinct vc.bestellungen_fertig
    pub selection : IsSelection vc

  pub AllBills-IsBill :
      (fs : List (BestellungFertig Text Preis)) (i k : ℕ) (f : BestellungFertig Text Preis)
      → AllBills i fs
      → get_elem? fs k ≡ some f
      → IsBill (i + k) f
  unfolding AllBills
  AllBills-IsBill [] i k f h at = cc
  AllBills-IsBill (g ∷ fs) i zero f h at = rw (← some-injective g f at) (rw (← add-zero i) at h.0)
  AllBills-IsBill (g ∷ fs) i (suc k) f h at = rw (moved) at (AllBills-IsBill fs (suc i) k f h.1 at)
    where
      moved : suc i + k ≡ i + suc k
      moved = omega arith

  -- A bill with other counters, chosen within its quantities.
  pub with_counters :
      (k : ℕ) (b : BestellungFertig Text Preis) (bm : List ℤ)
      → IsBill k b
      → IsChosen bm b.menge
      → IsBill k (record b { bezahlt_menge = update b.bezahlt_menge k bm })
  with_counters k b bm bill h = record {
    gezaehlt = bm;
    stored = rw (eq→== k k refl) refl;
    chosen = h;
    counted = bill.counted;
    nonneg = bill.nonneg;
  }

shown_section : (rows old k : ℕ) → (rows ≡ 0) ⊎ (shown rows old k ≡ k)
shown_section zero old k = inl refl
shown_section (suc rows) old k = inr refl

module _ {Text Preis : Type 0} ⦃eq : Equal Text⦄ where
  open eq use {same, eq_of_same}

  -- The cells that end every handler.
  pub zeige-IsValid :
      (vc : FertiggestelltVc Text Preis) (k : ℕ) (f b : BestellungFertig Text Preis)
      → AllBills 0 vc.bestellungen_fertig
      → IsDistinct vc.bestellungen_fertig
      → get_elem? vc.bestellungen_fertig k ≡ some f
      → vc.bestellungen_bezahlen ≡ b ∷ []
      → vc.tischnummer_bezahlen ≡ f.tischnummer
      → b.tischnummer ≡ f.tischnummer
      → b.menge ≡ f.menge
      → b.items ≡ f.items
      → IsBill k b
      → (vc' : FertiggestelltVc Text Preis) × (zeige_abrechnen vc ≡ some vc') × IsValid vc'
  unfolding zeige_abrechnen IsSelection
  zeige-IsValid vc k f b bills distinct at only table own menge items bill = (
    record vc { true_section = shown (length b.items) vc.true_section k },
    ap (λ bs. zellen 0 (zeilen bs) vc) only
        ∙ zellen_lem vc k 0 (length b.items) f b distinct at table only bill (omega arith),
    record {
      bills = bills;
      distinct = distinct;
      selection = inr (
        k,
        b,
        record {
          original = f;
          there = at;
          only = only;
          table = table;
          own_table = own;
          own_menge = menge;
          own_items = items;
          bill = bill;
          section = shown_section (length b.items) vc.true_section k;
        },
      );
    },
  )

  -- A table stands in one section only.
  same_section :
      (fs : List (BestellungFertig Text Preis)) (i j : ℕ) (f g : BestellungFertig Text Preis)
      → IsDistinct fs
      → get_elem? fs i ≡ some f
      → get_elem? fs j ≡ some g
      → f.tischnummer ≡ g.tischnummer
      → i ≡ j
  same_section fs i j f g distinct hi hj table = omega (
    arith,
    suche-some g.tischnummer fs 0 i 0 f distinct hi table,
    suche-some g.tischnummer fs 0 j 0 g distinct hj refl,
  )

  -- What a tap on the bill `f` works with: `f` itself, or the copy of it that is chosen already.
  abbrev Chosen : FertiggestelltVc Text Preis → ℕ → BestellungFertig Text Preis → Type 0
  Chosen vc section f =
      (b : BestellungFertig Text Preis) × ((if not (same f.tischnummer vc.tischnummer_bezahlen)
          then f ∷ []
          else vc.bestellungen_bezahlen)
        ≡ b ∷ [])
      × (b.tischnummer ≡ f.tischnummer)
      × (b.menge ≡ f.menge)
      × (b.items ≡ f.items)
      × IsBill section b

  copy_of :
      (vc : FertiggestelltVc Text Preis) (section k : ℕ) (f b : BestellungFertig Text Preis)
      → IsDistinct vc.bestellungen_fertig
      → get_elem? vc.bestellungen_fertig section ≡ some f
      → f.tischnummer ≡ vc.tischnummer_bezahlen
      → IsCopy vc k b
      → (b.tischnummer ≡ f.tischnummer)
        × (b.menge ≡ f.menge)
        × (b.items ≡ f.items)
        × IsBill section b
  copy_of vc section k f b distinct at table copy = (
    copy.own_table ∙ ap (λ g. g.tischnummer) original,
    copy.own_menge ∙ ap (λ g. g.menge) original,
    copy.own_items ∙ ap (λ g. g.items) original,
    rw (here) at copy.bill,
  )
    where
      here : k ≡ section
      here =
          same_section vc.bestellungen_fertig k section copy.original f distinct copy.there at
            (sym copy.table ∙ sym table)

      original : copy.original ≡ f
      original =
          some-injective copy.original f
            (sym copy.there ∙ ap (λ i. get_elem? vc.bestellungen_fertig i) here ∙ at)

  valid-Chosen :
      (vc : FertiggestelltVc Text Preis) (section : ℕ) (f : BestellungFertig Text Preis)
      → IsValid vc
      → get_elem? vc.bestellungen_fertig section ≡ some f
      → Chosen vc section f
  unfolding IsSelection
  valid-Chosen vc section f valid at =
      elim (Bool-cases (same f.tischnummer vc.tischnummer_bezahlen)) [
        | inl e ↦ elim valid.selection [
          | inl (nothing, elsewhere) ↦ absurd (
              All-get_elem (λ g. g.tischnummer ≢ vc.tischnummer_bezahlen) vc.bestellungen_fertig
                section f elsewhere at (eq_of_same f.tischnummer vc.tischnummer_bezahlen e))
          | inr (k, b, copy) ↦
              let (table, menge, items, bill) =
                copy_of vc section k f b valid.distinct at
                  (eq_of_same f.tischnummer vc.tischnummer_bezahlen e) copy in
              (b, rw (e) copy.only, table, menge, items, bill)
        ]
        | inr e ↦ (
          f,
          rw (e) refl,
          refl,
          refl,
          refl,
          rw (from_start) at (AllBills-IsBill vc.bestellungen_fertig 0 section f valid.bills at),
        )
      ]
    where
      from_start : 0 + section ≡ section
      from_start = omega arith

  tap_with :
      (vc : FertiggestelltVc Text Preis) (section row : ℕ) (f : BestellungFertig Text Preis)
      → IsValid vc
      → get_elem? vc.bestellungen_fertig section ≡ some f
      → row < length f.items
      → Chosen vc section f
      → (vc' : FertiggestelltVc Text Preis) × (waehle_fertig section row vc ≡ some vc')
        × IsValid vc'
  unfolding waehle_fertig
  tap_with vc section row f valid at lt (b, gewaehlt, table, menge, items, bill) =
      let (bm', hm, hc) =
        mehr-IsChosen bill.gezaehlt b.menge row bill.chosen
          (omega (arith, bill.counted, ap length items)) in
      let (vc', shows, valid') =
        zeige-IsValid
          (record vc {
            bestellungen_bezahlen = merke section bm' (b ∷ []);
            tischnummer_bezahlen = b.tischnummer;
          })
          section f (record b { bezahlt_menge = update b.bezahlt_menge section bm' }) valid.bills
          valid.distinct at refl table table menge items (with_counters section b bm' bill hc) in
      (vc', rw (waehle_fertig, at, gewaehlt) (rw (bill.stored) (rw (hm) shows)), valid')

  -- A tap on an item of a bill on the screen does not trap, and keeps the screen valid.
  pub waehle_fertig-IsValid :
      (vc : FertiggestelltVc Text Preis) (section row : ℕ) (f : BestellungFertig Text Preis)
      → IsValid vc
      → get_elem? vc.bestellungen_fertig section ≡ some f
      → row < length f.items
      → (vc' : FertiggestelltVc Text Preis) × (waehle_fertig section row vc ≡ some vc')
        × IsValid vc'
  waehle_fertig-IsValid vc section row f valid at lt =
      tap_with vc section row f valid at lt (valid-Chosen vc section f valid at)
