-- ===== src/Rechnung/Auswahl/Zellen.antt =====
-- The bills by their sections, and the cells of the chosen items.
use smolokellner.Base.{ℕ, zero, suc, ◌+◌, ◌≤◌, ◌<◌, ◌≡◌, ◌≢◌, refl, sym, ap, ◌∙◌, arith, inl, inr}
use smolokellner.Base.{some, List, [], ◌∷◌, ℤ, neg_part, true, false, All, Bool-cases}
use smolokellner.Base.{get_elem?, get_some, length}
use smolokellner.Rechnung.Daten.{Equal, ◌>>=◌, BestellungFertig, FertiggestelltVc}
use smolokellner.Rechnung.Auswahl.{suche_section, zelle_abrechnen, zellen}
use smolokellner.Rechnung.Auswahl.Zaehler.{IsChosen, IsWithin, row-IsWithin}
use mathlib.Core.Option.{some-injective}
use native.Mathlib.Nat.{add-zero}

module _ {Text Preis : Type 0} where
  -- A bill that the screen can work with as the given section: a counter for each of its items,
  -- and no quantity below zero.
  pub record IsBill (section : ℕ) (f : BestellungFertig Text Preis) : Type 0 where
    pub gezaehlt : List ℤ
    pub stored : f.bezahlt_menge section ≡ some gezaehlt
    pub chosen : IsChosen gezaehlt f.menge
    pub counted : length f.items ≡ length f.menge
    pub nonneg : All (λ m. neg_part m ≡ 0) f.menge

  -- No two bills are for one table.
  unfoldable pub IsDistinct : List (BestellungFertig Text Preis) → Type 0
  IsDistinct [] = Unit
  IsDistinct (f ∷ fs) = All (λ g. g.tischnummer ≢ f.tischnummer) fs × IsDistinct fs

-- `trueSection` after that many cells.
abbrev pub shown : ℕ → ℕ → ℕ → ℕ
shown zero old k = old
shown (suc rows) old k = k

shown_same : (rows k : ℕ) → shown rows k k ≡ k
shown_same zero k = refl
shown_same (suc rows) k = refl

module _ {Text : Type 0} ⦃eq : Equal Text⦄ where
  open eq use {same, eq_of_same}

  pub differ : (x y : Text) → x ≢ y → same x y ≡ false
  differ x y h = elim (Bool-cases (same x y)) [ inl e ↦ absurd (h (eq_of_same x y e)) | inr e ↦ e ]

module _ {Text Preis : Type 0} ⦃eq : Equal Text⦄ where
  open eq use {same, same_refl}

  suche-none :
      (tisch : Text) (fs : List (BestellungFertig Text Preis)) (i found : ℕ)
      → All (λ g. g.tischnummer ≢ tisch) fs
      → suche_section tisch fs i found ≡ found
  unfolding suche_section
  suche-none tisch [] i found h = refl
  suche-none tisch (f ∷ fs) i found h =
      rw (differ f.tischnummer tisch h.0) (suche-none tisch fs (suc i) found h.1)

  pub suche-some :
      (tisch : Text) (fs : List (BestellungFertig Text Preis)) (i k found : ℕ)
      → (f : BestellungFertig Text Preis) → IsDistinct fs
      → get_elem? fs k ≡ some f
      → f.tischnummer ≡ tisch
      → suche_section tisch fs i found ≡ i + k
  unfolding suche_section IsDistinct
  suche-some tisch [] i k found f h at table = cc
  suche-some tisch (g ∷ fs) i zero found f h at table =
      rw (here) (suche-none tisch fs (suc i) i (rw (first) at h.0) ∙ sym (add-zero i))
    where
      first : g.tischnummer ≡ tisch
      first = ap (λ x. x.tischnummer) (some-injective g f at) ∙ table

      here : same g.tischnummer tisch ≡ true
      here = rw (first) (same_refl tisch)
  suche-some tisch (g ∷ fs) i (suc k) found f h at table =
      suche-some tisch fs (suc i) k _ f h.1 at table ∙ moved
    where
      moved : suc i + k ≡ i + suc k
      moved = omega arith

  -- A cell of the chosen items, where they are those of the bill `f` in section `k`.
  zelle_lem :
      (vc : FertiggestelltVc Text Preis) (k row : ℕ) (f b : BestellungFertig Text Preis)
      → IsDistinct vc.bestellungen_fertig
      → get_elem? vc.bestellungen_fertig k ≡ some f
      → vc.tischnummer_bezahlen ≡ f.tischnummer
      → vc.bestellungen_bezahlen ≡ b ∷ []
      → IsBill k b
      → row < length b.items
      → zelle_abrechnen row vc ≡ some (record vc { true_section = k })
  unfolding zelle_abrechnen
  zelle_lem vc k row f b distinct at table only bill lt =
      rw (zelle_abrechnen, only)
        (rw (section_is) (
          rw ((get_some b.items row lt).1) (
            rw (bill.stored) (
              rw (counter.2) (
                ap (λ bs. some (record vc { bestellungen_bezahlen = bs; true_section = k }))
                  only)))))
    where
      counter :
          (x m : ℤ) × (get_elem? bill.gezaehlt row ≡ some x)
          × (get_elem? b.menge row ≡ some m)
          × IsWithin x m
      counter = row-IsWithin bill.gezaehlt b.menge row bill.chosen (omega (arith, bill.counted))

      from_start : 0 + k ≡ k
      from_start = omega arith

      section_is :
          suche_section vc.tischnummer_bezahlen vc.bestellungen_fertig 0 vc.true_section ≡ k
      section_is =
          suche-some vc.tischnummer_bezahlen vc.bestellungen_fertig 0 k vc.true_section f distinct
            at (sym table)
          ∙ from_start

  pub zellen_lem :
      (vc : FertiggestelltVc Text Preis) (k row rows : ℕ) (f b : BestellungFertig Text Preis)
      → IsDistinct vc.bestellungen_fertig
      → get_elem? vc.bestellungen_fertig k ≡ some f
      → vc.tischnummer_bezahlen ≡ f.tischnummer
      → vc.bestellungen_bezahlen ≡ b ∷ []
      → IsBill k b
      → row + rows ≤ length b.items
      → zellen row rows vc ≡ some (record vc { true_section = shown rows vc.true_section k })
  unfolding zellen
  zellen_lem vc k row zero f b distinct at table only bill le = refl
  zellen_lem vc k row (suc rows) f b distinct at table only bill le =
      rw (zelle_lem vc k row f b distinct at table only bill (omega arith), ◌>>=◌)
        (zellen_lem (record vc { true_section = k }) k (suc row) rows f b distinct at table only
            bill (omega arith)
          ∙ ap (λ t. some (record vc { true_section = t })) (shown_same rows k))
