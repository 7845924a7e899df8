-- ===== src/Rechnung/Auswahl.antt =====
-- The choice of what to pay in SMOLO+/Views/FertiggestelltVC.swift: the taps on a bill and on the
-- list of chosen items, "Alles auswählen", and the cells that show them.
pub mod Zaehler
pub mod Zellen
pub mod Zustand
pub mod Aufklappen
pub mod Wiederholt
pub mod Schritte
use smolokellner.Base.{ℕ, zero, suc, ◌+◌, Bool, not, Option, none, some, List, [], ◌∷◌, ℤ, pos}
use smolokellner.Base.{ltb_ℤ, suc_ℤ, pred_ℤ, if◌then◌else◌, get_elem?, set, length}
use smolokellner.Rechnung.Daten.{Equal, ◌>>=◌, Dict, update, BestellungFertig, FertiggestelltVc}

-- `if bm![row] < menge[row] { bm![row] = bm![row]+1 }`
unfoldable pub mehr : List ℤ → List ℤ → ℕ → Option (List ℤ)
mehr bm menge row = get_elem? bm row >>= λ x.
    get_elem? menge row >>= λ m. some (if ltb_ℤ x m then set bm row (suc_ℤ x) else bm)

-- `if bm![row] > 0 { bm![row] = bm![row]-1 }`
unfoldable pub weniger : List ℤ → ℕ → Option (List ℤ)
weniger bm row =
    get_elem? bm row >>= λ x. some (if ltb_ℤ (pos 0) x then set bm row (pred_ℤ x) else bm)

module _ {Text Preis : Type 0} ⦃eq : Equal Text⦄ where
  open eq use {same}

  -- The loop of `cellForRowAt` that sets `trueSection`: the last bill of the table, if any.
  unfoldable pub suche_section : Text → List (BestellungFertig Text Preis) → ℕ → ℕ → ℕ
  suche_section tisch [] i found = found
  suche_section tisch (f ∷ fs) i found =
      suche_section tisch fs (suc i) (if same f.tischnummer tisch then i else found)

  -- `cellForRowAt` for the list of chosen items.
  unfoldable pub zelle_abrechnen :
      ℕ → FertiggestelltVc Text Preis → Option (FertiggestelltVc Text Preis)
  zelle_abrechnen row vc =
      let section =
        suche_section vc.tischnummer_bezahlen vc.bestellungen_fertig 0 vc.true_section in
      let vc' = record vc { true_section = section } in
      elim vc.bestellungen_bezahlen [
        | [] ↦ some vc'
        | b ∷ rest ↦ get_elem? b.items row >>= λ item.
            b.bezahlt_menge section >>= λ bezahlt. get_elem? bezahlt row >>= λ menge. some vc'
      ]

  -- `AbrechnenTV.reloadData()`: the cells of the rows from `row` on, `rows` of them.
  unfoldable pub zellen : ℕ → ℕ → FertiggestelltVc Text Preis → Option (FertiggestelltVc Text Preis)
  zellen row zero vc = some vc
  zellen row (suc rows) vc = zelle_abrechnen row vc >>= λ vc'. zellen (suc row) rows vc'

  -- `numberOfRowsInSection` of the list of chosen items.
  abbrev pub zeilen : List (BestellungFertig Text Preis) → ℕ
  zeilen [] = 0
  zeilen (b ∷ rest) = length b.items

  unfoldable pub zeige_abrechnen :
      FertiggestelltVc Text Preis → Option (FertiggestelltVc Text Preis)
  zeige_abrechnen vc = zellen 0 (zeilen vc.bestellungen_bezahlen) vc

  -- `BestellungenBezahlen[0]`
  abbrev pub erste : List (BestellungFertig Text Preis) → Option (BestellungFertig Text Preis)
  erste [] = none
  erste (b ∷ rest) = some b

  -- `BestellungenBezahlen[0].bezahltMenge[section] = bm!`
  abbrev pub merke :
      ℕ → List ℤ → List (BestellungFertig Text Preis) → List (BestellungFertig Text Preis)
  merke section bm [] = []
  merke section bm (b ∷ rest) =
      (record b { bezahlt_menge = update b.bezahlt_menge section bm }) ∷ rest

  -- `didSelectRowAt` on the bills.
  unfoldable pub waehle_fertig :
      ℕ → ℕ → FertiggestelltVc Text Preis → Option (FertiggestelltVc Text Preis)
  waehle_fertig section row vc = get_elem? vc.bestellungen_fertig section >>= λ f.
      let gewaehlt =
        if not (same f.tischnummer vc.tischnummer_bezahlen)
        then f ∷ []
        else vc.bestellungen_bezahlen in
      erste gewaehlt >>= λ b. b.bezahlt_menge section >>= λ bm. mehr bm b.menge row >>= λ bm'.
      zeige_abrechnen (record vc {
        bestellungen_bezahlen = merke section bm' gewaehlt;
        tischnummer_bezahlen = b.tischnummer;
      })

  -- `didSelectRowAt` on the list of chosen items.
  unfoldable pub waehle_abrechnen :
      ℕ → FertiggestelltVc Text Preis → Option (FertiggestelltVc Text Preis)
  waehle_abrechnen row vc = erste vc.bestellungen_bezahlen >>= λ b.
      b.bezahlt_menge vc.true_section >>= λ bm. weniger bm row >>= λ bm'.
      zeige_abrechnen
        (record vc { bestellungen_bezahlen = merke vc.true_section bm' vc.bestellungen_bezahlen })

  -- `allesBezahlen`
  unfoldable pub alles_bezahlen :
      ℕ → FertiggestelltVc Text Preis → Option (FertiggestelltVc Text Preis)
  alles_bezahlen section vc = get_elem? vc.bestellungen_fertig section >>= λ f.
      let f' = record f { bezahlt_menge = update f.bezahlt_menge section f.menge } in
      zeige_abrechnen (record vc {
        bestellungen_fertig = set vc.bestellungen_fertig section f';
        bestellungen_bezahlen = f' ∷ [];
        tischnummer_bezahlen = f.tischnummer;
      })
