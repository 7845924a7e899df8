-- ===== src/Rechnung/Zusammenfuehren.antt =====
-- `BestellungenZusammenführen` of SMOLO+/Views/FertiggestelltVC.swift: the orders of each table
-- in one bill.
pub mod Zeilen
pub mod Tisch
pub mod Rechnungen
use smolokellner.Base.{ℕ, suc, Bool, false, Option, none, some, List, [], ◌∷◌, ◌++◌, ℤ, pos}
use smolokellner.Base.{if◌then◌else◌, get_elem?, length, replicate}
use smolokellner.Rechnung.Daten.{Equal, ◌>>=◌, same_list, index_of, Dict, empty, update}
use smolokellner.Rechnung.Daten.{KellnerTvSection, BestellungFertig, FertiggestelltVc}

-- The inner loops that append arrays of arrays.
unfoldable pub flatten : {A : Type 0} → List (List A) → List A
flatten [] = []
flatten (xs ∷ xss) = xs ++ flatten xss

unfoldable pub flatten2 : {A : Type 0} → List (List (List A)) → List A
flatten2 [] = []
flatten2 (xss ∷ xsss) = flatten xss ++ flatten2 xsss

module _ (Text Preis : Type 0) where
  -- The local variables of the function that a table fills.
  pub record Sammlung : Type 0 where
    pub bestellung_items_ids : List (Text × List Text)
    pub alle_items : List Text
    pub alle_preise : List Preis
    pub alle_mengen : List ℤ
    pub alle_kategorien : List Text
    pub alle_unterkategorien : List Text
    pub bezahlt_mengen : Dict (List ℤ)
    pub mengebezahlt : List ℤ

module _ {Text Preis : Type 0} ⦃eq : Equal Text⦄ where
  open eq use {same}

  abbrev pub leer : Sammlung Text Preis
  leer = record {
    bestellung_items_ids = [];
    alle_items = [];
    alle_preise = [];
    alle_mengen = [];
    alle_kategorien = [];
    alle_unterkategorien = [];
    bezahlt_mengen = empty;
    mengebezahlt = [];
  }

  -- `for _ in item`: the subcategory and the category of each item, found by `index(of:)`.
  unfoldable pub je_zeile :
      KellnerTvSection Text Preis
      → List (List Text)
      → List Text
      → List Text
      → List Text
      → Sammlung Text Preis
      → Option (Sammlung Text Preis)
  je_zeile b items ukats item [] s = some s
  je_zeile b items ukats item (x ∷ rest) s = index_of (same_list same) item items >>= λ i.
      get_elem? ukats i >>= λ ukat. index_of (same_list (same_list same)) items b.items >>= λ j.
      get_elem? b.kategorie j >>= λ kat. je_zeile b items ukats item rest (record s {
        alle_unterkategorien = s.alle_unterkategorien ++ ukat ∷ [];
        alle_kategorien = s.alle_kategorien ++ kat ∷ [];
      })

  -- `for item in items`
  unfoldable pub je_item :
      KellnerTvSection Text Preis
      → List (List Text)
      → List Text
      → List (List Text)
      → Sammlung Text Preis
      → Option (Sammlung Text Preis)
  je_item b items ukats [] s = some s
  je_item b items ukats (item ∷ rest) s =
      je_zeile b items ukats item item (record s { alle_items = s.alle_items ++ item }) >>= λ s'.
      je_item b items ukats rest s'

  -- `for items in bestellung.items`
  unfoldable pub je_kategorie :
      KellnerTvSection Text Preis
      → List (List (List Text))
      → Sammlung Text Preis
      → Option (Sammlung Text Preis)
  je_kategorie b [] s = some s
  je_kategorie b (items ∷ rest) s = index_of (same_list (same_list same)) items b.items >>= λ i.
      get_elem? b.unterkategorie i >>= λ ukats.
      je_item b items ukats items s >>= λ s'. je_kategorie b rest s'

  -- The body of the loop over the orders, for an order of the table in the given section.
  unfoldable pub aufnehmen :
      ℕ → KellnerTvSection Text Preis → Sammlung Text Preis → Option (Sammlung Text Preis)
  aufnehmen section b s = je_kategorie b b.items s >>= λ s'.
      let bezahlt = s'.mengebezahlt ++ replicate (length (flatten2 b.menge)) (pos 0) in
      some (record s' {
        alle_preise = s'.alle_preise ++ flatten2 b.preis;
        alle_mengen = s'.alle_mengen ++ flatten2 b.menge;
        mengebezahlt = bezahlt;
        bestellung_items_ids = (b.bestellung_id, flatten2 b.items_id) ∷ s'.bestellung_items_ids;
        bezahlt_mengen = update s'.bezahlt_mengen section bezahlt;
      })

  -- `for bestellung in Bestellungen`
  unfoldable pub je_bestellung :
      ℕ
      → Text
      → List (KellnerTvSection Text Preis)
      → Sammlung Text Preis
      → Option (Sammlung Text Preis)
  je_bestellung section tisch [] s = some s
  je_bestellung section tisch (b ∷ rest) s =
      (if same b.tischnummer tisch then aufnehmen section b s else some s) >>= λ s'.
      je_bestellung section tisch rest s'

  -- `setSectionsBestellungenFertig`; `AlleItemsID` is always empty there.
  abbrev pub fertig_section : Text → Sammlung Text Preis → BestellungFertig Text Preis
  fertig_section tisch s = record {
    bestellung_id = s.bestellung_items_ids;
    tischnummer = tisch;
    kategorie = s.alle_kategorien;
    unterkategorie = s.alle_unterkategorien;
    items = s.alle_items;
    preis = s.alle_preise;
    menge = s.alle_mengen;
    items_id = [];
    bezahlt_menge = s.bezahlt_mengen;
    expanded = false;
  }

  -- `for tisch in TischnummerIDs.keys`: the bills that it appends.
  unfoldable pub je_tisch :
      ℕ
      → List (Text × List Text)
      → List (KellnerTvSection Text Preis)
      → Option (List (BestellungFertig Text Preis))
  je_tisch section [] bs = some []
  je_tisch section ((tisch, ids) ∷ rest) bs = je_bestellung section tisch bs leer >>= λ s.
      je_tisch (suc section) rest bs >>= λ more. some (fertig_section tisch s ∷ more)

  unfoldable pub bestellungen_zusammenfuehren :
      FertiggestelltVc Text Preis → Option (FertiggestelltVc Text Preis)
  bestellungen_zusammenfuehren vc = je_tisch 0 vc.tischnummer_ids vc.bestellungen >>= λ neue.
      some (record vc { bestellungen_fertig = vc.bestellungen_fertig ++ neue })
