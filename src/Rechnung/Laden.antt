-- ===== src/Rechnung/Laden.antt =====
-- How SMOLO+/Views/FertiggestelltVC.swift loads finished orders: the observer of
-- `loadBestellungenKeys`, the end of `loadBestellungen`, and `reload`.
pub mod Ankunft
pub mod Anfang
use smolokellner.Base.{
  ℕ, Bool, Option, none, some, List, [], ◌∷◌, ◌++◌, ◌==◌, if◌then◌else◌, length,
}
use smolokellner.Rechnung.Daten.{Equal, ◌>>=◌, KellnerTvSection, FertiggestelltVc}
use smolokellner.Rechnung.Zusammenfuehren.{bestellungen_zusammenfuehren}

-- What the dictionaries hold of the orders that the database has delivered: the number of keys of
-- `BestellungKategorien`, and the section that an order's entries make, or `none` where one lacks.
pub record Inhalt (Text Preis : Type 0) : Type 0 where
  pub zahl : ℕ
  pub section_of : Text → Option (KellnerTvSection Text Preis)

module _ {Text : Type 0} ⦃eq : Equal Text⦄ where
  open eq use {same}

  -- `TischnummerIDs[tisch]?.append(id)`, or a new key. Swift may place a new key anywhere.
  unfoldable pub merke_tisch : Text → Text → List (Text × List Text) → List (Text × List Text)
  merke_tisch tisch id [] = (tisch, id ∷ []) ∷ []
  merke_tisch tisch id ((t, ids) ∷ rest) =
      let more = merke_tisch tisch id rest in
      if same t tisch then (t, ids ++ id ∷ []) ∷ rest else (t, ids) ∷ more

module _ {Text Preis : Type 0} ⦃eq : Equal Text⦄ where
  -- The observer, for a child with the status "fertig"; others it leaves alone.
  unfoldable pub neue_bestellung :
      Bool → Text → Text → FertiggestelltVc Text Preis → FertiggestelltVc Text Preis
  neue_bestellung fertig id tisch vc =
      if fertig
      then record vc {
        bestellung_ids = vc.bestellung_ids ++ id ∷ [];
        tischnummer_ids = merke_tisch tisch id vc.tischnummer_ids;
      }
      else vc

  -- `for i in 0..<bestellungIDs.count`
  unfoldable pub sections_anlegen :
      Inhalt Text Preis
      → List Text
      → FertiggestelltVc Text Preis
      → Option (FertiggestelltVc Text Preis)
  sections_anlegen inhalt [] vc = some vc
  sections_anlegen inhalt (id ∷ ids) vc = inhalt.section_of id >>= λ b.
      let vc' = record vc { bestellungen = vc.bestellungen ++ b ∷ [] } in
      (if length vc'.bestellungen == length vc'.bestellung_ids
        then bestellungen_zusammenfuehren vc'
        else some vc')
      >>= λ vc''. sections_anlegen inhalt ids vc''

  -- The end of `loadBestellungen`, once the entries of an order are in the dictionaries.
  unfoldable pub bestellung_geladen :
      Inhalt Text Preis → FertiggestelltVc Text Preis → Option (FertiggestelltVc Text Preis)
  bestellung_geladen inhalt vc =
      if length vc.bestellung_ids == inhalt.zahl
      then sections_anlegen inhalt vc.bestellung_ids vc
      else some vc

  -- `reload`, up to the dictionaries that it empties too.
  unfoldable pub reload : FertiggestelltVc Text Preis → FertiggestelltVc Text Preis
  reload vc = record vc { bestellungen = []; bestellung_ids = []; bestellungen_fertig = [] }
