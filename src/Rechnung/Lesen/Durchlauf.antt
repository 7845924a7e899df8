-- ===== src/Rechnung/Lesen/Durchlauf.antt =====
-- The whole traversal of `loadBestellungen` of SMOLO+/Views/FertiggestelltVC.swift: behind the loop
-- over the items of each subcategory stands the loop over their extras, which can trap and then ends
-- the reading of the order.
pub mod Gleich
pub mod Teile
pub mod Getrennt
use smolokellner.Base.{ℕ, Option, none, some, List, [], ◌∷◌, ◌++◌, map, ltb, length, if◌then◌else◌}
use smolokellner.Rechnung.Daten.{Equal, ◌>>=◌}
use smolokellner.Rechnung.Lesen.{
  BestellungInfos, Unterkategorie, Kategorie, Schluessel, Eintrag, lies_unter, lies_unter_erste,
}
use smolokellner.Rechnung.Lesen.Extras.{
  Extra, ExtrasSnap, UnterExtras, KategorieExtras, Lesestand, je_itemssnap, extra_neu, extra_weiter,
  extra_weiter_erste, extra_erst,
}

module _ (Text Preis : Type 0) where
  -- An item of the snapshot, with its child "Extras", if any.
  pub record ItemSnap : Type 0 where
    pub infos : BestellungInfos Text Preis
    pub extras : Option (ExtrasSnap Text Preis)

  pub record UnterSnap : Type 0 where
    pub key : Text
    pub items : List ItemSnap

  pub record KategorieSnap : Type 0 where
    pub key : Text
    pub unterkategorien : List UnterSnap

  pub data SchluesselSnap : Type 0 where
    information_snap : Text → SchluesselSnap
    kategorie_snap : KategorieSnap → SchluesselSnap

module _ {Text Preis : Type 0} where
  -- What the loops over the items see of a subcategory, and what those over the extras see.
  abbrev pub nur_items : UnterSnap Text Preis → Unterkategorie Text Preis
  nur_items u = record { key = u.key; items = map (λ i. i.infos) u.items }

  abbrev pub nur_extras : UnterSnap Text Preis → UnterExtras Text Preis
  nur_extras u = record { key = u.key; items = map (λ i. i.extras) u.items }

  -- The loop over `Itemssnap`, with the subcategories as they stand then.
  abbrev pub dann_extras :
      (List (List Text)
        → ℕ
        → Extra Text Preis
        → Lesestand Text Preis
        → Option (Lesestand Text Preis))
      → UnterSnap Text Preis
      → Eintrag Text Preis
      → Lesestand Text Preis
      → Option (Eintrag Text Preis × Lesestand Text Preis)
  dann_extras step u e s =
      e.unterkategorien >>= λ x. je_itemssnap (step x) (nur_extras u).items s >>= λ s'. some (e, s')

  -- `for children in childsnapshotUnterkategorie.children`
  unfoldable pub je_unter_snap :
      (UnterSnap Text Preis
        → Eintrag Text Preis
        → Lesestand Text Preis
        → Option (Eintrag Text Preis × Lesestand Text Preis))
      → List (UnterSnap Text Preis)
      → Eintrag Text Preis
      → Lesestand Text Preis
      → Option (Eintrag Text Preis × Lesestand Text Preis)
  je_unter_snap step [] e s = some (e, s)
  je_unter_snap step (u ∷ us) e s = step u e s >>= λ (e', s'). je_unter_snap step us e' s'

module _ {Text Preis : Type 0} ⦃eq : Equal Text⦄ where
  -- A subcategory of a category that is not the order's first.
  unfoldable pub lies_unter_snap :
      List Text
      → Text
      → UnterSnap Text Preis
      → Eintrag Text Preis
      → Lesestand Text Preis
      → Option (Eintrag Text Preis × Lesestand Text Preis)
  lies_unter_snap kats key u e s = e.unterkategorien >>= λ x.
      lies_unter kats key (nur_items u) e >>= λ e'.
      if ltb (length x) (length kats)
      then dann_extras (λ x'. extra_neu kats x' key u.key) u e' s
      else dann_extras (λ x'. extra_weiter kats x' key u.key) u e' s

  -- One of the order's first category.
  unfoldable pub lies_unter_snap_erste :
      List Text
      → Text
      → UnterSnap Text Preis
      → Eintrag Text Preis
      → Lesestand Text Preis
      → Option (Eintrag Text Preis × Lesestand Text Preis)
  lies_unter_snap_erste kats key u e s = lies_unter_erste kats key (nur_items u) e >>= λ e'.
      elim e.unterkategorien [
        | none ↦ dann_extras (λ x'. extra_erst kats x' key u.key) u e' s
        | some x ↦ dann_extras (λ x'. extra_weiter_erste kats x' key u.key) u e' s
      ]

  unfoldable pub lies_kategorie_snap :
      KategorieSnap Text Preis
      → Eintrag Text Preis
      → Lesestand Text Preis
      → Option (Eintrag Text Preis × Lesestand Text Preis)
  lies_kategorie_snap c e s = elim e.kategorien [
    | none ↦
        let kats = c.key ∷ [] in
        je_unter_snap (lies_unter_snap_erste kats c.key) c.unterkategorien
          (record e { kategorien = some kats }) s
    | some old ↦
        let kats = old ++ c.key ∷ [] in
        je_unter_snap (lies_unter_snap kats c.key) c.unterkategorien
          (record e { kategorien = some kats }) s
  ]

  -- `for key in snapshot.children`
  unfoldable pub load_bestellungen :
      List (SchluesselSnap Text Preis)
      → Eintrag Text Preis
      → Lesestand Text Preis
      → Option (Eintrag Text Preis × Lesestand Text Preis)
  load_bestellungen [] e s = some (e, s)
  load_bestellungen (information_snap tisch ∷ rest) e s =
      load_bestellungen rest (record e { tischnummer = some tisch }) s
  load_bestellungen (kategorie_snap c ∷ rest) e s =
      lies_kategorie_snap c e s >>= λ (e', s'). load_bestellungen rest e' s'
