-- ===== src/Rechnung/Lesen/Durchlauf/Getrennt.antt =====
-- What reading a whole order makes: the arrays of the items, and the extras beside them.
use smolokellner.Base.{◌≡◌}
use smolokellner.Base.{Option, none, some, List, [], ◌∷◌, ◌++◌, map}
use smolokellner.Rechnung.Daten.{Equal, ◌>>=◌}
use smolokellner.Rechnung.Lesen.{
  Kategorie, Schluessel, information, kategorie, Eintrag, je_unter, lies_unter, lies_unter_erste,
}
use smolokellner.Rechnung.Lesen.Extras.{KategorieExtras, Lesestand, lies_extras}
use smolokellner.Rechnung.Lesen.Durchlauf.{
  KategorieSnap, SchluesselSnap, information_snap, kategorie_snap, nur_items, nur_extras,
}
use smolokellner.Rechnung.Lesen.Durchlauf.{je_unter_snap, lies_unter_snap, lies_unter_snap_erste}

module _ {Text Preis : Type 0} where
  abbrev kategorie_items : KategorieSnap Text Preis → Kategorie Text Preis
  kategorie_items c = record { key = c.key; unterkategorien = map nur_items c.unterkategorien }

  abbrev kategorie_extras : KategorieSnap Text Preis → KategorieExtras Text Preis
  kategorie_extras c = record { key = c.key; unterkategorien = map nur_extras c.unterkategorien }

  -- The snapshot as the loops over the items see it, and its categories as those over the extras do.
  unfoldable pub ohne_extras : List (SchluesselSnap Text Preis) → List (Schluessel Text Preis)
  ohne_extras [] = []
  ohne_extras (information_snap tisch ∷ rest) = information tisch ∷ ohne_extras rest
  ohne_extras (kategorie_snap c ∷ rest) = kategorie (kategorie_items c) ∷ ohne_extras rest

  unfoldable pub extras_von : List (SchluesselSnap Text Preis) → List (KategorieExtras Text Preis)
  extras_von [] = []
  extras_von (information_snap tisch ∷ rest) = extras_von rest
  extras_von (kategorie_snap c ∷ rest) = kategorie_extras c ∷ extras_von rest

module _ {Text Preis : Type 0} ⦃eq : Equal Text⦄ where
  -- A category is read from `e` to `e'`, with `o` the categories before.
  record GleicheKategorie (c : KategorieSnap Text Preis) (o : Option (List Text))
      (e e' : Eintrag Text Preis)
      (ganz : Lesestand Text Preis → Option (Eintrag Text Preis × Lesestand Text Preis))
      : Type 0 where
    lauf : Lesestand Text Preis → Option (Lesestand Text Preis)
    links : (s : Lesestand Text Preis) → ganz s ≡ (lauf s >>= λ s'. some (e', s'))
    rechts :
        (rest : List (KategorieExtras Text Preis)) (s : Lesestand Text Preis)
        → lies_extras (kategorie_extras c ∷ rest) o e.unterkategorien s
          ≡ (lauf s >>= λ s'. lies_extras rest e'.kategorien e'.unterkategorien s')

  abbrev items_kategorie :
      KategorieSnap Text Preis
      → Option (List Text)
      → Eintrag Text Preis
      → Option (Eintrag Text Preis)
  items_kategorie c o e = elim o as (λ x. Option (Eintrag Text Preis)) [
    | none ↦
        let kats = c.key ∷ [] in
        je_unter (lies_unter_erste kats c.key) (kategorie_items c).unterkategorien
          (record e { kategorien = some kats })
    | some old ↦
        let kats = old ++ c.key ∷ [] in
        je_unter (lies_unter kats c.key) (kategorie_items c).unterkategorien
          (record e { kategorien = some kats })
  ]

  abbrev snap_kategorie :
      KategorieSnap Text Preis
      → Option (List Text)
      → Eintrag Text Preis
      → Lesestand Text Preis
      → Option (Eintrag Text Preis × Lesestand Text Preis)
  snap_kategorie c o e s = elim o as (λ x. Option (Eintrag Text Preis × Lesestand Text Preis)) [
    | none ↦
        let kats = c.key ∷ [] in
        je_unter_snap (lies_unter_snap_erste kats c.key) c.unterkategorien
          (record e { kategorien = some kats }) s
    | some old ↦
        let kats = old ++ c.key ∷ [] in
        je_unter_snap (lies_unter_snap kats c.key) c.unterkategorien
          (record e { kategorien = some kats }) s
  ]
