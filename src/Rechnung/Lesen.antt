-- ===== src/Rechnung/Lesen.antt =====
-- How `loadBestellungen` of SMOLO+/Views/FertiggestelltVC.swift reads an order out of the
-- database's snapshot: its table, categories, subcategories and items. `lies` is the traversal with
-- the loops over the items alone, Extras has those over the extras, which stand between them, and
-- Durchlauf the whole traversal with both. The comments and litres of the items, and the list of
-- expanded subcategories, are left out.
pub mod Abbild
pub mod Schleifen
pub mod Unter
pub mod Ganz
pub mod Abschnitt
pub mod Extras
pub mod Durchlauf
use smolokellner.Base.{ℕ, zero, suc, Bool, Option, none, some, List, [], ◌∷◌, ◌++◌, ℤ, ltb}
use smolokellner.Base.{get_elem?, set, length, if◌then◌else◌}
use smolokellner.Rechnung.Daten.{Equal, ◌>>=◌, same_list, index_of}

module _ (Text Preis : Type 0) where
  -- What `BestellungInfos(dictionary:)` reads of an item.
  pub record BestellungInfos : Type 0 where
    pub item_name : Text
    pub item_preis : Preis
    pub item_menge : ℤ
    pub bestellung_item_id : Text

  -- The children of the snapshot, with those of their children that are dictionaries.
  pub record Unterkategorie : Type 0 where
    pub key : Text
    pub items : List BestellungInfos

  pub record Kategorie : Type 0 where
    pub key : Text
    pub unterkategorien : List Unterkategorie

  pub data Schluessel : Type 0 where
    information : Text → Schluessel
    kategorie : Kategorie → Schluessel

  -- The arrays of the items. The dictionaries that hold them get and lose a key together.
  pub record Spalten : Type 0 where
    pub namen : List (List (List Text))
    pub preise : List (List (List Preis))
    pub mengen : List (List (List ℤ))
    pub items_id : List (List (List Text))

  -- What the dictionaries hold for the order, `none` without its key.
  pub record Eintrag : Type 0 where
    pub tischnummer : Option Text
    pub kategorien : Option (List Text)
    pub unterkategorien : Option (List (List Text))
    pub spalten : Option Spalten

-- Where an item goes: into a new array of arrays, into a new array of category `k`, or at the end
-- of array `j` of it.
pub data Platz : Type 0 where
  kategorie_neu : Platz
  unter_neu : ℕ → Platz
  an : ℕ → ℕ → Platz

unfoldable pub legen :
    {A : Type 0} → Platz → A → List (List (List A)) → Option (List (List (List A)))
legen kategorie_neu a spalte = some (spalte ++ ((a ∷ []) ∷ []) ∷ [])
legen (unter_neu k) a spalte =
    get_elem? spalte k >>= λ unter. some (set spalte k (unter ++ (a ∷ []) ∷ []))
legen (an k j) a spalte = get_elem? spalte k >>= λ unter.
    get_elem? unter j >>= λ items. some (set spalte k (set unter j (items ++ a ∷ [])))

module _ {Text Preis : Type 0} where
  unfoldable pub anfuegen :
      Platz → BestellungInfos Text Preis → Spalten Text Preis → Option (Spalten Text Preis)
  anfuegen platz item s = legen platz item.item_name s.namen >>= λ namen.
      legen platz item.item_preis s.preise >>= λ preise.
      legen platz item.item_menge s.mengen >>= λ mengen.
      legen platz item.bestellung_item_id s.items_id >>= λ ids.
      some (record { namen = namen; preise = preise; mengen = mengen; items_id = ids })

  abbrev pub erster : BestellungInfos Text Preis → Spalten Text Preis
  erster item = record {
    namen = ((item.item_name ∷ []) ∷ []) ∷ [];
    preise = ((item.item_preis ∷ []) ∷ []) ∷ [];
    mengen = ((item.item_menge ∷ []) ∷ []) ∷ [];
    items_id = ((item.bestellung_item_id ∷ []) ∷ []) ∷ [];
  }

  -- `for Item in childsnapshotItem.children`
  unfoldable pub je_eintrag :
      (BestellungInfos Text Preis
        → Option (Spalten Text Preis)
        → Option (Option (Spalten Text Preis)))
      → List (BestellungInfos Text Preis)
      → Option (Spalten Text Preis)
      → Option (Option (Spalten Text Preis))
  je_eintrag step [] s = some s
  je_eintrag step (item ∷ items) s = step item s >>= λ s'. je_eintrag step items s'

module _ {Text : Type 0} ⦃eq : Equal Text⦄ where
  open eq use {same}

  -- `x![kategorie].append(children.key)`
  unfoldable pub unter_anhaengen :
      List Text → Text → Text → List (List Text) → Option (List (List Text))
  unter_anhaengen kats key ukey x =
      index_of same key kats >>= λ k. get_elem? x k >>= λ newx. some (set x k (newx ++ ukey ∷ []))

module _ {Text Preis : Type 0} ⦃eq : Equal Text⦄ where
  open eq use {same}

  -- An item at the end of the array of subcategory `ukey` of category `key`.
  unfoldable pub ans_ende :
      List Text
      → List (List Text)
      → Text
      → Text
      → BestellungInfos Text Preis
      → Spalten Text Preis
      → Option (Spalten Text Preis)
  ans_ende kats x key ukey item s = index_of same key kats >>= λ k.
      get_elem? x k >>= λ newx. index_of same ukey newx >>= λ j. anfuegen (an k j) item s

  -- An item of the first subcategory of a category that is not the order's first.
  unfoldable pub item_neu :
      List Text
      → List (List Text)
      → Text
      → Text
      → BestellungInfos Text Preis
      → Option (Spalten Text Preis)
      → Option (Option (Spalten Text Preis))
  item_neu kats x key ukey item spalten = spalten >>= λ s.
      (if ltb (length s.namen) (length kats)
        then anfuegen kategorie_neu item s
        else ans_ende kats x key ukey item s)
      >>= λ s'. some (some s')

  -- An item of a later subcategory.
  unfoldable pub item_weiter :
      List Text
      → List (List Text)
      → Text
      → Text
      → BestellungInfos Text Preis
      → Option (Spalten Text Preis)
      → Option (Option (Spalten Text Preis))
  item_weiter kats x key ukey item spalten = spalten >>= λ s. index_of same key kats >>= λ k.
      get_elem? s.namen k >>= λ newnew_item. get_elem? x k >>= λ newx.
      (if ltb (length newnew_item) (length newx)
        then anfuegen (unter_neu k) item s
        else ans_ende kats x key ukey item s)
      >>= λ s'. some (some s')

  -- The same in the order's first category, where the code does nothing without the arrays.
  abbrev pub item_weiter_erste :
      List Text
      → List (List Text)
      → Text
      → Text
      → BestellungInfos Text Preis
      → Option (Spalten Text Preis)
      → Option (Option (Spalten Text Preis))
  item_weiter_erste kats x key ukey item none = some none
  item_weiter_erste kats x key ukey item (some s) = item_weiter kats x key ukey item (some s)

  -- An item of the first subcategory of the order's first category.
  unfoldable pub item_erst :
      List Text
      → List (List Text)
      → Text
      → Text
      → BestellungInfos Text Preis
      → Option (Spalten Text Preis)
      → Option (Option (Spalten Text Preis))
  item_erst kats x key ukey item none = some (some (erster item))
  item_erst kats x key ukey item (some s) = index_of same key kats >>= λ k.
      index_of (same_list same) (ukey ∷ []) x >>= λ j.
      anfuegen (an k j) item s >>= λ s'. some (some s')

  -- A subcategory, with what is done for its items.
  abbrev pub mit_items :
      List (List Text)
      → Option (Option (Spalten Text Preis))
      → Eintrag Text Preis
      → Option (Eintrag Text Preis)
  mit_items x spalten e = spalten >>= λ s. some (record e { unterkategorien = some x; spalten = s })

  unfoldable pub lies_unter :
      List Text
      → Text
      → Unterkategorie Text Preis
      → Eintrag Text Preis
      → Option (Eintrag Text Preis)
  lies_unter kats key u e = e.unterkategorien >>= λ x.
      if ltb (length x) (length kats)
      then (let x' = x ++ (u.key ∷ []) ∷ [] in
          mit_items x' (je_eintrag (item_neu kats x' key u.key) u.items e.spalten) e)
      else (unter_anhaengen kats key u.key x >>= λ x'.
          mit_items x' (je_eintrag (item_weiter kats x' key u.key) u.items e.spalten) e)

  -- The same in the order's first category.
  unfoldable pub lies_unter_erste :
      List Text
      → Text
      → Unterkategorie Text Preis
      → Eintrag Text Preis
      → Option (Eintrag Text Preis)
  lies_unter_erste kats key u e = elim e.unterkategorien [
    | none ↦
        let x = (u.key ∷ []) ∷ [] in
        mit_items x (je_eintrag (item_erst kats x key u.key) u.items e.spalten) e
    | some x ↦ unter_anhaengen kats key u.key x >>= λ x'.
        mit_items x' (je_eintrag (item_weiter_erste kats x' key u.key) u.items e.spalten) e
  ]

  -- `for children in childsnapshotUnterkategorie.children`
  unfoldable pub je_unter :
      (Unterkategorie Text Preis → Eintrag Text Preis → Option (Eintrag Text Preis))
      → List (Unterkategorie Text Preis)
      → Eintrag Text Preis
      → Option (Eintrag Text Preis)
  je_unter step [] e = some e
  je_unter step (u ∷ us) e = step u e >>= λ e'. je_unter step us e'

  unfoldable pub lies_kategorie :
      Kategorie Text Preis → Eintrag Text Preis → Option (Eintrag Text Preis)
  lies_kategorie c e = elim e.kategorien [
    | none ↦
        let kats = c.key ∷ [] in
        je_unter (lies_unter_erste kats c.key) c.unterkategorien
          (record e { kategorien = some kats })
    | some old ↦
        let kats = old ++ c.key ∷ [] in
        je_unter (lies_unter kats c.key) c.unterkategorien (record e { kategorien = some kats })
  ]

  -- `for key in snapshot.children`, without the loops over the extras.
  unfoldable pub lies :
      List (Schluessel Text Preis) → Eintrag Text Preis → Option (Eintrag Text Preis)
  lies [] e = some e
  lies (information tisch ∷ rest) e = lies rest (record e { tischnummer = some tisch })
  lies (kategorie c ∷ rest) e = lies_kategorie c e >>= λ e'. lies rest e'
