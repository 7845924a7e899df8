-- ===== src/Speisekarte.antt =====
-- The menu of SMOLO+/Views/ProdukteVC.swift: `getUnterKategorienItems`, which reads the categories
-- out of the database's snapshots as these arrive, and the sections of Models/ExpandTVSection2.swift
-- that it makes of them. A trap of Swift, such as an index out of range or `nil!`, is `none`.
pub mod Spalte
pub mod Ankunft
pub mod Verfuegbar
use smolokellner.Base.{
  ℕ, zero, suc, Bool, true, false, Option, none, some, List, [], ◌∷◌, ◌++◌, ltb,
}
use smolokellner.Base.{get_elem?, set, length, map, if◌then◌else◌, ◌==◌}
use smolokellner.Rechnung.Daten.{Equal, ◌>>=◌, index_of}

module _ (Text Preis : Type 0) where
  -- What `SpeisekarteInformation(dictionary:)` reads; it never leaves a field `nil`.
  pub record SpeisekarteInformation : Type 0 where
    pub name : Text
    pub preis : Preis
    pub liter : Text
    pub beschreibung : Text
    pub verfuegbarkeit : Bool

  -- The children of the snapshot of a category, with those of their children that are dictionaries.
  pub record UnterSnapshot : Type 0 where
    pub key : Text
    pub items : List SpeisekarteInformation

  -- The snapshot of a category.
  pub record KategorieSnapshot : Type 0 where
    pub key : Text
    pub unterkategorien : List UnterSnapshot

  -- The arrays of the items. The dictionaries that hold them get a key together.
  pub record Artikelspalten : Type 0 where
    pub items : List (List Text)
    pub preis : List (List Preis)
    pub liter : List (List Text)
    pub beschreibung : List (List Text)
    pub verfuegbarkeit : List (List Bool)

  -- What the dictionaries hold for a category that is a key of `Unterkategorien`.
  pub record Karte : Type 0 where
    pub unterkategorien : List Text
    pub expanded : List Bool
    pub spalten : Option Artikelspalten

  pub record ExpandTvSection2 : Type 0 where
    pub kategorie : Text
    pub unterkategorie : List Text
    pub spalten : Artikelspalten
    pub expanded2 : List Bool
    pub expanded : Bool

  -- The dictionaries are association lists.
  pub record ProdukteVc : Type 0 where
    pub kategorien : List Text
    pub karten : List (Text × Karte)
    pub sections : List ExpandTvSection2

-- An entry in a new array, and an entry at the end of array `j`.
abbrev pub neu : {A : Type 0} → A → List (List A) → List (List A)
neu a xss = xss ++ (a ∷ []) ∷ []

abbrev pub an : {A : Type 0} → ℕ → A → List (List A) → Option (List (List A))
an j a xss = get_elem? xss j >>= λ xs. some (set xss j (xs ++ a ∷ []))

module _ {Text Preis : Type 0} where
  unfoldable pub neue_spalten :
      SpeisekarteInformation Text Preis → Artikelspalten Text Preis → Artikelspalten Text Preis
  neue_spalten item s = record {
    items = neu item.name s.items;
    preis = neu item.preis s.preis;
    liter = neu item.liter s.liter;
    beschreibung = neu item.beschreibung s.beschreibung;
    verfuegbarkeit = neu item.verfuegbarkeit s.verfuegbarkeit;
  }

  unfoldable pub artikel_anfuegen :
      ℕ
      → SpeisekarteInformation Text Preis
      → Artikelspalten Text Preis
      → Option (Artikelspalten Text Preis)
  artikel_anfuegen j item s = an j item.name s.items >>= λ items.
      an j item.preis s.preis >>= λ preis. an j item.liter s.liter >>= λ liter.
      an j item.beschreibung s.beschreibung >>= λ beschreibung.
      an j item.verfuegbarkeit s.verfuegbarkeit >>= λ verfuegbarkeit. some record {
        items = items;
        preis = preis;
        liter = liter;
        beschreibung = beschreibung;
        verfuegbarkeit = verfuegbarkeit;
      }

  abbrev pub leere : Artikelspalten Text Preis
  leere = record { items = []; preis = []; liter = []; beschreibung = []; verfuegbarkeit = [] }

  -- `for items in snapshotItem.children`
  unfoldable pub je_artikel :
      (SpeisekarteInformation Text Preis
        → Option (Artikelspalten Text Preis)
        → Option (Option (Artikelspalten Text Preis)))
      → List (SpeisekarteInformation Text Preis)
      → Option (Artikelspalten Text Preis)
      → Option (Option (Artikelspalten Text Preis))
  je_artikel step [] s = some s
  je_artikel step (item ∷ items) s = step item s >>= λ s'. je_artikel step items s'

module _ {Text Preis : Type 0} ⦃eq : Equal Text⦄ where
  open eq use {same}

  -- An item of a later subcategory.
  unfoldable pub artikel_weiter :
      List Text
      → Text
      → SpeisekarteInformation Text Preis
      → Option (Artikelspalten Text Preis)
      → Option (Option (Artikelspalten Text Preis))
  artikel_weiter unterkategorien key item spalten = spalten >>= λ s.
      if ltb (length s.items) (length unterkategorien)
      then some (some (neue_spalten item s))
      else (index_of same key unterkategorien >>= λ j.
          artikel_anfuegen j item s >>= λ s'. some (some s'))

  -- An item of the first one.
  unfoldable pub artikel_erst :
      List Text
      → Text
      → SpeisekarteInformation Text Preis
      → Option (Artikelspalten Text Preis)
      → Option (Option (Artikelspalten Text Preis))
  artikel_erst unterkategorien key item none = some (some (neue_spalten item leere))
  artikel_erst unterkategorien key item (some s) =
      index_of same key unterkategorien >>= λ j. artikel_anfuegen j item s >>= λ s'. some (some s')

  unfoldable pub lies_unterkategorie :
      UnterSnapshot Text Preis → Option (Karte Text Preis) → Option (Karte Text Preis)
  lies_unterkategorie u (some k) =
      let us = k.unterkategorien ++ u.key ∷ [] in
      je_artikel (artikel_weiter us u.key) u.items k.spalten >>= λ s.
      some record { unterkategorien = us; expanded = k.expanded ++ false ∷ []; spalten = s }
  lies_unterkategorie u none = je_artikel (artikel_erst (u.key ∷ []) u.key) u.items none >>= λ s.
      some record { unterkategorien = u.key ∷ []; expanded = false ∷ []; spalten = s }

  -- `for key in snapshotUnterkategorieItem.children`
  unfoldable pub lies_karte :
      List (UnterSnapshot Text Preis)
      → Option (Karte Text Preis)
      → Option (Option (Karte Text Preis))
  lies_karte [] k = some k
  lies_karte (u ∷ us) k = lies_unterkategorie u k >>= λ k'. lies_karte us (some k')

  unfoldable pub finde : Text → List (Text × Karte Text Preis) → Option (Karte Text Preis)
  finde key [] = none
  finde key (e ∷ es) = let rest = finde key es in if same e.0 key then some e.1 else rest

  unfoldable pub karte_setzen :
      Text → Karte Text Preis → List (Text × Karte Text Preis) → List (Text × Karte Text Preis)
  karte_setzen key k [] = (key, k) ∷ []
  karte_setzen key k (e ∷ es) =
      let rest = karte_setzen key k es in if same e.0 key then (key, k) ∷ es else e ∷ rest

  -- `for kategorie in self.Kategorien`, with `setSectionsSpeisekarte`.
  unfoldable pub set_sections_speisekarte :
      List Text
      → List (Text × Karte Text Preis)
      → List (ExpandTvSection2 Text Preis)
      → Option (List (ExpandTvSection2 Text Preis))
  set_sections_speisekarte [] karten sections = some sections
  set_sections_speisekarte (kategorie ∷ kategorien) karten sections =
      finde kategorie karten >>= λ k. k.spalten >>= λ s.
      set_sections_speisekarte kategorien karten (
        sections
        ++ record {
          kategorie = kategorie;
          unterkategorie = k.unterkategorien;
          spalten = s;
          expanded2 = k.expanded;
          expanded = false;
        }
          ∷ [])

  unfoldable pub karte_merken :
      Text
      → Option (Karte Text Preis)
      → List (Text × Karte Text Preis)
      → List (Text × Karte Text Preis)
  karte_merken key none karten = karten
  karte_merken key (some k) karten = karte_setzen key k karten

  -- The snapshot of a category arrives.
  unfoldable pub get_unter_kategorien_items :
      KategorieSnapshot Text Preis → ProdukteVc Text Preis → Option (ProdukteVc Text Preis)
  get_unter_kategorien_items c vc = lies_karte c.unterkategorien (finde c.key vc.karten) >>= λ k.
      let karten = karte_merken c.key k vc.karten in
      (if length karten == length vc.kategorien
        then set_sections_speisekarte vc.kategorien karten vc.sections
        else some vc.sections)
      >>= λ sections. some (record vc { karten = karten; sections = sections })

  -- The snapshots arrive one after the other.
  unfoldable pub ankuenfte :
      List (KategorieSnapshot Text Preis) → ProdukteVc Text Preis → Option (ProdukteVc Text Preis)
  ankuenfte [] vc = some vc
  ankuenfte (c ∷ cs) vc = get_unter_kategorien_items c vc >>= λ vc'. ankuenfte cs vc'
