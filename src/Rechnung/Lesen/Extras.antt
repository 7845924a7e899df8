-- ===== src/Rechnung/Lesen/Extras.antt =====
-- How `loadBestellungen` of SMOLO+/Views/FertiggestelltVC.swift reads the extras of the items: the
-- loops over `Itemssnap` behind those over the items, from the categories and the subcategories as
-- these stand there. KellnerVC.swift and the other screens repeat them.
pub mod Erste
pub mod Vertauscht
use smolokellner.Base.{ℕ, suc, Bool, ◌&&◌, Option, none, some, List, [], ◌∷◌, ◌++◌, ltb, ◌==◌}
use smolokellner.Base.{get_elem?, set, length, if◌then◌else◌}
use smolokellner.Rechnung.Daten.{Equal, ◌>>=◌, same_list, index_of}
use smolokellner.Rechnung.Lesen.{Platz, kategorie_neu, unter_neu, an, legen, unter_anhaengen}

module _ (Text Preis : Type 0) where
  -- An extra, as `BestellungInfos(dictionary:)` reads it.
  pub record Extra : Type 0 where
    pub item_name : Text
    pub item_preis : Preis

  -- The child "Extras" of an item: the number of its children, and those that are dictionaries.
  pub record ExtrasSnap : Type 0 where
    pub children_count : ℕ
    pub extras : List Extra

  -- A subcategory and a category of the snapshot, by the child "Extras" of each item, if any.
  pub record UnterExtras : Type 0 where
    pub key : Text
    pub items : List (Option ExtrasSnap)

  pub record KategorieExtras : Type 0 where
    pub key : Text
    pub unterkategorien : List UnterExtras

  -- `BestellungenItemsExtrasNamen` and `BestellungenItemsExtrasPreise` at the order.
  pub record ExtraSpalten : Type 0 where
    pub namen : List (List (List (List Text)))
    pub preise : List (List (List (List Preis)))

  -- With the variables `extrasString` and `extrasPreis`.
  pub record Lesestand : Type 0 where
    pub spalten : Option ExtraSpalten
    pub extras_string : List Text
    pub extras_preis : List Preis

module _ {Text Preis : Type 0} where
  unfoldable pub merken : Extra Text Preis → Lesestand Text Preis → Lesestand Text Preis
  merken e s = record s {
    extras_string = s.extras_string ++ e.item_name ∷ [];
    extras_preis = s.extras_preis ++ e.item_preis ∷ [];
  }

  -- `extrasString.count == extrasSnap.childrenCount && ...`
  unfoldable pub voll : ℕ → Lesestand Text Preis → Bool
  voll count s = length s.extras_string == count && length s.extras_preis == count

  -- What is collected goes to its place, and the variables are emptied.
  unfoldable pub ablegen :
      Platz → ExtraSpalten Text Preis → Lesestand Text Preis → Option (Lesestand Text Preis)
  ablegen platz sp s = legen platz s.extras_string sp.namen >>= λ namen.
      legen platz s.extras_preis sp.preise >>= λ preise. some (record {
        spalten = some (record { namen = namen; preise = preise });
        extras_string = [];
        extras_preis = [];
      })

  -- `insert(extrasPreis, at: 0)` for array `j` of category `k`; the names stay as they are.
  unfoldable pub vorn_einfuegen :
      ℕ → ℕ → ExtraSpalten Text Preis → Lesestand Text Preis → Option (Lesestand Text Preis)
  vorn_einfuegen k j sp s = get_elem? sp.preise k >>= λ unter. get_elem? unter j >>= λ preise.
      some (record {
        spalten =
            some (record sp { preise = set sp.preise k (set unter j (s.extras_preis ∷ preise)) });
        extras_string = [];
        extras_preis = [];
      })

  -- The first extras of the order.
  unfoldable pub erste_spalten : Lesestand Text Preis → Lesestand Text Preis
  erste_spalten s = record {
    spalten = some (record {
      namen = ((s.extras_string ∷ []) ∷ []) ∷ [];
      preise = ((s.extras_preis ∷ []) ∷ []) ∷ [];
    });
    extras_string = [];
    extras_preis = [];
  }

  -- `for extra in childsnapshotExtra.children`
  unfoldable pub je_extra :
      (Extra Text Preis → Lesestand Text Preis → Option (Lesestand Text Preis))
      → List (Extra Text Preis)
      → Lesestand Text Preis
      → Option (Lesestand Text Preis)
  je_extra step [] s = some s
  je_extra step (e ∷ es) s = step e s >>= λ s'. je_extra step es s'

  -- `for Itemssnap in childsnapshotItem.children`
  unfoldable pub je_itemssnap :
      (ℕ → Extra Text Preis → Lesestand Text Preis → Option (Lesestand Text Preis))
      → List (Option (ExtrasSnap Text Preis))
      → Lesestand Text Preis
      → Option (Lesestand Text Preis)
  je_itemssnap step [] s = some s
  je_itemssnap step (none ∷ items) s = je_itemssnap step items s
  je_itemssnap step (some snap ∷ items) s =
      je_extra (step snap.children_count) snap.extras s >>= λ s'. je_itemssnap step items s'

module _ {Text Preis : Type 0} ⦃eq : Equal Text⦄ where
  open eq use {same}

  -- In the first subcategory of a category that is not the order's first.
  unfoldable pub extra_neu :
      List Text
      → List (List Text)
      → Text
      → Text
      → ℕ
      → Extra Text Preis
      → Lesestand Text Preis
      → Option (Lesestand Text Preis)
  extra_neu kats x key ukey count e s = s.spalten >>= λ sp.
      let s' = merken e s in
      if ltb (length sp.namen) (length kats)
      then (if voll count s' then ablegen kategorie_neu sp s' else some s')
      else (index_of same key kats >>= λ k. get_elem? sp.namen k >>= λ newnew_extras.
          get_elem? sp.preise k >>= λ newnew_preis.
          if voll count s'
          then (get_elem? x k >>= λ newx. index_of same ukey newx >>= λ j. ablegen (an k j) sp s')
          else some s')

  -- In a later subcategory of such a category.
  unfoldable pub extra_weiter :
      List Text
      → List (List Text)
      → Text
      → Text
      → ℕ
      → Extra Text Preis
      → Lesestand Text Preis
      → Option (Lesestand Text Preis)
  extra_weiter kats x key ukey count e s = s.spalten >>= λ sp. index_of same key kats >>= λ k.
      get_elem? sp.namen k >>= λ newnew_extras. get_elem? sp.preise k >>= λ newnew_preis.
      get_elem? x k >>= λ newx.
      let s' = merken e s in
      if ltb (length newnew_extras) (length newx)
      then ablegen (unter_neu k) sp s'
      else (if voll count s'
          then (index_of same ukey newx >>= λ j. ablegen (an k j) sp s')
          else some s')

  -- In a later subcategory of the order's first category.
  unfoldable pub extra_weiter_erste :
      List Text
      → List (List Text)
      → Text
      → Text
      → ℕ
      → Extra Text Preis
      → Lesestand Text Preis
      → Option (Lesestand Text Preis)
  extra_weiter_erste kats x key ukey count e s = s.spalten >>= λ sp. index_of same key kats >>= λ k.
      get_elem? sp.namen k >>= λ newnew_extras. get_elem? sp.preise k >>= λ newnew_preis.
      let s' = merken e s in
      if voll count s'
      then (get_elem? x k >>= λ b. index_of same ukey b >>= λ c.
          if ltb (length newnew_extras) (suc c)
          then ablegen (unter_neu k) sp s'
          else ablegen (an k c) sp s')
      else some s'

  -- In the first subcategory of the order's first category.
  unfoldable pub extra_erst :
      List Text
      → List (List Text)
      → Text
      → Text
      → ℕ
      → Extra Text Preis
      → Lesestand Text Preis
      → Option (Lesestand Text Preis)
  extra_erst kats x key ukey count e s =
      let s' = merken e s in
      elim s.spalten [
        | none ↦ if voll count s' then some (erste_spalten s') else some s'
        | some sp ↦ index_of same key kats >>= λ k. get_elem? sp.namen k >>= λ newnew_extras.
            get_elem? sp.preise k >>= λ newnew_preis.
            if voll count s'
            then (index_of (same_list same) (ukey ∷ []) x >>= λ j. vorn_einfuegen k j sp s')
            else some s'
      ]

  -- A subcategory; the second result is the subcategories with it.
  unfoldable pub extras_unter :
      List Text
      → Text
      → UnterExtras Text Preis
      → List (List Text)
      → Lesestand Text Preis
      → Option (List (List Text) × Lesestand Text Preis)
  extras_unter kats key u x s =
      if ltb (length x) (length kats)
      then (let x' = x ++ (u.key ∷ []) ∷ [] in
          je_itemssnap (extra_neu kats x' key u.key) u.items s >>= λ s'. some (x', s'))
      else (unter_anhaengen kats key u.key x >>= λ x'.
          je_itemssnap (extra_weiter kats x' key u.key) u.items s >>= λ s'. some (x', s'))

  unfoldable pub extras_unter_erste :
      List Text
      → Text
      → UnterExtras Text Preis
      → Option (List (List Text))
      → Lesestand Text Preis
      → Option (List (List Text) × Lesestand Text Preis)
  extras_unter_erste kats key u none s =
      let x = (u.key ∷ []) ∷ [] in
      je_itemssnap (extra_erst kats x key u.key) u.items s >>= λ s'. some (x, s')
  extras_unter_erste kats key u (some x) s = unter_anhaengen kats key u.key x >>= λ x'.
      je_itemssnap (extra_weiter_erste kats x' key u.key) u.items s >>= λ s'. some (x', s')

  -- `for children in childsnapshotUnterkategorie.children`
  unfoldable pub extras_je_unter :
      (UnterExtras Text Preis
        → Option (List (List Text))
        → Lesestand Text Preis
        → Option (List (List Text) × Lesestand Text Preis))
      → List (UnterExtras Text Preis)
      → Option (List (List Text))
      → Lesestand Text Preis
      → Option (Option (List (List Text)) × Lesestand Text Preis)
  extras_je_unter step [] x s = some (x, s)
  extras_je_unter step (u ∷ us) x s =
      step u x s >>= λ (x', s'). extras_je_unter step us (some x') s'

  -- `for key in snapshot.children`, from the categories and subcategories before.
  unfoldable pub lies_extras :
      List (KategorieExtras Text Preis)
      → Option (List Text)
      → Option (List (List Text))
      → Lesestand Text Preis
      → Option (Lesestand Text Preis)
  lies_extras [] kats x s = some s
  lies_extras (c ∷ cs) none x s =
      extras_je_unter (extras_unter_erste (c.key ∷ []) c.key) c.unterkategorien x s >>= λ (x', s').
      lies_extras cs (some (c.key ∷ [])) x' s'
  lies_extras (c ∷ cs) (some old) x s =
      extras_je_unter (λ u x s. x >>= λ x1. extras_unter (old ++ c.key ∷ []) c.key u x1 s)
        c.unterkategorien x s
      >>= λ (x', s'). lies_extras cs (some (old ++ c.key ∷ [])) x' s'
