-- ===== src/Speisekarte/Ankunft.antt =====
-- The sections of the menu, in whatever order the snapshots of the categories arrive.
use smolokellner.Base.{ℕ, zero, suc, ◌<◌, ◌≡◌, ◌≢◌, refl, sym, ap, subst, ◌∙◌, arith, true, false}
use smolokellner.Base.{none, some, List, [], ◌∷◌, ◌++◌, append_assoc, append-nil, get_elem?}
use smolokellner.Base.{length, length-append, length-map, map, map-append, All, All-get_elem, ◌==◌}
use smolokellner.Base.{IsUnique, IsUnique-before, get-map}
use mathlib.Core.Option.{some-injective}
use smolokellner.Rechnung.Daten.{Equal}
use smolokellner.Rechnung.Auswahl.Zellen.{differ}
use smolokellner.Speisekarte.{
  UnterSnapshot, KategorieSnapshot, Karte, ExpandTvSection2, ProdukteVc, finde,
}
use smolokellner.Speisekarte.{karte_setzen, karte_merken, set_sections_speisekarte, lies_karte}
use smolokellner.Speisekarte.{get_unter_kategorien_items, ankuenfte}
use smolokellner.Speisekarte.Spalte.{spalten_von, karte_von, HasItems, lies_karte_lem}

module _ {Text Preis : Type 0} where
  -- A snapshot with subcategories of different keys, each with an item.
  pub record IsKategorie (c : KategorieSnapshot Text Preis) : Type 0 where
    pub some_unter : 0 < length c.unterkategorien
    pub some_items : All HasItems c.unterkategorien
    pub unique : IsUnique (map (λ u. u.key) c.unterkategorien)

  abbrev pub section_von : KategorieSnapshot Text Preis → ExpandTvSection2 Text Preis
  section_von c = record {
    kategorie = c.key;
    unterkategorie = map (λ u. u.key) c.unterkategorien;
    spalten = spalten_von c.unterkategorien;
    expanded2 = map (λ u. false) c.unterkategorien;
    expanded = false;
  }

  abbrev eintrag : KategorieSnapshot Text Preis → Text × Karte Text Preis
  eintrag c = (c.key, karte_von c.unterkategorien)

  -- The category is one of those that arrived.
  abbrev pub IsAmong : List (KategorieSnapshot Text Preis) → KategorieSnapshot Text Preis → Type 0
  IsAmong cs c = (i : ℕ) × (get_elem? cs i ≡ some c)

module _ {Text Preis : Type 0} ⦃eq : Equal Text⦄ where
  open eq use {same, same_refl}

  finde-fresh :
      (cs : List (KategorieSnapshot Text Preis)) (key : Text)
      → All (λ k. k ≢ key) (map (λ c. c.key) cs)
      → finde key (map eintrag cs) ≡ none
  unfolding finde
  finde-fresh [] key h = refl
  finde-fresh (c ∷ cs) key h = rw (differ c.key key h.0) (finde-fresh cs key h.1)

  karte_setzen-fresh :
      (cs : List (KategorieSnapshot Text Preis)) (c : KategorieSnapshot Text Preis)
      → All (λ k. k ≢ c.key) (map (λ c. c.key) cs)
      → karte_setzen c.key (karte_von c.unterkategorien) (map eintrag cs)
        ≡ map eintrag (cs ++ c ∷ [])
  unfolding karte_setzen
  karte_setzen-fresh [] c h = refl
  karte_setzen-fresh (x ∷ cs) c h =
      rw (differ x.key c.key h.0) (ap (λ l. eintrag x ∷ l) (karte_setzen-fresh cs c h.1))

  finde-among :
      (cs : List (KategorieSnapshot Text Preis)) (i : ℕ) (c : KategorieSnapshot Text Preis)
      → IsUnique (map (λ c. c.key) cs)
      → get_elem? cs i ≡ some c
      → finde c.key (map eintrag cs) ≡ some (karte_von c.unterkategorien)
  unfolding finde
  finde-among [] i c unique at = cc
  finde-among (x ∷ cs) zero c unique at =
      subst (λ d. finde d.key (map eintrag (x ∷ cs)) ≡ some (karte_von d.unterkategorien))
        (some-injective x c at) (rw (same_refl x.key) refl)
  finde-among (x ∷ cs) (suc i) c unique at =
      rw
        (differ x.key c.key (
          All-get_elem (λ y. x.key ≢ y) (map (λ c. c.key) cs) i c.key unique.0
            (get-map (λ c. c.key) cs i c at)))
        (finde-among cs i c unique.1 at)

  sections_lem :
      (cs vs : List (KategorieSnapshot Text Preis)) (sections : List (ExpandTvSection2 Text Preis))
      → IsUnique (map (λ c. c.key) cs)
      → All (IsAmong cs) vs
      → set_sections_speisekarte (map (λ c. c.key) vs) (map eintrag cs) sections
        ≡ some (sections ++ map section_von vs)
  unfolding set_sections_speisekarte
  sections_lem cs [] sections unique among = ap some (sym (append-nil sections))
  sections_lem cs (v ∷ vs) sections unique among =
      rw (finde-among cs among.0.0 v unique among.0.1) (
        sections_lem cs vs (sections ++ section_von v ∷ []) unique among.1
        ∙ ap some (append_assoc sections (section_von v ∷ []) (map section_von vs)))

  lies-fresh :
      (c : KategorieSnapshot Text Preis)
      → IsKategorie c
      → lies_karte c.unterkategorien none ≡ some (some (karte_von c.unterkategorien))
  lies-fresh c h = go c.unterkategorien h.some_unter h.some_items h.unique
    where
      go :
          (us : List (UnterSnapshot Text Preis))
          → 0 < length us
          → All HasItems us
          → IsUnique (map (λ u. u.key) us)
          → lies_karte us none ≡ some (some (karte_von us))
      go [] lt has unique = absurd (omega arith)
      go (u ∷ us) lt has unique = lies_karte_lem u us has unique

  -- The state after some categories arrived.
  abbrev mit :
      List Text
      → List (KategorieSnapshot Text Preis)
      → List (ExpandTvSection2 Text Preis)
      → ProdukteVc Text Preis
  mit kategorien cs sections = record {
    kategorien = kategorien;
    karten = map eintrag cs;
    sections = sections;
  }

  apart_before :
      (done : List (KategorieSnapshot Text Preis)) (c : KategorieSnapshot Text Preis)
      → (cs : List (KategorieSnapshot Text Preis)) → IsUnique (map (λ c. c.key) (done ++ c ∷ cs))
      → All (λ k. k ≢ c.key) (map (λ c. c.key) done)
  apart_before done c cs unique =
      IsUnique-before (map (λ c. c.key) done) c.key (map (λ c. c.key) cs)
        (subst IsUnique (map-append (λ c. c.key) done (c ∷ cs)) unique)

  frueher :
      (kategorien : List Text) (done : List (KategorieSnapshot Text Preis))
      (c : KategorieSnapshot Text Preis)
      → IsKategorie c
      → All (λ k. k ≢ c.key) (map (λ c. c.key) done)
      → length (done ++ c ∷ []) < length kategorien
      → get_unter_kategorien_items c (mit kategorien done [])
        ≡ some (mit kategorien (done ++ c ∷ []) [])
  unfolding get_unter_kategorien_items karte_merken
  frueher kategorien done c is apart less =
      rw (finde-fresh done c.key apart)
        (rw (lies-fresh c is) (rw (karte_setzen-fresh done c apart) (rw (other) refl)))
    where
      other : (length (map eintrag (done ++ c ∷ [])) == length kategorien) ≡ false
      other = ground (arith, length-map eintrag (done ++ c ∷ []))

  zuletzt :
      (vs done : List (KategorieSnapshot Text Preis)) (c : KategorieSnapshot Text Preis)
      → IsKategorie c
      → IsUnique (map (λ c. c.key) (done ++ c ∷ []))
      → length (done ++ c ∷ []) ≡ length vs
      → All (IsAmong (done ++ c ∷ [])) vs
      → get_unter_kategorien_items c (mit (map (λ c. c.key) vs) done [])
        ≡ some (mit (map (λ c. c.key) vs) (done ++ c ∷ []) (map section_von vs))
  unfolding get_unter_kategorien_items karte_merken
  zuletzt vs done c is unique complete among = rw (finde-fresh done c.key apart) (
      rw (lies-fresh c is) (
        rw (karte_setzen-fresh done c apart)
          (rw (equal) (rw (sections_lem (done ++ c ∷ []) vs [] unique among) refl))))
    where
      apart : All (λ k. k ≢ c.key) (map (λ c. c.key) done)
      apart = apart_before done c [] unique

      equal : (length (map eintrag (done ++ c ∷ [])) == length (map (λ c. c.key) vs)) ≡ true
      equal = ground (arith, length-map eintrag (done ++ c ∷ []), length-map (λ c. c.key) vs)

  nacheinander :
      (vs done : List (KategorieSnapshot Text Preis)) (c : KategorieSnapshot Text Preis)
      → (cs : List (KategorieSnapshot Text Preis)) → All IsKategorie (c ∷ cs)
      → IsUnique (map (λ c. c.key) (done ++ c ∷ cs))
      → length (done ++ c ∷ cs) ≡ length vs
      → All (IsAmong (done ++ c ∷ cs)) vs
      → ankuenfte (c ∷ cs) (mit (map (λ c. c.key) vs) done [])
        ≡ some (mit (map (λ c. c.key) vs) (done ++ c ∷ cs) (map section_von vs))
  unfolding ankuenfte
  nacheinander vs done c [] is unique complete among =
      rw (zuletzt vs done c is.0 unique complete among) refl
  nacheinander vs done c (d ∷ cs) is unique complete among =
      rw (frueher (map (λ c. c.key) vs) done c is.0 (apart_before done c (d ∷ cs) unique) less) (
        subst
          (λ l.
            ankuenfte (d ∷ cs) (mit (map (λ c. c.key) vs) (done ++ c ∷ []) [])
            ≡ some (mit (map (λ c. c.key) vs) l (map section_von vs)))
          (append_assoc done (c ∷ []) (d ∷ cs))
          (nacheinander vs (done ++ c ∷ []) d cs is.1
            (subst (λ l. IsUnique (map (λ c. c.key) l)) back unique)
            (subst (λ l. length l ≡ length vs) back complete)
            (subst (λ l. All (IsAmong l) vs) back among)))
    where
      back : done ++ c ∷ d ∷ cs ≡ (done ++ c ∷ []) ++ d ∷ cs
      back = sym (append_assoc done (c ∷ []) (d ∷ cs))

      less : length (done ++ c ∷ []) < length (map (λ c. c.key) vs)
      less = omega (
        arith,
        complete,
        length-append done (c ∷ []),
        length-append done (c ∷ d ∷ cs),
        length-map (λ c. c.key) vs,
      )

  -- The categories of the menu arrive in any order: when each of them arrives once, with
  -- subcategories of different keys, each of which has an item, then no index is out of range, and
  -- the screen has one section for each category, in the order of `Kategorien`, which holds the
  -- category's subcategories and their items in their order, all of it collapsed.
  pub ankuenfte_lem :
      (vs cs : List (KategorieSnapshot Text Preis))
      → All IsKategorie cs
      → IsUnique (map (λ c. c.key) cs)
      → length cs ≡ length vs
      → All (IsAmong cs) vs
      → (vc : ProdukteVc Text Preis) × (ankuenfte cs
            (record { kategorien = map (λ c. c.key) vs; karten = []; sections = [] })
          ≡ some vc)
        × (vc.sections ≡ map section_von vs)
  unfolding ankuenfte
  ankuenfte_lem [] [] is unique complete among = (_, refl, refl)
  ankuenfte_lem (v ∷ vs) [] is unique complete among = absurd (omega arith)
  ankuenfte_lem vs (c ∷ cs) is unique complete among =
      (_, nacheinander vs [] c cs is unique complete among, refl)
