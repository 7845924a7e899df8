-- ===== src/Rechnung/Lesen/Ganz.antt =====
-- Reading a whole order.
use smolokellner.Base.{◌<◌, ◌≡◌, ◌≢◌, refl, sym, ap, ap₂, subst, ◌∙◌, arith}
use smolokellner.Base.{
  Option, none, some, List, [], ◌∷◌, ◌++◌, length, map, map-append, append_assoc, append-nil, All,
}
use smolokellner.Rechnung.Daten.{Equal}
use smolokellner.Rechnung.Lesen.{
  Unterkategorie, Kategorie, Schluessel, information, kategorie, Eintrag,
}
use smolokellner.Rechnung.Lesen.{lies_unter, lies_unter_erste, je_unter, lies_kategorie, lies}
use smolokellner.Rechnung.Lesen.Abbild.{spalten_kategorie}
use smolokellner.Rechnung.Lesen.Unter.{
  ukeys, stand, stand2, unter_weiter, unter_weiter_erste, unter_erst_neu, unter_erst,
}

module _ {Text Preis : Type 0} where
  -- Subcategories with items, whose keys are new and different.
  unfoldable pub NeueUnter : List Text → List (Unterkategorie Text Preis) → Type 0
  NeueUnter seen [] = Unit
  NeueUnter seen (u ∷ us) =
      All (λ k. k ≢ u.key) seen × (0 < length u.items) × NeueUnter (seen ++ u.key ∷ []) us

  -- Categories with subcategories, whose keys are new and different.
  unfoldable pub NeueKategorien : List Text → List (Kategorie Text Preis) → Type 0
  NeueKategorien seen [] = Unit
  NeueKategorien seen (c ∷ cs) =
      All (λ k. k ≢ c.key) seen
      × (0 < length c.unterkategorien)
      × NeueUnter [] c.unterkategorien
      × NeueKategorien (seen ++ c.key ∷ []) cs

  -- The categories of a snapshot, and the table that it tells last.
  unfoldable pub kategorien_von : List (Schluessel Text Preis) → List (Kategorie Text Preis)
  kategorien_von [] = []
  kategorien_von (information tisch ∷ rest) = kategorien_von rest
  kategorien_von (kategorie c ∷ rest) = c ∷ kategorien_von rest

  unfoldable pub tisch_von : Option Text → List (Schluessel Text Preis) → Option Text
  tisch_von old [] = old
  tisch_von old (information tisch ∷ rest) = tisch_von (some tisch) rest
  tisch_von old (kategorie c ∷ rest) = tisch_von old rest

module _ {Text Preis : Type 0} ⦃eq : Equal Text⦄ where
  -- The loop over the subcategories but the first, for each of the two ways to read them.
  je_weiter :
      (step : Unterkategorie Text Preis → Eintrag Text Preis → Option (Eintrag Text Preis))
      → (tisch : Option Text) (cs : List (Kategorie Text Preis)) (key : Text)
      → (us rest : List (Unterkategorie Text Preis)) → NeueUnter (map (λ u. u.key) us) rest
      → ((vs : List (Unterkategorie Text Preis)) (u : Unterkategorie Text Preis)
          → All (λ k. k ≢ u.key) (map (λ u. u.key) vs)
          → 0 < length u.items
          → step u (stand2 tisch cs key vs) ≡ some (stand2 tisch cs key (vs ++ u ∷ [])))
      → je_unter step rest (stand2 tisch cs key us) ≡ some (stand2 tisch cs key (us ++ rest))
  unfolding je_unter NeueUnter
  je_weiter step tisch cs key us [] new h =
      ap (λ vs. some (stand2 tisch cs key vs)) (sym (append-nil us))
  je_weiter step tisch cs key us (u ∷ rest) (newu, some_item, new) h = rw (h us u newu some_item) (
      je_weiter step tisch cs key (us ++ u ∷ []) rest
        (subst (λ seen. NeueUnter seen rest) (sym (map-append (λ u. u.key) us (u ∷ []))) new) h
      ∙ ap (λ vs. some (stand2 tisch cs key vs)) (append_assoc us (u ∷ []) rest))

  -- A category that has been read.
  stand-end :
      (tisch : Option Text) (cs : List (Kategorie Text Preis)) (c : Kategorie Text Preis)
      → stand2 tisch cs c.key c.unterkategorien ≡ stand tisch (cs ++ c ∷ [])
  stand-end tisch [] c = refl
  stand-end tisch (d ∷ cs) c =
      ap₂
        (λ kats unter. record (stand2 tisch (d ∷ cs) c.key c.unterkategorien) {
          kategorien = some kats;
          unterkategorien = some unter;
        })
        (sym (map-append (λ c. c.key) (d ∷ cs) (c ∷ []))) (sym (map-append ukeys (d ∷ cs) (c ∷ [])))
      ∙ ap (λ s. record (stand tisch ((d ∷ cs) ++ c ∷ [])) { spalten = some s })
          (spalten_kategorie (d ∷ cs) c)

  first_category :
      (tisch : Option Text) (c : Kategorie Text Preis) (us : List (Unterkategorie Text Preis))
      → c.unterkategorien ≡ us
      → 0 < length us
      → NeueUnter [] us
      → je_unter
          (lies_unter_erste (c.key ∷ []) c.key)
          us
          (record (stand tisch []) { kategorien = some (c.key ∷ []) })
        ≡ some (stand tisch (c ∷ []))
  unfolding je_unter NeueUnter
  first_category tisch c [] own some_unter new = absurd (omega arith)
  first_category tisch c (u ∷ us) own some_unter (newu, some_item, new) =
      rw (unter_erst tisch c.key u some_item) (
        je_weiter _ tisch [] c.key (u ∷ []) us new
          (λ vs v newv more. unter_weiter_erste tisch c.key vs v newv more)
        ∙ ap (λ vs. some (stand2 tisch [] c.key vs)) (sym own)
        ∙ ap some (stand-end tisch [] c))

  later_category :
      (tisch : Option Text) (d : Kategorie Text Preis) (cs : List (Kategorie Text Preis))
      → (c : Kategorie Text Preis) (us : List (Unterkategorie Text Preis)) → c.unterkategorien ≡ us
      → 0 < length us
      → All (λ k. k ≢ c.key) (map (λ c. c.key) (d ∷ cs))
      → NeueUnter [] us
      → je_unter
          (lies_unter (map (λ c. c.key) (d ∷ cs) ++ c.key ∷ []) c.key)
          us
          (record (stand tisch (d ∷ cs)) {
            kategorien = some (map (λ c. c.key) (d ∷ cs) ++ c.key ∷ []);
          })
        ≡ some (stand tisch ((d ∷ cs) ++ c ∷ []))
  unfolding je_unter NeueUnter
  later_category tisch d cs c [] own some_unter newc new = absurd (omega arith)
  later_category tisch d cs c (u ∷ us) own some_unter newc (newu, some_item, new) =
      rw (unter_erst_neu tisch d cs c.key u newc some_item) (
        je_weiter _ tisch (d ∷ cs) c.key (u ∷ []) us new
          (λ vs v newv more. unter_weiter tisch (d ∷ cs) c.key vs v newc newv more)
        ∙ ap (λ vs. some (stand2 tisch (d ∷ cs) c.key vs)) (sym own)
        ∙ ap some (stand-end tisch (d ∷ cs) c))

  lies_kategorie_lem :
      (tisch : Option Text) (cs : List (Kategorie Text Preis)) (c : Kategorie Text Preis)
      → All (λ k. k ≢ c.key) (map (λ c. c.key) cs)
      → 0 < length c.unterkategorien
      → NeueUnter [] c.unterkategorien
      → lies_kategorie c (stand tisch cs) ≡ some (stand tisch (cs ++ c ∷ []))
  unfolding lies_kategorie
  lies_kategorie_lem tisch [] c newc some_unter new =
      first_category tisch c c.unterkategorien refl some_unter new
  lies_kategorie_lem tisch (d ∷ cs) c newc some_unter new =
      later_category tisch d cs c c.unterkategorien refl some_unter newc new

  other_table :
      (tisch tisch' : Option Text) (cs : List (Kategorie Text Preis))
      → record (stand tisch cs) { tischnummer = tisch' } ≡ stand tisch' cs
  other_table tisch tisch' [] = refl
  other_table tisch tisch' (c ∷ cs) = refl

  lies-stand :
      (snapshot : List (Schluessel Text Preis)) (tisch : Option Text)
      → (cs : List (Kategorie Text Preis))
      → NeueKategorien (map (λ c. c.key) cs) (kategorien_von snapshot)
      → lies snapshot (stand tisch cs)
        ≡ some (stand (tisch_von tisch snapshot) (cs ++ kategorien_von snapshot))
  unfolding lies kategorien_von tisch_von NeueKategorien
  lies-stand [] tisch cs new = ap (λ ds. some (stand tisch ds)) (sym (append-nil cs))
  lies-stand (information t ∷ rest) tisch cs new =
      ap (λ e. lies rest e) (other_table tisch (some t) cs) ∙ lies-stand rest (some t) cs new
  lies-stand (kategorie c ∷ rest) tisch cs (newc, some_unter, newu, new) =
      rw (lies_kategorie_lem tisch cs c newc some_unter newu) (
        lies-stand rest tisch (cs ++ c ∷ []) (
          subst (λ seen. NeueKategorien seen (kategorien_von rest))
            (sym (map-append (λ c. c.key) cs (c ∷ []))) new)
        ∙ ap (λ ds. some (stand (tisch_von tisch rest) ds))
            (append_assoc cs (c ∷ []) (kategorien_von rest)))

  -- From a snapshot in which no key of a category stands twice, and none of a subcategory within its
  -- category, and in which each category has subcategories and each subcategory has items, the loops
  -- over the items do not trap, and their arrays are those of the snapshot. Nothing is said of the
  -- loops over the extras between them.
  pub lies_lem :
      (snapshot : List (Schluessel Text Preis))
      → NeueKategorien [] (kategorien_von snapshot)
      → lies snapshot (stand none [])
        ≡ some (stand (tisch_von none snapshot) (kategorien_von snapshot))
  lies_lem snapshot new = lies-stand snapshot none [] new
