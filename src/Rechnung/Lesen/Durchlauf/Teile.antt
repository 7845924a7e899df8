-- ===== src/Rechnung/Lesen/Durchlauf/Teile.antt =====
-- A subcategory in the whole traversal, beside that of its items alone and that of its extras alone.
use smolokellner.Base.{◌≡◌, refl, sym, ap, ◌∙◌, inl, inr, Bool-cases}
use smolokellner.Base.{Option, none, some, List, [], ◌∷◌, ◌++◌, ltb, length, if◌then◌else◌}
use mathlib.Core.Option.{some-injective}
use smolokellner.Rechnung.Daten.{Equal, ◌>>=◌}
use smolokellner.Rechnung.Lesen.{
  Spalten, Eintrag, je_eintrag, item_erst, item_weiter, item_weiter_erste, lies_unter,
  lies_unter_erste, mit_items, unter_anhaengen,
}
use smolokellner.Rechnung.Lesen.Extras.{Lesestand, extras_unter, extras_unter_erste, je_itemssnap}
use smolokellner.Rechnung.Lesen.Extras.{extra_neu, extra_weiter, extra_weiter_erste, extra_erst}
use smolokellner.Rechnung.Lesen.Durchlauf.{
  UnterSnap, nur_items, nur_extras, dann_extras, lies_unter_snap, lies_unter_snap_erste,
}
use smolokellner.Rechnung.Lesen.Durchlauf.Gleich.{bind-some, bind_assoc, Gleich, mit_some}

module _ {Text Preis : Type 0} ⦃eq : Equal Text⦄ where
  mit_items-facts :
      (x : List (List Text)) (spalten : Option (Option (Spalten Text Preis)))
      → (e e' : Eintrag Text Preis) → mit_items x spalten e ≡ some e'
      → (e'.unterkategorien ≡ some x) × (e'.kategorien ≡ e.kategorien)
  mit_items-facts x spalten e e' h =
      let (s, at, is) = bind-some spalten _ e' h in
      let same = sym (some-injective _ e' is) in
      (ap (λ y. y.unterkategorien) same, ap (λ y. y.kategorien) same)

  ein_Gleich :
      (e e' : Eintrag Text Preis) (x' : List (List Text))
      → (L : List (List Text) → Lesestand Text Preis → Option (Lesestand Text Preis))
      → (ganz : Lesestand Text Preis → Option (Eintrag Text Preis × Lesestand Text Preis))
      → (extras : Lesestand Text Preis → Option (Option (List (List Text)) × Lesestand Text Preis))
      → (e'.unterkategorien ≡ some x') × (e'.kategorien ≡ e.kategorien)
      → ((s : Lesestand Text Preis)
          → ganz s ≡ (e'.unterkategorien >>= λ x. L x s >>= λ s'. some (e', s')))
      → ((s : Lesestand Text Preis) → extras s ≡ mit_some (L x' s >>= λ s'. some (x', s')))
      → Gleich e e' ganz extras
  ein_Gleich e e' x' L ganz extras (unter, kats) links rechts = record {
    lauf = L x';
    kats = kats;
    links = λ s. links s ∙ ap (λ m. m >>= λ x. L x s >>= λ s'. some (e', s')) unter;
    rechts = λ s.
        rechts s ∙ bind_assoc (L x' s) _ _ ∙ ap (λ m. L x' s >>= λ s'. some (m, s')) (sym unter);
  }

  module _ (kats : List Text) (key : Text) (u : UnterSnap Text Preis)
      (e e' : Eintrag Text Preis) where
    -- What `lies_unter_snap` does behind the items, from the subcategories before.
    abbrev dahinter :
        List (List Text) → Lesestand Text Preis → Option (Eintrag Text Preis × Lesestand Text Preis)
    dahinter x s =
        if ltb (length x) (length kats)
        then dann_extras (λ x'. extra_neu kats x' key u.key) u e' s
        else dann_extras (λ x'. extra_weiter kats x' key u.key) u e' s

    davor :
        (x : List (List Text)) (s : Lesestand Text Preis)
        → e.unterkategorien ≡ some x
        → lies_unter kats key (nur_items u) e ≡ some e'
        → lies_unter_snap kats key u e s ≡ dahinter x s
    unfolding lies_unter_snap
    davor x s at h =
        ap
          (λ m. m >>= λ x. lies_unter kats key (nur_items u) e >>= λ e'.
            if ltb (length x) (length kats)
            then dann_extras (λ x'. extra_neu kats x' key u.key) u e' s
            else dann_extras (λ x'. extra_weiter kats x' key u.key) u e' s)
          at
        ∙ ap
            (λ m. m >>= λ e'.
              if ltb (length x) (length kats)
              then dann_extras (λ x'. extra_neu kats x' key u.key) u e' s
              else dann_extras (λ x'. extra_weiter kats x' key u.key) u e' s)
            h

    extras_davor :
        (x : List (List Text)) (s : Lesestand Text Preis)
        → e.unterkategorien ≡ some x
        → mit_some (e.unterkategorien >>= λ x1. extras_unter kats key (nur_extras u) x1 s)
          ≡ mit_some (extras_unter kats key (nur_extras u) x s)
    extras_davor x s at =
        ap (λ m. mit_some (m >>= λ x1. extras_unter kats key (nur_extras u) x1 s)) at

    -- A subcategory of a category that is not the order's first.
    pub unter-Gleich :
        lies_unter kats key (nur_items u) e ≡ some e'
        → Gleich e e'
            (lies_unter_snap kats key u e)
            (λ s. mit_some (e.unterkategorien >>= λ x. extras_unter kats key (nur_extras u) x s))
    unfolding lies_unter extras_unter
    unter-Gleich h =
        let (x, at, inner) = bind-some e.unterkategorien _ e' h in
        elim (Bool-cases (ltb (length x) (length kats))) [
          | inl less ↦
              ein_Gleich e e' (x ++ (u.key ∷ []) ∷ [])
                (λ x' s. je_itemssnap (extra_neu kats x' key u.key) (nur_extras u).items s) _ _
                (mit_items-facts _ _ e e' (rw (less) at inner))
                (λ s. davor x s at h ∙ rw (less) refl) (λ s. extras_davor x s at ∙ rw (less) refl)
          | inr more ↦
              let (x', found, rest) =
                bind-some (unter_anhaengen kats key u.key x)
                  (λ x'.
                    mit_items x'
                      (je_eintrag (item_weiter kats x' key u.key) (nur_items u).items e.spalten) e)
                  e' (rw (more) at inner) in
              ein_Gleich e e' x'
                (λ x' s. je_itemssnap (extra_weiter kats x' key u.key) (nur_extras u).items s) _ _
                (mit_items-facts _ _ e e' rest) (λ s. davor x s at h ∙ rw (more) refl)
                (λ s. extras_davor x s at ∙ rw (more) (rw (found) refl))
        ]

    -- The same of the order's first category.
    abbrev items_erste : Option (List (List Text)) → Option (Eintrag Text Preis)
    items_erste none =
        let x = (u.key ∷ []) ∷ [] in
        mit_items x (je_eintrag (item_erst kats x key u.key) (nur_items u).items e.spalten) e
    items_erste (some x) = unter_anhaengen kats key u.key x >>= λ x'.
        mit_items x'
          (je_eintrag (item_weiter_erste kats x' key u.key) (nur_items u).items e.spalten) e

    abbrev dahinter_erste :
        Option (List (List Text))
        → Lesestand Text Preis
        → Option (Eintrag Text Preis × Lesestand Text Preis)
    dahinter_erste o s = elim o as (λ x. Option (Eintrag Text Preis × Lesestand Text Preis)) [
      | none ↦ dann_extras (λ x'. extra_erst kats x' key u.key) u e' s
      | some x ↦ dann_extras (λ x'. extra_weiter_erste kats x' key u.key) u e' s
    ]

    erste-Gleich :
        (o : Option (List (List Text)))
        → items_erste o ≡ some e'
        → Gleich e e'
            (dahinter_erste o)
            (λ s. mit_some (extras_unter_erste kats key (nur_extras u) o s))
    unfolding extras_unter_erste
    erste-Gleich none h =
        ein_Gleich e e' ((u.key ∷ []) ∷ [])
          (λ x' s. je_itemssnap (extra_erst kats x' key u.key) (nur_extras u).items s) _ _
          (mit_items-facts _ _ e e' h) (λ s. refl) (λ s. refl)
    erste-Gleich (some x) h =
        let (x', found, rest) =
          bind-some (unter_anhaengen kats key u.key x)
            (λ x'.
              mit_items x'
                (je_eintrag (item_weiter_erste kats x' key u.key) (nur_items u).items e.spalten) e)
            e' h in
        ein_Gleich e e' x'
          (λ x' s. je_itemssnap (extra_weiter_erste kats x' key u.key) (nur_extras u).items s) _ _
          (mit_items-facts _ _ e e' rest) (λ s. refl) (λ s. rw (found) refl)

    pub unter_erste-Gleich :
        lies_unter_erste kats key (nur_items u) e ≡ some e'
        → Gleich e e'
            (lies_unter_snap_erste kats key u e)
            (λ s. mit_some (extras_unter_erste kats key (nur_extras u) e.unterkategorien s))
    unfolding lies_unter_erste lies_unter_snap_erste
    unter_erste-Gleich h =
        let g = erste-Gleich e.unterkategorien h in
        record {
          lauf = g.lauf;
          kats = g.kats;
          links = λ s.
              ap
                (λ m. m >>= λ e''.
                  elim e.unterkategorien
                    as (λ x. Option (Eintrag Text Preis × Lesestand Text Preis)) [
                      | none ↦ dann_extras (λ x'. extra_erst kats x' key u.key) u e'' s
                      | some x ↦ dann_extras (λ x'. extra_weiter_erste kats x' key u.key) u e'' s
                    ])
                h
              ∙ g.links s;
          rechts = g.rechts;
        }
