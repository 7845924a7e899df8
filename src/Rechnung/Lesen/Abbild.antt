-- ===== src/Rechnung/Lesen/Abbild.antt =====
-- The arrays that reading an order makes, described apart from the code.
use smolokellner.Base.{ℕ, ◌≡◌, refl, sym, ap, ap₂, ◌∙◌}
use smolokellner.Base.{some, List, [], ◌∷◌, ◌++◌, length}
use smolokellner.Base.{map, map-append, length-map, get-behind, set-behind}
use smolokellner.Rechnung.Lesen.{BestellungInfos, Unterkategorie, Kategorie, Spalten}
use smolokellner.Rechnung.Lesen.{kategorie_neu, unter_neu, an, legen, anfuegen}

legen-an :
    {A : Type 0} (D : List (List (List A))) (U : List (List A)) (I : List A) (a : A) (k j : ℕ)
    → length D ≡ k
    → length U ≡ j
    → legen (an k j) a (D ++ (U ++ I ∷ []) ∷ []) ≡ some (D ++ (U ++ (I ++ a ∷ []) ∷ []) ∷ [])
unfolding legen
legen-an D U I a k j hk hj =
    rw (← hk, get-behind D [] (U ++ I ∷ []))
      (rw (← hj, get-behind U [] I)
        (rw (set-behind U [] I (I ++ a ∷ []))
          (ap some (set-behind D [] (U ++ I ∷ []) (U ++ (I ++ a ∷ []) ∷ [])))))

legen-unter_neu :
    {A : Type 0} (D : List (List (List A))) (U : List (List A)) (a : A) (k : ℕ)
    → length D ≡ k
    → legen (unter_neu k) a (D ++ U ∷ []) ≡ some (D ++ (U ++ (a ∷ []) ∷ []) ∷ [])
unfolding legen
legen-unter_neu D U a k hk =
    rw (← hk, get-behind D [] U) (ap some (set-behind D [] U (U ++ (a ∷ []) ∷ [])))

module _ {Text Preis : Type 0} where
  -- What the items of a subcategory, and those of categories, have of one kind.
  abbrev pub reihe :
      {A : Type 0} → (BestellungInfos Text Preis → A) → Unterkategorie Text Preis → List A
  reihe f u = map f u.items

  abbrev pub spalte :
      {A : Type 0}
      → (BestellungInfos Text Preis → A)
      → List (Kategorie Text Preis)
      → List (List (List A))
  spalte f cs = map (λ c. map (reihe f) c.unterkategorien) cs

  -- The same while a category, and a subcategory of it, is being read.
  abbrev pub spalte2 :
      {A : Type 0}
      → (BestellungInfos Text Preis → A)
      → List (Kategorie Text Preis)
      → List (Unterkategorie Text Preis)
      → List (List (List A))
  spalte2 f cs us = spalte f cs ++ map (reihe f) us ∷ []

  abbrev pub spalte3 :
      {A : Type 0}
      → (BestellungInfos Text Preis → A)
      → List (Kategorie Text Preis)
      → List (Unterkategorie Text Preis)
      → List (BestellungInfos Text Preis)
      → List (List (List A))
  spalte3 f cs us items = spalte f cs ++ (map (reihe f) us ++ map f items ∷ []) ∷ []

  abbrev pub spalten_von : List (Kategorie Text Preis) → Spalten Text Preis
  spalten_von cs = record {
    namen = spalte (λ i. i.item_name) cs;
    preise = spalte (λ i. i.item_preis) cs;
    mengen = spalte (λ i. i.item_menge) cs;
    items_id = spalte (λ i. i.bestellung_item_id) cs;
  }

  abbrev pub spalten2_von :
      List (Kategorie Text Preis) → List (Unterkategorie Text Preis) → Spalten Text Preis
  spalten2_von cs us = record {
    namen = spalte2 (λ i. i.item_name) cs us;
    preise = spalte2 (λ i. i.item_preis) cs us;
    mengen = spalte2 (λ i. i.item_menge) cs us;
    items_id = spalte2 (λ i. i.bestellung_item_id) cs us;
  }

  abbrev pub spalten3_von :
      List (Kategorie Text Preis)
      → List (Unterkategorie Text Preis)
      → List (BestellungInfos Text Preis)
      → Spalten Text Preis
  spalten3_von cs us items = record {
    namen = spalte3 (λ i. i.item_name) cs us items;
    preise = spalte3 (λ i. i.item_preis) cs us items;
    mengen = spalte3 (λ i. i.item_menge) cs us items;
    items_id = spalte3 (λ i. i.bestellung_item_id) cs us items;
  }

  legen-an3 :
      {A : Type 0} (f : BestellungInfos Text Preis → A) (cs : List (Kategorie Text Preis))
      → (us : List (Unterkategorie Text Preis)) (items : List (BestellungInfos Text Preis))
      → (item : BestellungInfos Text Preis)
      → legen (an (length cs) (length us)) (f item) (spalte3 f cs us items)
        ≡ some (spalte3 f cs us (items ++ item ∷ []))
  legen-an3 f cs us items item =
      legen-an (spalte f cs) (map (reihe f) us) (map f items) (f item) (length cs) (length us)
        (length-map _ cs) (length-map (reihe f) us)
      ∙ ap (λ xs. some (spalte f cs ++ (map (reihe f) us ++ xs ∷ []) ∷ []))
          (sym (map-append f items (item ∷ [])))

  legen-neu3 :
      {A : Type 0} (f : BestellungInfos Text Preis → A) (cs : List (Kategorie Text Preis))
      → (us : List (Unterkategorie Text Preis)) (item : BestellungInfos Text Preis)
      → legen (unter_neu (length cs)) (f item) (spalte2 f cs us)
        ≡ some (spalte3 f cs us (item ∷ []))
  legen-neu3 f cs us item =
      legen-unter_neu (spalte f cs) (map (reihe f) us) (f item) (length cs) (length-map _ cs)

  pub anfuegen-an :
      (cs : List (Kategorie Text Preis)) (us : List (Unterkategorie Text Preis))
      → (items : List (BestellungInfos Text Preis)) (item : BestellungInfos Text Preis)
      → anfuegen (an (length cs) (length us)) item (spalten3_von cs us items)
        ≡ some (spalten3_von cs us (items ++ item ∷ []))
  unfolding anfuegen
  anfuegen-an cs us items item = rw (legen-an3 (λ i. i.item_name) cs us items item) (
      rw (legen-an3 (λ i. i.item_preis) cs us items item) (
        rw (legen-an3 (λ i. i.item_menge) cs us items item)
          (rw (legen-an3 (λ i. i.bestellung_item_id) cs us items item) refl)))

  pub anfuegen-unter_neu :
      (cs : List (Kategorie Text Preis)) (us : List (Unterkategorie Text Preis))
      → (item : BestellungInfos Text Preis)
      → anfuegen (unter_neu (length cs)) item (spalten2_von cs us)
        ≡ some (spalten3_von cs us (item ∷ []))
  unfolding anfuegen
  anfuegen-unter_neu cs us item = rw (legen-neu3 (λ i. i.item_name) cs us item) (
      rw (legen-neu3 (λ i. i.item_preis) cs us item) (
        rw (legen-neu3 (λ i. i.item_menge) cs us item)
          (rw (legen-neu3 (λ i. i.bestellung_item_id) cs us item) refl)))

  pub anfuegen-kategorie_neu :
      (cs : List (Kategorie Text Preis)) (item : BestellungInfos Text Preis)
      → anfuegen kategorie_neu item (spalten_von cs) ≡ some (spalten3_von cs [] (item ∷ []))
  unfolding anfuegen legen
  anfuegen-kategorie_neu cs item = refl

  spalte-unter :
      {A : Type 0} (f : BestellungInfos Text Preis → A) (cs : List (Kategorie Text Preis))
      → (us : List (Unterkategorie Text Preis)) (u : Unterkategorie Text Preis)
      → spalte3 f cs us u.items ≡ spalte2 f cs (us ++ u ∷ [])
  spalte-unter f cs us u =
      ap (λ xs. spalte f cs ++ xs ∷ []) (sym (map-append (reihe f) us (u ∷ [])))

  spalte-kategorie :
      {A : Type 0} (f : BestellungInfos Text Preis → A) (cs : List (Kategorie Text Preis))
      → (c : Kategorie Text Preis) → spalte2 f cs c.unterkategorien ≡ spalte f (cs ++ c ∷ [])
  spalte-kategorie f cs c = sym (map-append (λ c. map (reihe f) c.unterkategorien) cs (c ∷ []))

  same_spalten :
      (s t : Spalten Text Preis)
      → s.namen ≡ t.namen
      → s.preise ≡ t.preise
      → s.mengen ≡ t.mengen
      → s.items_id ≡ t.items_id
      → s ≡ t
  same_spalten s t a b c d =
      ap₂ (λ x y. record s { namen = x; preise = y }) a b
      ∙ ap₂ (λ x y. record t { mengen = x; items_id = y }) c d

  -- A subcategory, and a category, that has been read.
  pub spalten_unter :
      (cs : List (Kategorie Text Preis)) (us : List (Unterkategorie Text Preis))
      → (u : Unterkategorie Text Preis)
      → spalten3_von cs us u.items ≡ spalten2_von cs (us ++ u ∷ [])
  spalten_unter cs us u =
      same_spalten _ _ (spalte-unter _ cs us u) (spalte-unter _ cs us u) (spalte-unter _ cs us u)
        (spalte-unter _ cs us u)

  pub spalten_kategorie :
      (cs : List (Kategorie Text Preis)) (c : Kategorie Text Preis)
      → spalten2_von cs c.unterkategorien ≡ spalten_von (cs ++ c ∷ [])
  spalten_kategorie cs c =
      same_spalten _ _ (spalte-kategorie _ cs c) (spalte-kategorie _ cs c) (spalte-kategorie _ cs c)
        (spalte-kategorie _ cs c)
