-- ===== src/Rechnung/Lesen/Unter.antt =====
-- Reading one subcategory of an order.
use smolokellner.Base.{suc, ◌<◌, ◌≡◌, ◌≢◌, refl, sym, ap, subst, ◌∙◌, arith}
use smolokellner.Base.{Option, none, some, List, [], ◌∷◌, ◌++◌, get_elem?, length, length-append}
use smolokellner.Base.{map, map-append, length-map, get-behind, set-behind, All}
use smolokellner.Rechnung.Daten.{Equal, index_of, same_list}
use smolokellner.Rechnung.Zusammenfuehren.Zeilen.{refl_item}
use smolokellner.Rechnung.Auswahl.Zellen.{differ}
use smolokellner.Rechnung.Lesen.{BestellungInfos, Unterkategorie, Kategorie, Spalten, Eintrag}
use smolokellner.Rechnung.Lesen.{je_eintrag, item_neu, item_weiter, item_erst, unter_anhaengen}
use smolokellner.Rechnung.Lesen.{lies_unter, lies_unter_erste}
use smolokellner.Rechnung.Lesen.Abbild.{spalten_von, spalten2_von, spalten3_von, spalten_unter}
use smolokellner.Rechnung.Lesen.Schleifen.{Stelle, alle_neu, alle_weiter, alle_erst, full, one_less}

module _ {Text : Type 0} ⦃eq : Equal Text⦄ where
  open eq use {same, same_refl}

  pub index_of-last :
      (a : Text) (xs : List Text)
      → All (λ x. x ≢ a) xs
      → index_of same a (xs ++ a ∷ []) ≡ some (length xs)
  unfolding index_of
  index_of-last a [] h = rw (same_refl a) refl
  index_of-last a (x ∷ xs) h = rw (differ x a h.0) (rw (index_of-last a xs h.1) refl)

  anhaengen_lem :
      (kats : List Text) (key ukey : Text) (U : List (List Text)) (us : List Text)
      → index_of same key kats ≡ some (length U)
      → unter_anhaengen kats key ukey (U ++ us ∷ []) ≡ some (U ++ (us ++ ukey ∷ []) ∷ [])
  unfolding unter_anhaengen
  anhaengen_lem kats key ukey U us h =
      rw (h) (rw (get-behind U [] us) (ap some (set-behind U [] us (us ++ ukey ∷ []))))

module _ {Text Preis : Type 0} ⦃eq : Equal Text⦄ where
  open eq use {same, same_refl}

  abbrev pub ukeys : Kategorie Text Preis → List Text
  ukeys c = map (λ u. u.key) c.unterkategorien

  -- What the dictionaries hold once the categories are read.
  abbrev pub stand : Option Text → List (Kategorie Text Preis) → Eintrag Text Preis
  stand tisch [] = record {
    tischnummer = tisch;
    kategorien = none;
    unterkategorien = none;
    spalten = none;
  }
  stand tisch (c ∷ cs) = record {
    tischnummer = tisch;
    kategorien = some (map (λ c. c.key) (c ∷ cs));
    unterkategorien = some (map ukeys (c ∷ cs));
    spalten = some (spalten_von (c ∷ cs));
  }

  -- The same with some subcategories of one more category.
  abbrev pub stand2 :
      Option Text
      → List (Kategorie Text Preis)
      → Text
      → List (Unterkategorie Text Preis)
      → Eintrag Text Preis
  stand2 tisch cs key us = record {
    tischnummer = tisch;
    kategorien = some (map (λ c. c.key) cs ++ key ∷ []);
    unterkategorien = some (map ukeys cs ++ map (λ u. u.key) us ∷ []);
    spalten = some (spalten2_von cs us);
  }

  -- The place of a subcategory whose key is new to its category, and that key to the order.
  stelle :
      (cs : List (Kategorie Text Preis)) (us : List (Unterkategorie Text Preis)) (key ukey : Text)
      → All (λ k. k ≢ key) (map (λ c. c.key) cs)
      → All (λ k. k ≢ ukey) (map (λ u. u.key) us)
      → Stelle
          (map (λ c. c.key) cs ++ key ∷ [])
          (map ukeys cs ++ (map (λ u. u.key) us ++ ukey ∷ []) ∷ [])
          key
          ukey
          cs
          us
  stelle cs us key ukey new newu = record {
    newx = map (λ u. u.key) us ++ ukey ∷ [];
    own_key = index_of-last key (map (λ c. c.key) cs) new ∙ ap some (length-map (λ c. c.key) cs);
    own_newx =
        subst
          (λ k.
            get_elem? (map ukeys cs ++ (map (λ u. u.key) us ++ ukey ∷ []) ∷ []) k
            ≡ some (map (λ u. u.key) us ++ ukey ∷ []))
          (length-map ukeys cs) (get-behind (map ukeys cs) [] (map (λ u. u.key) us ++ ukey ∷ []));
    own_ukey = index_of-last ukey (map (λ u. u.key) us) newu ∙ ap some (length-map (λ u. u.key) us);
    last_ukey =
        omega (arith, length-append (map (λ u. u.key) us) (ukey ∷ []), length-map (λ u. u.key) us);
    last_key =
        omega (arith, length-append (map (λ c. c.key) cs) (key ∷ []), length-map (λ c. c.key) cs);
  }

  items_weiter :
      (step : BestellungInfos Text Preis
        → Option (Spalten Text Preis)
        → Option (Option (Spalten Text Preis)))
      → {kats : List Text} {x : List (List Text)} {key ukey : Text}
      → (cs : List (Kategorie Text Preis)) (us : List (Unterkategorie Text Preis))
      → (u : Unterkategorie Text Preis) (is : List (BestellungInfos Text Preis)) → u.items ≡ is
      → 0 < length is
      → Stelle kats x key ukey cs us
      → ((i : BestellungInfos Text Preis) (s : Spalten Text Preis)
          → step i (some s) ≡ item_weiter kats x key ukey i (some s))
      → je_eintrag step is (some (spalten2_von cs us))
        ≡ some (some (spalten2_von cs (us ++ u ∷ [])))
  items_weiter step cs us u [] own some_item h same_step = absurd (omega arith)
  items_weiter step cs us u (item ∷ rest) own some_item h same_step =
      alle_weiter step cs us item rest h same_step
      ∙ ap (λ is. some (some (spalten3_von cs us is))) (sym own)
      ∙ ap (λ s. some (some s)) (spalten_unter cs us u)

  items_neu :
      {kats : List Text} {x : List (List Text)} {key ukey : Text}
      → (cs : List (Kategorie Text Preis)) (u : Unterkategorie Text Preis)
      → (is : List (BestellungInfos Text Preis)) → u.items ≡ is
      → 0 < length is
      → Stelle kats x key ukey cs []
      → je_eintrag (item_neu kats x key ukey) is (some (spalten_von cs))
        ≡ some (some (spalten2_von cs (u ∷ [])))
  items_neu cs u [] own some_item h = absurd (omega arith)
  items_neu cs u (item ∷ rest) own some_item h =
      alle_neu cs item rest h ∙ ap (λ is. some (some (spalten3_von cs [] is))) (sym own)

  items_erst :
      (key : Text) (u : Unterkategorie Text Preis) (is : List (BestellungInfos Text Preis))
      → u.items ≡ is
      → 0 < length is
      → je_eintrag (item_erst (key ∷ []) ((u.key ∷ []) ∷ []) key u.key) is none
        ≡ some (some (spalten2_von [] (u ∷ [])))
  unfolding index_of
  items_erst key u [] own some_item = absurd (omega arith)
  items_erst key u (item ∷ rest) own some_item =
      alle_erst (key ∷ []) ((u.key ∷ []) ∷ []) key u.key item rest found_key found_ukey
      ∙ ap (λ is. some (some (spalten3_von [] [] is))) (sym own)
    where
      found_key : index_of same key (key ∷ []) ≡ some 0
      found_key = index_of-last key [] tt

      found_ukey : index_of (same_list same) (u.key ∷ []) ((u.key ∷ []) ∷ []) ≡ some 0
      found_ukey = rw (refl_item (u.key ∷ [])) refl

  more_unter :
      (cs : List (Kategorie Text Preis)) (us : List (Unterkategorie Text Preis))
      → (u : Unterkategorie Text Preis)
      → map ukeys cs ++ (map (λ u. u.key) us ++ u.key ∷ []) ∷ []
        ≡ map ukeys cs ++ map (λ u. u.key) (us ++ u ∷ []) ∷ []
  more_unter cs us u =
      ap (λ xs. map ukeys cs ++ xs ∷ []) (sym (map-append (λ u. u.key) us (u ∷ [])))

  category_place :
      (cs : List (Kategorie Text Preis)) (key : Text)
      → All (λ k. k ≢ key) (map (λ c. c.key) cs)
      → index_of same key (map (λ c. c.key) cs ++ key ∷ []) ≡ some (length (map ukeys cs))
  category_place cs key new =
      index_of-last key (map (λ c. c.key) cs) new
      ∙ ap some (length-map (λ c. c.key) cs ∙ sym (length-map ukeys cs))

  -- Any subcategory but the first of a category.
  pub unter_weiter :
      (tisch : Option Text) (cs : List (Kategorie Text Preis)) (key : Text)
      → (us : List (Unterkategorie Text Preis)) (u : Unterkategorie Text Preis)
      → All (λ k. k ≢ key) (map (λ c. c.key) cs)
      → All (λ k. k ≢ u.key) (map (λ u. u.key) us)
      → 0 < length u.items
      → lies_unter (map (λ c. c.key) cs ++ key ∷ []) key u (stand2 tisch cs key us)
        ≡ some (stand2 tisch cs key (us ++ u ∷ []))
  unfolding lies_unter
  unter_weiter tisch cs key us u new newu some_item = rw (full _ _ count) (
      rw
        (anhaengen_lem _ key u.key (map ukeys cs) (map (λ u. u.key) us) (category_place cs key new))
        (rw
          (items_weiter _ cs us u u.items refl some_item (stelle cs us key u.key new newu)
            (λ i s. refl))
          (ap (λ x. some (record (stand2 tisch cs key (us ++ u ∷ [])) { unterkategorien = some x }))
            (more_unter cs us u))))
    where
      count :
          length (map ukeys cs ++ map (λ u. u.key) us ∷ [])
          ≡ length (map (λ c. c.key) cs ++ key ∷ [])
      count = omega (
        arith,
        length-append (map ukeys cs) (map (λ u. u.key) us ∷ []),
        length-append (map (λ c. c.key) cs) (key ∷ []),
        length-map ukeys cs,
        length-map (λ c. c.key) cs,
      )

  pub unter_weiter_erste :
      (tisch : Option Text) (key : Text)
      → (us : List (Unterkategorie Text Preis)) (u : Unterkategorie Text Preis)
      → All (λ k. k ≢ u.key) (map (λ u. u.key) us)
      → 0 < length u.items
      → lies_unter_erste (key ∷ []) key u (stand2 tisch [] key us)
        ≡ some (stand2 tisch [] key (us ++ u ∷ []))
  unfolding lies_unter_erste
  unter_weiter_erste tisch key us u newu some_item =
      rw (anhaengen_lem _ key u.key [] (map (λ u. u.key) us) (category_place [] key tt)) (
        rw
          (items_weiter _ [] us u u.items refl some_item (stelle [] us key u.key tt newu)
            (λ i s. refl))
          (ap (λ x. some (record (stand2 tisch [] key (us ++ u ∷ [])) { unterkategorien = some x }))
            (more_unter [] us u)))

  -- The first subcategory of a category that is not the order's first.
  pub unter_erst_neu :
      (tisch : Option Text) (c : Kategorie Text Preis) (cs : List (Kategorie Text Preis))
      (key : Text)
      → (u : Unterkategorie Text Preis) → All (λ k. k ≢ key) (map (λ c. c.key) (c ∷ cs))
      → 0 < length u.items
      → lies_unter (map (λ c. c.key) (c ∷ cs) ++ key ∷ []) key u (record (stand tisch (c ∷ cs)) {
        kategorien = some (map (λ c. c.key) (c ∷ cs) ++ key ∷ []);
      })
        ≡ some (stand2 tisch (c ∷ cs) key (u ∷ []))
  unfolding lies_unter
  unter_erst_neu tisch c cs key u new some_item =
      rw (one_less _ _ count) (
        rw (items_neu (c ∷ cs) u u.items refl some_item (stelle (c ∷ cs) [] key u.key new tt)) refl)
    where
      count : suc (length (map ukeys (c ∷ cs))) ≡ length (map (λ c. c.key) (c ∷ cs) ++ key ∷ [])
      count = omega (
        arith,
        length-append (map (λ c. c.key) (c ∷ cs)) (key ∷ []),
        length-map ukeys (c ∷ cs),
        length-map (λ c. c.key) (c ∷ cs),
      )

  -- The order's first subcategory.
  pub unter_erst :
      (tisch : Option Text) (key : Text) (u : Unterkategorie Text Preis)
      → 0 < length u.items
      → lies_unter_erste (key ∷ []) key u (record (stand tisch []) { kategorien = some (key ∷ []) })
        ≡ some (stand2 tisch [] key (u ∷ []))
  unfolding lies_unter_erste
  unter_erst tisch key u some_item = rw (items_erst key u u.items refl some_item) refl
