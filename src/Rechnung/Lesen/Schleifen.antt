-- ===== src/Rechnung/Lesen/Schleifen.antt =====
-- The loops over the items of a subcategory.
use smolokellner.Base.{ℕ, suc, ◌≡◌, sym, ap, subst, ◌∙◌, arith}
use smolokellner.Base.{
  Option, none, some, true, false, List, [], ◌∷◌, ◌++◌, get_elem?, length, length-append, ltb,
}
use smolokellner.Base.{map, length-map, get-behind, append_assoc, append-nil}
use smolokellner.Rechnung.Daten.{Equal, index_of, same_list}
use smolokellner.Rechnung.Lesen.{BestellungInfos, Unterkategorie, Kategorie, Spalten}
use smolokellner.Rechnung.Lesen.{ans_ende, je_eintrag, item_neu, item_weiter, item_erst}
use smolokellner.Rechnung.Lesen.Abbild.{reihe, spalte, spalten_von, spalten2_von, spalten3_von}
use smolokellner.Rechnung.Lesen.Abbild.{anfuegen-an, anfuegen-unter_neu, anfuegen-kategorie_neu}

pub full : (a b : ℕ) → a ≡ b → ltb a b ≡ false
full a b h = ground arith

pub one_less : (a b : ℕ) → suc a ≡ b → ltb a b ≡ true
one_less a b h = ground arith

module _ {Text Preis : Type 0} where
  namen_at :
      (cs : List (Kategorie Text Preis)) (unter : List (List Text))
      → get_elem? (spalte (λ i. i.item_name) cs ++ unter ∷ []) (length cs) ≡ some unter
  namen_at cs unter =
      subst (λ k. get_elem? (spalte (λ i. i.item_name) cs ++ unter ∷ []) k ≡ some unter)
        (length-map (λ c. map (reihe (λ i. i.item_name)) c.unterkategorien) cs)
        (get-behind (spalte (λ i. i.item_name) cs) [] unter)

module _ {Text Preis : Type 0} ⦃eq : Equal Text⦄ where
  open eq use {same}

  -- Where the subcategory stands whose items are read: behind the categories `cs`, and behind the
  -- subcategories `us` of its category.
  pub record Stelle (kats : List Text) (x : List (List Text)) (key ukey : Text)
      (cs : List (Kategorie Text Preis)) (us : List (Unterkategorie Text Preis)) : Type 0 where
    pub newx : List Text
    pub own_key : index_of same key kats ≡ some (length cs)
    pub own_newx : get_elem? x (length cs) ≡ some newx
    pub own_ukey : index_of same ukey newx ≡ some (length us)
    pub last_ukey : length newx ≡ suc (length us)
    pub last_key : length kats ≡ suc (length cs)

  module _ {kats : List Text} {x : List (List Text)} {key ukey : Text} where
    ende_lem :
        (cs : List (Kategorie Text Preis)) (us : List (Unterkategorie Text Preis))
        → (items : List (BestellungInfos Text Preis)) (item : BestellungInfos Text Preis)
        → Stelle kats x key ukey cs us
        → ans_ende kats x key ukey item (spalten3_von cs us items)
          ≡ some (spalten3_von cs us (items ++ item ∷ []))
    unfolding ans_ende
    ende_lem cs us items item h =
        rw (h.own_key) (rw (h.own_newx) (rw (h.own_ukey) (anfuegen-an cs us items item)))

    rest_neu :
        (cs : List (Kategorie Text Preis)) (items rest : List (BestellungInfos Text Preis))
        → Stelle kats x key ukey cs []
        → je_eintrag (item_neu kats x key ukey) rest (some (spalten3_von cs [] items))
          ≡ some (some (spalten3_von cs [] (items ++ rest)))
    unfolding je_eintrag item_neu
    rest_neu cs items [] h = ap (λ is. some (some (spalten3_von cs [] is))) (sym (append-nil items))
    rest_neu cs items (item ∷ rest) h = rw (full _ _ count) (
        rw (ende_lem cs [] items item h) (
          rest_neu cs (items ++ item ∷ []) rest h
          ∙ ap (λ is. some (some (spalten3_von cs [] is))) (append_assoc items (item ∷ []) rest)))
      where
        count : length (spalten3_von cs [] items).namen ≡ length kats
        count = omega (
          arith,
          length-append (spalte (λ i. i.item_name) cs) ((map (λ i. i.item_name) items ∷ []) ∷ []),
          length-map (λ c. map (reihe (λ i. i.item_name)) c.unterkategorien) cs,
          h.last_key,
        )

    -- The first subcategory of a category that is not the order's first.
    pub alle_neu :
        (cs : List (Kategorie Text Preis)) (item : BestellungInfos Text Preis)
        → (rest : List (BestellungInfos Text Preis)) → Stelle kats x key ukey cs []
        → je_eintrag (item_neu kats x key ukey) (item ∷ rest) (some (spalten_von cs))
          ≡ some (some (spalten3_von cs [] (item ∷ rest)))
    unfolding je_eintrag item_neu
    alle_neu cs item rest h =
        rw (one_less _ _ count)
          (rw (anfuegen-kategorie_neu cs item) (rest_neu cs (item ∷ []) rest h))
      where
        count : suc (length (spalten_von cs).namen) ≡ length kats
        count = omega (
          arith,
          length-map (λ c. map (reihe (λ i. i.item_name)) c.unterkategorien) cs,
          h.last_key,
        )

    rest_weiter :
        (step : BestellungInfos Text Preis
          → Option (Spalten Text Preis)
          → Option (Option (Spalten Text Preis)))
        → (cs : List (Kategorie Text Preis)) (us : List (Unterkategorie Text Preis))
        → (items rest : List (BestellungInfos Text Preis)) → Stelle kats x key ukey cs us
        → ((i : BestellungInfos Text Preis) (s : Spalten Text Preis)
            → step i (some s) ≡ item_weiter kats x key ukey i (some s))
        → je_eintrag step rest (some (spalten3_von cs us items))
          ≡ some (some (spalten3_von cs us (items ++ rest)))
    unfolding je_eintrag item_weiter
    rest_weiter step cs us items [] h same_step =
        ap (λ is. some (some (spalten3_von cs us is))) (sym (append-nil items))
    rest_weiter step cs us items (item ∷ rest) h same_step =
        rw (same_step item (spalten3_von cs us items)) (
          rw (h.own_key) (
            rw
              (namen_at cs (map (reihe (λ i. i.item_name)) us ++ map (λ i. i.item_name) items ∷ []))
              (rw (h.own_newx) (
                rw (full _ _ count) (
                  rw (ende_lem cs us items item h) (
                    rest_weiter step cs us (items ++ item ∷ []) rest h same_step
                    ∙ ap (λ is. some (some (spalten3_von cs us is)))
                        (append_assoc items (item ∷ []) rest)))))))
      where
        count :
            length (map (reihe (λ i. i.item_name)) us ++ map (λ i. i.item_name) items ∷ [])
            ≡ length h.newx
        count = omega (
          arith,
          length-append (map (reihe (λ i. i.item_name)) us) (map (λ i. i.item_name) items ∷ []),
          length-map (reihe (λ i. i.item_name)) us,
          h.last_ukey,
        )

    -- A later subcategory.
    pub alle_weiter :
        (step : BestellungInfos Text Preis
          → Option (Spalten Text Preis)
          → Option (Option (Spalten Text Preis)))
        → (cs : List (Kategorie Text Preis)) (us : List (Unterkategorie Text Preis))
        → (item : BestellungInfos Text Preis) (rest : List (BestellungInfos Text Preis))
        → Stelle kats x key ukey cs us
        → ((i : BestellungInfos Text Preis) (s : Spalten Text Preis)
            → step i (some s) ≡ item_weiter kats x key ukey i (some s))
        → je_eintrag step (item ∷ rest) (some (spalten2_von cs us))
          ≡ some (some (spalten3_von cs us (item ∷ rest)))
    unfolding je_eintrag item_weiter
    alle_weiter step cs us item rest h same_step = rw (same_step item (spalten2_von cs us)) (
        rw (h.own_key) (
          rw (namen_at cs (map (reihe (λ i. i.item_name)) us)) (
            rw (h.own_newx) (
              rw (one_less _ _ count) (
                rw (anfuegen-unter_neu cs us item)
                  (rest_weiter step cs us (item ∷ []) rest h same_step))))))
      where
        count : suc (length (map (reihe (λ i. i.item_name)) us)) ≡ length h.newx
        count = omega (arith, length-map (reihe (λ i. i.item_name)) us, h.last_ukey)

  rest_erst :
      (kats : List Text) (x : List (List Text)) (key ukey : Text)
      → (items rest : List (BestellungInfos Text Preis)) → index_of same key kats ≡ some 0
      → index_of (same_list same) (ukey ∷ []) x ≡ some 0
      → je_eintrag (item_erst kats x key ukey) rest (some (spalten3_von [] [] items))
        ≡ some (some (spalten3_von [] [] (items ++ rest)))
  unfolding je_eintrag item_erst
  rest_erst kats x key ukey items [] hk hu =
      ap (λ is. some (some (spalten3_von [] [] is))) (sym (append-nil items))
  rest_erst kats x key ukey items (item ∷ rest) hk hu = rw (hk) (
      rw (hu) (
        rw (anfuegen-an [] [] items item) (
          rest_erst kats x key ukey (items ++ item ∷ []) rest hk hu
          ∙ ap (λ is. some (some (spalten3_von [] [] is))) (append_assoc items (item ∷ []) rest))))

  -- The order's first subcategory.
  pub alle_erst :
      (kats : List Text) (x : List (List Text)) (key ukey : Text)
      → (item : BestellungInfos Text Preis) (rest : List (BestellungInfos Text Preis))
      → index_of same key kats ≡ some 0
      → index_of (same_list same) (ukey ∷ []) x ≡ some 0
      → je_eintrag (item_erst kats x key ukey) (item ∷ rest) none
        ≡ some (some (spalten3_von [] [] (item ∷ rest)))
  unfolding je_eintrag item_erst
  alle_erst kats x key ukey item rest hk hu = rest_erst kats x key ukey (item ∷ []) rest hk hu
