-- ===== src/Speisekarte/Spalte.antt =====
-- Reading the subcategories of a category of the menu.
use smolokellner.Base.{ℕ, ◌<◌, ◌≡◌, ◌≢◌, refl, sym, ap, subst, ◌∙◌, arith, true, false}
use smolokellner.Base.{Option, none, some, List, [], ◌∷◌, ◌++◌, append_assoc, append-nil, length}
use smolokellner.Base.{length-append, length-map, map, map-append, get-behind, set-behind, All}
use smolokellner.Base.{IsUnique, IsUnique-before, ltb}
use smolokellner.Rechnung.Daten.{Equal}
use smolokellner.Rechnung.Lesen.Unter.{index_of-last}
use smolokellner.Speisekarte.{SpeisekarteInformation, UnterSnapshot, Artikelspalten, Karte, an}
use smolokellner.Speisekarte.{
  neue_spalten, artikel_anfuegen, artikel_weiter, artikel_erst, je_artikel, lies_unterkategorie,
}
use smolokellner.Speisekarte.{lies_karte}

an-last :
    {A : Type 0} (n : ℕ) (xss : List (List A)) (xs : List A) (a : A)
    → length xss ≡ n
    → an n a (xss ++ xs ∷ []) ≡ some (xss ++ (xs ++ a ∷ []) ∷ [])
an-last n xss xs a h =
    rw (sym h) (rw (get-behind xss [] xs) (ap some (set-behind xss [] xs (xs ++ a ∷ []))))

module _ {Text Preis : Type 0} where
  abbrev pub spalte :
      {A : Type 0}
      → (SpeisekarteInformation Text Preis → A)
      → List (UnterSnapshot Text Preis)
      → List (List A)
  spalte f us = map (λ u. map f u.items) us

  -- The arrays that hold these subcategories.
  abbrev pub spalten_von : List (UnterSnapshot Text Preis) → Artikelspalten Text Preis
  spalten_von us = record {
    items = spalte (λ i. i.name) us;
    preis = spalte (λ i. i.preis) us;
    liter = spalte (λ i. i.liter) us;
    beschreibung = spalte (λ i. i.beschreibung) us;
    verfuegbarkeit = spalte (λ i. i.verfuegbarkeit) us;
  }

  -- The same, with the items of one more that are read so far.
  abbrev teil :
      List (UnterSnapshot Text Preis)
      → List (SpeisekarteInformation Text Preis)
      → Artikelspalten Text Preis
  teil us items = record {
    items = spalte (λ i. i.name) us ++ map (λ i. i.name) items ∷ [];
    preis = spalte (λ i. i.preis) us ++ map (λ i. i.preis) items ∷ [];
    liter = spalte (λ i. i.liter) us ++ map (λ i. i.liter) items ∷ [];
    beschreibung = spalte (λ i. i.beschreibung) us ++ map (λ i. i.beschreibung) items ∷ [];
    verfuegbarkeit = spalte (λ i. i.verfuegbarkeit) us ++ map (λ i. i.verfuegbarkeit) items ∷ [];
  }

  abbrev pub karte_von : List (UnterSnapshot Text Preis) → Karte Text Preis
  karte_von us = record {
    unterkategorien = map (λ u. u.key) us;
    expanded = map (λ u. false) us;
    spalten = some (spalten_von us);
  }

  -- A subcategory that has items.
  abbrev pub HasItems : UnterSnapshot Text Preis → Type 0
  HasItems u = 0 < length u.items

  teil-full :
      (us : List (UnterSnapshot Text Preis)) (u : UnterSnapshot Text Preis)
      → teil us u.items ≡ spalten_von (us ++ u ∷ [])
  teil-full us u = rw (sym (map-append (λ v. map (λ i. i.name) v.items) us (u ∷ []))) (
      rw (sym (map-append (λ v. map (λ i. i.preis) v.items) us (u ∷ []))) (
        rw (sym (map-append (λ v. map (λ i. i.liter) v.items) us (u ∷ []))) (
          rw (sym (map-append (λ v. map (λ i. i.beschreibung) v.items) us (u ∷ [])))
            (rw (sym (map-append (λ v. map (λ i. i.verfuegbarkeit) v.items) us (u ∷ []))) refl))))

  an-spalte :
      {A : Type 0} (f : SpeisekarteInformation Text Preis → A)
      → (us : List (UnterSnapshot Text Preis))
      → (done : List (SpeisekarteInformation Text Preis)) (i : SpeisekarteInformation Text Preis)
      → an (length us) (f i) (spalte f us ++ map f done ∷ [])
        ≡ some (spalte f us ++ map f (done ++ i ∷ []) ∷ [])
  an-spalte f us done i =
      an-last (length us) (spalte f us) (map f done) (f i) (length-map (λ u. map f u.items) us)
      ∙ ap (λ l. some (spalte f us ++ l ∷ [])) (sym (map-append f done (i ∷ [])))

  artikel_anfuegen-teil :
      (us : List (UnterSnapshot Text Preis)) (done : List (SpeisekarteInformation Text Preis))
      → (i : SpeisekarteInformation Text Preis)
      → artikel_anfuegen (length us) i (teil us done) ≡ some (teil us (done ++ i ∷ []))
  unfolding artikel_anfuegen
  artikel_anfuegen-teil us done i = rw (an-spalte (λ x. x.name) us done i) (
      rw (an-spalte (λ x. x.preis) us done i) (
        rw (an-spalte (λ x. x.liter) us done i) (
          rw (an-spalte (λ x. x.beschreibung) us done i)
            (rw (an-spalte (λ x. x.verfuegbarkeit) us done i) refl))))

  je_artikel-teil :
      (step : SpeisekarteInformation Text Preis
        → Option (Artikelspalten Text Preis)
        → Option (Option (Artikelspalten Text Preis)))
      → (us : List (UnterSnapshot Text Preis))
      → ((i : SpeisekarteInformation Text Preis) (done : List (SpeisekarteInformation Text Preis))
          → step i (some (teil us done)) ≡ some (some (teil us (done ++ i ∷ []))))
      → (done items : List (SpeisekarteInformation Text Preis))
      → je_artikel step items (some (teil us done)) ≡ some (some (teil us (done ++ items)))
  unfolding je_artikel
  je_artikel-teil step us h done [] = ap (λ l. some (some (teil us l))) (sym (append-nil done))
  je_artikel-teil step us h done (i ∷ items) = rw (h i done) (
      je_artikel-teil step us h (done ++ i ∷ []) items
      ∙ ap (λ l. some (some (teil us l))) (append_assoc done (i ∷ []) items))

module _ {Text Preis : Type 0} ⦃eq : Equal Text⦄ where
  open eq use {same, same_refl}

  weiter-teil :
      (us : List (UnterSnapshot Text Preis)) (key : Text)
      → All (λ k. k ≢ key) (map (λ u. u.key) us)
      → (i : SpeisekarteInformation Text Preis) (done : List (SpeisekarteInformation Text Preis))
      → artikel_weiter (map (λ u. u.key) us ++ key ∷ []) key i (some (teil us done))
        ≡ some (some (teil us (done ++ i ∷ [])))
  unfolding artikel_weiter
  weiter-teil us key apart i done = rw (full) (
      rw (index_of-last key (map (λ u. u.key) us) apart)
        (rw (length-map (λ u. u.key) us) (rw (artikel_anfuegen-teil us done i) refl)))
    where
      full :
          ltb
            (length (spalte (λ x. x.name) us ++ map (λ x. x.name) done ∷ []))
            (length (map (λ u. u.key) us ++ key ∷ []))
          ≡ false
      full = ground (
        arith,
        length-append (spalte (λ x. x.name) us) (map (λ x. x.name) done ∷ []),
        length-append (map (λ u. u.key) us) (key ∷ []),
        length-map (λ u. u.key) us,
        length-map (λ u. map (λ x. x.name) u.items) us,
      )

  weiter-neu :
      (us : List (UnterSnapshot Text Preis)) (key : Text) (i : SpeisekarteInformation Text Preis)
      → artikel_weiter (map (λ u. u.key) us ++ key ∷ []) key i (some (spalten_von us))
        ≡ some (some (teil us (i ∷ [])))
  unfolding artikel_weiter neue_spalten
  weiter-neu us key i = rw (less) refl
    where
      less :
          ltb (length (spalte (λ x. x.name) us)) (length (map (λ u. u.key) us ++ key ∷ [])) ≡ true
      less = ground (
        arith,
        length-append (map (λ u. u.key) us) (key ∷ []),
        length-map (λ u. u.key) us,
        length-map (λ u. map (λ x. x.name) u.items) us,
      )

  erst-teil :
      (key : Text) (i : SpeisekarteInformation Text Preis)
      → (done : List (SpeisekarteInformation Text Preis))
      → artikel_erst (key ∷ []) key i (some (teil [] done)) ≡ some (some (teil [] (done ++ i ∷ [])))
  unfolding artikel_erst
  erst-teil key i done = rw (index_of-last key [] tt) (rw (artikel_anfuegen-teil [] done i) refl)

  alle_weiter :
      (us : List (UnterSnapshot Text Preis)) (key : Text)
      → (items : List (SpeisekarteInformation Text Preis)) → 0 < length items
      → All (λ k. k ≢ key) (map (λ u. u.key) us)
      → je_artikel
          (artikel_weiter (map (λ u. u.key) us ++ key ∷ []) key)
          items
          (some (spalten_von us))
        ≡ some (some (teil us items))
  unfolding je_artikel
  alle_weiter us key [] has apart = absurd (omega arith)
  alle_weiter us key (i ∷ items) has apart = rw (weiter-neu us key i) (
      je_artikel-teil (artikel_weiter (map (λ u. u.key) us ++ key ∷ []) key) us
        (weiter-teil us key apart) (i ∷ []) items)

  alle_erst :
      (key : Text) (items : List (SpeisekarteInformation Text Preis))
      → 0 < length items
      → je_artikel (artikel_erst (key ∷ []) key) items none ≡ some (some (teil [] items))
  unfolding je_artikel artikel_erst neue_spalten
  alle_erst key [] has = absurd (omega arith)
  alle_erst key (i ∷ items) has =
      je_artikel-teil (artikel_erst (key ∷ []) key) [] (erst-teil key) (i ∷ []) items

  lies_unterkategorie-weiter :
      (us : List (UnterSnapshot Text Preis)) (u : UnterSnapshot Text Preis)
      → HasItems u
      → All (λ k. k ≢ u.key) (map (λ v. v.key) us)
      → lies_unterkategorie u (some (karte_von us)) ≡ some (karte_von (us ++ u ∷ []))
  unfolding lies_unterkategorie
  lies_unterkategorie-weiter us u has apart = rw (alle_weiter us u.key u.items has apart) (
      rw (teil-full us u) (
        rw (sym (map-append (λ v. v.key) us (u ∷ [])))
          (rw (sym (map-append (λ v. false) us (u ∷ []))) refl)))

  lies_weiter :
      (done us : List (UnterSnapshot Text Preis))
      → All HasItems us
      → IsUnique (map (λ u. u.key) (done ++ us))
      → lies_karte us (some (karte_von done)) ≡ some (some (karte_von (done ++ us)))
  unfolding lies_karte
  lies_weiter done [] has unique = ap (λ l. some (some (karte_von l))) (sym (append-nil done))
  lies_weiter done (u ∷ us) has unique = rw (lies_unterkategorie-weiter done u has.0 apart) (
      lies_weiter (done ++ u ∷ []) us has.1
        (subst (λ l. IsUnique (map (λ v. v.key) l)) (sym (append_assoc done (u ∷ []) us)) unique)
      ∙ ap (λ l. some (some (karte_von l))) (append_assoc done (u ∷ []) us))
    where
      apart : All (λ k. k ≢ u.key) (map (λ v. v.key) done)
      apart =
          IsUnique-before (map (λ v. v.key) done) u.key (map (λ v. v.key) us)
            (subst IsUnique (map-append (λ v. v.key) done (u ∷ us)) unique)

  -- A category of the menu that was not read before: when each of its subcategories has an item,
  -- and no two have one key, the arrays hold the subcategories and their items in their order.
  pub lies_karte_lem :
      (u : UnterSnapshot Text Preis) (us : List (UnterSnapshot Text Preis))
      → All HasItems (u ∷ us)
      → IsUnique (map (λ v. v.key) (u ∷ us))
      → lies_karte (u ∷ us) none ≡ some (some (karte_von (u ∷ us)))
  unfolding lies_karte lies_unterkategorie
  lies_karte_lem u us has unique =
      rw (alle_erst u.key u.items has.0) (lies_weiter (u ∷ []) us has.1 unique)
