-- ===== src/Rechnung/Lesen/Abschnitt.antt =====
-- `setSectionsKellnerBestellung` of SMOLO+/Views/FertiggestelltVC.swift, as `loadBestellungen` calls
-- it on what has been read of an order.
use smolokellner.Base.{ℕ, zero, suc, ◌≡◌, refl, ap, arith}
use smolokellner.Base.{
  Option, none, some, List, [], ◌∷◌, neg_part, get_elem?, length, length-append, map, length-map,
  All,
}
use mathlib.Core.Option.{some-injective}
use smolokellner.Rechnung.Daten.{Equal, ◌>>=◌, KellnerTvSection}
use smolokellner.Rechnung.Zusammenfuehren.{flatten, flatten2}
use smolokellner.Rechnung.Zusammenfuehren.Tisch.{IsOrder}
use smolokellner.Rechnung.Lesen.{
  BestellungInfos, Kategorie, Schluessel, Unterkategorie, Eintrag, lies,
}
use smolokellner.Rechnung.Lesen.Abbild.{reihe, spalte, spalten_von}
use smolokellner.Rechnung.Lesen.Unter.{stand}
use smolokellner.Rechnung.Lesen.Ganz.{NeueKategorien, kategorien_von, tisch_von, lies_lem}

get-map :
    {A B : Type 0} (f : A → B) (xs : List A) (i : ℕ) (y : B)
    → get_elem? (map f xs) i ≡ some y
    → (x : A) × (get_elem? xs i ≡ some x) × (f x ≡ y)
get-map f [] i y at = cc
get-map f (x ∷ xs) zero y at = (x, refl, some-injective (f x) y at)
get-map f (x ∷ xs) (suc i) y at = get-map f xs i y at

map-get :
    {A B : Type 0} (f : A → B) (xs : List A) (i : ℕ) (x : A)
    → get_elem? xs i ≡ some x
    → get_elem? (map f xs) i ≡ some (f x)
map-get f [] i x at = cc
map-get f (y ∷ xs) zero x at = ap (λ z. some (f z)) (some-injective y x at)
map-get f (y ∷ xs) (suc i) x at = map-get f xs i x at

module _ {Text Preis : Type 0} where
  -- The section, from what the dictionaries hold for the order, where they hold all of it.
  unfoldable pub section_anlegen :
      Text
      → Option (List (List (List (List Preis))))
      → Eintrag Text Preis
      → Option (KellnerTvSection Text Preis)
  section_anlegen id extras e = e.tischnummer >>= λ tisch. e.kategorien >>= λ kats.
      e.unterkategorien >>= λ ukats. e.spalten >>= λ s. extras >>= λ extras_preis. some (record {
        bestellung_id = id;
        tischnummer = tisch;
        kategorie = kats;
        unterkategorie = ukats;
        items = s.namen;
        preis = s.preise;
        extras_preis = extras_preis;
        menge = s.mengen;
        items_id = s.items_id;
      })

  -- The section of the categories `c ∷ cs`.
  abbrev section_von :
      Text
      → Text
      → List (List (List (List Preis)))
      → List (Kategorie Text Preis)
      → KellnerTvSection Text Preis
  section_von id tisch extras cs = record {
    bestellung_id = id;
    tischnummer = tisch;
    kategorie = map (λ c. c.key) cs;
    unterkategorie = map (λ c. map (λ u. u.key) c.unterkategorien) cs;
    items = (spalten_von cs).namen;
    preis = (spalten_von cs).preise;
    extras_preis = extras;
    menge = (spalten_von cs).mengen;
    items_id = (spalten_von cs).items_id;
  }

  same_length :
      {A B : Type 0} (f : BestellungInfos Text Preis → A) (g : BestellungInfos Text Preis → B)
      → (us : List (Unterkategorie Text Preis))
      → length (flatten (map (reihe f) us)) ≡ length (flatten (map (reihe g) us))
  unfolding flatten
  same_length f g [] = refl
  same_length f g (u ∷ us) = omega (
    arith,
    length-append (map f u.items) (flatten (map (reihe f) us)),
    length-append (map g u.items) (flatten (map (reihe g) us)),
    length-map f u.items,
    length-map g u.items,
    same_length f g us,
  )

  same_length2 :
      {A B : Type 0} (f : BestellungInfos Text Preis → A) (g : BestellungInfos Text Preis → B)
      → (cs : List (Kategorie Text Preis))
      → length (flatten2 (spalte f cs)) ≡ length (flatten2 (spalte g cs))
  unfolding flatten2
  same_length2 f g [] = refl
  same_length2 f g (c ∷ cs) = omega (
    arith,
    length-append (flatten (map (reihe f) c.unterkategorien)) (flatten2 (spalte f cs)),
    length-append (flatten (map (reihe g) c.unterkategorien)) (flatten2 (spalte g cs)),
    same_length f g c.unterkategorien,
    same_length2 f g cs,
  )

  -- No quantity in the snapshot is below zero.
  abbrev pub NonnegMengen : List (Kategorie Text Preis) → Type 0
  NonnegMengen cs = All (λ m. neg_part m ≡ 0) (flatten2 (spalte (λ i. i.item_menge) cs))

  section_von-IsOrder :
      (id tisch : Text) (extras : List (List (List (List Preis))))
      (cs : List (Kategorie Text Preis))
      → NonnegMengen cs
      → IsOrder (section_von id tisch extras cs)
  section_von-IsOrder id tisch extras cs nonneg = record {
    named = λ i items at.
        let (c, there, own) =
          get-map (λ c. map (reihe (λ i. i.item_name)) c.unterkategorien) cs i items at in
        (
          map (λ u. u.key) c.unterkategorien,
          c.key,
          map-get (λ c. map (λ u. u.key) c.unterkategorien) cs i c there,
          map-get (λ c. c.key) cs i c there,
          omega (
            arith,
            ap length own,
            length-map (reihe (λ i. i.item_name)) c.unterkategorien,
            length-map (λ u. u.key) c.unterkategorien,
          ),
        );
    counted = same_length2 (λ i. i.item_name) (λ i. i.item_menge) cs;
    priced = same_length2 (λ i. i.item_name) (λ i. i.item_preis) cs;
    nonneg = nonneg;
  }

module _ {Text Preis : Type 0} ⦃eq : Equal Text⦄ where
  -- From a snapshot that tells the table, with categories, subcategories and items as
  -- `load_bestellungen_lem` wants them and no quantity below zero, and with extra prices, the section that is made has
  -- arrays that fit together, for that table.
  pub section_anlegen-IsOrder :
      (id tisch : Text) (extras : List (List (List (List Preis))))
      → (snapshot : List (Schluessel Text Preis)) (c : Kategorie Text Preis)
      → (cs : List (Kategorie Text Preis)) → kategorien_von snapshot ≡ c ∷ cs
      → tisch_von none snapshot ≡ some tisch
      → NeueKategorien [] (c ∷ cs)
      → NonnegMengen (c ∷ cs)
      → (b : KellnerTvSection Text Preis) × ((lies snapshot (stand none []) >>= λ e.
            section_anlegen id (some extras) e)
          ≡ some b)
        × (b.tischnummer ≡ tisch)
        × (b.bestellung_id ≡ id)
        × IsOrder b
  unfolding section_anlegen
  section_anlegen-IsOrder id tisch extras snapshot c cs cats table new nonneg = (
    section_von id tisch extras (c ∷ cs),
    rw (lies_lem snapshot (rw (cats) new), cats) (rw (table) refl),
    refl,
    refl,
    section_von-IsOrder id tisch extras (c ∷ cs) nonneg,
  )
