-- ===== src/Rechnung/Zusammenfuehren/Rechnungen.antt =====
-- The loop over the tables, and the screen that the merged bills make.
use smolokellner.Base.{ℕ, suc, ◌<◌, ◌≡◌, ◌≢◌, refl, sym, ap, ◌∙◌, arith, inl, inr}
use smolokellner.Base.{some, List, [], ◌∷◌, ℤ, pos, All, All-append, All-map, neg_part}
use smolokellner.Base.{length, length-append, replicate, Bool-cases}
use smolokellner.Rechnung.Daten.{Equal, KellnerTvSection, BestellungFertig, FertiggestelltVc}
use smolokellner.Rechnung.Zusammenfuehren.{
  Sammlung, flatten2, leer, je_tisch, fertig_section, bestellungen_zusammenfuehren,
}
use smolokellner.Rechnung.Zusammenfuehren.Tisch.{
  IsOrder, IsSammlung, Stored, alle, eingetragen, of_tisch, bestellung_lem,
}
use smolokellner.Rechnung.Auswahl.Zaehler.{IsChosen}
use smolokellner.Rechnung.Auswahl.Zellen.{IsBill, IsDistinct}
use smolokellner.Rechnung.Auswahl.Zustand.{AllBills, IsSelection, IsValid}

-- Nothing is chosen where every counter is zero.
replicate-IsChosen : (menge : List ℤ) → IsChosen (replicate (length menge) (pos 0)) menge
unfolding IsChosen
replicate-IsChosen [] = tt
replicate-IsChosen (m ∷ menge) = ((refl, omega arith), replicate-IsChosen menge)

module _ {Text : Type 0} where
  -- No table is listed twice.
  unfoldable pub IsDistinctTables : List (Text × List Text) → Type 0
  IsDistinctTables [] = Unit
  IsDistinctTables (entry ∷ rest) = All (λ other. other.0 ≢ entry.0) rest × IsDistinctTables rest

module _ {Text Preis : Type 0} where
  length-alle :
      {A B : Type 0} (f : KellnerTvSection Text Preis → List A)
      → (g : KellnerTvSection Text Preis → List B) (bs : List (KellnerTvSection Text Preis))
      → All (λ b. length (f b) ≡ length (g b)) bs
      → length (alle f bs) ≡ length (alle g bs)
  unfolding alle
  length-alle f g [] h = refl
  length-alle f g (b ∷ bs) h = omega (
    arith,
    length-append (f b) (alle f bs),
    length-append (g b) (alle g bs),
    h.0,
    length-alle f g bs h.1,
  )

  All-alle :
      {A : Type 0} (P : A → Type 0) (f : KellnerTvSection Text Preis → List A)
      → (bs : List (KellnerTvSection Text Preis)) → All (λ b. All P (f b)) bs
      → All P (alle f bs)
  unfolding alle
  All-alle P f [] h = tt
  All-alle P f (b ∷ bs) h = All-append P (f b) (alle f bs) h.0 (All-alle P f bs h.1)

  -- The bill of a table holds the rows of its orders, in their order, with a category and a
  -- subcategory for each.
  pub record IsRechnung (orders : List (KellnerTvSection Text Preis)) (tisch : Text)
      (f : BestellungFertig Text Preis) : Type 0 where
    pub own_tisch : f.tischnummer ≡ tisch
    pub own_items : f.items ≡ alle (λ b. flatten2 b.items) orders
    pub own_preis : f.preis ≡ alle (λ b. flatten2 b.preis) orders
    pub own_menge : f.menge ≡ alle (λ b. flatten2 b.menge) orders
    pub own_ids : f.bestellung_id ≡ eingetragen orders []
    pub kategorien : length f.kategorie ≡ length f.items
    pub unterkategorien : length f.unterkategorie ≡ length f.items

module _ {Text Preis : Type 0} ⦃eq : Equal Text⦄ where
  open eq use {same}

  All-of_tisch :
      (P : KellnerTvSection Text Preis → Type 0) (tisch : Text)
      → (bs : List (KellnerTvSection Text Preis)) → All P bs
      → All P (of_tisch tisch bs)
  unfolding of_tisch
  All-of_tisch P tisch [] h = h
  All-of_tisch P tisch (b ∷ bs) h = elim (Bool-cases (same b.tischnummer tisch)) [
    | inl e ↦ rw (e) (h.0, All-of_tisch P tisch bs h.1)
    | inr e ↦ rw (e) (All-of_tisch P tisch bs h.1)
  ]

  -- The bills of the tables, one each and in their order.
  unfoldable pub Rechnungen :
      List (KellnerTvSection Text Preis)
      → List (Text × List Text)
      → List (BestellungFertig Text Preis)
      → Type 0
  Rechnungen bs [] [] = Unit
  Rechnungen bs ((tisch, ids) ∷ rest) (f ∷ fs) =
      IsRechnung (of_tisch tisch bs) tisch f × Rechnungen bs rest fs
  Rechnungen bs _ _ = ⊥

  -- The table has an order among those loaded.
  abbrev pub HasOrder : List (KellnerTvSection Text Preis) → (Text × List Text) → Type 0
  HasOrder bs entry = 0 < length (of_tisch entry.0 bs)

  leer-IsSammlung : IsSammlung {Text = Text} {Preis = Preis} leer [] [] [] []
  leer-IsSammlung = record {
    own_items = refl;
    own_preise = refl;
    own_mengen = refl;
    own_ids = refl;
    kategorien = refl;
    unterkategorien = refl;
    bezahlt = refl;
  }

  fertig_section-IsBill :
      (section : ℕ) (tisch : Text) (orders : List (KellnerTvSection Text Preis))
      → (s : Sammlung Text Preis) (ids : List (Text × List Text)) → All IsOrder orders
      → IsSammlung s
          (alle (λ b. flatten2 b.items) orders)
          (alle (λ b. flatten2 b.preis) orders)
          (alle (λ b. flatten2 b.menge) orders)
          ids
      → Stored section s
      → IsBill section (fertig_section tisch s)
  fertig_section-IsBill section tisch orders s ids all h stored = record {
    gezaehlt = s.mengebezahlt;
    stored = stored;
    chosen =
        rw (h.bezahlt, h.own_mengen) (replicate-IsChosen (alle (λ b. flatten2 b.menge) orders));
    counted =
        rw (h.own_items, h.own_mengen)
          (length-alle (λ b. flatten2 b.items) (λ b. flatten2 b.menge) orders
            (All-map orders (λ b order. order.counted) all));
    nonneg = rw (h.own_mengen) (
        All-alle (λ m. neg_part m ≡ 0) (λ b. flatten2 b.menge) orders
          (All-map orders (λ b order. order.nonneg) all));
  }

  fertig_section-IsRechnung :
      (tisch : Text) (orders : List (KellnerTvSection Text Preis)) (s : Sammlung Text Preis)
      → IsSammlung s
          (alle (λ b. flatten2 b.items) orders)
          (alle (λ b. flatten2 b.preis) orders)
          (alle (λ b. flatten2 b.menge) orders)
          (eingetragen orders [])
      → IsRechnung orders tisch (fertig_section tisch s)
  fertig_section-IsRechnung tisch orders s h = record {
    own_tisch = refl;
    own_items = h.own_items;
    own_preis = h.own_preise;
    own_menge = h.own_mengen;
    own_ids = h.own_ids;
    kategorien = h.kategorien ∙ sym (ap length h.own_items);
    unterkategorien = h.unterkategorien ∙ sym (ap length h.own_items);
  }

  tisch_lem :
      (section : ℕ) (tische : List (Text × List Text)) (bs : List (KellnerTvSection Text Preis))
      → All IsOrder bs
      → All (HasOrder bs) tische
      → (fs : List (BestellungFertig Text Preis)) × (je_tisch section tische bs ≡ some fs)
        × Rechnungen bs tische fs
        × AllBills section fs
  unfolding je_tisch Rechnungen AllBills
  tisch_lem section [] bs orders has = ([], refl, tt, tt)
  tisch_lem section ((tisch, ids) ∷ rest) bs orders has =
      let (s, done, h, stored) =
        bestellung_lem section tisch bs leer [] [] [] [] orders leer-IsSammlung in
      let (fs, more, rechnungen, bills) = tisch_lem (suc section) rest bs orders has.1 in
      (
        fertig_section tisch s ∷ fs,
        rw (done) (rw (more) refl),
        (fertig_section-IsRechnung tisch (of_tisch tisch bs) s h, rechnungen),
        (
          fertig_section-IsBill section tisch (of_tisch tisch bs) s _
              (All-of_tisch IsOrder tisch bs orders) h (stored (inr has.0)),
          bills,
        ),
      )

  none-found :
      (tisch : Text) (bs : List (KellnerTvSection Text Preis)) (tische : List (Text × List Text))
      → (fs : List (BestellungFertig Text Preis)) → Rechnungen bs tische fs
      → All (λ entry. entry.0 ≢ tisch) tische
      → All (λ f. f.tischnummer ≢ tisch) fs
  unfolding Rechnungen
  none-found tisch bs [] [] h other = tt
  none-found tisch bs (entry ∷ rest) (f ∷ fs) h other =
      ((λ e. other.0 (sym h.0.own_tisch ∙ e)), none-found tisch bs rest fs h.1 other.1)
  none-found tisch bs [] (f ∷ fs) h other = elim h [ ]
  none-found tisch bs (entry ∷ rest) [] h other = elim h [ ]

  Rechnungen-IsDistinct :
      (bs : List (KellnerTvSection Text Preis)) (tische : List (Text × List Text))
      → (fs : List (BestellungFertig Text Preis)) → Rechnungen bs tische fs
      → IsDistinctTables tische
      → IsDistinct fs
  unfolding Rechnungen IsDistinctTables IsDistinct
  Rechnungen-IsDistinct bs [] [] h distinct = tt
  Rechnungen-IsDistinct bs (entry ∷ rest) (f ∷ fs) h distinct = (
    rw (h.0.own_tisch) (none-found entry.0 bs rest fs h.1 distinct.0),
    Rechnungen-IsDistinct bs rest fs h.1 distinct.1,
  )
  Rechnungen-IsDistinct bs [] (f ∷ fs) h distinct = elim h [ ]
  Rechnungen-IsDistinct bs (entry ∷ rest) [] h distinct = elim h [ ]

  -- The orders that the screen has loaded, and the tables that it lists, none twice and each with
  -- an order, with no bill and nothing chosen yet.
  pub record IsLoaded (vc : FertiggestelltVc Text Preis) : Type 0 where
    pub orders : All IsOrder vc.bestellungen
    pub tables : IsDistinctTables vc.tischnummer_ids
    pub has : All (HasOrder vc.bestellungen) vc.tischnummer_ids
    pub other : All (λ entry. entry.0 ≢ vc.tischnummer_bezahlen) vc.tischnummer_ids
    pub no_bills : vc.bestellungen_fertig ≡ []
    pub nothing : vc.bestellungen_bezahlen ≡ []

  -- Where orders are loaded and no bill is there yet, merging does not trap. The bills are one for
  -- each table, in the order of the tables: a bill has the items, prices, quantities and
  -- identifiers of the table's orders, one order after the other, and a category and a subcategory
  -- for each item. The screen that this leaves is valid.
  pub bestellungen_zusammenfuehren-IsValid :
      (vc : FertiggestelltVc Text Preis)
      → IsLoaded vc
      → (vc' : FertiggestelltVc Text Preis) × (bestellungen_zusammenfuehren vc ≡ some vc')
        × Rechnungen vc.bestellungen vc.tischnummer_ids vc'.bestellungen_fertig
        × IsValid vc'
  unfolding bestellungen_zusammenfuehren IsSelection
  bestellungen_zusammenfuehren-IsValid vc h =
      let (fs, done, rechnungen, bills) =
        tisch_lem 0 vc.tischnummer_ids vc.bestellungen h.orders h.has in
      (
        record vc { bestellungen_fertig = fs },
        rw (done, h.no_bills) refl,
        rechnungen,
        record {
          bills = bills;
          distinct =
              Rechnungen-IsDistinct vc.bestellungen vc.tischnummer_ids fs rechnungen h.tables;
          selection = inl (
            h.nothing,
            none-found vc.tischnummer_bezahlen vc.bestellungen vc.tischnummer_ids fs rechnungen
                h.other,
          );
        },
      )
