-- ===== src/Rechnung/Zusammenfuehren/Tisch.antt =====
-- The loop over the orders that makes the bill of one table.
use smolokellner.Base.{
  ℕ, zero, suc, ◌+◌, ◌≤◌, ◌<◌, ◌≡◌, refl, sym, ap, Bool-cases, ◌∙◌, arith, ◌⊎◌, inl, inr,
}
use smolokellner.Base.{some, List, [], ◌∷◌, ◌++◌, ℤ, pos, All, neg_part}
use smolokellner.Base.{
  get_elem?, All-get, length, length-append, append_assoc, append-nil, replicate, eq→==,
}
use smolokellner.Base.{if◌then◌else◌}
use smolokellner.Rechnung.Daten.{Equal, same_list, update, KellnerTvSection}
use smolokellner.Rechnung.Zusammenfuehren.{Sammlung, flatten2, aufnehmen, je_bestellung}
use smolokellner.Rechnung.Zusammenfuehren.Zeilen.{
  Named, mit_zeilen, kategorie_lem, index_of-some, refl_items, eq_items,
}

module _ {Text Preis : Type 0} where
  -- An order whose arrays fit together: a category and enough subcategories for each array of
  -- items, a quantity and a price for each item, and no quantity below zero.
  pub record IsOrder (b : KellnerTvSection Text Preis) : Type 0 where
    pub named :
        (i : ℕ) (items : List (List Text))
        → get_elem? b.items i ≡ some items
        → (ukats : List Text) × (kat : Text) × (get_elem? b.unterkategorie i ≡ some ukats)
          × (get_elem? b.kategorie i ≡ some kat)
          × (length items ≤ length ukats)
    pub counted : length (flatten2 b.items) ≡ length (flatten2 b.menge)
    pub priced : length (flatten2 b.items) ≡ length (flatten2 b.preis)
    pub nonneg : All (λ m. neg_part m ≡ 0) (flatten2 b.menge)

  -- The entries of all the orders, in their order.
  unfoldable pub alle :
      {A : Type 0}
      → (KellnerTvSection Text Preis → List A)
      → List (KellnerTvSection Text Preis)
      → List A
  alle f [] = []
  alle f (b ∷ bs) = f b ++ alle f bs

  -- The identifiers of the items of each order, the last order first.
  unfoldable pub eingetragen :
      List (KellnerTvSection Text Preis) → List (Text × List Text) → List (Text × List Text)
  eingetragen [] ids = ids
  eingetragen (b ∷ bs) ids = eingetragen bs ((b.bestellung_id, flatten2 b.items_id) ∷ ids)

  -- What the collection of a table holds.
  pub record IsSammlung (s : Sammlung Text Preis) (items : List Text) (preise : List Preis)
      (mengen : List ℤ) (ids : List (Text × List Text)) : Type 0 where
    pub own_items : s.alle_items ≡ items
    pub own_preise : s.alle_preise ≡ preise
    pub own_mengen : s.alle_mengen ≡ mengen
    pub own_ids : s.bestellung_items_ids ≡ ids
    pub kategorien : length s.alle_kategorien ≡ length items
    pub unterkategorien : length s.alle_unterkategorien ≡ length items
    pub bezahlt : s.mengebezahlt ≡ replicate (length mengen) (pos 0)

  -- The counters of the section are those collected.
  abbrev pub Stored : ℕ → Sammlung Text Preis → Type 0
  Stored section s = s.bezahlt_mengen section ≡ some s.mengebezahlt

replicate-append :
    {A : Type 0} (n m : ℕ) (a : A) → replicate n a ++ replicate m a ≡ replicate (n + m) a
replicate-append zero m a = ap (λ k. replicate k a) (omega arith)
replicate-append (suc n) m a =
    ap (λ xs. a ∷ xs) (replicate-append n m a) ∙ ap (λ k. replicate k a) one_more
  where
    one_more : suc (n + m) ≡ suc n + m
    one_more = omega arith

module _ {Text Preis : Type 0} ⦃eq : Equal Text⦄ where
  open eq use {same}

  -- The orders of a table.
  unfoldable pub of_tisch :
      Text → List (KellnerTvSection Text Preis) → List (KellnerTvSection Text Preis)
  of_tisch tisch [] = []
  of_tisch tisch (b ∷ bs) =
      let rest = of_tisch tisch bs in if same b.tischnummer tisch then b ∷ rest else rest

  IsOrder-Named : (b : KellnerTvSection Text Preis) → IsOrder b → All (Named b) b.items
  IsOrder-Named b order = All-get (Named b) b.items λ k items at.
      let (j, hj, gj) =
        index_of-some (same_list (same_list same)) b.items k items refl_items eq_items at in
      let (ukats, kat, hu, hk, le) = order.named j items gj in (j, ukats, kat, hj, hu, hk, le)

  -- The collection once the rows of an order are in it.
  abbrev mit_bestellung :
      ℕ → KellnerTvSection Text Preis → Sammlung Text Preis → Sammlung Text Preis
  mit_bestellung section b s =
      let bezahlt = s.mengebezahlt ++ replicate (length (flatten2 b.menge)) (pos 0) in
      record s {
        alle_preise = s.alle_preise ++ flatten2 b.preis;
        alle_mengen = s.alle_mengen ++ flatten2 b.menge;
        mengebezahlt = bezahlt;
        bestellung_items_ids = (b.bestellung_id, flatten2 b.items_id) ∷ s.bestellung_items_ids;
        bezahlt_mengen = update s.bezahlt_mengen section bezahlt;
      }

  aufnehmen_lem :
      (section : ℕ) (b : KellnerTvSection Text Preis) (s : Sammlung Text Preis)
      → (items : List Text) (preise : List Preis) (mengen : List ℤ) (ids : List (Text × List Text))
      → IsOrder b
      → IsSammlung s items preise mengen ids
      → (s' : Sammlung Text Preis) × (aufnehmen section b s ≡ some s')
        × IsSammlung s'
            (items ++ flatten2 b.items)
            (preise ++ flatten2 b.preis)
            (mengen ++ flatten2 b.menge)
            ((b.bestellung_id, flatten2 b.items_id) ∷ ids)
        × Stored section s'
  unfolding aufnehmen
  aufnehmen_lem section b s items preise mengen ids order h =
      let (ks, us, done, hk, hu) = kategorie_lem b b.items s (IsOrder-Named b order) in
      (
        mit_bestellung section b (mit_zeilen s (flatten2 b.items) ks us),
        rw (done) refl,
        record {
          own_items = ap (λ xs. xs ++ flatten2 b.items) h.own_items;
          own_preise = ap (λ xs. xs ++ flatten2 b.preis) h.own_preise;
          own_mengen = ap (λ xs. xs ++ flatten2 b.menge) h.own_mengen;
          own_ids = ap (λ xs. (b.bestellung_id, flatten2 b.items_id) ∷ xs) h.own_ids;
          kategorien = omega (
            arith,
            length-append s.alle_kategorien ks,
            length-append items (flatten2 b.items),
            h.kategorien,
          );
          unterkategorien = omega (
            arith,
            length-append s.alle_unterkategorien us,
            length-append items (flatten2 b.items),
            h.unterkategorien,
          );
          bezahlt =
              ap (λ xs. xs ++ replicate (length (flatten2 b.menge)) (pos 0)) h.bezahlt
              ∙ replicate-append (length mengen) (length (flatten2 b.menge)) (pos 0)
              ∙ ap (λ n. replicate n (pos 0)) (sym (length-append mengen (flatten2 b.menge)));
        },
        rw (eq→== section section refl) refl,
      )

  joined :
      (s : Sammlung Text Preis) (is is' is'' : List Text) (ps ps' ps'' : List Preis)
      → (ms ms' ms'' : List ℤ) (ids : List (Text × List Text))
      → IsSammlung s ((is ++ is') ++ is'') ((ps ++ ps') ++ ps'') ((ms ++ ms') ++ ms'') ids
      → IsSammlung s (is ++ (is' ++ is'')) (ps ++ (ps' ++ ps'')) (ms ++ (ms' ++ ms'')) ids
  joined s is is' is'' ps ps' ps'' ms ms' ms'' ids h =
      rw (append_assoc is is' is'', append_assoc ps ps' ps'', append_assoc ms ms' ms'') at h

  -- Why the counters of the section are there in the end: they were, or an order follows.
  abbrev Starts : ℕ → Text → List (KellnerTvSection Text Preis) → Sammlung Text Preis → Type 0
  Starts section tisch bs s = Stored section s ⊎ (0 < length (of_tisch tisch bs))

  -- What the loop over the orders ends with.
  abbrev Ends :
      ℕ
      → Text
      → List (KellnerTvSection Text Preis)
      → Sammlung Text Preis
      → List Text
      → List Preis
      → List ℤ
      → List (Text × List Text)
      → Type 0
  Ends section tisch bs s items preise mengen ids =
      (s' : Sammlung Text Preis) × (je_bestellung section tisch bs s ≡ some s')
      × IsSammlung s' (items ++ alle (λ b. flatten2 b.items) (of_tisch tisch bs))
          (preise ++ alle (λ b. flatten2 b.preis) (of_tisch tisch bs))
          (mengen ++ alle (λ b. flatten2 b.menge) (of_tisch tisch bs))
          (eingetragen (of_tisch tisch bs) ids)
      × (Starts section tisch bs s → Stored section s')

  pub bestellung_lem :
      (section : ℕ) (tisch : Text) (bs : List (KellnerTvSection Text Preis))
      → (s : Sammlung Text Preis) (items : List Text) (preise : List Preis) (mengen : List ℤ)
      → (ids : List (Text × List Text)) → All IsOrder bs
      → IsSammlung s items preise mengen ids
      → Ends section tisch bs s items preise mengen ids
  unfolding je_bestellung of_tisch alle eingetragen
  bestellung_lem section tisch [] s items preise mengen ids orders h = (
    s,
    refl,
    rw (append-nil items, append-nil preise) (rw (append-nil mengen) h),
    λ starts. elim starts [ inl stored ↦ stored | inr more ↦ absurd (omega arith) ],
  )
  bestellung_lem section tisch (b ∷ bs) s items preise mengen ids (order, orders) h =
      elim (Bool-cases (same b.tischnummer tisch)) [
        | inl e ↦
            let (s', taken, h', stored) =
              aufnehmen_lem section b s items preise mengen ids order h in
            let (s'', done, h'', ends) =
              bestellung_lem section tisch bs s' (items ++ flatten2 b.items)
                (preise ++ flatten2 b.preis) (mengen ++ flatten2 b.menge)
                ((b.bestellung_id, flatten2 b.items_id) ∷ ids) orders h' in
            rw (e) (
              s'',
              rw (taken) done,
              joined s'' items (flatten2 b.items) _ preise (flatten2 b.preis) _ mengen
                  (flatten2 b.menge) _ _ h'',
              λ starts. ends (inl stored),
            )
        | inr e ↦
            let (s', done, h', ends) =
              bestellung_lem section tisch bs s items preise mengen ids orders h in
            rw (e) (s', done, h', ends)
      ]
