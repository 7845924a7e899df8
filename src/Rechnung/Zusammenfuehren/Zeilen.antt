-- ===== src/Rechnung/Zusammenfuehren/Zeilen.antt =====
-- What the bill of one table holds.
use smolokellner.Base.{ℕ, zero, suc, ◌≤◌, ◌≡◌, refl, sym, ap, ap₂, Bool-cases, ◌∙◌, arith, inl, inr}
use smolokellner.Base.{Option, some, Bool, true, List, [], ◌∷◌, ◌++◌, All}
use smolokellner.Base.{
  get_elem?, get_some, get_lt, All-get, length-replicate, length, length-append, append_assoc,
  append-nil, replicate,
}
use mathlib.Core.Option.{some-injective}
use smolokellner.Rechnung.Daten.{Equal, same_list, index_of, KellnerTvSection}
use smolokellner.Rechnung.Zusammenfuehren.{Sammlung, flatten, flatten2, je_zeile, je_item}
use smolokellner.Rechnung.Zusammenfuehren.{je_kategorie}

-- `==` of arrays is reflexive where that of their elements is.
same_list_refl :
    {A : Type 0} (same : A → A → Bool) (xs : List A)
    → ((x : A) → same x x ≡ true)
    → same_list same xs xs ≡ true
unfolding same_list
same_list_refl same [] h = refl
same_list_refl same (x ∷ xs) h = rw (h x, same_list_refl same xs h) refl

same_list_eq :
    {A : Type 0} (same : A → A → Bool) (xs ys : List A)
    → ((x y : A) → same x y ≡ true → x ≡ y)
    → same_list same xs ys ≡ true
    → xs ≡ ys
unfolding same_list
same_list_eq same [] [] h e = refl
same_list_eq same [] (y ∷ ys) h e = cc
same_list_eq same (x ∷ xs) [] h e = cc
same_list_eq same (x ∷ xs) (y ∷ ys) h e = elim (Bool-cases (same x y)) [
  | inl head ↦ ap₂ (λ a zs. a ∷ zs) (h x y head) (same_list_eq same xs ys h (rw (head) at e))
  | inr other ↦ cc (rw (other) at e)
]

-- `index(of:)` finds an element of the array: an equal one at the place that it returns.
pub index_of-some :
    {A : Type 0} (same : A → A → Bool) (xs : List A) (i : ℕ) (a : A)
    → ((x : A) → same x x ≡ true)
    → ((x y : A) → same x y ≡ true → x ≡ y)
    → get_elem? xs i ≡ some a
    → (j : ℕ) × (index_of same a xs ≡ some j) × (get_elem? xs j ≡ some a)
unfolding index_of
index_of-some same [] i a h k at = cc
index_of-some same (x ∷ xs) zero a h k at = (0, rw (here) refl, at)
  where
    here : same x a ≡ true
    here = rw (some-injective x a at) (h a)
index_of-some same (x ∷ xs) (suc i) a h k at =
    let (j, hj, gj) = index_of-some same xs i a h k at in
    elim (Bool-cases (same x a)) [
      | inl e ↦ (0, rw (e) refl, ap some (k x a e))
      | inr e ↦ (suc j, rw (e, hj) refl, gj)
    ]

module _ {Text : Type 0} ⦃eq : Equal Text⦄ where
  open eq use {same, same_refl, eq_of_same}

  pub refl_item : (x : List Text) → same_list same x x ≡ true
  refl_item x = same_list_refl same x same_refl

  eq_item : (x y : List Text) → same_list same x y ≡ true → x ≡ y
  eq_item x y = same_list_eq same x y eq_of_same

  pub refl_items : (x : List (List Text)) → same_list (same_list same) x x ≡ true
  refl_items x = same_list_refl (same_list same) x refl_item

  pub eq_items : (x y : List (List Text)) → same_list (same_list same) x y ≡ true → x ≡ y
  eq_items x y = same_list_eq (same_list same) x y eq_item

module _ {Text Preis : Type 0} ⦃eq : Equal Text⦄ where
  open eq use {same}

  -- A collection with more rows of items and of their categories.
  abbrev pub mit_zeilen :
      Sammlung Text Preis → List Text → List Text → List Text → Sammlung Text Preis
  mit_zeilen s items kats ukats = record s {
    alle_items = s.alle_items ++ items;
    alle_kategorien = s.alle_kategorien ++ kats;
    alle_unterkategorien = s.alle_unterkategorien ++ ukats;
  }

  -- There are a category and, for each of its arrays of items, a subcategory.
  abbrev pub Named : KellnerTvSection Text Preis → List (List Text) → Type 0
  Named b items =
      (i : ℕ) × (ukats : List Text) × (kat : Text) × (index_of (same_list (same_list same)) items
          b.items
        ≡ some i)
      × (get_elem? b.unterkategorie i ≡ some ukats)
      × (get_elem? b.kategorie i ≡ some kat)
      × (length items ≤ length ukats)

  zeilen_lem :
      (b : KellnerTvSection Text Preis) (items : List (List Text)) (ukats item rest : List Text)
      → (s : Sammlung Text Preis) (i j : ℕ) (kat ukat : Text)
      → index_of (same_list (same_list same)) items b.items ≡ some i
      → get_elem? b.kategorie i ≡ some kat
      → index_of (same_list same) item items ≡ some j
      → get_elem? ukats j ≡ some ukat
      → je_zeile b items ukats item rest s
        ≡ some (record s {
          alle_kategorien = s.alle_kategorien ++ replicate (length rest) kat;
          alle_unterkategorien = s.alle_unterkategorien ++ replicate (length rest) ukat;
        })
  unfolding je_zeile
  zeilen_lem b items ukats item [] s i j kat ukat hi hk hj hu =
      ap₂ (λ ks us. some (record s { alle_kategorien = ks; alle_unterkategorien = us }))
        (sym (append-nil s.alle_kategorien)) (sym (append-nil s.alle_unterkategorien))
  zeilen_lem b items ukats item (x ∷ rest) s i j kat ukat hi hk hj hu =
      rw (hj, hu)
        (rw (hi, hk)
          (zeilen_lem b items ukats item rest
              (record s {
                alle_unterkategorien = s.alle_unterkategorien ++ ukat ∷ [];
                alle_kategorien = s.alle_kategorien ++ kat ∷ [];
              })
              i j kat ukat hi hk hj hu
            ∙ ap₂ (λ ks us. some (record s { alle_kategorien = ks; alle_unterkategorien = us }))
                (append_assoc s.alle_kategorien (kat ∷ []) (replicate (length rest) kat))
                (append_assoc s.alle_unterkategorien (ukat ∷ []) (replicate (length rest) ukat))))

  -- A call that ends with that many more rows, each with a category and a subcategory.
  abbrev pub Adds : Sammlung Text Preis → List Text → Option (Sammlung Text Preis) → Type 0
  Adds s items out =
      (kats ukats : List Text) × (out ≡ some (mit_zeilen s items kats ukats))
      × (length kats ≡ length items)
      × (length ukats ≡ length items)

  Adds-append :
      (s : Sammlung Text Preis) (xs ys ks us : List Text) (out : Option (Sammlung Text Preis))
      → length ks ≡ length xs
      → length us ≡ length xs
      → Adds (mit_zeilen s xs ks us) ys out
      → Adds s (xs ++ ys) out
  Adds-append s xs ys ks us out hk hu (ks', us', same, hk', hu') = (
    ks ++ ks',
    us ++ us',
    same
        ∙ rw (append_assoc s.alle_items xs ys, append_assoc s.alle_kategorien ks ks')
            (rw (append_assoc s.alle_unterkategorien us us') refl),
    omega (arith, length-append ks ks', length-append xs ys),
    omega (arith, length-append us us', length-append xs ys),
  )

  item_lem :
      (b : KellnerTvSection Text Preis) (items rest : List (List Text)) (ukats : List Text)
      → (s : Sammlung Text Preis) (i : ℕ) (kat : Text)
      → index_of (same_list (same_list same)) items b.items ≡ some i
      → get_elem? b.kategorie i ≡ some kat
      → All
          (λ item.
            (j : ℕ) × (ukat : Text) × (index_of (same_list same) item items ≡ some j)
            × (get_elem? ukats j ≡ some ukat))
          rest
      → Adds s (flatten rest) (je_item b items ukats rest s)
  unfolding je_item flatten
  item_lem b items [] ukats s i kat hi hk all = (
    [],
    [],
    rw (append-nil s.alle_items, append-nil s.alle_kategorien)
        (rw (append-nil s.alle_unterkategorien) refl),
    refl,
    refl,
  )
  item_lem b items (item ∷ rest) ukats s i kat hi hk ((j, ukat, hj, hu), all) =
      rw
        (zeilen_lem b items ukats item item (record s { alle_items = s.alle_items ++ item }) i j kat
          ukat hi hk hj hu)
        (Adds-append s item (flatten rest) (replicate (length item) kat)
          (replicate (length item) ukat) _ (length-replicate (length item) kat)
          (length-replicate (length item) ukat)
          (item_lem b items rest ukats
            (mit_zeilen s item (replicate (length item) kat) (replicate (length item) ukat)) i kat
            hi hk all))

  pub kategorie_lem :
      (b : KellnerTvSection Text Preis) (rest : List (List (List Text))) (s : Sammlung Text Preis)
      → All (Named b) rest
      → Adds s (flatten2 rest) (je_kategorie b rest s)
  unfolding je_kategorie flatten2
  kategorie_lem b [] s all = (
    [],
    [],
    rw (append-nil s.alle_items, append-nil s.alle_kategorien)
        (rw (append-nil s.alle_unterkategorien) refl),
    refl,
    refl,
  )
  kategorie_lem b (items ∷ rest) s ((i, ukats, kat, hi, hu, hk, le), all) =
      let (ks, us, same, hks, hus) = item_lem b items items ukats s i kat hi hk named in
      rw (hi, hu)
        (rw (same) (
          Adds-append s (flatten items) (flatten2 rest) ks us _ hks hus
            (kategorie_lem b rest (mit_zeilen s (flatten items) ks us) all)))
    where
      named :
          All
            (λ item.
              (j : ℕ) × (ukat : Text) × (index_of (same_list same) item items ≡ some j)
              × (get_elem? ukats j ≡ some ukat))
            items
      named = All-get _ items λ k item at.
          let (j, hj, gj) = index_of-some (same_list same) items k item refl_item eq_item at in
          let (ukat, there) = get_some ukats j (omega (arith, get_lt items j item gj)) in
          (j, ukat, hj, there)
