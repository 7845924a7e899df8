-- ===== src/Rechnung/Daten.antt =====
-- SMOLO+/Models/KellnerTVSection.swift and BestellungFertig.swift, and the variables of
-- SMOLO+/Views/FertiggestelltVC.swift that its bill works with. A trap of Swift, such as an index
-- out of range or `nil!`, is `none`.
use smolokellner.Base.{ℕ, suc, Bool, true, false, ◌&&◌, Option, none, some, List, [], ◌∷◌, ℤ, ◌≡◌}
use smolokellner.Base.{◌==◌, if◌then◌else◌}

-- The strings that the database delivers, with their `==`.
pub record Equal (Text : Type 0) : Type 0 where
  pub same : Text → Text → Bool
  pub same_refl : (x : Text) → same x x ≡ true
  pub eq_of_same : (x y : Text) → same x y ≡ true → x ≡ y

infixl 5 ◌>>=◌
abbrev pub ◌>>=◌ : {A B : Type 0} → Option A → (A → Option B) → Option B
none >>= f = none
some a >>= f = f a

-- `==` of arrays.
unfoldable pub same_list : {A : Type 0} → (A → A → Bool) → List A → List A → Bool
same_list same [] [] = true
same_list same [] (y ∷ ys) = false
same_list same (x ∷ xs) [] = false
same_list same (x ∷ xs) (y ∷ ys) = same x y && same_list same xs ys

-- `index(of:)`
unfoldable pub index_of : {A : Type 0} → (A → A → Bool) → A → List A → Option ℕ
index_of same a [] = none
index_of same a (x ∷ xs) =
    let later = index_of same a xs in if same x a then some 0 else (later >>= λ i. some (suc i))

-- A dictionary with integer keys.
abbrev pub Dict : Type 0 → Type 0
Dict A = ℕ → Option A

abbrev pub empty : {A : Type 0} → Dict A
empty k = none

abbrev pub update : {A : Type 0} → Dict A → ℕ → A → Dict A
update d k a j = if j == k then some a else d j

module _ (Text Preis : Type 0) where
  -- What the bill reads of the struct: the items by category and subcategory.
  pub record KellnerTvSection : Type 0 where
    pub bestellung_id : Text
    pub tischnummer : Text
    pub kategorie : List Text
    pub unterkategorie : List (List Text)
    pub items : List (List (List Text))
    pub preis : List (List (List Preis))
    pub extras_preis : List (List (List (List Preis)))
    pub menge : List (List (List ℤ))
    pub items_id : List (List (List Text))

  -- The bill of a table. `bestellung_id` is an association list, the last entry of a key first.
  pub record BestellungFertig : Type 0 where
    pub bestellung_id : List (Text × List Text)
    pub tischnummer : Text
    pub kategorie : List Text
    pub unterkategorie : List Text
    pub items : List Text
    pub preis : List Preis
    pub menge : List ℤ
    pub items_id : List Text
    pub bezahlt_menge : Dict (List ℤ)
    pub expanded : Bool

  -- `tischnummer_ids` lists the dictionary in the order in which Swift runs through its keys.
  pub record FertiggestelltVc : Type 0 where
    pub bestellungen : List KellnerTvSection
    pub bestellung_ids : List Text
    pub tischnummer_ids : List (Text × List Text)
    pub bestellungen_fertig : List BestellungFertig
    pub bestellungen_bezahlen : List BestellungFertig
    pub tischnummer_bezahlen : Text
    pub true_section : ℕ
