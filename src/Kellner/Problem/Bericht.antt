-- ===== src/Kellner/Problem/Bericht.antt =====
-- The report of a problem against the order as a tree of categories and subcategories.
use smolokellner.Base.{ℕ, zero, suc, ◌≤◌, ◌≡◌, ◌≢◌, refl, sym, ap, subst, ◌∙◌, arith}
use smolokellner.Base.{Option, none, some, List, [], ◌∷◌, ◌++◌, append-nil, append_assoc, ℤ, All}
use smolokellner.Base.{
  get_elem?, get-row, get-none, length, length-append, length-map, map, map-append, IsUnique,
  All-behind,
}
use smolokellner.Rechnung.Daten.{Equal, ◌>>=◌, index_of}
use smolokellner.Rechnung.Auswahl.Zellen.{differ}
use smolokellner.Kellner.Problem.{VolleSection, Zeile, zeilen_schleife}
use smolokellner.Kellner.Problem.{unter_schleife, kategorie_schleife, view_problem_abschicken}

-- The first `n` entries, if there are as many.
abbrev pub genau : {A : Type 0} → ℕ → List A → Option (List A)
genau zero xs = some []
genau (suc n) [] = none
genau (suc n) (x ∷ xs) = genau n xs >>= λ rest. some (x ∷ rest)

pub record Posten (Text Preis : Type 0) : Type 0 where
  pub name : Text
  pub menge : ℤ
  pub preis : Preis
  pub kommentar : Text

pub record Gruppe (Text Preis : Type 0) : Type 0 where
  pub unterkategorie : Text
  pub posten : List (Posten Text Preis)

pub record Rubrik (Text Preis : Type 0) : Type 0 where
  pub kategorie : Text
  pub gruppen : List (Gruppe Text Preis)

module _ {Text Preis : Type 0} where
  abbrev pub zeile : Text → Text → Posten Text Preis → Zeile Text Preis
  zeile kategorie unterkategorie p = record {
    kategorie = kategorie;
    unterkategorie = unterkategorie;
    name = p.name;
    menge = p.menge;
    preis = p.preis;
    kommentar = p.kommentar;
  }

  -- Of each subcategory, as many rows as the category has subcategories.
  unfoldable pub gruppen_bericht :
      ℕ → Text → List (Gruppe Text Preis) → Option (List (Zeile Text Preis))
  gruppen_bericht n kategorie [] = some []
  gruppen_bericht n kategorie (g ∷ gs) =
      genau n (map (zeile kategorie g.unterkategorie) g.posten) >>= λ zeilen.
      gruppen_bericht n kategorie gs >>= λ rest. some (zeilen ++ rest)

  unfoldable pub bericht : List (Rubrik Text Preis) → Option (List (Zeile Text Preis))
  bericht [] = some []
  bericht (r ∷ rs) = gruppen_bericht (length r.gruppen) r.kategorie r.gruppen >>= λ zeilen.
      bericht rs >>= λ rest. some (zeilen ++ rest)

  zeilen_lem :
      (n : ℕ) (before rest : List (Posten Text Preis)) (kategorie unterkategorie : Text)
      → zeilen_schleife n
          (length before)
          kategorie
          unterkategorie
          (map (λ p. p.name) (before ++ rest))
          (map (λ p. p.menge) (before ++ rest))
          (map (λ p. p.preis) (before ++ rest))
          (map (λ p. p.kommentar) (before ++ rest))
        ≡ genau n (map (zeile kategorie unterkategorie) rest)
  unfolding zeilen_schleife
  zeilen_lem zero before rest kat ukat = refl
  zeilen_lem (suc n) before [] kat ukat =
      rw (get-none (map (λ p. p.name) (before ++ [])) (length before) out) refl
    where
      out : length (map (λ p. p.name) (before ++ [])) ≤ length before
      out = omega (arith, length-map (λ p. p.name) (before ++ []), ap length (append-nil before))
  zeilen_lem (suc n) before (p ∷ rest) kat ukat = rw (get-row (λ q. q.name) before p rest) (
      rw (get-row (λ q. q.menge) before p rest) (
        rw (get-row (λ q. q.preis) before p rest) (
          rw (get-row (λ q. q.kommentar) before p rest) (
            ap (λ o. o >>= λ zs. some (zeile kat ukat p ∷ zs))
              (rw (append_assoc before (p ∷ []) rest, one_more) at
                (zeilen_lem n (before ++ p ∷ []) rest kat ukat))))))
    where
      one_more : length (before ++ p ∷ []) ≡ suc (length before)
      one_more = omega (arith, length-append before (p ∷ []))

-- An array of arrays that is an image of the tree.
abbrev pub je_rubrik :
    {Text Preis A : Type 0} → (Gruppe Text Preis → A) → List (Rubrik Text Preis) → List (List A)
je_rubrik f rs = map (λ r. map f r.gruppen) rs

module _ {Text Preis Zeit : Type 0} where
  -- The arrays of the order hold this tree.
  pub record IsBaum (b : VolleSection Text Preis Zeit) (rs : List (Rubrik Text Preis))
      : Type 0 where
    pub kategorien : b.section.kategorie ≡ map (λ r. r.kategorie) rs
    pub unterkategorien : b.section.unterkategorie ≡ je_rubrik (λ g. g.unterkategorie) rs
    pub items : b.section.items ≡ je_rubrik (λ g. map (λ p. p.name) g.posten) rs
    pub mengen : b.section.menge ≡ je_rubrik (λ g. map (λ p. p.menge) g.posten) rs
    pub preise : b.section.preis ≡ je_rubrik (λ g. map (λ p. p.preis) g.posten) rs
    pub kommentare : b.kommentar ≡ je_rubrik (λ g. map (λ p. p.kommentar) g.posten) rs

  -- What the arrays hold at a category.
  record IsStelle (b : VolleSection Text Preis Zeit) (i : ℕ) (r : Rubrik Text Preis) : Type 0 where
    pub kategorie : get_elem? b.section.kategorie i ≡ some r.kategorie
    pub unterkategorien :
        get_elem? b.section.unterkategorie i ≡ some (map (λ g. g.unterkategorie) r.gruppen)
    pub items : get_elem? b.section.items i ≡ some (map (λ g. map (λ p. p.name) g.posten) r.gruppen)
    pub mengen :
        get_elem? b.section.menge i ≡ some (map (λ g. map (λ p. p.menge) g.posten) r.gruppen)
    pub preise :
        get_elem? b.section.preis i ≡ some (map (λ g. map (λ p. p.preis) g.posten) r.gruppen)
    pub kommentare :
        get_elem? b.kommentar i ≡ some (map (λ g. map (λ p. p.kommentar) g.posten) r.gruppen)

  IsBaum-IsStelle :
      (b : VolleSection Text Preis Zeit) (before : List (Rubrik Text Preis)) (r : Rubrik Text Preis)
      → (rs : List (Rubrik Text Preis)) → IsBaum b (before ++ r ∷ rs)
      → IsStelle b (length before) r
  IsBaum-IsStelle b before r rs h = record {
    kategorie = rw (h.kategorien) (get-row (λ q. q.kategorie) before r rs);
    unterkategorien =
        rw (h.unterkategorien) (get-row (λ q. map (λ g. g.unterkategorie) q.gruppen) before r rs);
    items =
        rw (h.items) (get-row (λ q. map (λ g. map (λ p. p.name) g.posten) q.gruppen) before r rs);
    mengen =
        rw (h.mengen) (get-row (λ q. map (λ g. map (λ p. p.menge) g.posten) q.gruppen) before r rs);
    preise =
        rw (h.preise) (get-row (λ q. map (λ g. map (λ p. p.preis) g.posten) q.gruppen) before r rs);
    kommentare =
        rw (h.kommentare)
          (get-row (λ q. map (λ g. map (λ p. p.kommentar) g.posten) q.gruppen) before r rs);
  }

module _ {Text Preis : Type 0} ⦃eq : Equal Text⦄ where
  open eq use {same, same_refl}

  index_of_unique :
      (before : List (Gruppe Text Preis)) (g : Gruppe Text Preis) (gs : List (Gruppe Text Preis))
      → IsUnique (map (λ h. h.unterkategorie) (before ++ g ∷ gs))
      → index_of same g.unterkategorie (map (λ h. h.unterkategorie) (before ++ g ∷ gs))
        ≡ some (length before)
  unfolding index_of
  index_of_unique [] g gs h = rw (same_refl g.unterkategorie) refl
  index_of_unique (x ∷ before) g gs h =
      rw (differ x.unterkategorie g.unterkategorie apart)
        (rw (index_of_unique before g gs h.1) refl)
    where
      apart : x.unterkategorie ≢ g.unterkategorie
      apart =
          All-behind (λ y. x.unterkategorie ≢ y) (map (λ h. h.unterkategorie) before)
            g.unterkategorie (map (λ h. h.unterkategorie) gs)
            (subst (λ l. All (λ y. x.unterkategorie ≢ y) l)
              (map-append (λ h. h.unterkategorie) before (g ∷ gs)) h.0)

module _ {Text Preis Zeit : Type 0} ⦃eq : Equal Text⦄ where
  open eq use {same}

  gruppen_lem :
      (b : VolleSection Text Preis Zeit) (i : ℕ) (r : Rubrik Text Preis)
      → (before gs : List (Gruppe Text Preis)) → IsStelle b i r
      → IsUnique (map (λ g. g.unterkategorie) r.gruppen)
      → r.gruppen ≡ before ++ gs
      → unter_schleife b i (map (λ g. g.unterkategorie) r.gruppen) (map (λ g. g.unterkategorie) gs)
        ≡ gruppen_bericht (length r.gruppen) r.kategorie gs
  unfolding unter_schleife gruppen_bericht
  gruppen_lem b i r before [] at unique split = refl
  gruppen_lem b i r before (g ∷ gs) at unique split = rw (found) (
      rw (at.items) (
        rw (row (λ h. map (λ p. p.name) h.posten)) (
          rw (at.mengen) (
            rw (row (λ h. map (λ p. p.menge) h.posten)) (
              rw (at.preise) (
                rw (row (λ h. map (λ p. p.preis) h.posten)) (
                  rw (at.kommentare) (
                    rw (row (λ h. map (λ p. p.kommentar) h.posten)) (
                      rw (at.kategorie) (
                        rw (length-map (λ h. map (λ p. p.name) h.posten) r.gruppen) (
                          rw
                            (zeilen_lem (length r.gruppen) [] g.posten r.kategorie g.unterkategorie)
                            (ap
                              (λ o.
                                genau (length r.gruppen)
                                  (map (zeile r.kategorie g.unterkategorie) g.posten)
                                >>= λ zeilen. o >>= λ rest. some (zeilen ++ rest))
                              (gruppen_lem b i r (before ++ g ∷ []) gs at unique
                                (split ∙ sym (append_assoc before (g ∷ []) gs)))))))))))))))
    where
      row :
          {A : Type 0} (f : Gruppe Text Preis → A)
          → get_elem? (map f r.gruppen) (length before) ≡ some (f g)
      row f = ap (λ l. get_elem? (map f l) (length before)) split ∙ get-row f before g gs

      found :
          index_of same g.unterkategorie (map (λ h. h.unterkategorie) r.gruppen)
          ≡ some (length before)
      found =
          ap (λ l. index_of same g.unterkategorie (map (λ h. h.unterkategorie) l)) split
          ∙ index_of_unique before g gs
              (subst (λ l. IsUnique (map (λ h. h.unterkategorie) l)) split unique)

  kategorie_lem :
      (b : VolleSection Text Preis Zeit) (all before rs : List (Rubrik Text Preis))
      → IsBaum b all
      → All (λ r. IsUnique (map (λ g. g.unterkategorie) r.gruppen)) rs
      → all ≡ before ++ rs
      → kategorie_schleife b (length rs) (length before) ≡ bericht rs
  unfolding kategorie_schleife bericht
  kategorie_lem b all before [] baum unique split = refl
  kategorie_lem b all before (r ∷ rs) baum unique split = rw (stelle.unterkategorien) (
      rw (gruppen_lem b (length before) r [] r.gruppen stelle unique.0 refl) (
        ap
          (λ o. gruppen_bericht (length r.gruppen) r.kategorie r.gruppen >>= λ zeilen.
            o >>= λ rest. some (zeilen ++ rest))
          (rw (one_more) at (
            kategorie_lem b all (before ++ r ∷ []) rs baum unique.1
              (split ∙ sym (append_assoc before (r ∷ []) rs))))))
    where
      stelle : IsStelle b (length before) r
      stelle = IsBaum-IsStelle b before r rs (subst (IsBaum b) split baum)

      one_more : length (before ++ r ∷ []) ≡ suc (length before)
      one_more = omega (arith, length-append before (r ∷ []))

  -- Sending the report of an order, in whose categories no subcategory stands twice, with a text
  -- that is not empty: it writes the text, the order's data and, of each subcategory, the first
  -- rows, as many as its category has subcategories, and it traps where a subcategory has fewer.
  pub view_problem_abschicken_lem :
      (leer problemtext : Text) (bestellungen : List (VolleSection Text Preis Zeit)) (section : ℕ)
      → (b : VolleSection Text Preis Zeit) (rs : List (Rubrik Text Preis)) → problemtext ≢ leer
      → get_elem? bestellungen section ≡ some b
      → IsBaum b rs
      → All (λ r. IsUnique (map (λ g. g.unterkategorie) r.gruppen)) rs
      → view_problem_abschicken leer problemtext bestellungen section ≡ (
          bericht rs >>= λ zeilen. some (
            some record {
              information = record {
                problemtext = problemtext;
                bestellung_id = b.section.bestellung_id;
                tischnummer = b.section.tischnummer;
                from_user_id = b.from_user_id;
                time_stamp = b.time_stamp;
              };
              zeilen = zeilen;
            }))
  unfolding view_problem_abschicken
  view_problem_abschicken_lem leer problemtext bestellungen section b rs full at baum unique =
      rw (differ problemtext leer full)
        (rw (at) (rw (counted) (rw (kategorie_lem b rs [] rs baum unique refl) refl)))
    where
      counted : length b.section.kategorie ≡ length rs
      counted = ap length baum.kategorien ∙ length-map (λ r. r.kategorie) rs
