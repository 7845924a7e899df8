-- ===== src/Rechnung/Preise/Summe.antt =====
-- The price of an order as the sum over its items.
use smolokellner.Base.{ℕ, zero, suc, ◌+◌, ◌<◌, ◌≤◌, ◌≡◌, refl, sym, ap, ap₂, ◌∙◌, arith}
use smolokellner.Base.{
  Option, none, some, List, [], ◌∷◌, ◌++◌, ℤ, get_elem?, get-row, get-none, length, length-append,
  map, map-append, length-map, append_assoc, le-or_lt, inl, inr,
}
use smolokellner.Rechnung.Daten.{◌>>=◌, KellnerTvSection}
use smolokellner.Rechnung.Zusammenfuehren.{flatten, flatten2}
use smolokellner.Rechnung.Preise.{
  Double, flatten3, doubles, teil_schleife, teil_preis, gesamtpreis_berechnen,
}

-- An item with the prices of its extras.
pub record Artikel (Preis : Type 0) : Type 0 where
  pub preis : Preis
  pub extra : Preis
  pub menge : ℤ

flatten-map :
    {A B : Type 0} (f : A → B) (xss : List (List A))
    → flatten (map (map f) xss) ≡ map f (flatten xss)
unfolding flatten
flatten-map f [] = refl
flatten-map f (xs ∷ xss) =
    ap (λ zs. map f xs ++ zs) (flatten-map f xss) ∙ sym (map-append f xs (flatten xss))

flatten2-map :
    {A B : Type 0} (f : A → B) (xsss : List (List (List A)))
    → flatten2 (map (map (map f)) xsss) ≡ map f (flatten2 xsss)
unfolding flatten2
flatten2-map f [] = refl
flatten2-map f (xss ∷ xsss) =
    ap₂ (λ xs ys. xs ++ ys) (flatten-map f xss) (flatten2-map f xsss)
    ∙ sym (map-append f (flatten xss) (flatten2 xsss))

-- Arrays of one element each give back the elements.
flatten-single :
    {A B : Type 0} (f : A → B) (xs : List A) → flatten (map (λ x. f x ∷ []) xs) ≡ map f xs
unfolding flatten
flatten-single f [] = refl
flatten-single f (x ∷ xs) = ap (λ zs. f x ∷ zs) (flatten-single f xs)

flatten2-single :
    {A B : Type 0} (f : A → B) (xss : List (List A))
    → flatten2 (map (map (λ x. f x ∷ [])) xss) ≡ map f (flatten xss)
unfolding flatten2 flatten
flatten2-single f [] = refl
flatten2-single f (xs ∷ xss) =
    ap₂ (λ ys zs. ys ++ zs) (flatten-single f xs) (flatten2-single f xss)
    ∙ sym (map-append f xs (flatten xss))

flatten3-single :
    {A B : Type 0} (f : A → B) (xsss : List (List (List A)))
    → flatten3 (map (map (map (λ x. f x ∷ []))) xsss) ≡ map f (flatten2 xsss)
unfolding flatten3 flatten2
flatten3-single f [] = refl
flatten3-single f (xss ∷ xsss) =
    ap₂ (λ ys zs. ys ++ zs) (flatten2-single f xss) (flatten3-single f xsss)
    ∙ sym (map-append f (flatten xss) (flatten2 xsss))

doubles-map :
    {A Preis : Type 0} (f : ℤ → Preis) (g : A → ℤ) (xs : List A)
    → doubles f (map g xs) ≡ map (λ x. f (g x)) xs
doubles-map f g [] = refl
doubles-map f g (x ∷ xs) = ap (λ ys. f (g x) ∷ ys) (doubles-map f g xs)

bind-none :
    {A B : Type 0} (o : Option A) (k : A → Option B) → ((a : A) → k a ≡ none) → (o >>= k) ≡ none
bind-none none k h = refl
bind-none (some a) k h = h a

module _ {Preis : Type 0} ⦃double : Double Preis⦄ where
  open double use {null, plus, mal, of_int}

  -- The sum over the items, from the first to the last.
  unfoldable pub summe : Preis → List (Artikel Preis) → Preis
  summe label [] = label
  summe label (a ∷ rest) = summe (plus label (mal (plus a.preis a.extra) (of_int a.menge))) rest

  schleife_lem :
      (before rest : List (Artikel Preis)) (label : Preis)
      → teil_schleife
          (length rest)
          (length before)
          (map (λ a. a.preis) (before ++ rest))
          (map (λ a. a.extra) (before ++ rest))
          (map (λ a. of_int a.menge) (before ++ rest))
          label
        ≡ some (summe label rest)
  unfolding teil_schleife summe
  schleife_lem before [] label = refl
  schleife_lem before (a ∷ rest) label = rw (get-row (λ a. a.preis) before a rest) (
      rw (get-row (λ a. a.extra) before a rest) (
        rw (get-row (λ a. of_int a.menge) before a rest) (
          rw (append_assoc before (a ∷ []) rest, one_more) at
            (schleife_lem (before ++ a ∷ []) rest
              (plus label (mal (plus a.preis a.extra) (of_int a.menge)))))))
    where
      one_more : length (before ++ a ∷ []) ≡ suc (length before)
      one_more = omega (arith, length-append before (a ∷ []))

  schleife_trap :
      (rounds i : ℕ) (item_preis extras_preis menge : List Preis) (label : Preis)
      → i ≤ length extras_preis
      → length extras_preis < i + rounds
      → teil_schleife rounds i item_preis extras_preis menge label ≡ none
  unfolding teil_schleife
  schleife_trap zero i item_preis extras_preis menge label le lt = absurd (omega arith)
  schleife_trap (suc rounds) i item_preis extras_preis menge label le lt =
      bind-none (get_elem? item_preis i) _ λ p. elim (le-or_lt (length extras_preis) i) [
        | inl out ↦ rw (get-none extras_preis i out) refl
        | inr within ↦ bind-none (get_elem? extras_preis i) _ λ e.
            bind-none (get_elem? menge i) _ λ m.
              schleife_trap rounds (suc i) item_preis extras_preis menge _ (omega arith)
                (omega arith)
      ]

  -- Where each item of an order has one extra price, the label is the sum over the items, in their
  -- order, of price and extra price times quantity.
  pub gesamtpreis_berechnen-summe :
      {Text : Type 0} (bestellungen : List (KellnerTvSection Text Preis)) (section : ℕ)
      → (b : KellnerTvSection Text Preis) (artikel : List (List (List (Artikel Preis))))
      → get_elem? bestellungen section ≡ some b
      → b.preis ≡ map (map (map (λ a. a.preis))) artikel
      → b.extras_preis ≡ map (map (map (λ a. a.extra ∷ []))) artikel
      → b.menge ≡ map (map (map (λ a. a.menge))) artikel
      → gesamtpreis_berechnen bestellungen section ≡ some (summe null (flatten2 artikel))
  unfolding gesamtpreis_berechnen teil_preis
  gesamtpreis_berechnen-summe bestellungen section b artikel at preise extras mengen = rw (at) (
      rw (preise, flatten2-map (λ a. a.preis) artikel)
        (rw (extras, flatten3-single (λ a. a.extra) artikel)
          (rw (mengen, flatten2-map (λ a. a.menge) artikel)
            (rw
              (
                doubles-map of_int (λ a. a.menge) (flatten2 artikel),
                length-map (λ a. a.preis) (flatten2 artikel),
              )
              (schleife_lem [] (flatten2 artikel) null)))))

  -- Where an order has fewer extra prices than items, computing its price traps.
  pub gesamtpreis_berechnen_trap :
      {Text : Type 0} (bestellungen : List (KellnerTvSection Text Preis)) (section : ℕ)
      → (b : KellnerTvSection Text Preis) → get_elem? bestellungen section ≡ some b
      → length (flatten3 b.extras_preis) < length (flatten2 b.preis)
      → gesamtpreis_berechnen bestellungen section ≡ none
  unfolding gesamtpreis_berechnen teil_preis
  gesamtpreis_berechnen_trap bestellungen section b at fewer = rw (at) (
      schleife_trap (length (flatten2 b.preis)) 0 (flatten2 b.preis) (flatten3 b.extras_preis) _ _
        (omega arith) (omega arith))
