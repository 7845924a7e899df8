-- ===== src/Rechnung/Lesen/Durchlauf/Gleich.antt =====
-- The whole traversal beside the traversal of the items alone and that of the extras alone.
use smolokellner.Base.{◌≡◌, refl, sym, ap, ◌∙◌}
use smolokellner.Base.{Option, none, some, List, [], ◌∷◌, map}
use mathlib.Core.Option.{some-injective}
use smolokellner.Rechnung.Daten.{Equal, ◌>>=◌}
use smolokellner.Rechnung.Lesen.{Unterkategorie, Eintrag, je_unter}
use smolokellner.Rechnung.Lesen.Extras.{UnterExtras, Lesestand, extras_je_unter}
use smolokellner.Rechnung.Lesen.Durchlauf.{UnterSnap, nur_items, nur_extras, je_unter_snap}

pub bind-some :
    {A B : Type 0} (m : Option A) (f : A → Option B) (b : B)
    → (m >>= f) ≡ some b
    → (a : A) × (m ≡ some a) × (f a ≡ some b)
bind-some none f b h = cc
bind-some (some a) f b h = (a, refl, h)

pub bind_assoc :
    {A B C : Type 0} (m : Option A) (f : A → Option B) (g : B → Option C)
    → ((m >>= f) >>= g) ≡ (m >>= λ a. f a >>= g)
bind_assoc none f g = refl
bind_assoc (some a) f g = refl

pub bind_cong :
    {A B : Type 0} (m : Option A) (f g : A → Option B)
    → ((a : A) → f a ≡ g a)
    → (m >>= f) ≡ (m >>= g)
bind_cong none f g h = refl
bind_cong (some a) f g h = h a

module _ {Text Preis : Type 0} where
  -- A part of the traversal leads from `e` to `e'` and does with the extras what the part of the
  -- traversal of the extras does that ends with the same subcategories.
  pub record Gleich (e e' : Eintrag Text Preis)
      (ganz : Lesestand Text Preis → Option (Eintrag Text Preis × Lesestand Text Preis))
      (extras : Lesestand Text Preis → Option (Option (List (List Text)) × Lesestand Text Preis))
      : Type 0 where
    pub lauf : Lesestand Text Preis → Option (Lesestand Text Preis)
    pub kats : e'.kategorien ≡ e.kategorien
    pub links : (s : Lesestand Text Preis) → ganz s ≡ (lauf s >>= λ s'. some (e', s'))
    pub rechts :
        (s : Lesestand Text Preis) → extras s ≡ (lauf s >>= λ s'. some (e'.unterkategorien, s'))

  abbrev pub mit_some :
      Option (List (List Text) × Lesestand Text Preis)
      → Option (Option (List (List Text)) × Lesestand Text Preis)
  mit_some m = m >>= λ (x, s). some (some x, s)

module _ {Text Preis : Type 0} ⦃eq : Equal Text⦄ where
  pub je_unter-Gleich :
      (L : Unterkategorie Text Preis → Eintrag Text Preis → Option (Eintrag Text Preis))
      → (G : UnterSnap Text Preis
          → Eintrag Text Preis
          → Lesestand Text Preis
          → Option (Eintrag Text Preis × Lesestand Text Preis))
      → (E : UnterExtras Text Preis
          → Option (List (List Text))
          → Lesestand Text Preis
          → Option (List (List Text) × Lesestand Text Preis))
      → ((u : UnterSnap Text Preis) (e e' : Eintrag Text Preis)
          → L (nur_items u) e ≡ some e'
          → Gleich e e' (G u e) (λ s. mit_some (E (nur_extras u) e.unterkategorien s)))
      → (us : List (UnterSnap Text Preis)) (e e' : Eintrag Text Preis)
      → je_unter L (map nur_items us) e ≡ some e'
      → Gleich e e' (je_unter_snap G us e) (extras_je_unter E (map nur_extras us) e.unterkategorien)
  unfolding je_unter je_unter_snap extras_je_unter
  je_unter-Gleich L G E each [] e e' h =
      let same = some-injective e e' h in
      record {
        lauf = some;
        kats = ap (λ x. x.kategorien) (sym same);
        links = λ s. ap (λ x. some (x, s)) same;
        rechts = λ s. ap (λ x. some (x.unterkategorien, s)) same;
      }
  je_unter-Gleich L G E each (u ∷ us) e e' h =
      let (e1, first, more) = bind-some _ _ e' h in
      let one = each u e e1 first in
      let rest = je_unter-Gleich L G E each us e1 e' more in
      record {
        lauf = λ s. one.lauf s >>= rest.lauf;
        kats = rest.kats ∙ one.kats;
        links = λ s.
            ap (λ m. m >>= λ p. je_unter_snap G us p.0 p.1) (one.links s)
            ∙ bind_assoc (one.lauf s) _ _
            ∙ bind_cong (one.lauf s) _ _ rest.links
            ∙ sym (bind_assoc (one.lauf s) _ _);
        rechts = λ s.
            sym (bind_assoc (E (nur_extras u) e.unterkategorien s) _ _)
            ∙ ap (λ m. m >>= λ p. extras_je_unter E (map nur_extras us) p.0 p.1) (one.rechts s)
            ∙ bind_assoc (one.lauf s) _ _
            ∙ bind_cong (one.lauf s) _ _ rest.rechts
            ∙ sym (bind_assoc (one.lauf s) _ _);
      }
