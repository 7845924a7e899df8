-- ===== src/Tests/Speisekarte.antt =====
-- A menu of two categories that arrive in the other order, and the theorems on it. Texts are numbers
-- here.
use smolokellner.Base.{ℕ, ◌≡◌, refl, Bool, true, false, Option, none, some, List, [], ◌∷◌, arith}
use smolokellner.Base.{◌==◌, ◌&&◌, ap, ◌∙◌, if◌then◌else◌, map}
use smolokellner.Rechnung.Daten.{Equal, ◌>>=◌}
use smolokellner.Tests.Rechnung.{number_texts}
use smolokellner.Tests.Kellner.{function_db}
use smolokellner.Kellner.Datenbank.{Datenbank}
use smolokellner.Speisekarte.{
  SpeisekarteInformation, UnterSnapshot, KategorieSnapshot, ExpandTvSection2, ProdukteVc,
}
use smolokellner.Speisekarte.{ankuenfte}
use smolokellner.Speisekarte.Ankunft.{section_von, ankuenfte_lem}
use smolokellner.Speisekarte.Verfuegbar.{Ort, pass, pass-pass}

abbrev artikel : ℕ → SpeisekarteInformation ℕ ℕ
artikel n = record { name = n; preis = n; liter = 0; beschreibung = 0; verfuegbarkeit = true }

abbrev gruppe : ℕ → List (SpeisekarteInformation ℕ ℕ) → UnterSnapshot ℕ ℕ
gruppe key items = record { key = key; items = items }

abbrev getraenke : KategorieSnapshot ℕ ℕ
getraenke = record {
  key = 1;
  unterkategorien = gruppe 2 (artikel 3 ∷ artikel 4 ∷ []) ∷ gruppe 3 (artikel 5 ∷ []) ∷ [];
}

abbrev speisen : KategorieSnapshot ℕ ℕ
speisen = record { key = 2; unterkategorien = gruppe 2 (artikel 6 ∷ []) ∷ [] }

abbrev am_anfang : ProdukteVc ℕ ℕ
am_anfang = record { kategorien = 1 ∷ 2 ∷ []; karten = []; sections = [] }

ankuenfte_lem_example :
    (vc : ProdukteVc ℕ ℕ) × (ankuenfte (speisen ∷ getraenke ∷ []) am_anfang ≡ some vc)
    × (vc.sections ≡ map section_von (getraenke ∷ speisen ∷ []))
ankuenfte_lem_example =
    ankuenfte_lem (getraenke ∷ speisen ∷ []) (speisen ∷ getraenke ∷ [])
      (
        record { some_unter = omega arith; some_items = (omega arith, tt); unique = (tt, tt) },
        (
          record {
            some_unter = omega arith;
            some_items = (omega arith, (omega arith, tt));
            unique = (((λ h. cc), tt), (tt, tt));
          },
          tt,
        ),
      )
      (((λ h. cc), tt), (tt, tt)) refl ((1, refl), ((0, refl), tt))

abbrev same_ort : Ort ℕ → Ort ℕ → Bool
same_ort (a, b, c) (x, y, z) = a == x && (b == y && c == z)

ort_refl : (p : Ort ℕ) → same_ort p p ≡ true
ort_refl (a, b, c) = ground arith

ort_eq : (p q : Ort ℕ) → same_ort p q ≡ true → p ≡ q
ort_eq (a, b, c) (x, y, z) h =
    ap (λ k. (k, b, c)) one ∙ ap (λ k. (x, k, c)) two ∙ ap (λ k. (x, y, k)) three
  where
    one : a ≡ x
    one = ground arith

    two : b ≡ y
    two = ground arith

    three : c ≡ z
    three = ground arith

instance abbrev orte : Equal (Ort ℕ)
orte = record { same = same_ort; same_refl = ort_refl; eq_of_same = ort_eq }

instance abbrev menu_db : Datenbank (Ort ℕ) Bool (Ort ℕ → Option Bool)
menu_db = function_db

abbrev karte : List (ExpandTvSection2 ℕ ℕ)
karte = section_von getraenke ∷ []

abbrev geschrieben : Bool → (Ort ℕ → Option Bool) → Ort ℕ → Option Bool
geschrieben b s q = if same_ort (1, 2, 4) q then some b else s q

pass-pass_example :
    (pass 0 0 1 (karte, λ q. none) >>= pass 0 0 1)
    ≡ some (karte, geschrieben true (geschrieben false (λ q. none)))
pass-pass_example =
    pass-pass 0 0 1 karte (λ q. none) (section_von getraenke) 2 4 (3 ∷ 4 ∷ []) (true ∷ true ∷ [])
      true refl refl refl refl refl refl
