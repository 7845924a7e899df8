-- ===== src/Tests/Extras.antt =====
-- The extras of an order of two items, and its price. Texts and prices are numbers here.
use smolokellner.Base.{ℕ, ◌≡◌, refl, [], ◌∷◌, pos}
use mathlib.Core.List.{reverse}
use smolokellner.Rechnung.Daten.{KellnerTvSection}
use smolokellner.Rechnung.Preise.Summe.{Artikel, summe}
use smolokellner.Rechnung.Lesen.Extras.{ExtraSpalten}
use smolokellner.Rechnung.Lesen.Extras.Vertauscht.{mit_extras}
use smolokellner.Tests.Rechnung.{number_texts, bier}
use smolokellner.Tests.Auswahl.{number_prices}

-- A dish for 10 with an extra for 1, and one for 20 with an extra for 5, of which two are ordered.
abbrev suppe : Artikel ℕ
suppe = record { preis = 10; extra = 1; menge = pos 1 }

abbrev nudeln : Artikel ℕ
nudeln = record { preis = 20; extra = 5; menge = pos 2 }

abbrev gelesen : ExtraSpalten ℕ ℕ
gelesen = record {
  namen = (((7 ∷ []) ∷ []) ∷ []) ∷ [];
  preise = (((5 ∷ []) ∷ (1 ∷ []) ∷ []) ∷ []) ∷ [];
}

abbrev mit_preisen : KellnerTvSection ℕ ℕ
mit_preisen = record bier {
  preis = ((10 ∷ 20 ∷ []) ∷ []) ∷ [];
  extras_preis = (((5 ∷ []) ∷ (1 ∷ []) ∷ []) ∷ []) ∷ [];
  menge = ((pos 1 ∷ pos 2 ∷ []) ∷ []) ∷ [];
}

wrong_sum : summe 0 (mit_extras (suppe ∷ nudeln ∷ []) (reverse (1 ∷ 5 ∷ []))) ≡ 57
unfolding summe mit_extras
wrong_sum = refl
