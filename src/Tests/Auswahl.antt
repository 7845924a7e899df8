-- ===== src/Tests/Auswahl.antt =====
-- The theorems on counters, headers and prices at concrete inputs.
use smolokellner.Base.{
  ℕ, ◌≡◌, refl, arith, none, some, List, [], ◌∷◌, ℤ, pos, negsuc, ◌+◌, ◌*◌, ◌<◌,
}
use smolokellner.Base.{length}
use smolokellner.Rechnung.Daten.{KellnerTvSection}
use smolokellner.Rechnung.Zusammenfuehren.{flatten, flatten2}
use smolokellner.Rechnung.Preise.{Double, flatten3, gesamtpreis_berechnen}
use smolokellner.Rechnung.Preise.Summe.{
  Artikel, summe, gesamtpreis_berechnen-summe, gesamtpreis_berechnen_trap,
}
use smolokellner.Tests.Rechnung.{bier, number_texts}

abbrev zaehler : List ℤ
zaehler = pos 0 ∷ pos 1 ∷ []

abbrev mengen : List ℤ
mengen = pos 2 ∷ pos 3 ∷ []

-- Prices in cents.
abbrev cents : ℤ → ℕ
cents (pos n) = n
cents (negsuc n) = 0

instance abbrev pub number_prices : Double ℕ
number_prices = record { null = 0; plus = λ x y. x + y; mal = λ x y. x * y; of_int = cents }

abbrev artikel : List (List (List (Artikel ℕ)))
artikel =
    ((record { preis = 3; extra = 1; menge = pos 2 }
        ∷ record { preis = 4; extra = 0; menge = pos 1 }
        ∷ [])
      ∷ [])
    ∷ []

abbrev mit_extras : KellnerTvSection ℕ ℕ
mit_extras = record bier { extras_preis = (((1 ∷ []) ∷ (0 ∷ []) ∷ []) ∷ []) ∷ [] }

sum_of_two : summe 0 (flatten2 artikel) ≡ 12
unfolding summe flatten flatten2
sum_of_two = refl

gesamtpreis_berechnen-summe_example :
    gesamtpreis_berechnen (bier ∷ mit_extras ∷ []) 1 ≡ some (summe 0 (flatten2 artikel))
gesamtpreis_berechnen-summe_example =
    gesamtpreis_berechnen-summe (bier ∷ mit_extras ∷ []) 1 mit_extras artikel refl refl refl refl

no_extras : length (flatten3 bier.extras_preis) < length (flatten2 bier.preis)
unfolding flatten flatten2 flatten3
no_extras = omega arith

gesamtpreis_berechnen_trap_example : gesamtpreis_berechnen (bier ∷ []) 0 ≡ none
gesamtpreis_berechnen_trap_example = gesamtpreis_berechnen_trap (bier ∷ []) 0 bier refl no_extras
