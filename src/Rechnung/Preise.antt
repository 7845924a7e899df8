-- ===== src/Rechnung/Preise.antt =====
-- The price of an order: `gesamtpreisBerechnen` and `teilPreis` of SMOLO+/Views/KellnerVC.swift,
-- which FertiggestelltVC.swift and KellnerAngenommenVC.swift repeat.
pub mod Summe
use smolokellner.Base.{ℕ, zero, suc, Option, none, some, List, [], ◌∷◌, ◌++◌, ℤ, get_elem?, length}
use smolokellner.Rechnung.Daten.{◌>>=◌, KellnerTvSection}
use smolokellner.Rechnung.Zusammenfuehren.{flatten2}

-- What the sum uses of `Double`; nothing is said of how it rounds.
pub record Double (Preis : Type 0) : Type 0 where
  pub null : Preis
  pub plus : Preis → Preis → Preis
  pub mal : Preis → Preis → Preis
  pub of_int : ℤ → Preis

-- The loops over arrays in arrays of arrays of arrays.
unfoldable pub flatten3 : {A : Type 0} → List (List (List (List A))) → List A
flatten3 [] = []
flatten3 (x ∷ xs) = flatten2 x ++ flatten3 xs

-- `ItemsMenge.append(Double(menge))`
abbrev pub doubles : {Preis : Type 0} → (ℤ → Preis) → List ℤ → List Preis
doubles f [] = []
doubles f (m ∷ ms) = f m ∷ doubles f ms

module _ {Preis : Type 0} ⦃double : Double Preis⦄ where
  open double use {null, plus, mal, of_int}

  -- The loop of `teilPreis` from index `i` on, with that many rounds left.
  unfoldable pub teil_schleife : ℕ → ℕ → List Preis → List Preis → List Preis → Preis → Option Preis
  teil_schleife zero i item_preis extras_preis menge gesamtpreislabel = some gesamtpreislabel
  teil_schleife (suc rounds) i item_preis extras_preis menge gesamtpreislabel =
      get_elem? item_preis i >>= λ p. get_elem? extras_preis i >>= λ e. get_elem? menge i >>= λ m.
      teil_schleife rounds (suc i) item_preis extras_preis menge
        (plus gesamtpreislabel (mal (plus p e) m))

  unfoldable pub teil_preis : List Preis → List Preis → List Preis → Preis → Option Preis
  teil_preis item_preis extras_preis menge gesamtpreislabel =
      teil_schleife (length item_preis) 0 item_preis extras_preis menge gesamtpreislabel

  -- The label that it leaves.
  unfoldable pub gesamtpreis_berechnen :
      {Text : Type 0} → List (KellnerTvSection Text Preis) → ℕ → Option Preis
  gesamtpreis_berechnen bestellungen section = get_elem? bestellungen section >>= λ b.
      teil_preis (flatten2 b.preis) (flatten3 b.extras_preis) (doubles of_int (flatten2 b.menge))
        null
