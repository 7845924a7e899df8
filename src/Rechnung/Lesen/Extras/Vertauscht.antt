-- ===== src/Rechnung/Lesen/Extras/Vertauscht.antt =====
-- The price of an order whose extras were read.
use smolokellner.Base.{List, [], ◌∷◌}
use smolokellner.Rechnung.Daten.{Equal}
use smolokellner.Rechnung.Preise.{Double}
use smolokellner.Rechnung.Preise.Summe.{Artikel}
use smolokellner.Rechnung.Lesen.Extras.{ExtrasSnap}

module _ {Preis : Type 0} where
  -- The items with other prices of their extras.
  unfoldable pub mit_extras : List (Artikel Preis) → List Preis → List (Artikel Preis)
  mit_extras [] es = []
  mit_extras (a ∷ posten) [] = []
  mit_extras (a ∷ posten) (e ∷ es) = record a { extra = e } ∷ mit_extras posten es

module _ {Text Preis : Type 0} ⦃eq : Equal Text⦄ ⦃double : Double Preis⦄ where
  open double use {null}

  -- An item's child "Extras" with one extra of this name, of the item's extra price.
  abbrev pub ein_extra : Text → Artikel Preis → ExtrasSnap Text Preis
  ein_extra name a = record {
    children_count = 1;
    extras = record { item_name = name; item_preis = a.extra } ∷ [];
  }
