-- ===== src/Tests/Durchlauf.antt =====
-- Reading whole orders, with the extras of the items. Texts and prices are numbers here.
use smolokellner.Base.{ℕ, ◌+◌, ◌≡◌, refl, none, some, List, [], ◌∷◌}
use smolokellner.Rechnung.Daten.{index_of}
use smolokellner.Rechnung.Lesen.Extras.{Lesestand, lies_extras}
use smolokellner.Rechnung.Lesen.Extras.{
  extras_je_unter, extras_unter, extras_unter_erste, je_itemssnap, je_extra, extra_erst, extra_neu,
  merken, voll, erste_spalten,
}
use smolokellner.Rechnung.Lesen.Durchlauf.{
  ItemSnap, KategorieSnap, SchluesselSnap, information_snap, kategorie_snap,
}
use smolokellner.Rechnung.Lesen.Durchlauf.Getrennt.{extras_von}
use smolokellner.Tests.Rechnung.{number_texts}
use smolokellner.Tests.Lesen.{ware}

abbrev ohne : ℕ → ItemSnap ℕ ℕ
ohne name = record { infos = ware name 1; extras = none }

abbrev mit : ℕ → ItemSnap ℕ ℕ
mit name = record {
  infos = ware name 1;
  extras =
      some
        (record { children_count = 1; extras = record { item_name = 400; item_preis = 2 } ∷ [] });
}

-- A category with one subcategory.
abbrev eine : ℕ → List (ItemSnap ℕ ℕ) → KategorieSnap ℕ ℕ
eine key items = record {
  key = key;
  unterkategorien = record { key = key + 100; items = items } ∷ [];
}

abbrev bestellung : List (SchluesselSnap ℕ ℕ)
bestellung =
    kategorie_snap (eine 100 (mit 300 ∷ ohne 301 ∷ []))
    ∷ information_snap 5
    ∷ kategorie_snap (eine 101 (ohne 302 ∷ mit 303 ∷ []))
    ∷ []

abbrev nichts_gelesen : Lesestand ℕ ℕ
nichts_gelesen = record { spalten = none; extras_string = []; extras_preis = [] }

-- With an extra in the second category and none in the first one, the extras trap.
extras_trap :
    lies_extras
      (extras_von
        (kategorie_snap (eine 100 (ohne 300 ∷ [])) ∷ kategorie_snap (eine 101 (mit 301 ∷ [])) ∷ []))
      none
      none
      nichts_gelesen
    ≡ none
unfolding lies_extras extras_von extras_je_unter extras_unter extras_unter_erste je_itemssnap
    je_extra extra_erst extra_neu merken voll erste_spalten index_of
extras_trap = refl
