-- ===== src/Tests/Lesen.antt =====
-- Reading a snapshot with two categories, and the theorems on it.
use smolokellner.Base.{ℕ, ◌≡◌, refl, arith, none, some, List, [], ◌∷◌, pos, ◌+◌}
use smolokellner.Rechnung.Daten.{◌>>=◌, KellnerTvSection}
use smolokellner.Rechnung.Zusammenfuehren.{flatten, flatten2}
use smolokellner.Rechnung.Zusammenfuehren.Tisch.{IsOrder}
use smolokellner.Rechnung.Lesen.{
  BestellungInfos, Kategorie, Schluessel, information, kategorie, lies,
}
use smolokellner.Rechnung.Lesen.Unter.{stand}
use smolokellner.Rechnung.Lesen.Ganz.{NeueUnter, NeueKategorien, kategorien_von, tisch_von}
use smolokellner.Rechnung.Lesen.Abschnitt.{NonnegMengen, section_anlegen, section_anlegen-IsOrder}
use smolokellner.Tests.Rechnung.{number_texts}

abbrev pub ware : ℕ → ℕ → BestellungInfos ℕ ℕ
ware name menge = record {
  item_name = name;
  item_preis = 3;
  item_menge = pos menge;
  bestellung_item_id = name + 100;
}

abbrev getraenke : Kategorie ℕ ℕ
getraenke = record {
  key = 100;
  unterkategorien =
      record { key = 200; items = ware 300 2 ∷ ware 301 1 ∷ [] }
      ∷ record { key = 201; items = ware 302 1 ∷ [] }
      ∷ [];
}

abbrev speisen : Kategorie ℕ ℕ
speisen = record {
  key = 101;
  unterkategorien = record { key = 202; items = ware 303 1 ∷ ware 304 5 ∷ [] } ∷ [];
}

abbrev snapshot : List (Schluessel ℕ ℕ)
snapshot = kategorie getraenke ∷ information 5 ∷ kategorie speisen ∷ []

keys-NeueKategorien : NeueKategorien [] (getraenke ∷ speisen ∷ [])
unfolding NeueKategorien NeueUnter
keys-NeueKategorien = (
  tt,
  omega arith,
  (tt, omega arith, ((λ h. absurd (omega (arith, h)), tt), omega arith, tt)),
  ((λ h. absurd (omega (arith, h)), tt), omega arith, (tt, omega arith, tt), tt),
)

the_categories : kategorien_von snapshot ≡ getraenke ∷ speisen ∷ []
unfolding kategorien_von
the_categories = refl

the_table : tisch_von none snapshot ≡ some 5
unfolding tisch_von
the_table = refl

no_debts : NonnegMengen (getraenke ∷ speisen ∷ [])
unfolding flatten flatten2
no_debts = (refl, (refl, (refl, (refl, (refl, tt)))))

section_anlegen-IsOrder_example :
    (b : KellnerTvSection ℕ ℕ) × ((lies snapshot (stand none []) >>= λ e.
    section_anlegen 10 (some []) e)
      ≡ some b)
    × (b.tischnummer ≡ 5)
    × (b.bestellung_id ≡ 10)
    × IsOrder b
section_anlegen-IsOrder_example =
    section_anlegen-IsOrder 10 5 [] snapshot getraenke (speisen ∷ []) the_categories the_table
      keys-NeueKategorien no_debts
