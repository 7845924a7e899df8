-- ===== src/Tests/Rechnung.antt =====
-- A bill screen with two orders of one table, and the theorems on it. Texts are numbers here, and
-- the empty string is 0.
use smolokellner.Base.{ℕ, zero, suc, ◌≤◌, ◌≡◌, ◌≢◌, refl, ap, arith, inl, inr, eq→==, true}
use smolokellner.Base.{
  none, some, List, [], ◌∷◌, pos, get_elem?, length, ◌==◌, if◌then◌else◌, false,
}
use mathlib.Core.Option.{some-injective}
use smolokellner.Rechnung.Daten.{
  Equal, ◌>>=◌, update, KellnerTvSection, BestellungFertig, FertiggestelltVc,
}
use smolokellner.Rechnung.Zusammenfuehren.{
  bestellungen_zusammenfuehren, je_tisch, flatten, flatten2,
}
use smolokellner.Rechnung.Zusammenfuehren.Tisch.{IsOrder, of_tisch}
use smolokellner.Rechnung.Zusammenfuehren.Rechnungen.{
  IsLoaded, IsDistinctTables, Rechnungen, bestellungen_zusammenfuehren-IsValid,
}
use smolokellner.Rechnung.Laden.{Inhalt, bestellung_geladen}
use smolokellner.Rechnung.Laden.Ankunft.{Delivers, bestellung_geladen-later}
use smolokellner.Rechnung.Laden.Anfang.{
  Kind, Passend, gemeldet, merke_alle, frisch, gemeldet-IsValid,
}
use smolokellner.Rechnung.Auswahl.{mehr, zeige_abrechnen, zellen, zelle_abrechnen, suche_section}
use smolokellner.Rechnung.Auswahl.{waehle_fertig, waehle_abrechnen, alles_bezahlen}
use smolokellner.Rechnung.Auswahl.Zaehler.{IsChosen}
use smolokellner.Rechnung.Auswahl.Zellen.{IsBill, IsDistinct}
use smolokellner.Rechnung.Auswahl.Zustand.{AllBills, IsSelection, IsValid, waehle_fertig-IsValid}
use smolokellner.Rechnung.Auswahl.Schritte.{
  Schritt, here, next, tap_fertig, waehle_abrechnen-IsValid, alles_bezahlen-IsValid, Folge-IsValid,
}

pub number_eq : (x y : ℕ) → (x == y) ≡ true → x ≡ y
number_eq x y h = ground arith

instance abbrev pub number_texts : Equal ℕ
number_texts = record {
  same = λ x y. x == y;
  same_refl = λ x. eq→== x x refl;
  eq_of_same = number_eq;
}

abbrev pub bier : KellnerTvSection ℕ ℕ
bier = record {
  bestellung_id = 10;
  tischnummer = 5;
  kategorie = 100 ∷ [];
  unterkategorie = (200 ∷ []) ∷ [];
  items = ((300 ∷ 301 ∷ []) ∷ []) ∷ [];
  preis = ((3 ∷ 4 ∷ []) ∷ []) ∷ [];
  extras_preis = [];
  menge = ((pos 2 ∷ pos 1 ∷ []) ∷ []) ∷ [];
  items_id = ((400 ∷ 401 ∷ []) ∷ []) ∷ [];
}

abbrev brot : KellnerTvSection ℕ ℕ
brot = record {
  bestellung_id = 11;
  tischnummer = 5;
  kategorie = 101 ∷ [];
  unterkategorie = (201 ∷ []) ∷ [];
  items = ((302 ∷ []) ∷ []) ∷ [];
  preis = ((2 ∷ []) ∷ []) ∷ [];
  extras_preis = [];
  menge = ((pos 1 ∷ []) ∷ []) ∷ [];
  items_id = ((402 ∷ []) ∷ []) ∷ [];
}

one_category :
    (b : KellnerTvSection ℕ ℕ) (items : List (List ℕ)) (kat ukat : ℕ)
    → b.items ≡ items ∷ []
    → b.unterkategorie ≡ (ukat ∷ []) ∷ []
    → b.kategorie ≡ kat ∷ []
    → length items ≡ 1
    → (i : ℕ) (xs : List (List ℕ)) → get_elem? b.items i ≡ some xs
    → (ukats : List ℕ) × (k : ℕ) × (get_elem? b.unterkategorie i ≡ some ukats)
      × (get_elem? b.kategorie i ≡ some k)
      × (length xs ≤ length ukats)
one_category b items kat ukat hi hu hk one zero xs at =
    (ukat ∷ [], kat, rw (hu) refl, rw (hk) refl, omega (arith, same_length))
  where
    same_length : length items ≡ length xs
    same_length = ap length (some-injective items xs (rw (hi) at at))
one_category b items kat ukat hi hu hk one (suc i) xs at = cc (rw (hi) at at)

bier-IsOrder : IsOrder bier
unfolding flatten flatten2
bier-IsOrder = record {
  named = one_category bier ((300 ∷ 301 ∷ []) ∷ []) 100 200 refl refl refl refl;
  counted = refl;
  priced = refl;
  nonneg = (refl, (refl, tt));
}

brot-IsOrder : IsOrder brot
unfolding flatten flatten2
brot-IsOrder = record {
  named = one_category brot ((302 ∷ []) ∷ []) 101 201 refl refl refl refl;
  counted = refl;
  priced = refl;
  nonneg = (refl, tt);
}

abbrev kinder : List (Kind ℕ)
kinder = record { key = 10; tischnummer = 5 } ∷ record { key = 11; tischnummer = 5 } ∷ []

abbrev inhalt : Inhalt ℕ ℕ
inhalt = record {
  zahl = 2;
  section_of = λ id. if id == 10 then some bier else if id == 11 then some brot else none;
}

differ_numbers : (x : ℕ) → suc x ≢ 0
differ_numbers x h = absurd (omega (arith, h))

gemeldet-IsValid_example :
    (vc : FertiggestelltVc ℕ ℕ) × (bestellung_geladen inhalt (gemeldet kinder (frisch 0)) ≡ some vc)
    × Rechnungen (bier ∷ brot ∷ []) (merke_alle kinder []) vc.bestellungen_fertig
    × IsValid vc
unfolding Passend
gemeldet-IsValid_example =
    gemeldet-IsValid inhalt 0 kinder (bier ∷ brot ∷ []) (omega arith) refl
      (refl, refl, differ_numbers 4, bier-IsOrder, (refl, refl, differ_numbers 4, brot-IsOrder, tt))

-- The two orders as the screen has them when it merges.
abbrev geladen : FertiggestelltVc ℕ ℕ
geladen = record (frisch 0) {
  bestellungen = bier ∷ brot ∷ [];
  bestellung_ids = 10 ∷ 11 ∷ [];
  tischnummer_ids = (5, 10 ∷ 11 ∷ []) ∷ [];
}

both_orders : length (of_tisch 5 (bier ∷ brot ∷ [])) ≡ 2
unfolding of_tisch
both_orders = refl

geladen-IsLoaded : IsLoaded geladen
unfolding IsDistinctTables
geladen-IsLoaded = record {
  orders = (bier-IsOrder, (brot-IsOrder, tt));
  tables = (tt, tt);
  has = (omega (arith, both_orders), tt);
  other = (differ_numbers 4, tt);
  no_bills = refl;
  nothing = refl;
}

bestellungen_zusammenfuehren-IsValid_example :
    (vc : FertiggestelltVc ℕ ℕ) × (bestellungen_zusammenfuehren geladen ≡ some vc)
    × Rechnungen geladen.bestellungen geladen.tischnummer_ids vc.bestellungen_fertig
    × IsValid vc
bestellungen_zusammenfuehren-IsValid_example =
    bestellungen_zusammenfuehren-IsValid geladen geladen-IsLoaded

-- The second order comes after the first one is merged.
abbrev spaeter : FertiggestelltVc ℕ ℕ
spaeter = record geladen { bestellungen = bier ∷ [] }

bestellung_geladen-later_example : bestellung_geladen inhalt spaeter ≡ (
    je_tisch 0 spaeter.tischnummer_ids (bier ∷ bier ∷ []) >>= λ neue.
    some (record spaeter { bestellungen = bier ∷ bier ∷ brot ∷ []; bestellungen_fertig = neue }))
unfolding Delivers
bestellung_geladen-later_example =
    bestellung_geladen-later inhalt 10 (11 ∷ []) bier (brot ∷ []) spaeter refl refl refl refl
      (refl, tt)

-- A bill of two items, and the screen before and after a tap on the first of them.
abbrev pub rechnung : BestellungFertig ℕ ℕ
rechnung = record {
  bestellung_id = [];
  tischnummer = 5;
  kategorie = 100 ∷ 100 ∷ [];
  unterkategorie = 200 ∷ 200 ∷ [];
  items = 300 ∷ 301 ∷ [];
  preis = 3 ∷ 4 ∷ [];
  menge = pos 2 ∷ pos 1 ∷ [];
  items_id = [];
  bezahlt_menge = λ k. if k == 0 then some (pos 0 ∷ pos 0 ∷ []) else none;
  expanded = false;
}

abbrev angetippt : BestellungFertig ℕ ℕ
angetippt = record rechnung {
  bezahlt_menge = λ k. if k == 0 then some (pos 1 ∷ pos 0 ∷ []) else none;
}

abbrev pub schirm : FertiggestelltVc ℕ ℕ
schirm = record (frisch 0) { bestellungen_fertig = rechnung ∷ [] }

abbrev gewaehlt : FertiggestelltVc ℕ ℕ
gewaehlt = record schirm { bestellungen_bezahlen = angetippt ∷ []; tischnummer_bezahlen = 5 }

rechnung-IsBill : IsBill 0 rechnung
unfolding IsChosen
rechnung-IsBill = record {
  gezaehlt = pos 0 ∷ pos 0 ∷ [];
  stored = refl;
  chosen = ((refl, omega arith), ((refl, omega arith), tt));
  counted = refl;
  nonneg = (refl, (refl, tt));
}

angetippt-IsBill : IsBill 0 angetippt
unfolding IsChosen
angetippt-IsBill = record {
  gezaehlt = pos 1 ∷ pos 0 ∷ [];
  stored = refl;
  chosen = ((refl, omega arith), ((refl, omega arith), tt));
  counted = refl;
  nonneg = (refl, (refl, tt));
}

pub schirm-IsValid : IsValid schirm
unfolding AllBills IsDistinct IsSelection
schirm-IsValid = record {
  bills = (rechnung-IsBill, tt);
  distinct = (tt, tt);
  selection = inl (refl, (differ_numbers 4, tt));
}

gewaehlt-IsValid : IsValid gewaehlt
unfolding AllBills IsDistinct IsSelection
gewaehlt-IsValid = record {
  bills = (rechnung-IsBill, tt);
  distinct = (tt, tt);
  selection = inr (
    0,
    angetippt,
    record {
      original = rechnung;
      there = refl;
      only = refl;
      table = refl;
      own_table = refl;
      own_menge = refl;
      own_items = refl;
      bill = angetippt-IsBill;
      section = inr refl;
    },
  );
}

waehle_fertig-IsValid_example :
    (vc : FertiggestelltVc ℕ ℕ) × (waehle_fertig 0 1 schirm ≡ some vc) × IsValid vc
waehle_fertig-IsValid_example =
    waehle_fertig-IsValid schirm 0 1 rechnung schirm-IsValid refl (omega arith)

waehle_abrechnen-IsValid_example :
    (vc : FertiggestelltVc ℕ ℕ) × (waehle_abrechnen 0 gewaehlt ≡ some vc) × IsValid vc
waehle_abrechnen-IsValid_example =
    waehle_abrechnen-IsValid gewaehlt 0 gewaehlt-IsValid (omega arith)

alles_bezahlen-IsValid_example :
    (vc : FertiggestelltVc ℕ ℕ) × (alles_bezahlen 0 gewaehlt ≡ some vc) × IsValid vc
alles_bezahlen-IsValid_example = alles_bezahlen-IsValid gewaehlt 0 rechnung gewaehlt-IsValid refl

-- The screen after the tap, as the code leaves it.
abbrev danach : FertiggestelltVc ℕ ℕ
danach = record schirm {
  bestellungen_bezahlen =
      (record rechnung { bezahlt_menge = update rechnung.bezahlt_menge 0 (pos 1 ∷ pos 0 ∷ []) })
      ∷ [];
  tischnummer_bezahlen = 5;
}

one_tap : Schritt schirm danach
unfolding waehle_fertig mehr zeige_abrechnen zellen zelle_abrechnen suche_section
one_tap = tap_fertig 0 0 rechnung refl (omega arith) refl

Folge-IsValid_example : IsValid danach
Folge-IsValid_example = Folge-IsValid schirm danach schirm-IsValid (next here one_tap)
