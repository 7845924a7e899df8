-- ===== src/Kellner/Ampel/Grenzen.antt =====
-- Which limits the fields of the settings change.
use smolokellner.Base.{true, some, ◌≡◌, ◌≢◌, refl, ◌∙◌}
use mathlib.Core.Option.{get_or}
use smolokellner.Rechnung.Daten.{Equal}
use smolokellner.Rechnung.Auswahl.Zellen.{differ}
use smolokellner.Kellner.Datenbank.{Datenbank}
use smolokellner.Kellner.Ampel.{
  Regel, rot, gelb, rot2, gelb2, Farbe, roetlich, Zahlen, feld, update_ampel,
}
use smolokellner.Kellner.Ampel.{ampelmodel, hat_regel, vorhanden, loadampel, loadampel2, farbe}

module _ {Text Zahl Stand : Type 0} ⦃db : Datenbank Regel Zahl Stand⦄ ⦃eq : Equal Text⦄
    (zahlen : Zahlen Text Zahl) (leer : Text) where
  open db use {get, update_child, get_same, get_other}
  open zahlen use {of_text, mal, kleiner, n60, n3000, n6000}

  feld_lem :
      (text : Text) (regel : Regel) (s : Stand) (z : Zahl)
      → text ≢ leer
      → of_text text ≡ some z
      → feld zahlen leer text regel s ≡ some (update_child s regel (mal z n60))
  unfolding feld
  feld_lem text regel s z full reads = rw (differ text leer full) (rw (reads) refl)

  -- The rules after four numbers were entered.
  abbrev gesetzt : Zahl → Zahl → Zahl → Zahl → Stand → Stand
  gesetzt a b c d s =
      update_child (update_child (update_child (update_child s gelb a) rot b) rot c) rot d

  gesetzt-gelb : (a b c d : Zahl) (s : Stand) → get (gesetzt a b c d s) gelb ≡ some a
  gesetzt-gelb a b c d s =
      get_other _ rot gelb d (λ e. cc)
      ∙ get_other _ rot gelb c (λ e. cc)
      ∙ get_other _ rot gelb b (λ e. cc)
      ∙ get_same s gelb a

  gesetzt-other :
      (a b c d : Zahl) (s : Stand) (r : Regel)
      → rot ≢ r
      → gelb ≢ r
      → get (gesetzt a b c d s) r ≡ get s r
  gesetzt-other a b c d s r no_rot no_gelb =
      get_other _ rot r d no_rot
      ∙ get_other _ rot r c no_rot
      ∙ get_other _ rot r b no_rot
      ∙ get_other s gelb r a no_gelb

  loadampel-gesetzt :
      (a b c d : Zahl) (s : Stand) (before : Zahl × Zahl)
      → loadampel zahlen leer before (gesetzt a b c d s) ≡ (d, a)
  unfolding loadampel ampelmodel hat_regel vorhanden
  loadampel-gesetzt a b c d s before =
      rw (get_same (update_child (update_child (update_child s gelb a) rot b) rot c) rot d)
        (rw (gesetzt-gelb a b c d s) refl)

  loadampel2-gesetzt :
      (a b c d : Zahl) (s : Stand) (before : Zahl × Zahl)
      → loadampel2 zahlen leer before (gesetzt a b c d s)
        ≡ (get_or (get s rot2) n6000, get_or (get s gelb2) n3000)
  unfolding loadampel2 ampelmodel hat_regel vorhanden
  loadampel2-gesetzt a b c d s before =
      rw (get_same (update_child (update_child (update_child s gelb a) rot b) rot c) rot d) (
        rw (gesetzt-other a b c d s rot2 (λ e. cc) (λ e. cc))
          (rw (gesetzt-other a b c d s gelb2 (λ e. cc) (λ e. cc)) refl))

  -- When the four fields hold numbers, the screen of the new orders loads the second yellow one as
  -- the limit for red, in seconds, and the first yellow one as that for yellow. The one of the
  -- accepted orders loads its limits from the values that stood there before, or the defaults.
  -- A new order that waits longer than the second yellow limit is red.
  pub update_ampel-loadampel :
      (g r r2 g2 : Text) (zg zr zr2 zg2 : Zahl) (s : Stand) (before before2 : Zahl × Zahl)
      → g ≢ leer
      → r ≢ leer
      → r2 ≢ leer
      → g2 ≢ leer
      → of_text g ≡ some zg
      → of_text r ≡ some zr
      → of_text r2 ≡ some zr2
      → of_text g2 ≡ some zg2
      → (intervale : Zahl) (f : Farbe) → kleiner (mal zg2 n60) intervale ≡ true
      → (s' : Stand) × (update_ampel zahlen leer g r r2 g2 s ≡ some s')
        × (loadampel zahlen leer before s' ≡ (mal zg2 n60, mal zg n60))
        × (loadampel2 zahlen leer before2 s'
            ≡ (get_or (get s rot2) n6000, get_or (get s gelb2) n3000))
        × (farbe zahlen (loadampel zahlen leer before s') intervale f ≡ roetlich)
  unfolding update_ampel farbe
  update_ampel-loadampel g r r2 g2 zg zr zr2 zg2 s before before2 fg fr fr2 fg2 rg rr rr2 rg2
        intervale f over =
      (
        gesetzt (mal zg n60) (mal zr n60) (mal zr2 n60) (mal zg2 n60) s,
        rw (feld_lem g gelb s zg fg rg) (
            rw (feld_lem r rot _ zr fr rr)
              (rw (feld_lem r2 rot _ zr2 fr2 rr2) (feld_lem g2 rot _ zg2 fg2 rg2))),
        loadampel-gesetzt _ _ _ _ s before,
        loadampel2-gesetzt _ _ _ _ s before2,
        rw (loadampel-gesetzt (mal zg n60) (mal zr n60) (mal zr2 n60) (mal zg2 n60) s before)
            (rw (over) refl),
      )
