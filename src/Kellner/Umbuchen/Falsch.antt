-- ===== src/Kellner/Umbuchen/Falsch.antt =====
-- Which order the sheet for another table writes.
use smolokellner.Base.{ℕ, some, List, [], ◌∷◌, ◌++◌, All, get_elem?}
use smolokellner.Base.{◌≡◌, ◌≢◌, refl, ap, sym, ◌∙◌}
use mathlib.Core.Option.{map}
use smolokellner.Rechnung.Daten.{Equal, KellnerTvSection}
use smolokellner.Rechnung.Auswahl.Zellen.{differ}
use smolokellner.Kellner.Datenbank.{Datenbank}
use smolokellner.Kellner.Status.{Pfad, information_tischnummer, user_tischnummer, Wert, tisch}
use smolokellner.Kellner.Status.Verlauf.{order_of}
use smolokellner.Kellner.Umbuchen.{
  problem, KellnerVc, Geste, problem_wischen, umbuchen_wischen, eingeben,
}
use smolokellner.Kellner.Umbuchen.{
  umbuchen_senden, umbuchen_abbrechen, problem_abbrechen, delete_action,
}
use smolokellner.Kellner.Umbuchen.{
  tischumbuchen, view_problem_abbrechen, view_tischumbuchen_abbrechen,
}
use smolokellner.Kellner.Umbuchen.{view_tischumbuchen, geste, gesten}

-- Neither a problem nor a table is sent on by the gesture.
abbrev pub IsHarmless : {Text : Type 0} → Geste Text → Type 0
IsHarmless (problem_wischen _ _) = ⊥
IsHarmless umbuchen_senden = ⊥
IsHarmless _ = Unit

module _ {Text Preis Stand : Type 0} ⦃db : Datenbank (Pfad Text) (Wert Text) Stand⦄
    ⦃eq : Equal Text⦄ (leer : Text) where
  open db use {get, update_child, get_same, get_other}

  -- What a rebooking depends on stays.
  record Bleibt (vc vc' : KellnerVc Text Preis Stand) : Type 0 where
    pub bar : vc'.barname ≡ vc.barname
    pub id : vc'.view_bestellung_id ≡ vc.view_bestellung_id
    pub stand : vc'.datenbank ≡ vc.datenbank

  geste-Bleibt :
      (g : Geste Text) (vc : KellnerVc Text Preis Stand)
      → IsHarmless g
      → (vc' : KellnerVc Text Preis Stand) × (geste leer g vc ≡ some vc') × Bleibt vc vc'
  unfolding geste tischumbuchen view_problem_abbrechen view_tischumbuchen_abbrechen
  geste-Bleibt (problem_wischen _ _) vc h = absurd h
  geste-Bleibt umbuchen_senden vc h = absurd h
  geste-Bleibt (umbuchen_wischen i r) vc h =
      (_, refl, record { bar = refl; id = refl; stand = refl })
  geste-Bleibt (eingeben t) vc h = (_, refl, record { bar = refl; id = refl; stand = refl })
  geste-Bleibt umbuchen_abbrechen vc h = (_, refl, record { bar = refl; id = refl; stand = refl })
  geste-Bleibt problem_abbrechen vc h = (_, refl, record { bar = refl; id = refl; stand = refl })

  -- A table that is sent after harmless gestures goes to the order that was marked before.
  nachher :
      (gs : List (Geste Text)) (vc : KellnerVc Text Preis Stand) (j row : ℕ) (text : Text)
      → All IsHarmless gs
      → text ≢ leer
      → map
          (λ v. v.datenbank)
          (gesten leer (gs ++ umbuchen_wischen j row ∷ eingeben text ∷ umbuchen_senden ∷ []) vc)
        ≡ some (
            update_child vc.datenbank
              (information_tischnummer vc.barname vc.view_bestellung_id)
              (tisch text))
  unfolding gesten geste tischumbuchen view_tischumbuchen
  nachher [] vc j row text h full = rw (differ text leer full) refl
  nachher (g ∷ gs) vc j row text h full =
      let (vc', goes, stays) = geste-Bleibt g vc h.0 in
      rw (goes) (nachher gs vc' j row text h.1 full ∙ rw (stays.bar, stays.id, stays.stand) refl)

  -- When the waiter swipes the order in section `i` for a problem, and later, without another such
  -- swipe, swipes the order in section `j` to move it to another table, the new table is written to
  -- the order in section `i`. The table of an order with another key stays as it was, also that of
  -- the one in section `j`, and so does the table of the order under "userBestellungen".
  pub umbuchen_lem :
      (vc : KellnerVc Text Preis Stand) (i row_i j row_j : ℕ) (b : KellnerTvSection Text Preis)
      → (gs : List (Geste Text)) (text : Text) → get_elem? vc.bestellungen i ≡ some b
      → All IsHarmless gs
      → text ≢ leer
      → (kellner other : Text) → other ≢ b.bestellung_id
      → (s : Stand) × (map
            (λ v. v.datenbank)
            (gesten leer
              (problem_wischen i row_i ∷ gs
                ++ umbuchen_wischen j row_j ∷ eingeben text ∷ umbuchen_senden ∷ [])
              vc)
          ≡ some s)
        × (get s (information_tischnummer vc.barname b.bestellung_id) ≡ some (tisch text))
        × (get s (information_tischnummer vc.barname other)
            ≡ get vc.datenbank (information_tischnummer vc.barname other))
        × (get s (user_tischnummer kellner b.bestellung_id)
            ≡ get vc.datenbank (user_tischnummer kellner b.bestellung_id))
  unfolding gesten geste delete_action
  umbuchen_lem vc i row_i j row_j b gs text at h full kellner other apart = (
    _,
    rw (at) (
        nachher gs
          (record vc {
            problem_section = i;
            problem_row = row_i;
            view_bestellung_id = b.bestellung_id;
            blatt = problem;
          })
          j row_j text h full),
    get_same vc.datenbank (information_tischnummer vc.barname b.bestellung_id) (tisch text),
    get_other vc.datenbank _ _ (tisch text) (λ e. apart (sym (ap order_of e))),
    get_other vc.datenbank _ _ (tisch text) (λ e. cc),
  )
