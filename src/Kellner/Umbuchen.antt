-- ===== src/Kellner/Umbuchen.antt =====
-- The swipes over an order of KellnerVC.swift and the sheet that moves an order to another table:
-- `deleteAction`, `tischumbuchen`, `viewProblemAbbrechen`, `viewTischumbuchenAbbrechen` and
-- `viewTischumbuchen`. Of the animations, the sheet that they show is kept.
pub mod Falsch
use smolokellner.Base.{ℕ, Option, none, some, List, [], ◌∷◌, get_elem?, if◌then◌else◌}
use smolokellner.Rechnung.Daten.{Equal, ◌>>=◌, KellnerTvSection}
use smolokellner.Kellner.Datenbank.{Datenbank}
use smolokellner.Kellner.Status.{Pfad, information_tischnummer, Wert, tisch}

pub data Blatt : Type 0 where
  keines problem tischnummer : Blatt

-- What the gestures read and write of the screen, and the database behind it.
pub record KellnerVc (Text Preis Stand : Type 0) : Type 0 where
  pub barname : Text
  pub bestellungen : List (KellnerTvSection Text Preis)
  pub problem_section : ℕ
  pub problem_row : ℕ
  pub view_bestellung_id : Text
  pub umbuchen_textfield : Text
  pub blatt : Blatt
  pub datenbank : Stand

-- The gestures; a swipe has the section and the row that it is over.
pub data Geste (Text : Type 0) : Type 0 where
  problem_wischen umbuchen_wischen : ℕ → ℕ → Geste Text
  eingeben : Text → Geste Text
  umbuchen_senden umbuchen_abbrechen problem_abbrechen : Geste Text

module _ {Text Preis Stand : Type 0} where
  unfoldable pub delete_action :
      ℕ → ℕ → KellnerVc Text Preis Stand → Option (KellnerVc Text Preis Stand)
  delete_action section row vc = get_elem? vc.bestellungen section >>= λ b. some (record vc {
    problem_section = section;
    problem_row = row;
    view_bestellung_id = b.bestellung_id;
    blatt = problem;
  })

  -- The section and the row are not kept.
  unfoldable pub tischumbuchen : ℕ → ℕ → KellnerVc Text Preis Stand → KellnerVc Text Preis Stand
  tischumbuchen section row vc = record vc { blatt = tischnummer }

  unfoldable pub view_problem_abbrechen : KellnerVc Text Preis Stand → KellnerVc Text Preis Stand
  view_problem_abbrechen vc = record vc { blatt = keines }

  unfoldable pub view_tischumbuchen_abbrechen :
      KellnerVc Text Preis Stand → KellnerVc Text Preis Stand
  view_tischumbuchen_abbrechen vc = record vc { blatt = keines }

module _ {Text Preis Stand : Type 0} ⦃db : Datenbank (Pfad Text) (Wert Text) Stand⦄
    ⦃eq : Equal Text⦄ (leer : Text) where
  open db use {update_child}
  open eq use {same}

  -- An empty text only brings an alert.
  unfoldable pub view_tischumbuchen : KellnerVc Text Preis Stand → KellnerVc Text Preis Stand
  view_tischumbuchen vc = if same vc.umbuchen_textfield leer then vc else record vc {
    datenbank =
        update_child vc.datenbank (information_tischnummer vc.barname vc.view_bestellung_id)
          (tisch vc.umbuchen_textfield);
    blatt = keines;
  }

  unfoldable pub geste :
      Geste Text → KellnerVc Text Preis Stand → Option (KellnerVc Text Preis Stand)
  geste (problem_wischen section row) vc = delete_action section row vc
  geste (umbuchen_wischen section row) vc = some (tischumbuchen section row vc)
  geste (eingeben text) vc = some (record vc { umbuchen_textfield = text })
  geste umbuchen_senden vc = some (view_tischumbuchen vc)
  geste umbuchen_abbrechen vc = some (view_tischumbuchen_abbrechen vc)
  geste problem_abbrechen vc = some (view_problem_abbrechen vc)

  unfoldable pub gesten :
      List (Geste Text) → KellnerVc Text Preis Stand → Option (KellnerVc Text Preis Stand)
  gesten [] vc = some vc
  gesten (g ∷ gs) vc = geste g vc >>= λ vc'. gesten gs vc'
