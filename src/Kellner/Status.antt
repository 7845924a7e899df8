-- ===== src/Kellner/Status.antt =====
-- The states of an order: `removeBestellung` of KellnerVC.swift, `removeBestellung2` of
-- KellnerAngenommenVC.swift and `removeBestellung3` of FertiggestelltVC.swift, and the orders that
-- the observers of the three screens take up.
pub mod Verlauf
use smolokellner.Base.{ℕ, Bool, true, false, Option, none, some, List, get_elem?, if◌then◌else◌}
use smolokellner.Rechnung.Daten.{◌>>=◌}
use smolokellner.Kellner.Datenbank.{Datenbank}

-- The strings at `Status`; `anderer` is any other one.
pub data Status : Type 0 where
  versendet angenommen fertig abrechnen anderer : Status

-- The places that the screens write, by the name of the bar or the waiter and the order's key.
pub data Pfad (Text : Type 0) : Type 0 where
  information_status information_tischnummer : Text → Text → Pfad Text
  user_status user_tischnummer : Text → Text → Pfad Text

pub data Wert (Text : Type 0) : Type 0 where
  vorgang : Status → Wert Text
  tisch : Text → Wert Text

-- The screen of the new orders, that of the accepted ones, and that of the finished ones.
pub data Ansicht : Type 0 where
  neue angenommene fertige : Ansicht

-- `bestellungInfos.Status == "versendet"`, and likewise on the other screens.
unfoldable pub nimmt_auf : Ansicht → Status → Bool
nimmt_auf neue versendet = true
nimmt_auf angenommene angenommen = true
nimmt_auf fertige fertig = true
nimmt_auf _ _ = false

module _ {Text Stand : Type 0} ⦃db : Datenbank (Pfad Text) (Wert Text) Stand⦄ where
  open db use {update_child}

  unfoldable pub remove_bestellung : Text → Text → Text → Stand → Stand
  remove_bestellung barname kellner_id id s =
      update_child (update_child s (information_status barname id) (vorgang angenommen))
        (user_status kellner_id id) (vorgang angenommen)

  unfoldable pub remove_bestellung2 : Text → Text → Text → Stand → Stand
  remove_bestellung2 barname kellner_id id s =
      update_child (update_child s (information_status barname id) (vorgang fertig))
        (user_status kellner_id id) (vorgang fertig)

  unfoldable pub remove_bestellung3 : Text → Text → Text → Stand → Stand
  remove_bestellung3 barname kellner_id id s =
      update_child (update_child s (information_status barname id) (vorgang abrechnen))
        (user_status kellner_id id) (vorgang abrechnen)

  -- `annehmen` for the order in the given section, on each screen.
  unfoldable pub annehmen : Ansicht → Text → Text → List Text → ℕ → Stand → Option Stand
  annehmen neue barname kellner_id ids section s =
      get_elem? ids section >>= λ id. some (remove_bestellung barname kellner_id id s)
  annehmen angenommene barname kellner_id ids section s =
      get_elem? ids section >>= λ id. some (remove_bestellung2 barname kellner_id id s)
  annehmen fertige barname kellner_id ids section s =
      get_elem? ids section >>= λ id. some (remove_bestellung3 barname kellner_id id s)
