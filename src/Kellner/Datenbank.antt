-- ===== src/Kellner/Datenbank.antt =====
-- What the app uses of the Firebase database: a value is read at a place, and `updateChildValues`
-- sets it. The database is not part of the app, so it is a parameter with these two laws.
use smolokellner.Base.{Option, some, ◌≡◌, ◌≢◌}

pub record Datenbank (Pfad Wert : Type 0) (Stand : Type 0) : Type 0 where
  pub get : Stand → Pfad → Option Wert
  pub update_child : Stand → Pfad → Wert → Stand
  pub get_same : (s : Stand) (p : Pfad) (w : Wert) → get (update_child s p w) p ≡ some w
  pub get_other : (s : Stand) (p q : Pfad) (w : Wert) → p ≢ q → get (update_child s p w) q ≡ get s q
