-- ===== src/Kellner.antt =====
-- The rest of the waiter's screens: the states that they give to an order, the sheet that moves an
-- order to another table, and the report of a problem. The code is under SMOLO+/Views.
pub mod Datenbank
pub mod Status
pub mod Umbuchen
pub mod Problem
pub mod Ampel
pub mod Passwort
