-- ===== src/Rechnung.antt =====
-- The bill screen of the waiter app, SMOLO+/Views/FertiggestelltVC.swift.
pub mod Daten
pub mod Zusammenfuehren
pub mod Laden
pub mod Lesen
pub mod Auswahl
pub mod Preise
