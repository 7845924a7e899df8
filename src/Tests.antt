-- ===== src/Tests.antt =====
-- Runs of the models on small inputs, and the theorems at concrete inputs.
pub mod Messages
pub mod Wire
pub mod Fields
mod Safety
mod Writing
mod Base64
pub mod Rechnung
pub mod Auswahl
mod Extras
mod Lesen
mod Durchlauf
pub mod Kellner
mod Speisekarte
