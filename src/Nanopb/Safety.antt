-- ===== src/Nanopb/Safety.antt =====
-- pb_decode.c: the readers and the bounds of their buffer.
pub mod Bounds
pub mod Read
pub mod Varints
pub mod Substreams
