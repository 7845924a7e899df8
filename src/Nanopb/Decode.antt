-- ===== src/Nanopb/Decode.antt =====
-- What the readers of pb_decode.c do on a stream over a buffer.
pub mod Steps
pub mod Varints
pub mod Varints32
