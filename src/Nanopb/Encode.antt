-- ===== src/Nanopb/Encode.antt =====
-- What the writers of pb_encode.c put into a stream.
pub mod Emits
pub mod Varints
pub mod Write
