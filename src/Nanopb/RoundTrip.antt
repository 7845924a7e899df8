-- ===== src/Nanopb/RoundTrip.antt =====
-- pb_encode.c and pb_decode.c together: the scalar forms of the wire format.
pub mod Scalars
pub mod Fixed
