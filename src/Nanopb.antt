-- ===== src/Nanopb.antt =====
-- The protobuf codec of SMOLO+/Pods/nanopb: streams, wire format, field descriptors.
pub mod Status
pub mod Istream
pub mod Substream
pub mod Varint
pub mod Decode
pub mod Ostream
pub mod Field
pub mod Iter
pub mod Memory
pub mod Program
pub mod Defaults
pub mod DecodeField
pub mod DecodeMessage
pub mod DecodeStruct
pub mod EncodeField
pub mod EncodeMessage
pub mod Encode
pub mod Safety
pub mod RoundTrip
