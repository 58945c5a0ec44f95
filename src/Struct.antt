-- ===== src/Struct.antt =====
-- struct_decoder.go and struct_encoder.go: the codecs of one struct type.
pub mod Kinds
pub mod Scalars
pub mod Slices
pub mod Maps
pub mod Decode
pub mod Calm
pub mod Safety
pub mod Writes
pub mod Tags
pub mod Names
pub mod Encode
pub mod Reads
pub mod Shapes
pub mod SliceReads
pub mod Loop
pub mod RoundTrip
