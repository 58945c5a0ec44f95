-- ===== src/Reflect.antt =====
-- encode.go, decode_struct.go, decode_any.go: what works on Go values by reflection.
pub mod Types
pub mod Keys
pub mod Info
pub mod Decode
pub mod Unmarshal
pub mod Encode
pub mod Paths
pub mod Calm
pub mod Safety
pub mod Shows
pub mod Contents
pub mod Reads
pub mod Restored
pub mod Steps
pub mod Fields
pub mod Pairs
pub mod Restores
pub mod RoundTrip
pub mod Names
