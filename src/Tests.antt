-- ===== src/Tests.antt =====
-- Runs of the model at concrete inputs.
mod Codec
mod Arrays
mod Timestamps
mod Values
mod Any
mod Structs
mod Reflect
mod Restored
