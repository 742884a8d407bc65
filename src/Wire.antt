-- ===== src/Wire.antt =====
-- crates/acp-wire: framing, classification, canonical JSON and payload hashes.
pub mod Json
pub mod Canonical
pub mod Hash
pub mod Frame
pub mod Reader
