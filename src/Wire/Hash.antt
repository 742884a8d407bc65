-- ===== src/Wire/Hash.antt =====
-- crates/acp-wire/src/lib.rs: payload hashes and their hexadecimal text. The same text is made by
-- `format_blake3_hex` of acp-trace and by `hex_with_prefix` of acp-replay.
pub mod Digest
use acp_core.Base.{ℕ, ◌/◌, ◌%◌, Text, Bytes, codes, [], ◌∷◌, ◌++◌}
use acp_core.Wire.Json.{External, Json}
use acp_core.Wire.Canonical.{hex, canonicalize}

-- The two digits of a byte.
unfoldable pub hex_byte : ℕ → Text → Text
hex_byte b s = hex (b / 16) ∷ hex (b % 16) ∷ s

-- The loop over the bytes.
unfoldable pub hex_bytes : Bytes → Text
hex_bytes [] = []
hex_bytes (b ∷ bytes) = hex_byte b (hex_bytes bytes)

unfoldable pub hex_with_prefix : Bytes → Text
hex_with_prefix bytes = codes "blake3:" ++ hex_bytes bytes

module _ ⦃x : External⦄ where
  unfoldable pub payload_hash : Json → Bytes
  payload_hash v = x.hash (canonicalize v)
