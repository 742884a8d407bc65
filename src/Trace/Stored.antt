-- ===== src/Trace/Stored.antt =====
-- crates/acp-trace/src/lib.rs: `TraceReader::load_blob`, by what stands in the blob store.
use acp_core.Base.{
  ◌≡◌, refl, ap, sym, ◌∙◌, ◌↔◌, Text, Bytes, codes, ◌++◌, some, All, length, take, drop,
  strip_prefix, arith,
}
use mathlib.Core.Option.{some-injective}
use acp_core.Base.Fallible.{ok}
use acp_core.Wire.Json.{External}
use acp_core.Wire.Canonical.{canonicalize}
use acp_core.Wire.Hash.{payload_hash, hex_bytes}
use acp_core.Wire.Hash.Digest.{
  IsDigit, read_hex, read_hex-hex_bytes, hex_bytes-IsDigit, length-hex_bytes,
}
use acp_core.Wire.Hash.Digest.Reading.{hex_bytes-read_hex}
use acp_core.Wire.Frame.{Frame}
use acp_core.Wire.Frame.Classified.{IsJsonRpc, parse-IsJsonRpc}
use acp_core.Trace.Event.{EventRecord}
use acp_core.Trace.Disk.{Disk, read_blob, format_blake3_hex}
use acp_core.Trace.Reader.{split_at, hash_of, load_blob}
use acp_core.Trace.Integrity.{IsIntact, load_blob_iff}
use acp_core.Trace.Session.Blobs.{
  IsBlake3, path_of, format_blake3_hex-eq, hash_text, strip-hash_of, load_blob-lem, digest,
}

module _ ⦃x : External⦄ where
  -- The row names a digest of 32 bytes by its digits; the blob store has `b` under them, the first two
  -- of them as the directory, and `b` is a frame whose canonical form has that digest.
  pub record IsStored (d : Disk) (row : EventRecord) (b : Bytes) : Type 0 where
    pub digits : Text
    pub frame : Frame
    pub named : row.hash ≡ codes "blake3:" ++ digits
    pub are_64 : length digits ≡ 64
    pub lower_case : All IsDigit digits
    pub stored : read_blob d.blobs (take 2 digits, drop 2 digits) ≡ some b
    pub is_frame : IsJsonRpc b frame
    pub same_digest : read_hex digits ≡ x.hash (canonicalize frame.value)

  module _ (law : IsBlake3 x) (d : Disk) (row : EventRecord) (b : Bytes) where
    IsIntact-IsStored : IsIntact d row b → IsStored d row b
    unfolding hash_of payload_hash
    IsIntact-IsStored h =
        let f = h.frame in
        let bytes = digest law f in
        let text = format_blake3_hex-eq (payload_hash f.value) in
        let same_digits : format_blake3_hex (payload_hash f.value) ≡ h.digits =
          some-injective _ _ (
            sym (strip-hash_of f) ∙ ap (strip_prefix (codes "blake3:")) h.same_hash ∙ h.prefixed) in
        let same_path : path_of f ≡ h.path =
          some-injective _ _ (sym (hash_text law f).0 ∙ ap (split_at 2) same_digits ∙ h.cut) in
        record {
          digits = format_blake3_hex (payload_hash f.value);
          frame = f;
          named = sym h.same_hash;
          are_64 = rw text (omega (arith, length-hex_bytes (payload_hash f.value), bytes.1));
          lower_case = rw text (hex_bytes-IsDigit (payload_hash f.value) bytes.0);
          stored = ap (read_blob d.blobs) same_path ∙ h.stored;
          is_frame = (parse-IsJsonRpc b f).0 h.parsed;
          same_digest = ap read_hex text ∙ read_hex-hex_bytes (payload_hash f.value) bytes.0;
        }

    IsStored-load_blob : IsStored d row b → load_blob d row ≡ ok b
    unfolding hash_of payload_hash
    IsStored-load_blob s =
        let f = s.frame in
        let same_digits : s.digits ≡ format_blake3_hex (payload_hash f.value) =
          sym (hex_bytes-read_hex 32 s.digits s.are_64 s.lower_case)
          ∙ ap hex_bytes s.same_digest
          ∙ sym (format_blake3_hex-eq (payload_hash f.value)) in
        load_blob-lem d row f f b law (s.named ∙ ap (λ t. codes "blake3:" ++ t) same_digits)
          (ap (λ t. read_blob d.blobs (take 2 t, drop 2 t)) (sym same_digits) ∙ s.stored)
          ((parse-IsJsonRpc b f).1 s.is_frame) refl

    -- `load_blob` gives bytes exactly if the row's hash is the prefix `blake3:` and the 64 lower-case
    -- digits of a digest, the blob store has these bytes in the file that the digits name, in the
    -- directory of the first two, and the bytes are a JSON-RPC frame whose canonical form has that
    -- digest. Digests are 32 bytes.
    pub load_blob-IsStored : (load_blob d row ≡ ok b) ↔ IsStored d row b
    load_blob-IsStored = (λ e. IsIntact-IsStored ((load_blob_iff d row b).0 e), IsStored-load_blob)
