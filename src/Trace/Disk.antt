-- ===== src/Trace/Disk.antt =====
-- A trace's directory: `manifest.json`, `events.jsonl` and the tree `blobs/<aa>/<rest>`. Operations
-- of the file system do not fail, but for a file that is missing and for `create_new` on one that
-- is there.
use acp_core.Base.{
  ◌/◌, ◌%◌, ◌≡◌, Text, Bytes, Bool, ◌&&◌, List, [], ◌∷◌, Option, none, some, if◌then◌else◌, ◌==◌,
  ==_iff, ==_refl, nat_eq, list_eq, take, drop, arith,
}
use acp_core.Wire.Canonical.{hex}
use acp_core.Trace.Event.{EventRecord, Manifest}

-- A blob's sub-directory and file name.
abbrev pub BlobPath : Type 0
BlobPath = Text × Text

abbrev pub path_beq : BlobPath → BlobPath → Bool
path_beq p q = p.0 == q.0 && p.1 == q.1

pub record Disk : Type 0 where
  pub manifest_json : Option Bytes
  pub events_jsonl : Option Bytes
  pub blobs : List (BlobPath × Bytes)

-- The text that the derived `Serialize` and `Deserialize` instances make and read.
pub record Formats : Type 0 where
  pub event_to_vec : EventRecord → Bytes
  pub event_from_str : Bytes → Option EventRecord
  pub manifest_to_vec : Manifest → Bytes
  pub manifest_from_slice : Bytes → Option Manifest

-- `fs::read` of a blob
unfoldable pub read_blob : List (BlobPath × Bytes) → BlobPath → Option Bytes
read_blob [] p = none
read_blob ((q, b) ∷ blobs) p = let rest = read_blob blobs p in if path_beq q p then some b else rest

-- `OpenOptions::create_new` and `write_all`; a file that is there is left as it is.
unfoldable pub create_new : List (BlobPath × Bytes) → BlobPath → Bytes → List (BlobPath × Bytes)
create_new blobs p raw = elim (read_blob blobs p) [ none ↦ (p, raw) ∷ blobs | some _ ↦ blobs ]

-- `format_blake3_hex`
unfoldable pub format_blake3_hex : Bytes → Text
format_blake3_hex [] = []
format_blake3_hex (b ∷ bytes) = hex (b / 16) ∷ hex (b % 16) ∷ format_blake3_hex bytes

abbrev pub blob_path : Text → BlobPath
blob_path hash = (take 2 hash, drop 2 hash)

pub read_blob-create_new :
    (blobs : List (BlobPath × Bytes)) (p : BlobPath) (raw : Bytes)
    → read_blob (create_new blobs p raw) p
      ≡ elim (read_blob blobs p) [ none ↦ some raw | some b ↦ some b ]
unfolding read_blob create_new
read_blob-create_new blobs p raw = ground (arith, ==_refl p.0, ==_refl p.1)

-- What is there stays.
pub read_blob-create_new-some :
    (blobs : List (BlobPath × Bytes)) (p q : BlobPath) (raw : Bytes) {b : Bytes}
    → read_blob blobs q ≡ some b
    → read_blob (create_new blobs p raw) q ≡ some b
unfolding read_blob create_new
read_blob-create_new-some blobs p q raw h = ground (arith, ==_iff p.0 q.0, ==_iff p.1 q.1)
