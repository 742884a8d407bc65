-- ===== src/Trace/Reader.antt =====
-- crates/acp-trace/src/lib.rs: `TraceReader`.
use mathlib.Core.WellFounded.{Acc}
use acp_core.Base.{
  ℕ, ◌-◌, Text, Bytes, codes, utf8, encode_utf8, ◌||◌, List, [], ◌∷◌, ◌++◌, Option, none, some,
  nat_beq, ltb, leb, if◌then◌else◌, ◌==◌, nat_eq, list_eq, length, strip_prefix, is_utf8,
}
use acp_core.Base.Order.{Shorter, Shorter-wf}
use acp_core.Base.Fallible.{Result, ok, err, ok_or, map_err, ◌>>=◌}
use acp_core.Wire.Json.{External}
use acp_core.Wire.Hash.{payload_hash}
use acp_core.Wire.Frame.{WireError, Frame, parse}
use acp_core.Wire.Reader.{read_until, read_until-Shorter}
use acp_core.Trace.Event.{EventRecord, Manifest, format_version_1}
use acp_core.Trace.Disk.{Disk, Formats, read_blob, format_blake3_hex}

-- `panic` is no error of the source: `split_at` panics inside a character.
pub data TraceError : Type 0 where
  io json panic : TraceError
  wire : WireError → TraceError
  missing : Text → TraceError
  hash_mismatch : (expected got : Text) → TraceError
  dangling_blob : Text → TraceError
  version : (got want : ℕ) → TraceError

pub record TraceReader : Type 0 where
  pub disk : Disk
  pub manifest : Manifest
  pub events : List EventRecord

-- `trim_end_matches(['\n', '\r'])`
unfoldable pub trim_end : Bytes → Bytes
trim_end [] = []
trim_end (c ∷ s) = elim (trim_end s) [
  | [] ↦ if nat_beq c b'\n' || nat_beq c b'\r' then [] else c ∷ []
  | d ∷ t ↦ c ∷ d ∷ t
]

-- `str::split_at`, at a number of bytes; `none` inside a character and past the end.
unfoldable pub split_at : ℕ → Text → Option (Text × Text)
split_at n [] = if nat_beq n 0 then some ([], []) else none
split_at n (c ∷ s) =
    let rest = split_at (n - length (encode_utf8 c)) s in
    if nat_beq n 0
    then some ([], c ∷ s)
    else if leb (length (encode_utf8 c)) n
    then elim rest [ none ↦ none | some (a, b) ↦ some (c ∷ a, b) ]
    else none

module _ (F : Formats) where
  open F use {event_from_str, manifest_from_slice}

  -- What a line adds to the rows behind it; a blank one is passed over.
  abbrev pub trimmed_line :
      Bytes → Result TraceError (List EventRecord) → Result TraceError (List EventRecord)
  trimmed_line [] more = more
  trimmed_line (c ∷ t) more =
      ok_or (event_from_str (c ∷ t)) json >>= λ row. more >>= λ rows. ok (row ∷ rows)

  -- The loop over the lines of `events.jsonl`; `read_line` fails on one that is not UTF-8.
  unfoldable pub read_events_acc :
      (s : Bytes) → Acc Shorter s → Result TraceError (List EventRecord)
  read_events_acc [] w = ok []
  read_events_acc (b ∷ s) (Acc.intro _ below) =
      let line = (read_until b'\n' (b ∷ s)).0 in
      let rest = (read_until b'\n' (b ∷ s)).1 in
      let more = read_events_acc rest (below rest (read_until-Shorter b'\n' b s)) in
      if is_utf8 line then trimmed_line (trim_end line) more else err io

  unfoldable pub read_events : Bytes → Result TraceError (List EventRecord)
  unfolding read_events_acc Shorter-wf
  read_events s = read_events_acc s (Shorter-wf.apply s)

  -- `TraceReader::open`
  unfoldable pub open_trace : Disk → Result TraceError TraceReader
  unfolding read_events
  open_trace d = do
    manifest_bytes ← ok_or d.manifest_json (missing (codes "manifest.json"))
    manifest ← ok_or (manifest_from_slice manifest_bytes) json
    if nat_beq manifest.format_version format_version_1
        then (do
          events_bytes ← ok_or d.events_jsonl (missing (codes "events.jsonl"))
          events ← read_events events_bytes
          ok (record { disk = d; manifest = manifest; events = events }))
        else err (version manifest.format_version format_version_1)

module _ ⦃x : External⦄ where
  -- `format!("blake3:{}", format_blake3_hex(..))` of a frame's payload
  unfoldable pub hash_of : Frame → Text
  hash_of frame = codes "blake3:" ++ format_blake3_hex (payload_hash frame.value)

  -- `TraceReader::load_blob`
  unfoldable pub load_blob : Disk → EventRecord → Result TraceError Bytes
  load_blob d row = do
    hex ← ok_or (strip_prefix (codes "blake3:") row.hash) (dangling_blob row.hash)
    if ltb (length (utf8 hex)) 2 then err (dangling_blob row.hash) else (do
      path ← ok_or (split_at 2 hex) panic
      bytes ← ok_or (read_blob d.blobs path) (dangling_blob row.hash)
      frame ← map_err wire (parse bytes)
      if hash_of frame == row.hash then ok bytes else err (hash_mismatch row.hash (hash_of frame)))
