-- ===== src/Trace/Writer.antt =====
-- crates/acp-trace/src/lib.rs: `Manifest`, `TraceWriter`. The time that the clock gives is an
-- argument of the calls that read the clock.
use acp_core.Base.{
  ℕ, suc, ◌+◌, ◌%◌, ◌^◌, Text, Bytes, codes, List, [], ◌∷◌, ◌++◌, Option, none, some, length, take,
  drop,
}
use acp_core.Wire.Json.{External}
use acp_core.Wire.Hash.{payload_hash}
use acp_core.Wire.Frame.{Frame, option_map}
use acp_core.Trace.Event.{
  Direction, record_kind, record_id, EventRecord, RecordingEnv, Manifest, format_version_1,
}
use acp_core.Trace.Disk.{Disk, Formats, create_new, format_blake3_hex, blob_path}

-- `Manifest::new_with_clock`
unfoldable pub new_with_clock : Text → List Text → Text → Manifest
new_with_clock recorder_version agent_argv now = record {
  format_version = format_version_1;
  recorder = codes "acp-core";
  recorder_version = recorder_version;
  agent_argv = agent_argv;
  started_at = now;
  ended_at = none;
  event_count = none;
  events_hash = none;
  recording_env = none;
}

unfoldable pub with_recording_env : Manifest → RecordingEnv → Manifest
with_recording_env m env = record m { recording_env = some env }

-- `buffered` is what the `BufWriter` of `events.jsonl` holds.
pub record TraceWriter : Type 0 where
  pub manifest : Manifest
  pub next_seq : ℕ
  pub buffered : Bytes

abbrev pub append_to : Option Bytes → Bytes → Option Bytes
append_to none b = some b
append_to (some s) b = some (s ++ b)

module _ ⦃x : External⦄ where
  -- The row that `record` makes of a frame.
  unfoldable pub event_of : ℕ → ℕ → Direction → Frame → EventRecord
  event_of seq now dir frame = record {
    seq = seq;
    t_wall_ns = now;
    dir = dir;
    kind = record_kind frame.kind;
    method = frame.method;
    id = option_map record_id frame.id;
    hash = codes "blake3:" ++ format_blake3_hex (payload_hash frame.value);
    bytes = length frame.raw;
  }

module _ (F : Formats) where
  open F use {event_to_vec, manifest_to_vec}

  -- Blobs of an earlier recording in the directory stay.
  unfoldable pub create_with_clock : Manifest → Disk → TraceWriter × Disk
  create_with_clock manifest d = (
    record { manifest = manifest; next_seq = 0; buffered = [] },
    record d { manifest_json = some (manifest_to_vec manifest); events_jsonl = some [] },
  )

  -- `self.events.flush()`
  unfoldable pub flush : TraceWriter × Disk → TraceWriter × Disk
  flush (w, d) =
      (record w { buffered = [] }, record d { events_jsonl = append_to d.events_jsonl w.buffered })

  module _ ⦃x : External⦄ where
    -- `TraceWriter::record`, its hash left out of the result: it is that of the row.
    unfoldable pub record_frame : ℕ → Direction → Frame → TraceWriter × Disk → TraceWriter × Disk
    unfolding flush event_of
    record_frame now dir frame (w, d) =
        let hash = format_blake3_hex (payload_hash frame.value) in
        let row = event_of w.next_seq now dir frame in
        let (w', d') = flush (
          record w { buffered = w.buffered ++ event_to_vec row ++ b'\n' ∷ [] },
          record d { blobs = create_new d.blobs (blob_path hash) frame.raw },
        ) in
        (record w' { next_seq = (w'.next_seq + 1) % 2 ^ 64 }, d')

    -- `TraceWriter::finalize`
    unfoldable pub finalize : Text → TraceWriter × Disk → Disk
    unfolding flush
    finalize now wd =
        let (w, d) = flush wd in
        let events_bytes = acp_core.Base.unwrap_or d.events_jsonl [] in
        let events_hash = codes "blake3:" ++ format_blake3_hex (x.hash events_bytes) in
        let manifest = record w.manifest {
          ended_at = some now;
          event_count = some w.next_seq;
          events_hash = some events_hash;
        } in
        record d { manifest_json = some (manifest_to_vec manifest) }
