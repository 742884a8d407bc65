-- ===== src/Trace/Session/Rows.antt =====
-- A recording can be opened, finished or not, and has the rows that were recorded.
use native.Mathlib.Nat.{add-zero}
use acp_core.Base.{
  ℕ, suc, ◌+◌, ◌^◌, ◌<◌, ◌≡◌, refl, ap, Text, Bytes, codes, List, [], ◌∷◌, ◌++◌, append_assoc,
  append-nil, Option, some, length, arith,
}
use acp_core.Base.Fallible.{ok}
use acp_core.Wire.Json.{External}
use acp_core.Wire.Frame.{Frame}
use acp_core.Trace.Event.{Direction, EventRecord, Manifest, format_version_1}
use acp_core.Trace.Disk.{Disk, Formats, format_blake3_hex}
use acp_core.Trace.Writer.{TraceWriter, create_with_clock, record_frame, event_of, finalize}
use acp_core.Trace.Reader.{open_trace}
use acp_core.Trace.Session.{IsFaithful, Observed, record_all, rows_from, record_session}
use acp_core.Trace.Session.Lines.{lines_of, read_events-lines}

module _ ⦃x : External⦄ (F : Formats) where
  -- The writer has flushed `text`, and its next row is number `n`.
  pub record IsFlushed (m : Manifest) (json_text : Option Bytes) (text : Bytes) (n : ℕ)
      (wd : TraceWriter × Disk) : Type 0 where
    pub manifest : wd.0.manifest ≡ m
    pub manifest_json : wd.1.manifest_json ≡ json_text
    pub next_seq : wd.0.next_seq ≡ n
    pub buffered : wd.0.buffered ≡ []
    pub events : wd.1.events_jsonl ≡ some text

  record_frame-IsFlushed :
      {m : Manifest} {json_text : Option Bytes} {text : Bytes} {n : ℕ} (wd : TraceWriter × Disk)
      (now : ℕ) (dir : Direction) (f : Frame)
      → n + 1 < 2 ^ 64
      → IsFlushed m json_text text n wd
      → IsFlushed m json_text
          (text ++ (F.event_to_vec (event_of n now dir f) ++ b'\n' ∷ []))
          (suc n)
          (record_frame F now dir f wd)
  unfolding record_frame
  record_frame-IsFlushed {n} (w, d) now dir f h p = record {
    manifest = p.manifest;
    manifest_json = p.manifest_json;
    next_seq = rw p.next_seq (omega arith);
    buffered = refl;
    events = rw (p.events, p.next_seq, p.buffered);
  }

  record_all-IsFlushed :
      {m : Manifest} {json_text : Option Bytes} (text : Bytes) (n : ℕ) (frames : List Observed)
      (wd : TraceWriter × Disk)
      → n + length frames < 2 ^ 64
      → IsFlushed m json_text text n wd
      → IsFlushed m json_text
          (text ++ lines_of F (rows_from n frames))
          (n + length frames)
          (record_all F frames wd)
  unfolding record_all rows_from
  record_all-IsFlushed {m} {json_text} text n [] wd h p = rw (append-nil text, add-zero) p
  record_all-IsFlushed {m} {json_text} text n ((now, dir, f) ∷ rest) wd h p =
      let line = F.event_to_vec (event_of n now dir f) ++ b'\n' ∷ [] in
      let longer : n + suc (length rest) ≡ suc n + length rest = omega arith in
      rw (← append_assoc text line (lines_of F (rows_from (suc n) rest)), longer)
        (record_all-IsFlushed (text ++ line) (suc n) rest (record_frame F now dir f wd)
          (omega arith) (record_frame-IsFlushed wd now dir f (omega arith) p))

  pub record_session-IsFlushed :
      (m : Manifest) (d : Disk) (frames : List Observed)
      → length frames < 2 ^ 64
      → IsFlushed m
          (some (F.manifest_to_vec m))
          (lines_of F (rows_from 0 frames))
          (length frames)
          (record_session F m d frames)
  unfolding record_session create_with_clock
  record_session-IsFlushed m d frames h =
      let zero_add : 0 + length frames ≡ length frames = omega arith in
      rw zero_add at (
        record_all-IsFlushed [] 0 frames (create_with_clock F m d) (omega arith) (record {
          manifest = refl;
          manifest_json = refl;
          next_seq = refl;
          buffered = refl;
          events = refl;
        }))

  -- The manifest after `finalize`.
  abbrev pub final_manifest : Manifest → Text → List Observed → Manifest
  final_manifest m now frames = record m {
    ended_at = some now;
    event_count = some (length frames);
    events_hash =
        some (codes "blake3:" ++ format_blake3_hex (x.hash (lines_of F (rows_from 0 frames))));
  }

  module _ (m : Manifest) (frames : List Observed) (now : Text) (s : TraceWriter × Disk) where
    abbrev Recorded : Type 0
    Recorded =
        IsFlushed m (some (F.manifest_to_vec m)) (lines_of F (rows_from 0 frames)) (length frames) s

    finalize-events :
        Recorded → (finalize F now s).events_jsonl ≡ some (lines_of F (rows_from 0 frames))
    unfolding finalize
    finalize-events p = rw (p.events, p.buffered) (ap some (append-nil _))

    finalize-manifest :
        Recorded
        → (finalize F now s).manifest_json ≡ some (F.manifest_to_vec (final_manifest m now frames))
    unfolding finalize
    finalize-manifest p = rw (p.events, p.buffered, p.manifest, p.next_seq, append-nil)

  open_trace-lem :
      (d : Disk) (m : Manifest) (rows : List EventRecord)
      → IsFaithful F
      → m.format_version ≡ format_version_1
      → d.manifest_json ≡ some (F.manifest_to_vec m)
      → d.events_jsonl ≡ some (lines_of F rows)
      → open_trace F d ≡ ok (record { disk = d; manifest = m; events = rows })
  unfolding open_trace
  open_trace-lem d m rows faithful v em ev =
      rw (em, faithful.manifest_round m, v, ev, read_events-lines F faithful rows)

  pub open_trace-recorded :
      (m : Manifest) (d : Disk) (frames : List Observed) (now : Text)
      → IsFaithful F
      → m.format_version ≡ format_version_1
      → length frames < 2 ^ 64
      → (open_trace F (record_session F m d frames).1
          ≡ ok (record {
            disk = (record_session F m d frames).1;
            manifest = m;
            events = rows_from 0 frames;
          }))
        × (open_trace F (finalize F now (record_session F m d frames))
            ≡ ok (record {
              disk = finalize F now (record_session F m d frames);
              manifest = final_manifest m now frames;
              events = rows_from 0 frames;
            }))
  open_trace-recorded m d frames now faithful v h =
      let s = record_session F m d frames in
      let p = record_session-IsFlushed m d frames h in
      (
        open_trace-lem s.1 m (rows_from 0 frames) faithful v p.manifest_json p.events,
        open_trace-lem (finalize F now s) (final_manifest m now frames) (rows_from 0 frames)
            faithful v (finalize-manifest m frames now s p) (finalize-events m frames now s p),
      )
