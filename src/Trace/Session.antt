-- ===== src/Trace/Session.antt =====
-- A whole recording: frames recorded one after another, and the rows and files that it leaves.
pub mod Lines
pub mod Rows
pub mod Opening
pub mod Blobs
pub mod Torn
use acp_core.Base.{
  ℕ, suc, Text, Bytes, List, [], ◌∷◌, ◌++◌, Option, none, some, ◌≡◌, ◌≢◌, true, false, is_utf8,
}
use acp_core.Wire.Json.{External}
use acp_core.Wire.Frame.{Frame, contains}
use acp_core.Trace.Event.{Direction, EventRecord, Manifest}
use acp_core.Trace.Disk.{Disk, Formats}
use acp_core.Trace.Writer.{TraceWriter, record_frame, event_of, create_with_clock}
use acp_core.Trace.Reader.{trim_end}

-- What `serde_json` promises of the derived formats: a value is read back from its text, and the
-- compact text of a row is UTF-8, one line, not empty, and ends in no line break.
pub record IsFaithful (F : Formats) : Type 0 where
  pub event_round : (row : EventRecord) → F.event_from_str (F.event_to_vec row) ≡ some row
  pub event_line : (row : EventRecord) → contains (F.event_to_vec row) b'\n' ≡ false
  pub event_end : (row : EventRecord) → trim_end (F.event_to_vec row) ≡ F.event_to_vec row
  pub event_utf8 : (row : EventRecord) → is_utf8 (F.event_to_vec row) ≡ true
  pub event_ne : (row : EventRecord) → F.event_to_vec row ≢ []
  pub manifest_round : (m : Manifest) → F.manifest_from_slice (F.manifest_to_vec m) ≡ some m

module _ ⦃x : External⦄ where
  -- A frame as the writer meets it: the clock's time, the direction, the frame.
  abbrev pub Observed : Type 0
  Observed = ℕ × Direction × Frame

  unfoldable pub record_all : Formats → List Observed → TraceWriter × Disk → TraceWriter × Disk
  record_all F [] wd = wd
  record_all F ((now, dir, f) ∷ rest) wd = record_all F rest (record_frame F now dir f wd)

  -- One row for each frame, numbered from `seq`.
  unfoldable pub rows_from : ℕ → List Observed → List EventRecord
  rows_from seq [] = []
  rows_from seq ((now, dir, f) ∷ rest) = event_of seq now dir f ∷ rows_from (suc seq) rest

  unfoldable pub record_session : Formats → Manifest → Disk → List Observed → TraceWriter × Disk
  unfolding record_all
  record_session F m d frames = record_all F frames (create_with_clock F m d)
