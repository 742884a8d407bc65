-- ===== src/Trace/Session/Torn.antt =====
-- A recording that broke off in the middle of a row.
use acp_core.Base.{
  ℕ, ◌^◌, ◌<◌, ◌≡◌, ap, ◌∙◌, inl, inr, Bytes, false, List, [], ◌∷◌, ◌++◌, append_assoc, none, some,
  length, Bool-cases, is_utf8, if◌then◌else◌,
}
use acp_core.Base.Fallible.{Result, ok, err}
use acp_core.Wire.Json.{External}
use acp_core.Wire.Frame.{contains}
use acp_core.Trace.Event.{EventRecord, Manifest, format_version_1}
use acp_core.Trace.Disk.{Disk, Formats}
use acp_core.Trace.Writer.{append_to}
use acp_core.Trace.Reader.{TraceError, io, json, trim_end, read_events, open_trace}
use acp_core.Trace.Session.{IsFaithful, Observed, rows_from, record_session}
use acp_core.Trace.Session.Rows.{record_session-IsFlushed}
use acp_core.Trace.Session.Lines.{lines_of, add_line, read_events-line, add_line-row}
use acp_core.Trace.Session.Opening.{read_events-last}

module _ (F : Formats) where
  -- The error of a line that is not decoded.
  abbrev pub line_error : Bytes → TraceError
  line_error line = if is_utf8 line then json else io

  add_line-undecoded :
      (line : Bytes) (c : ℕ) (t : Bytes) (more : Result TraceError (List EventRecord))
      → trim_end line ≡ c ∷ t
      → F.event_from_str (c ∷ t) ≡ none
      → add_line F line more ≡ err (line_error line)
  add_line-undecoded line c t more trimmed undecoded = elim (Bool-cases (is_utf8 line)) [
    | inl valid ↦ rw (valid, trimmed, undecoded)
    | inr invalid ↦ rw invalid
  ]

  read_events-torn :
      (faithful : IsFaithful F) (rows : List EventRecord) (part : Bytes) (c : ℕ) (t : Bytes)
      → contains part b'\n' ≡ false
      → trim_end part ≡ c ∷ t
      → F.event_from_str (c ∷ t) ≡ none
      → read_events F (lines_of F rows ++ part) ≡ err (line_error part)
  unfolding trim_end
  read_events-torn faithful [] [] c t line trimmed undecoded = absurd (cc)
  read_events-torn faithful [] (b ∷ s) c t line trimmed undecoded =
      read_events-last F b s line ∙ add_line-undecoded (b ∷ s) c t (ok []) trimmed undecoded
  read_events-torn faithful (row ∷ rows) part c t line trimmed undecoded =
      let l = F.event_to_vec row in
      ap (read_events F) (
        append_assoc (l ++ b'\n' ∷ []) (lines_of F rows) part
        ∙ append_assoc l (b'\n' ∷ []) (lines_of F rows ++ part))
      ∙ read_events-line F l (lines_of F rows ++ part) (faithful.event_line row)
      ∙ ap (add_line F l) (read_events-torn faithful rows part c t line trimmed undecoded)
      ∙ add_line-row F faithful row (err (line_error part))

  open_trace-err :
      (d : Disk) (m : Manifest) (text : Bytes) (e : TraceError)
      → IsFaithful F
      → m.format_version ≡ format_version_1
      → d.manifest_json ≡ some (F.manifest_to_vec m)
      → d.events_jsonl ≡ some text
      → read_events F text ≡ err e
      → open_trace F d ≡ err e
  unfolding open_trace
  open_trace-err d m text e faithful v em ev failed =
      rw (em, faithful.manifest_round m, v, ev, failed)

  module _ ⦃x : External⦄ where
    -- What the recorder leaves if it breaks off while a row is written: the rows of the frames before,
    -- and some bytes.
    abbrev pub torn : Manifest → Disk → List Observed → Bytes → Disk
    torn m d frames part =
        let s = (record_session F m d frames).1 in
        record s { events_jsonl = append_to s.events_jsonl part }

    -- A recording that broke off in the middle of a row does not open, although the rows before are
    -- whole: if the bytes that are left of the row are one line that is not blank and is not decoded, the
    -- error is that of decoding it, or that of reading it where they are not UTF-8. There are fewer than
    -- 2^64 frames before.
    pub open_trace-torn :
        (m : Manifest) (d : Disk) (frames : List Observed) (part : Bytes) (c : ℕ) (t : Bytes)
        → IsFaithful F
        → m.format_version ≡ format_version_1
        → length frames < 2 ^ 64
        → contains part b'\n' ≡ false
        → trim_end part ≡ c ∷ t
        → F.event_from_str (c ∷ t) ≡ none
        → open_trace F (torn m d frames part) ≡ err (line_error part)
    open_trace-torn m d frames part c t faithful v small line trimmed undecoded =
        let p = record_session-IsFlushed F m d frames small in
        open_trace-err (torn m d frames part) m (lines_of F (rows_from 0 frames) ++ part)
          (line_error part) faithful v p.manifest_json (ap (λ o. append_to o part) p.events)
          (read_events-torn faithful (rows_from 0 frames) part c t line trimmed undecoded)
