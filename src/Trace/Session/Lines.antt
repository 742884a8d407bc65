-- ===== src/Trace/Session/Lines.antt =====
-- The lines of `events.jsonl`, read back one after another.
use mathlib.Core.WellFounded.{Acc}
use acp_core.Base.{
  ℕ, ◌≡◌, refl, ap, ◌∙◌, ◌≢◌, Bytes, false, List, [], ◌∷◌, ◌++◌, append_assoc, some, is_utf8,
  is_utf8-newline, if◌then◌else◌,
}
use acp_core.Base.Order.{Shorter, Shorter-wf}
use acp_core.Base.Fallible.{Result, ok, err, ◌>>=◌}
use acp_core.Wire.Frame.{contains}
use acp_core.Wire.Reader.{read_until, read_until-Shorter}
use acp_core.Wire.Reader.Lines.{read_until-line}
use acp_core.Trace.Event.{EventRecord}
use acp_core.Trace.Disk.{Formats}
use acp_core.Trace.Reader.{trimmed_line, TraceError, io, trim_end, read_events_acc, read_events}
use acp_core.Trace.Session.{IsFaithful}

trim_end-newline : (l : Bytes) → trim_end (l ++ b'\n' ∷ []) ≡ trim_end l
unfolding trim_end
trim_end-newline [] = refl
trim_end-newline (c ∷ l) = rw (trim_end-newline l)

-- The text of `events.jsonl` for some rows.
abbrev pub lines_of : Formats → List EventRecord → Bytes
lines_of F [] = []
lines_of F (row ∷ rows) = (F.event_to_vec row ++ b'\n' ∷ []) ++ lines_of F rows

module _ (F : Formats) where
  -- What a line adds to the rows behind it.
  abbrev pub add_line :
      Bytes → Result TraceError (List EventRecord) → Result TraceError (List EventRecord)
  add_line line more = if is_utf8 line then trimmed_line F (trim_end line) more else err io

  read_events_acc_irrel :
      (s : Bytes) (v w : Acc Shorter s) → read_events_acc F s v ≡ read_events_acc F s w
  unfolding read_events_acc
  read_events_acc_irrel [] v w = refl
  read_events_acc_irrel (b ∷ s) (Acc.intro _ p) (Acc.intro _ q) =
      let rest = (read_until b'\n' (b ∷ s)).1 in
      let shorter = read_until-Shorter b'\n' b s in
      ap (add_line (read_until b'\n' (b ∷ s)).0)
        (read_events_acc_irrel rest (p rest shorter) (q rest shorter))

  pub read_events_acc-cons :
      (b : ℕ) (s : Bytes) (w : Acc Shorter (b ∷ s))
      → read_events_acc F (b ∷ s) w
        ≡ add_line (read_until b'\n' (b ∷ s)).0 (read_events F (read_until b'\n' (b ∷ s)).1)
  unfolding read_events
  read_events_acc-cons b s (Acc.intro _ p) =
      let rest = (read_until b'\n' (b ∷ s)).1 in
      ap (add_line (read_until b'\n' (b ∷ s)).0)
        (read_events_acc_irrel rest (p rest (read_until-Shorter b'\n' b s)) (Shorter-wf.apply rest))

  add_line-newline :
      (l : Bytes) (more : Result TraceError (List EventRecord))
      → add_line (l ++ b'\n' ∷ []) more ≡ add_line l more
  add_line-newline l more = rw (is_utf8-newline l, trim_end-newline l)

  add_line-until :
      (l rest : Bytes)
      → contains l b'\n' ≡ false
      → add_line
          (read_until b'\n' (l ++ b'\n' ∷ rest)).0
          (read_events F (read_until b'\n' (l ++ b'\n' ∷ rest)).1)
        ≡ add_line l (read_events F rest)
  add_line-until l rest h =
      ap (λ (p : Bytes × Bytes). add_line p.0 (read_events F p.1)) (read_until-line l rest h)
      ∙ add_line-newline l (read_events F rest)

  pub read_events-line :
      (l rest : Bytes)
      → contains l b'\n' ≡ false
      → read_events F (l ++ b'\n' ∷ rest) ≡ add_line l (read_events F rest)
  unfolding read_events
  read_events-line [] rest h =
      read_events_acc-cons b'\n' rest (Shorter-wf.apply _) ∙ add_line-until [] rest h
  read_events-line (b ∷ l) rest h =
      read_events_acc-cons b (l ++ b'\n' ∷ rest) (Shorter-wf.apply _)
      ∙ add_line-until (b ∷ l) rest h

  module _ (faithful : IsFaithful F) where
    pub add_line-row :
        (row : EventRecord) (more : Result TraceError (List EventRecord))
        → add_line (F.event_to_vec row) more ≡ (more >>= λ rows. ok (row ∷ rows))
    add_line-row row more =
        rw (faithful.event_utf8 row, faithful.event_end row)
          (decoded (F.event_to_vec row) (faithful.event_ne row) (faithful.event_round row))
      where
        decoded :
            (t : Bytes)
            → t ≢ []
            → F.event_from_str t ≡ some row
            → trimmed_line F t more ≡ (more >>= λ rows. ok (row ∷ rows))
        decoded [] ne e = absurd (ne refl)
        decoded (c ∷ t) ne e = rw e

    pub read_events-lines : (rows : List EventRecord) → read_events F (lines_of F rows) ≡ ok rows
    unfolding read_events
    read_events-lines [] = refl
    read_events-lines (row ∷ rows) =
        let l = F.event_to_vec row in
        rw
          (
            append_assoc l (b'\n' ∷ []) (lines_of F rows),
            read_events-line l (lines_of F rows) (faithful.event_line row),
          )
          (ap (add_line l) (read_events-lines rows) ∙ add_line-row row (ok rows))
