-- ===== src/Trace/Session/Opening.antt =====
-- crates/acp-trace/src/lib.rs: what `TraceReader::open` accepts.
use mathlib.Core.WellFounded.{Acc}
use acp_core.Base.{
  ℕ, ◌≡◌, ◌↔◌, refl, ap, sym, subst, ◌∙◌, inl, inr, Bytes, Bool, true, false, List, [], ◌∷◌, some,
  nat_beq, nat_beq_iff, length, length-append, arith, if◌then◌else◌, is_utf8,
}
use acp_core.Base.Order.{Shorter, Shorter-wf}
use acp_core.Base.Fallible.{Result, ok, err, ok_or, >>=-eq-ok, ok_or-eq-ok, ok-injective}
use acp_core.Wire.Frame.{contains}
use acp_core.Wire.Reader.Lines.{read_until-rest}
use acp_core.Wire.Reader.Split.{first_newline}
use acp_core.Wire.Reader.TextLines.{text_lines, text_lines-line, text_lines-last}
use acp_core.Trace.Event.{EventRecord, format_version_1}
use acp_core.Trace.Disk.{Disk, Formats}
use acp_core.Trace.Reader.{
  trimmed_line, TraceError, io, json, TraceReader, trim_end, read_events, open_trace,
}
use acp_core.Trace.Session.Lines.{add_line, read_events-line, read_events_acc-cons}

module _ (F : Formats) where
  -- The rows that a trimmed line and those behind it hold.
  abbrev pub IsTrimmed : (List EventRecord → Type 0) → Bytes → List EventRecord → Type 0
  IsTrimmed P [] rows = P rows
  IsTrimmed P (c ∷ t) rows =
      (row : EventRecord) × (later : List EventRecord) × (F.event_from_str (c ∷ t) ≡ some row)
      × P later
      × (rows ≡ row ∷ later)

  -- The rows that lines hold: a line is UTF-8 and is decoded without the newlines and carriage returns
  -- at its end, and one that is empty then is passed over.
  pub AreDecoded : List Bytes → List EventRecord → Type 0
  AreDecoded [] rows = rows ≡ []
  AreDecoded (l ∷ ls) rows = (is_utf8 l ≡ true) × IsTrimmed (AreDecoded ls) (trim_end l) rows

  decode : List Bytes → Result TraceError (List EventRecord)
  decode [] = ok []
  decode (l ∷ ls) = add_line F l (decode ls)

  read_events-nil : read_events F [] ≡ ok []
  unfolding read_events
  read_events-nil = refl

  pub read_events-last :
      (b : ℕ) (s : Bytes)
      → contains (b ∷ s) b'\n' ≡ false
      → read_events F (b ∷ s) ≡ add_line F (b ∷ s) (ok [])
  unfolding read_events
  read_events-last b s h =
      read_events_acc-cons F b s (Shorter-wf.apply _)
      ∙ ap (λ (p : Bytes × Bytes). add_line F p.0 (read_events F p.1)) (read_until-rest (b ∷ s) h)

  decode_acc : (s : Bytes) → Acc Shorter s → read_events F s ≡ decode (text_lines s)
  unfolding decode text_lines
  decode_acc [] w = read_events-nil
  decode_acc (b ∷ s) (Acc.intro _ below) = elim (first_newline (b ∷ s)) [
    | inl last ↦ read_events-last b s last ∙ sym (ap decode (text_lines-last b s last))
    | inr (l, rest, e, h) ↦
        let shorter : Shorter rest (b ∷ s) =
          omega (arith, length-append l (b'\n' ∷ rest), ap length e) in
        ap (read_events F) e
        ∙ read_events-line F l rest h
        ∙ ap (add_line F l) (decode_acc rest (below rest shorter))
        ∙ sym (ap (λ t. decode (text_lines t)) e ∙ ap decode (text_lines-line l rest h))
  ]

  line_iff :
      (valid : Bool) (trimmed : Bytes) (more : Result TraceError (List EventRecord))
      (P : List EventRecord → Type 0)
      → ((rows : List EventRecord) → (more ≡ ok rows) ↔ P rows)
      → (rows : List EventRecord)
      → ((if valid then trimmed_line F trimmed more else err io) ≡ ok rows)
        ↔ ((valid ≡ true) × IsTrimmed P trimmed rows)
  line_iff false trimmed more P same rows = (λ e. absurd (cc), λ h. absurd (cc))
  line_iff true [] more P same rows = (λ e. (refl, (same rows).0 e), λ h. (same rows).1 h.1)
  line_iff true (c ∷ t) more P same rows = (
    λ e.
        let (row, decoded, rest) = >>=-eq-ok (ok_or (F.event_from_str (c ∷ t)) json) _ e in
        let (later, lines, whole) = >>=-eq-ok more _ rest in
        (
          refl,
          (row, later, ok_or-eq-ok _ json decoded, (same later).0 lines, sym (ok-injective whole)),
        ),
    λ (_, (row, later, decoded, lines, whole)). rw (decoded, (same later).1 lines, whole) refl,
  )

  decode_iff :
      (ls : List Bytes) (rows : List EventRecord) → (decode ls ≡ ok rows) ↔ AreDecoded ls rows
  unfolding decode AreDecoded
  decode_iff [] rows = (λ e. sym (ok-injective e), λ e. ap ok (sym e))
  decode_iff (l ∷ ls) rows =
      line_iff (is_utf8 l) (trim_end l) (decode ls) (AreDecoded ls) (decode_iff ls) rows

  -- What a trace that opens has on the disk.
  pub record IsOpened (d : Disk) (t : TraceReader) : Type 0 where
    pub manifest_json : Bytes
    pub events_jsonl : Bytes
    pub has_manifest : d.manifest_json ≡ some manifest_json
    pub decoded : F.manifest_from_slice manifest_json ≡ some t.manifest
    pub same_version : t.manifest.format_version ≡ format_version_1
    pub has_events : d.events_jsonl ≡ some events_jsonl
    pub rows : AreDecoded (text_lines events_jsonl) t.events
    pub same_disk : t.disk ≡ d

  read_events_iff :
      (s : Bytes) (rows : List EventRecord)
      → (read_events F s ≡ ok rows) ↔ AreDecoded (text_lines s) rows
  unfolding Shorter-wf
  read_events_iff s rows =
      let lines = decode_acc s (Shorter-wf.apply s) in
      (
        λ e. (decode_iff (text_lines s) rows).0 (sym lines ∙ e),
        λ h. lines ∙ (decode_iff (text_lines s) rows).1 h,
      )

  -- `TraceReader::open` returns a trace exactly if both files are there, the manifest is decoded and
  -- has the version 1, and every line of `events.jsonl` is UTF-8 and is blank or decoded; these are its
  -- rows, in order.
  pub open_trace_iff : (d : Disk) (t : TraceReader) → (open_trace F d ≡ ok t) ↔ IsOpened d t
  unfolding open_trace
  open_trace_iff d t = (
    λ e.
        let (mb, has_manifest, behind) = >>=-eq-ok (ok_or d.manifest_json _) _ e in
        let (m, decoded, checked) = >>=-eq-ok (ok_or (F.manifest_from_slice mb) json) _ behind in
        let (same, read) = tested (nat_beq m.format_version format_version_1) _ _ checked in
        let (eb, has_events, rest) = >>=-eq-ok (ok_or d.events_jsonl _) _ read in
        let (rows, lines, whole) = >>=-eq-ok (read_events F eb) _ rest in
        subst (IsOpened d) (ok-injective whole) (record {
          manifest_json = mb;
          events_jsonl = eb;
          has_manifest = ok_or-eq-ok d.manifest_json _ has_manifest;
          decoded = ok_or-eq-ok (F.manifest_from_slice mb) json decoded;
          same_version = (nat_beq_iff m.format_version format_version_1).0 same;
          has_events = ok_or-eq-ok d.events_jsonl _ has_events;
          rows = (read_events_iff eb rows).0 lines;
          same_disk = refl;
        }),
    λ o.
        let lines = (read_events_iff o.events_jsonl t.events).1 o.rows in
        simp (o.has_manifest, o.decoded, o.same_version, o.has_events, lines)
          (ap (λ (e : Disk). ok (record t { disk = e })) (sym o.same_disk)),
  )
    where
      tested :
          {A : Type 0} (b : Bool) (r : Result TraceError A) (e : TraceError) {a : A}
          → (if b then r else err e) ≡ ok a
          → (b ≡ true) × (r ≡ ok a)
      tested true r e h = (refl, h)
      tested false r e h = absurd (cc)
