-- ===== src/Replay/Offline.antt =====
-- Offline replay of a recorded session.
use acp_core.Base.{
  ℕ, suc, ◌+◌, ◌%◌, ◌^◌, ◌<◌, ◌≤◌, ◌≡◌, refl, ap, sym, subst, ◌∙◌, inl, inr, Text, Bytes, List, [],
  ◌∷◌, ◌++◌, append_assoc, append-nil, some, nat_eq, list_eq, Bool-cases, All, All-get_elem?,
  All-tabulate, length, arith,
}
use native.Mathlib.Nat.{add-zero}
use mathlib.Core.Option.{some-injective}
use acp_core.Base.Fallible.{ok}
use acp_core.Wire.Json.{External}
use acp_core.Wire.Frame.{Frame, parse, payload_hash_str, write_line}
use acp_core.Wire.Frame.Parsed.{parse_iff}
use acp_core.Wire.Reader.Stream.{wire_text}
use acp_core.Trace.Event.{Direction, c2a, a2c, EventRecord, Manifest, format_version_1}
use acp_core.Trace.Disk.{path_beq, Disk, Formats}
use acp_core.Trace.Writer.{TraceWriter, event_of, finalize}
use acp_core.Trace.Reader.{TraceReader, open_trace, hash_of, load_blob}
use acp_core.Trace.Session.{IsFaithful, Observed, rows_from, record_session}
use acp_core.Trace.Session.Rows.{open_trace-recorded, final_manifest}
use acp_core.Trace.Session.Blobs.{
  IsBlake3, path_of, path_beq-eq, first_at, AreParsed, hash_of-same, payload_hash_str-hash_of,
  load_blob-recorded,
}
use acp_core.Replay.{emit_raw, offline, replay_offline}

module _ ⦃x : External⦄ where
  -- The frames that the agent sent, and those that the client sent.
  unfoldable pub agent_frames : List Observed → List Frame
  agent_frames [] = []
  agent_frames ((now, dir, f) ∷ rest) =
      let later = agent_frames rest in elim dir [ a2c ↦ f ∷ later | c2a ↦ later ]

  unfoldable pub client_frames : List Observed → List Frame
  client_frames [] = []
  client_frames ((now, dir, f) ∷ rest) =
      let later = client_frames rest in elim dir [ c2a ↦ f ∷ later | a2c ↦ later ]

  -- Frames with the same payload hash are spelled alike.
  abbrev pub AreUniform : List Observed → Type 0
  AreUniform frames =
      All
        (λ o. All (λ q. payload_hash_str q.2 ≡ payload_hash_str o.2 → (q.2).raw ≡ (o.2).raw) frames)
        frames

  -- A row with the hash of one of the frames loads that frame's bytes.
  abbrev pub AreStored : Disk → List Observed → Type 0
  AreStored d frames =
      All (λ o. (row : EventRecord) → row.hash ≡ hash_of o.2 → load_blob d row ≡ ok (o.2).raw)
        frames

  first_at-uniform :
      (frames : List Observed) (f : Frame) (b : Bytes)
      → All (λ q. payload_hash_str q.2 ≡ payload_hash_str f → (q.2).raw ≡ f.raw) frames
      → first_at frames (path_of f) ≡ some b
      → b ≡ f.raw
  unfolding first_at
  first_at-uniform [] f b same e = absurd (cc)
  first_at-uniform ((now, dir, g) ∷ rest) f b same e =
      elim (Bool-cases (path_beq (path_of g) (path_of f))) [
        | inl here ↦
            let hash = hash_of-same g f (path_beq-eq (path_of g) (path_of f) here) in
            sym (some-injective _ _ (rw here at e))
            ∙ same.0 (payload_hash_str-hash_of g ∙ hash ∙ sym (payload_hash_str-hash_of f))
        | inr other ↦ first_at-uniform rest f b same.1 (rw other at e)
      ]

  record_session-AreStored :
      (F : Formats) (m : Manifest) (d : Disk) (frames : List Observed)
      → IsBlake3 x
      → AreParsed frames
      → AreUniform frames
      → d.blobs ≡ []
      → AreStored (record_session F m d frames).1 frames
  record_session-AreStored F m d frames law parsed uniform fresh =
      All-tabulate frames λ k (now, dir, f) here row eh.
        let (b, first, loaded) = load_blob-recorded F m d frames k row law parsed fresh here eh in
        loaded ∙ ap ok (first_at-uniform frames f b (All-get_elem? _ frames k uniform here) first)

  pub emit_raw-stored :
      (d : Disk) (row : EventRecord) (f : Frame) (out : Bytes)
      → load_blob d row ≡ ok f.raw
      → parse f.raw ≡ ok f
      → emit_raw d row out ≡ ok (out ++ (f.raw ++ b'\n' ∷ []))
  unfolding emit_raw write_line
  emit_raw-stored d row f out loaded p =
      rw (loaded, ((parse_iff f.raw f).0 p).one_line) (ap ok (append_assoc out f.raw (b'\n' ∷ [])))

  pub event_of-hash :
      (seq now : ℕ) (dir : Direction) (f : Frame) → (event_of seq now dir f).hash ≡ hash_of f
  unfolding event_of hash_of
  event_of-hash seq now dir f = refl

  pub offline-emits :
      (d : Disk) (row : EventRecord) (rows : List EventRecord) (n : ℕ) (out : Bytes) {out' : Bytes}
      → row.dir ≡ a2c
      → emit_raw d row out ≡ ok out'
      → offline d (row ∷ rows) n out ≡ offline d rows ((n + 1) % 2 ^ 64) out'
  unfolding offline
  offline-emits d row rows n out dir one = ground arith

  offline-rows :
      (d : Disk) (frames : List Observed) (seq n : ℕ) (out : Bytes)
      → AreStored d frames
      → AreParsed frames
      → n + length (agent_frames frames) < 2 ^ 64
      → offline d (rows_from seq frames) n out
        ≡ (ok (n + length (agent_frames frames)), out ++ wire_text (agent_frames frames))
  unfolding offline agent_frames rows_from event_of
  offline-rows d [] seq n out stored parsed small = rw (add-zero, append-nil)
  offline-rows d ((now, c2a, f) ∷ rest) seq n out stored parsed small =
      offline-rows d rest (suc seq) n out stored.1 parsed.1 small
  offline-rows d ((now, a2c, f) ∷ rest) seq n out stored parsed small =
      let row = event_of seq now a2c f in
      let one = emit_raw-stored d row f out (stored.0 row (event_of-hash seq now a2c f)) parsed.0 in
      let count : (n + 1) % 2 ^ 64 ≡ suc n = omega arith in
      let later = agent_frames rest in
      let total : n + suc (length later) ≡ suc n + length later = omega arith in
      let line = f.raw ++ b'\n' ∷ [] in
      rw
        (
          offline-emits d row (rows_from (suc seq) rest) n out refl one,
          count,
          total,
          ← append_assoc out line (wire_text later),
        )
        (offline-rows d rest (suc seq) (suc n) (out ++ line) stored.1 parsed.1 (omega arith))

  load_blob-finalize :
      (F : Formats) (now : Text) (wd : TraceWriter × Disk) (row : EventRecord)
      → load_blob (finalize F now wd) row ≡ load_blob wd.1 row
  unfolding load_blob finalize
  load_blob-finalize F now wd row = refl

  pub agent_frames-length : (frames : List Observed) → length (agent_frames frames) ≤ length frames
  unfolding agent_frames
  agent_frames-length [] = omega arith
  agent_frames-length ((now, c2a, f) ∷ rest) = omega (arith, agent_frames-length rest)
  agent_frames-length ((now, a2c, f) ∷ rest) = omega (arith, agent_frames-length rest)

  -- The files of a recorded and finished session.
  abbrev pub recorded : Formats → Manifest → Disk → List Observed → Text → Disk
  recorded F m d frames now = finalize F now (record_session F m d frames)

  -- What `TraceReader::open` returns for them.
  abbrev pub opened : Formats → Manifest → Disk → List Observed → Text → TraceReader
  opened F m d frames now = record {
    disk = recorded F m d frames now;
    manifest = final_manifest F m now frames;
    events = rows_from 0 frames;
  }

  -- Their rows load the frames' bytes.
  pub recorded-AreStored :
      (F : Formats) (m : Manifest) (d : Disk) (frames : List Observed) (now : Text)
      → IsBlake3 x
      → AreParsed frames
      → AreUniform frames
      → d.blobs ≡ []
      → AreStored (recorded F m d frames now) frames
  recorded-AreStored F m d frames now law parsed uniform fresh =
      let stored = record_session-AreStored F m d frames law parsed uniform fresh in
      All-tabulate frames λ k o here row eh.
        load_blob-finalize F now (record_session F m d frames) row
        ∙ All-get_elem? _ frames k stored here row eh

  -- A session that was recorded into a directory without blobs and finished can be opened and
  -- replayed: offline replay writes the frames that the agent sent, all of them, in order and byte
  -- for byte, and counts them. The frames were parsed from their bytes, those with one payload hash
  -- are spelled alike, and there are fewer than 2^64.
  pub replay_offline-recorded :
      (F : Formats) (m : Manifest) (d : Disk) (frames : List Observed) (now : Text) (out : Bytes)
      → IsFaithful F
      → IsBlake3 x
      → m.format_version ≡ format_version_1
      → d.blobs ≡ []
      → AreParsed frames
      → AreUniform frames
      → length frames < 2 ^ 64
      → (open_trace F (recorded F m d frames now) ≡ ok (opened F m d frames now))
        × (replay_offline (opened F m d frames now) out
            ≡ (ok (length (agent_frames frames)), out ++ wire_text (agent_frames frames)))
  unfolding replay_offline
  replay_offline-recorded F m d frames now out faithful law v fresh parsed uniform small =
      let stored = recorded-AreStored F m d frames now law parsed uniform fresh in
      let zero_add : 0 + length (agent_frames frames) ≡ length (agent_frames frames) =
        omega arith in
      let fewer = agent_frames-length frames in
      (
        (open_trace-recorded F m d frames now faithful v small).1,
        subst
            (λ n.
              offline (recorded F m d frames now) (rows_from 0 frames) 0 out
              ≡ (ok n, out ++ wire_text (agent_frames frames)))
            zero_add
            (offline-rows (recorded F m d frames now) frames 0 0 out stored parsed (omega arith)),
      )
