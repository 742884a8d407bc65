-- ===== src/Replay/Renumbered/Roundtrip.antt =====
-- A recorded session, replayed to a client that numbers its requests in its own way.
use acp_core.Base.{
  ℕ, suc, ◌+◌, ◌%◌, ◌^◌, ◌<◌, ◌≡◌, refl, Text, ◌∙◌, Bytes, List, [], ◌∷◌, ◌++◌, append_assoc,
  append-nil, map, none, nat_eq, list_eq, int_eq, All, length, drop, arith,
}
use acp_core.Base.Fallible.{ok}
use native.Mathlib.Nat.{add-zero}
use acp_core.Wire.Json.{External}
use acp_core.Wire.Frame.{IsSerde, FrameId}
use acp_core.Wire.Reader.Stream.{wire_text}
use acp_core.Trace.Event.{c2a, a2c}
use acp_core.Trace.Disk.{Disk}
use acp_core.Trace.Writer.{event_of}
use acp_core.Trace.Reader.{TraceReader}
use acp_core.Trace.Session.{Observed, rows_from}
use acp_core.Trace.Session.Blobs.{AreParsed}
use acp_core.Replay.Interactive.{Session, emit_a2c_block, serve}
use acp_core.Replay.Offline.{agent_frames, client_frames, AreStored, event_of-hash}
use acp_core.Replay.Rounds.{drop-suc, block-a2c, block-stops, serve-frame}
use acp_core.Replay.Renumbered.{
  remapping, at, renumber, asks, answered, answers, Tracks, IsToldApart,
}
use acp_core.Replay.Renumbered.Matching.{emit_one-answered, match_frame-renumbered}
use acp_core.Base.{Text, ◌+◌}

module _ ⦃x : External⦄ (σ : FrameId → FrameId) (serde : IsSerde x) where
  module _ (t : TraceReader) where
    -- The rows of some frames, served to the client that renumbers them.
    pub serve-renumbered :
        (frames : List Observed) (seq : ℕ) (s : Session) (asked : List FrameId) (out : Bytes)
        → drop s.cursor t.events ≡ rows_from seq frames
        → AreStored t.disk frames
        → AreParsed frames
        → All (IsToldApart σ) (client_frames frames)
        → Tracks σ asked s.id_map
        → s.emitted + length (agent_frames frames) < 2 ^ 64
        → s.client_frames_consumed + length (client_frames frames) < 2 ^ 64
        → serve remapping t
            (map (renumber σ) (client_frames frames))
            none
            (emit_a2c_block remapping t s out)
          ≡ (
            ok (s.emitted + length (agent_frames frames)),
            out ++ wire_text (answers σ asked frames),
          )
    unfolding serve client_frames agent_frames rows_from answers event_of
    serve-renumbered [] seq s asked out e stored parsed apart tracks few_a few_c =
        rw (block-stops remapping t [] s out e tt, add-zero, append-nil)
    serve-renumbered ((now, a2c, f) ∷ rest) seq s asked out e stored parsed apart tracks few_a
          few_c =
        let row = event_of seq now a2c f in
        let rows = rows_from (suc seq) rest in
        let line = (answered σ asked f).raw ++ b'\n' ∷ [] in
        let one =
          emit_one-answered σ serde t.disk asked s.id_map seq now f out tracks
            (stored.0 row (event_of-hash seq now a2c f)) parsed.0 in
        let count : (s.emitted + 1) % 2 ^ 64 ≡ suc s.emitted = omega arith in
        let later = agent_frames rest in
        let total : s.emitted + suc (length later) ≡ suc s.emitted + length later = omega arith in
        rw
          (
            block-a2c remapping t row rows s out e refl one,
            count,
            total,
            ← append_assoc out line (wire_text (answers σ asked rest)),
          )
          (serve-renumbered rest (suc seq)
            (record s { cursor = suc s.cursor; emitted = suc s.emitted }) asked (out ++ line)
            (drop-suc t.events s.cursor e) stored.1 parsed.1 apart tracks (omega arith) few_c)
    serve-renumbered ((now, c2a, f) ∷ rest) seq s asked out e stored parsed apart tracks few_a
          few_c =
        let row = event_of seq now c2a f in
        let rows = rows_from (suc seq) rest in
        let (id_map, matched, tracks') =
          match_frame-renumbered σ serde t asked s seq now f rows e parsed.0 apart.0 tracks in
        let gs = map (renumber σ) (client_frames rest) in
        rw (block-stops remapping t (row ∷ rows) s out e refl) (
          serve-frame remapping t (renumber σ f) gs none s
            (at (suc s.cursor) s.emitted s.client_frames_consumed id_map) out matched (omega arith)
          ∙ serve-renumbered rest (suc seq)
              (at (suc s.cursor) s.emitted (suc s.client_frames_consumed) id_map) (asks asked f) out
              (drop-suc t.events s.cursor e) stored.1 parsed.1 apart.1 tracks' few_a (omega arith))
