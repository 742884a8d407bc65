-- ===== src/Replay/Interactive.antt =====
-- crates/acp-replay/src/lib.rs: `replay_interactive_with`. The client's frames are those that its
-- `FrameReader` returns, one after another.
use acp_core.Base.{
  ℕ, suc, ◌+◌, ◌%◌, ◌^◌, Bytes, Bool, false, List, [], ◌∷◌, Option, none, some, if◌then◌else◌, ◌==◌,
  nat_eq, list_eq, drop,
}
use acp_core.Base.Fallible.{Result, ok, err, ◌>>=◌}
use acp_core.Wire.Json.{External}
use acp_core.Wire.Frame.{FrameId, WireError, Frame, payload_hash_str}
use acp_core.Wire.Reader.Stream.{read_frames}
use acp_core.Trace.Event.{EventRecord}
use acp_core.Trace.Reader.{TraceReader}
use acp_core.Replay.{
  ReplayError, wire, id_insert, record_id_to_wire, find_next_c2a, hash_with_id, diverged, Outcome,
  emit_rows,
}

-- `ReplayOptions`
pub record ReplayOptions : Type 0 where
  pub remap_ids : Bool

abbrev pub default_options : ReplayOptions
default_options = record { remap_ids = false }

-- The variables of the loop.
pub record Session : Type 0 where
  pub cursor : ℕ
  pub emitted : ℕ
  pub client_frames_consumed : ℕ
  pub id_map : List (FrameId × FrameId)

module _ ⦃x : External⦄ where
  -- The branches on the ids, when `remap_ids` is set and the hashes differ.
  unfoldable pub match_remapped : ℕ → EventRecord → Frame → Session → Result ReplayError Session
  unfolding hash_with_id
  match_remapped idx expected incoming s =
      let failed =
        diverged expected incoming expected.hash (payload_hash_str incoming)
          s.client_frames_consumed in
      elim expected.id [
        | none ↦ err failed
        | some recorded ↦ elim incoming.id [
          | none ↦ err failed
          | some client ↦
              if hash_with_id incoming.value (record_id_to_wire recorded) == expected.hash
              then ok (record s {
                cursor = suc idx;
                id_map = id_insert s.id_map (record_id_to_wire recorded) client;
              })
              else err failed
        ]
      ]

  -- The loop's body up to the count of the client's frames.
  unfoldable pub match_frame :
      ReplayOptions → List EventRecord → Frame → Session → Result ReplayError Session
  unfolding find_next_c2a match_remapped
  match_frame opts events incoming s = find_next_c2a events s.cursor >>= λ (idx, expected).
      if payload_hash_str incoming == expected.hash
      then ok (record s { cursor = suc idx })
      else if opts.remap_ids
      then match_remapped idx expected incoming s
      else err (
          diverged expected incoming expected.hash (payload_hash_str incoming)
            s.client_frames_consumed)

  -- `emit_a2c_block`
  unfoldable pub emit_a2c_block : ReplayOptions → TraceReader → Session → Bytes → Outcome Session
  unfolding emit_rows
  emit_a2c_block opts t s out =
      let rows = drop s.cursor t.events in
      let (result, out') = emit_rows opts.remap_ids s.id_map t.disk s.cursor rows s.emitted out in
      (result >>= λ (cursor, emitted). ok (record s { cursor = cursor; emitted = emitted }), out')

  unfoldable pub count_frame : Session → Session
  count_frame s = record s { client_frames_consumed = (s.client_frames_consumed + 1) % 2 ^ 64 }

  -- `reader.read_frame()?` behind the last frame, and the result.
  abbrev pub at_end : Option WireError → Session → Result ReplayError ℕ
  at_end none s = ok s.emitted
  at_end (some e) s = err (wire e)

  -- The loop over the client's frames, from behind a call of `emit_a2c_block`.
  unfoldable pub serve :
      ReplayOptions → TraceReader → List Frame → Option WireError → Outcome Session → Outcome ℕ
  unfolding match_frame emit_a2c_block
  serve opts t frames ended_by (err e, out) = (err e, out)
  serve opts t [] ended_by (ok s, out) = (at_end ended_by s, out)
  serve opts t (f ∷ frames) ended_by (ok s, out) = elim (match_frame opts t.events f s) [
    | err e ↦ (err e, out)
    | ok s' ↦ serve opts t frames ended_by (emit_a2c_block opts t (count_frame s') out)
  ]

  unfoldable pub replay_interactive_with : TraceReader → Bytes → Bytes → ReplayOptions → Outcome ℕ
  unfolding serve
  replay_interactive_with t client_in out opts =
      let stream = read_frames client_in in
      let start : Session = record {
        cursor = 0;
        emitted = 0;
        client_frames_consumed = 0;
        id_map = [];
      } in
      serve opts t stream.frames stream.ended_by (emit_a2c_block opts t start out)

  -- `replay_interactive`
  unfoldable pub replay_interactive : TraceReader → Bytes → Bytes → Outcome ℕ
  unfolding replay_interactive_with
  replay_interactive t client_in out = replay_interactive_with t client_in out default_options
