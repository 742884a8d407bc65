-- ===== src/Replay/Walk.antt =====
-- Interactive replay as one walk over the recorded rows, in which each row of the client takes the
-- next frame of the live one.
use acp_core.Base.{
  ℕ, suc, ◌+◌, ◌%◌, ◌^◌, ◌≡◌, Bytes, List, [], ◌∷◌, Option, none, if◌then◌else◌, ◌==◌, nat_eq,
  list_eq, drop,
}
use acp_core.Base.Fallible.{Result, ok, err}
use acp_core.Wire.Json.{External}
use acp_core.Wire.Frame.{WireError, Frame, payload_hash_str}
use acp_core.Trace.Event.{c2a, a2c, EventRecord}
use acp_core.Trace.Disk.{Disk}
use acp_core.Trace.Reader.{TraceReader}
use acp_core.Replay.{ReplayError, trace_exhausted, Outcome, diverged, emit_one}
use acp_core.Replay.Interactive.{
  ReplayOptions, Session, match_remapped, emit_a2c_block, count_frame, at_end, serve,
}

module _ ⦃x : External⦄ (opts : ReplayOptions) where
  -- A frame of the live client against the row that it should repeat.
  unfoldable pub match_row : EventRecord → Frame → Session → Result ReplayError Session
  match_row row f s =
      if payload_hash_str f == row.hash
      then ok (record s { cursor = suc s.cursor })
      else if opts.remap_ids
      then match_remapped s.cursor row f s
      else err (diverged row f row.hash (payload_hash_str f) s.client_frames_consumed)

  unfoldable pub walk :
      Disk → List EventRecord → List Frame → Option WireError → Session → Bytes → Outcome ℕ
  unfolding match_row
  walk d [] [] ended_by s out = (at_end ended_by s, out)
  walk d [] (f ∷ fs) ended_by s out = (err (trace_exhausted none), out)
  walk d (row ∷ rows) fs ended_by s out = elim row.dir [
    | a2c ↦ elim (emit_one opts.remap_ids s.id_map d row out) [
      | err e ↦ (err e, out)
      | ok out' ↦
          walk d rows fs ended_by
            (record s { cursor = suc s.cursor; emitted = (s.emitted + 1) % 2 ^ 64 }) out'
    ]
    | c2a ↦ elim fs [
      | [] ↦ (at_end ended_by s, out)
      | f ∷ later ↦ elim (match_row row f s) [
        | err e ↦ (err e, out)
        | ok s' ↦ walk d rows later ended_by (count_frame s') out
      ]
    ]
  ]

  module _ (t : TraceReader) where
    -- The same result, for all that can be served behind a row.
    abbrev Agrees : List EventRecord → List Frame → Option WireError → Type 0
    Agrees rows fs ended_by =
        (s : Session) (out : Bytes)
        → drop s.cursor t.events ≡ rows
        → serve opts t fs ended_by (emit_a2c_block opts t s out)
          ≡ walk t.disk rows fs ended_by s out
