-- ===== src/Replay/Client.antt =====
-- Interactive replay against a client that sends what was recorded, and one that does not.
use acp_core.Base.{
  ℕ, ◌+◌, ◌^◌, ◌<◌, ◌≡◌, ap, sym, subst, ◌∙◌, ◌≢◌, Bytes, false, List, [], ◌∷◌, ◌++◌, map,
  append-nil, Option, none, ==_ne, nat_eq, list_eq, int_eq, length, drop, drop-append, arith,
}
use acp_core.Base.Fallible.{ok, err}
use acp_core.Wire.Json.{External}
use acp_core.Wire.Frame.{WireError, Frame, payload_hash_str, option_map, to_value}
use acp_core.Wire.Reader.Stream.{read_frames}
use acp_core.Trace.Event.{c2a, EventRecord}
use acp_core.Trace.Reader.{TraceReader}
use acp_core.Replay.{
  ReplayError, trace_exhausted, divergence, find_next_c2a, next_c2a, diverged, offline,
  replay_offline,
}
use acp_core.Replay.Interactive.{
  ReplayOptions, Session, match_frame, emit_a2c_block, count_frame, serve, replay_interactive_with,
}
use acp_core.Replay.Progress.{client_hashes, at, serve-prefix}
use acp_core.Replay.Rounds.{AwaitsClient, find-here}

module _ ⦃x : External⦄ (opts : ReplayOptions) (t : TraceReader) where
  pub serve-refused :
      (f : Frame) (fs : List Frame) (ended_by : Option WireError) (s : Session) (out : Bytes)
      {e : ReplayError}
      → match_frame opts t.events f s ≡ err e
      → serve opts t (f ∷ fs) ended_by (ok s, out) ≡ (err e, out)
  unfolding serve
  serve-refused f fs ended_by s out refused =
      ap
        (λ r. elim r [
          | err e ↦ (err e, out)
          | ok s' ↦ serve opts t fs ended_by (emit_a2c_block opts t (count_frame s') out)
        ])
        refused

  pub match_frame-exhausted :
      (f : Frame) (s : Session)
      → drop s.cursor t.events ≡ []
      → match_frame opts t.events f s ≡ err (trace_exhausted none)
  unfolding match_frame find_next_c2a next_c2a
  match_frame-exhausted f s e = rw (find_next_c2a, e)

  match_frame-diverged :
      (row : EventRecord) (rows : List EventRecord) (idx n k : ℕ) (f : Frame)
      → drop idx t.events ≡ row ∷ rows
      → row.dir ≡ c2a
      → opts.remap_ids ≡ false
      → payload_hash_str f ≢ row.hash
      → match_frame opts t.events f (at idx n k)
        ≡ err (
            divergence (record {
              expected_seq = row.seq;
              expected_method = row.method;
              expected_hash = row.hash;
              got_method = f.method;
              got_id = option_map (λ id. x.to_vec (to_value id)) f.id;
              got_hash = payload_hash_str f;
              client_frames_consumed = k;
            }))
  unfolding match_frame diverged
  match_frame-diverged row rows idx n k f e dir strict differs =
      rw (find-here opts t row rows idx e dir, strict, ==_ne (payload_hash_str f) row.hash differs)

  -- The same for a whole trace and stream.
  served :
      (client_in out : Bytes) (rows rest : List EventRecord) (fs gs : List Frame)
      (ended_by : Option WireError) (n' : ℕ) (out' : Bytes)
      → read_frames client_in ≡ record { frames = fs ++ gs; ended_by = ended_by }
      → t.events ≡ rows ++ rest
      → AwaitsClient rest
      → map payload_hash_str fs ≡ client_hashes rows
      → length fs < 2 ^ 64
      → offline t.disk rows 0 out ≡ (ok n', out')
      → replay_interactive_with t client_in out opts
        ≡ serve opts t gs ended_by (ok (at (length rows) n' (length fs)), out')
  unfolding replay_interactive_with
  served client_in out rows rest fs gs ended_by n' out' read e stop same small off =
      let rows_from_zero : 0 + length rows ≡ length rows = omega arith in
      let frames_from_zero : 0 + length fs ≡ length fs = omega arith in
      rw read (
        subst
          (λ k.
            serve opts t (fs ++ gs) ended_by (emit_a2c_block opts t (at 0 0 0) out)
            ≡ serve opts t gs ended_by (ok (at k n' (length fs)), out'))
          rows_from_zero
          (subst
            (λ k.
              serve opts t (fs ++ gs) ended_by (emit_a2c_block opts t (at 0 0 0) out)
              ≡ serve opts t gs ended_by (ok (at (0 + length rows) n' k), out'))
            frames_from_zero
            (serve-prefix opts t rows rest 0 0 0 fs gs ended_by out n' out' e stop same
              (omega arith) off)))

  -- A client whose frames have, one after another, the hashes that were recorded for the client, and
  -- whose stream then ends, is answered like offline replay, if that succeeds: the same count and the
  -- same bytes. So it is with either setting of `remap_ids`, for fewer than 2^64 frames of the client.
  pub replay_interactive_with-offline :
      (client_in out : Bytes) (fs : List Frame) (n : ℕ) (out' : Bytes)
      → read_frames client_in ≡ record { frames = fs; ended_by = none }
      → map payload_hash_str fs ≡ client_hashes t.events
      → length fs < 2 ^ 64
      → replay_offline t out ≡ (ok n, out')
      → replay_interactive_with t client_in out opts ≡ (ok n, out')
  unfolding replay_offline serve
  replay_interactive_with-offline client_in out fs n out' read same small off =
      served client_in out t.events [] fs [] none n out'
        (read ∙ ap (λ l. record { frames = l; ended_by = none }) (sym (append-nil fs)))
        (sym (append-nil t.events)) tt same small off

  -- Behind frames with the hashes of all that were recorded for the client, fewer than 2^64, a
  -- further frame ends the replay with `TraceExhausted`, after the output of the whole trace, if
  -- offline replay can write that.
  pub replay_interactive_with-exhausted :
      (client_in out : Bytes) (fs : List Frame) (f : Frame) (gs : List Frame)
      (ended_by : Option WireError) (n : ℕ) (out' : Bytes)
      → read_frames client_in ≡ record { frames = fs ++ f ∷ gs; ended_by = ended_by }
      → map payload_hash_str fs ≡ client_hashes t.events
      → length fs < 2 ^ 64
      → replay_offline t out ≡ (ok n, out')
      → replay_interactive_with t client_in out opts ≡ (err (trace_exhausted none), out')
  unfolding replay_offline
  replay_interactive_with-exhausted client_in out fs f gs ended_by n out' read same small off =
      served client_in out t.events [] fs (f ∷ gs) ended_by n out' read (sym (append-nil t.events))
        tt same small off
      ∙ serve-refused f gs ended_by _ out' (
          match_frame-exhausted f _
            (ap (drop (length t.events)) (sym (append-nil t.events)) ∙ drop-append t.events []))

  -- Without `remap_ids`, the first frame of the client whose hash is not the one that was recorded
  -- ends the replay with a divergence: it has the number, the method and the hash of the recorded
  -- row, the method, the id's text and the hash of the client's frame, and how many frames
  -- matched, fewer than 2^64. The output is that of the rows before the recorded one, if
  -- offline replay can write those.
  pub replay_interactive_with-diverged :
      (client_in out : Bytes) (rows : List EventRecord) (row : EventRecord)
      (rest : List EventRecord) (fs : List Frame) (f : Frame) (gs : List Frame)
      (ended_by : Option WireError) (n : ℕ) (out' : Bytes)
      → read_frames client_in ≡ record { frames = fs ++ f ∷ gs; ended_by = ended_by }
      → t.events ≡ rows ++ row ∷ rest
      → row.dir ≡ c2a
      → opts.remap_ids ≡ false
      → map payload_hash_str fs ≡ client_hashes rows
      → payload_hash_str f ≢ row.hash
      → length fs < 2 ^ 64
      → offline t.disk rows 0 out ≡ (ok n, out')
      → replay_interactive_with t client_in out opts ≡ (
        err (
            divergence (record {
              expected_seq = row.seq;
              expected_method = row.method;
              expected_hash = row.hash;
              got_method = f.method;
              got_id = option_map (λ id. x.to_vec (to_value id)) f.id;
              got_hash = payload_hash_str f;
              client_frames_consumed = length fs;
            })),
        out',
      )
  replay_interactive_with-diverged client_in out rows row rest fs f gs ended_by n out' read e dir
        strict same differs small off =
      served client_in out rows (row ∷ rest) fs (f ∷ gs) ended_by n out' read e dir same small off
      ∙ serve-refused f gs ended_by _ out' (
          match_frame-diverged row rest (length rows) n (length fs) f
            (ap (drop (length rows)) e ∙ drop-append rows (row ∷ rest)) dir strict differs)
