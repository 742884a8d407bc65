-- ===== src/Examples/Sessions.antt =====
-- The theorems on recordings and replays, at a session of a request and its response.
use acp_core.Base.{
  ◌≡◌, ◌≢◌, refl, Text, Bytes, codes, true, false, List, [], ◌∷◌, ◌++◌, map, none, some, length,
  arith,
}
use acp_core.Base.Fallible.{ok, err}
use acp_core.Wire.Canonical.{canonicalize, sort_entries, utf16_cmp}
use acp_core.Wire.Hash.{hex_with_prefix}
use acp_core.Wire.Frame.{payload_hash_str}
use acp_core.Wire.Reader.Stream.{wire_text, read_frames-wire_text}
use acp_core.Trace.Event.{c2a, a2c, Manifest}
use acp_core.Trace.Disk.{Disk}
use acp_core.Trace.Writer.{new_with_clock, event_of}
use acp_core.Trace.Reader.{open_trace, load_blob}
use acp_core.Trace.Session.{Observed, rows_from, record_session}
use acp_core.Base.{◌↔◌}
use acp_core.Trace.Session.Opening.{IsOpened, open_trace_iff}
use acp_core.Trace.Session.Blobs.{
  first_at, path_of, AreParsed, load_blob-recorded, payload_hash_str-hash_of,
}
use acp_core.Replay.{trace_exhausted, divergence, replay_offline, offline}
use acp_core.Wire.Frame.{option_map, to_value}
use acp_core.Replay.Interactive.{default_options, replay_interactive_with}
use acp_core.Replay.Offline.{
  AreUniform, agent_frames, client_frames, recorded, opened, replay_offline-recorded,
}
use acp_core.Replay.Progress.{client_hashes}
use acp_core.Replay.Client.{
  replay_interactive_with-offline, replay_interactive_with-exhausted,
  replay_interactive_with-diverged,
}
use acp_core.Replay.Roundtrip.{replay_interactive_with-recorded}
use acp_core.Examples.Codec.{toy_formats, toy_formats-IsFaithful}
use acp_core.Examples.Frames.{
  toy, toy-IsBlake3, request_frame, response_frame, request_parsed, response_parsed,
}
use acp_core.Base.{◌==◌, ==_iff, encode_utf8, nat_eq, list_eq, sym, ◌∙◌}
use acp_core.Wire.Canonical.{
  write_value, write_string, write_chars, write_char, hex, write_entries, insert_entry,
}
use acp_core.Wire.Hash.{hex_bytes, hex_byte, payload_hash}
use acp_core.Trace.Reader.{TraceReader}
use acp_core.Replay.Offline.{event_of-hash}
use acp_core.Replay.Roundtrip.{client_hashes-rows_from}
use acp_core.Examples.Witnesses.{request-IsPlain, response-IsPlain}

-- A session of a request and its response.
abbrev pub session : List Observed
session = (5, c2a, request_frame) ∷ (6, a2c, response_frame) ∷ []

abbrev pub made : Manifest
made = new_with_clock (codes "0.1.0") [] (codes "then")

abbrev pub empty_dir : Disk
empty_dir = record { manifest_json = none; events_jsonl = none; blobs = [] }

pub made_version : made.format_version ≡ 1
unfolding new_with_clock
made_version = refl

abbrev pub session_parsed : AreParsed session
session_parsed = (request_parsed, (response_parsed, tt))

pub apart : (a b : Text) → (a == b) ≡ false → a ≢ b
apart a b h e = let yes = (==_iff a b).1 e in let no : true ≡ false = cc in cc

pub differ : payload_hash_str request_frame ≢ payload_hash_str response_frame
unfolding payload_hash_str hex_with_prefix hex_bytes hex_byte payload_hash canonicalize write_value
    write_string write_chars write_char hex write_entries sort_entries insert_entry utf16_cmp
    encode_utf8
differ = apart (payload_hash_str request_frame) (payload_hash_str response_frame) refl

pub session_uniform : AreUniform session
session_uniform = (
  ((λ e. refl), ((λ e. absurd (differ (sym e))), tt)),
  (((λ e. absurd (differ e)), ((λ e. refl), tt)), tt),
)

load_blob-recorded_example :
    (b : Bytes) × (first_at session (path_of response_frame) ≡ some b)
    × (load_blob
          (record_session toy_formats made empty_dir session).1
          (event_of 1 6 a2c response_frame)
        ≡ ok b)
load_blob-recorded_example =
    load_blob-recorded toy_formats made empty_dir session 1 (event_of 1 6 a2c response_frame)
      {now = 6} {dir = a2c} {f = response_frame} toy-IsBlake3 session_parsed refl refl
      (event_of-hash 1 6 a2c response_frame)

replay_offline-recorded_example :
    (open_trace toy_formats (recorded toy_formats made empty_dir session (codes "now"))
      ≡ ok (opened toy_formats made empty_dir session (codes "now")))
    × (replay_offline (opened toy_formats made empty_dir session (codes "now")) []
        ≡ (ok (length (agent_frames session)), [] ++ wire_text (agent_frames session)))
replay_offline-recorded_example =
    replay_offline-recorded toy_formats made empty_dir session (codes "now") []
      toy_formats-IsFaithful toy-IsBlake3 made_version refl session_parsed session_uniform
      (omega arith)

replay_interactive_with-recorded_example :
    replay_interactive_with
      (opened toy_formats made empty_dir session (codes "now"))
      (wire_text (client_frames session))
      []
      default_options
    ≡ (ok (length (agent_frames session)), [] ++ wire_text (agent_frames session))
unfolding client_frames
replay_interactive_with-recorded_example =
    replay_interactive_with-recorded toy_formats made empty_dir session (codes "now") []
      default_options toy_formats-IsFaithful toy-IsBlake3 made_version refl session_parsed
      session_uniform (omega arith) refl (request-IsPlain, tt)

abbrev pub trace_of : TraceReader
trace_of = opened toy_formats made empty_dir session (codes "now")

pub trace_opens : open_trace toy_formats trace_of.disk ≡ ok trace_of
trace_opens =
    (replay_offline-recorded toy_formats made empty_dir session (codes "now") []
      toy_formats-IsFaithful toy-IsBlake3 made_version refl session_parsed session_uniform
      (omega arith)).0

offline_run : replay_offline trace_of [] ≡ (ok 1, wire_text (response_frame ∷ []))
unfolding agent_frames
offline_run =
    (replay_offline-recorded toy_formats made empty_dir session (codes "now") []
      toy_formats-IsFaithful toy-IsBlake3 made_version refl session_parsed session_uniform
      (omega arith)).1

same_hashes : map payload_hash_str (request_frame ∷ []) ≡ client_hashes trace_of.events
unfolding client_frames
same_hashes = client_hashes-rows_from 0 session

replay_interactive_with-offline_example :
    replay_interactive_with trace_of (wire_text (request_frame ∷ [])) [] default_options
    ≡ (ok 1, wire_text (response_frame ∷ []))
replay_interactive_with-offline_example =
    replay_interactive_with-offline default_options trace_of (wire_text (request_frame ∷ [])) []
      (request_frame ∷ []) 1 (wire_text (response_frame ∷ []))
      (read_frames-wire_text (request_frame ∷ []) refl (request-IsPlain, tt)) same_hashes
      (omega arith) offline_run

replay_interactive_with-exhausted_example :
    replay_interactive_with trace_of
      (wire_text (request_frame ∷ request_frame ∷ []))
      []
      default_options
    ≡ (err (trace_exhausted none), wire_text (response_frame ∷ []))
replay_interactive_with-exhausted_example =
    replay_interactive_with-exhausted default_options trace_of
      (wire_text (request_frame ∷ request_frame ∷ [])) [] (request_frame ∷ []) request_frame [] none
      1 (wire_text (response_frame ∷ []))
      (read_frames-wire_text (request_frame ∷ request_frame ∷ []) refl
        (request-IsPlain, (request-IsPlain, tt)))
      same_hashes (omega arith) offline_run

replay_interactive_with-diverged_example :
    replay_interactive_with trace_of (wire_text (response_frame ∷ [])) [] default_options ≡ (
      err (
          (divergence (record {
            expected_seq = 0;
            expected_method = request_frame.method;
            expected_hash = (event_of 0 5 c2a request_frame).hash;
            got_method = none;
            got_id = option_map (λ id. toy.to_vec (to_value id)) response_frame.id;
            got_hash = payload_hash_str response_frame;
            client_frames_consumed = 0;
          }))),
      [],
    )
unfolding offline rows_from client_hashes event_of
replay_interactive_with-diverged_example =
    replay_interactive_with-diverged default_options trace_of (wire_text (response_frame ∷ [])) []
      [] (event_of 0 5 c2a request_frame) (rows_from 1 ((6, a2c, response_frame) ∷ [])) []
      response_frame [] none 0 []
      (read_frames-wire_text (response_frame ∷ []) refl (response-IsPlain, tt)) refl refl refl refl
      (λ e. differ (
        payload_hash_str-hash_of request_frame ∙ sym (event_of-hash 0 5 c2a request_frame) ∙ sym e))
      (omega arith) refl

open_trace_iff_example :
    (open_trace toy_formats trace_of.disk ≡ ok trace_of)
    ↔ IsOpened toy_formats trace_of.disk trace_of
open_trace_iff_example = open_trace_iff toy_formats trace_of.disk trace_of
