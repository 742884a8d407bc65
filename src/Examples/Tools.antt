-- ===== src/Examples/Tools.antt =====
-- The theorems on the commands, the renderings and the clocks.
use acp_core.Trace.Writer.{event_of}
use acp_core.Base.{
  ℕ, ℤ, pos, ◌≡◌, ◌↔◌, refl, Text, codes, decimal, true, false, List, [], ◌∷◌, none, some, length,
  arith, Option, if◌then◌else◌,
}
use acp_core.Base.Fallible.{ok}
use acp_core.Wire.Frame.{contains}
use acp_core.Wire.Reader.Stream.{read_frames, wire_text}
use acp_core.Wire.Reader.Split.{split_lines, frames_of, read_frames-split_lines}
use acp_core.Trace.Event.{c2a, a2c, EventRecord}
use acp_core.Trace.Clock.{TimeCrate, Clock, Host, capture}
use acp_core.Trace.Clock.Capture.{lookup, has, IsAscending, capture_only_listed}
use acp_core.Trace.Stored.{IsStored, load_blob-IsStored}
use acp_core.Trace.Reader.{load_blob}
use acp_core.Diverge.{DiffOp, DiffReport}
use acp_core.Cli.{count_dirs}
use acp_core.Cli.Inspect.Rows.{IsWindow, shown-IsWindow}
use acp_core.Cli.Inspect.Counts.{count_dirs-recorded}
use acp_core.Cli.Main.{World, record_config, cmd_record, cmd_emit, cmd_replay, main_code}
use acp_core.Cli.Main.Record.{
  IsQuiet, recorded_manifest, recorded_manifest-reproducible, cmd_record_iff,
}
use acp_core.Cli.Main.Replays.{note, cmd_emit-finished, cmd_replay-finished}
use acp_core.Replay.Offline.{client_frames, agent_frames}
use acp_core.Proxy.{ProxyConfig}
use acp_core.Proxy.Finished.{IsComplete}
use acp_core.Trace.Session.{Observed}
use acp_core.Wire.Frame.{Frame}
use acp_core.Examples.Codec.{toy_formats, toy_formats-IsFaithful}
use acp_core.Examples.Frames.{toy, toy-IsBlake3, request_text, response_frame}
use acp_core.Examples.Sessions.{made, made_version, empty_dir, session, trace_of, apart}
use acp_core.Examples.Recordings.{
  client-IsPlain, from_client_text, from_agent_text, finished_run, run_reached, both_alike,
  both_few,
}

abbrev toy_time : TimeCrate
toy_time = record {
  OffsetDateTime = ℕ;
  from_unix_timestamp = λ secs. some secs;
  replace_nanosecond = λ t n. some t;
  format_rfc3339 = λ t. some (decimal t);
}

abbrev noon : Clock
noon = record { unix_nanos = 5; rfc3339_now = codes "noon" }

abbrev toy_host : Host
toy_host = record {
  var = λ k. some k;
  current_dir = none;
  os = codes "linux";
  arch = codes "x86_64";
  process_id = 7;
}

-- The finished recording is at the path `t`, the recorded session at all others.
abbrev toy_world : World
toy_world = record {
  time = toy_time;
  formats = toy_formats;
  directory = λ path. if contains path b't' then finished_run.disk else trace_of.disk;
  stdin = wire_text (client_frames session);
  system_clock = noon;
  host = toy_host;
  answers = record {
    created = ok tt;
    spawned = ok tt;
    waited = ok (some (pos 0));
    finalized = ok tt;
  };
  quotient = λ a b. decimal a;
  version = codes "0.1.0";
}

read_frames-split_lines_example : read_frames request_text ≡ frames_of (split_lines [] request_text)
read_frames-split_lines_example = read_frames-split_lines request_text

capture_only_listed_example :
    ((q : Text)
      → lookup (capture toy_host (codes "B" ∷ codes "A" ∷ [])).env q
        ≡ (if has (codes "B" ∷ codes "A" ∷ []) q then toy_host.var q else none))
    × IsAscending (capture toy_host (codes "B" ∷ codes "A" ∷ [])).env
capture_only_listed_example = capture_only_listed toy_host (codes "B" ∷ codes "A" ∷ [])

recorded_manifest-reproducible_example :
    recorded_manifest toy_world [] true (codes "epoch") (codes "agent" ∷ [])
    ≡ recorded_manifest
        (record toy_world { host = toy_host; system_clock = noon })
        []
        true
        (codes "epoch")
        (codes "agent" ∷ [])
recorded_manifest-reproducible_example =
    recorded_manifest-reproducible toy_world toy_host noon (codes "epoch") (codes "agent" ∷ [])
      (apart (codes "epoch") (codes "system") refl)

shown-IsWindow_example :
    (front : List EventRecord) × (skipped : List EventRecord) × (back : List EventRecord) × IsWindow
      false trace_of.events front skipped back
shown-IsWindow_example = shown-IsWindow false trace_of.events

count_dirs-recorded_example :
    count_dirs trace_of ≡ (length (client_frames session), length (agent_frames session))
count_dirs-recorded_example =
    count_dirs-recorded toy_formats made empty_dir session (codes "now") (omega arith)

cmd_emit-finished_example : cmd_emit toy_world (codes "t") ≡ record {
  result = ok 0;
  stdout = finished_run.agent.sink;
  stderr = note (codes "emitted") (length (read_frames from_agent_text).frames);
}
unfolding contains
cmd_emit-finished_example =
    cmd_emit-finished toy_world (codes "t") made empty_dir from_client_text from_agent_text
      finished_run run_reached refl refl toy_formats-IsFaithful toy-IsBlake3 made_version refl
      both_alike both_few

cmd_replay-finished_example :
    (log : List Observed) × (now : Text) × (unrecorded : List Frame) × IsComplete toy_formats made
      empty_dir from_client_text from_agent_text finished_run log now unrecorded
    × (cmd_replay (record toy_world { stdin = wire_text (client_frames log) }) (codes "t") true
        ≡ record {
          result = ok 0;
          stdout = finished_run.agent.sink;
          stderr = note (codes "replay emitted") (length (read_frames from_agent_text).frames);
        })
unfolding contains
cmd_replay-finished_example =
    cmd_replay-finished toy_world (codes "t") made empty_dir from_client_text from_agent_text
      finished_run true run_reached refl refl toy_formats-IsFaithful toy-IsBlake3 made_version refl
      both_alike both_few refl client-IsPlain

cmd_record_iff_example :
    (main_code (cmd_record toy_world [] true (codes "epoch") (codes "agent" ∷ [])).result ≡ 0) ↔ (
      (cfg : ProxyConfig) × (status : Option ℤ) × (record_config toy_world [] true
          (codes "epoch")
          (codes "agent" ∷ [])
        ≡ ok cfg)
      × (toy_world.answers.created ≡ ok tt)
      × (toy_world.answers.spawned ≡ ok tt)
      × (toy_world.answers.waited ≡ ok status)
      × (toy_world.answers.finalized ≡ ok tt)
      × IsQuiet status)
cmd_record_iff_example = cmd_record_iff toy_world [] true (codes "epoch") (codes "agent" ∷ [])

load_blob-IsStored_example :
    (load_blob trace_of.disk (event_of 1 6 a2c response_frame) ≡ ok response_frame.raw)
    ↔ IsStored trace_of.disk (event_of 1 6 a2c response_frame) response_frame.raw
load_blob-IsStored_example =
    load_blob-IsStored toy-IsBlake3 trace_of.disk (event_of 1 6 a2c response_frame)
      response_frame.raw

abbrev toy_report : DiffReport
toy_report = record {
  label_a = codes "a";
  label_b = codes "b";
  ops =
      DiffOp.common 0 0 c2a (codes "blake3:0") (some (codes "go"))
      ∷ DiffOp.only_a 1 a2c (codes "1") none
      ∷ [];
  stats = record { common = 1; only_a = 1; only_b = 0; first_divergence = some 1 };
}
