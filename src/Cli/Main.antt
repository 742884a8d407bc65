-- ===== src/Cli/Main.antt =====
-- crates/acp-cli/src/main.rs: the commands and the exit code. What a command does is its result, what
-- it writes to the standard output, and its line on the standard error; the text of an error is left
-- out. What is printed as text is given in characters.
pub mod Exit
pub mod Record
pub mod Replays
pub mod Listing
use Prim.{Unit}
use acp_core.Base.{
  ℕ, ℤ, pos, negsuc, ◌&&◌, min, Text, Bytes, codes, utf8, Bool, true, false, List, [], ◌∷◌, ◌++◌,
  Option, none, some, not, if◌then◌else◌, ◌==◌, nat_eq, list_eq, decimal, strip_prefix,
  parse_unsigned, ◌^◌,
}
use acp_core.Base.Fallible.{Result, ok, err, ◌>>=◌, ok_or, map_err}
use acp_core.Wire.Json.{External}
use acp_core.Trace.Disk.{Disk, Formats}
use acp_core.Trace.Clock.{Clock, Host, TimeCrate, fixed_clock, epoch}
use acp_core.Trace.Reader.{TraceError, open_trace}
use acp_core.Replay.{ReplayError, replay_offline, Outcome}
use acp_core.Replay.Interactive.{replay_interactive_with}
use acp_core.Proxy.{ProxyConfig, ProxyError, Answers, run_result}
use acp_core.Diverge.{diff_two}
use acp_core.Cli.{diff_text, exit_code}
use acp_core.Cli.Inspect.{inspect_text}

-- `panic` is no error of the source.
pub data CliError : Type 0 where
  empty_argv exclusive_flags panic : CliError
  not_nanos unknown_clock : Text → CliError
  opening : TraceError → CliError
  recording : ProxyError → CliError
  replaying : ReplayError → CliError

pub data Cmd : Type 0 where
  record_session :
      (trace : Text) (capture_env : List Text) (no_recording_env : Bool) (clock : Text)
      (agent : List Text)
      → Cmd
  replay : (trace : Text) (remap_ids : Bool) → Cmd
  emit : (trace : Text) → Cmd
  inspect : (trace : Text) (full : Bool) → Cmd
  diff : (a b : Text) (dot : Bool) → Cmd

-- What a command does: its exit code, and what it wrote.
pub record Command : Type 0 where
  pub result : Result CliError ℕ
  pub stdout : Bytes
  pub stderr : Text

-- A command that stops before it writes.
abbrev pub bail : CliError → Command
bail e = record { result = err e; stdout = []; stderr = [] }

-- What the program runs in.
pub record World : Type 1 where
  pub time : TimeCrate
  pub formats : Formats
  -- The directory at a path.
  pub directory : Text → Disk
  pub stdin : Bytes
  pub system_clock : Clock
  pub host : Host
  pub answers : Answers
  -- `{:.2}` of a quotient of two `f64`.
  pub quotient : ℕ → ℕ → Text
  -- The package's version.
  pub version : Text

-- The clock of a recording: none is the system's.
unfoldable pub parse_clock : TimeCrate → Clock → Text → Result CliError Clock
unfolding fixed_clock parse_unsigned
parse_clock time system spec =
    if spec == codes "system"
    then ok system
    else if spec == codes "epoch"
    then ok (fixed_clock time epoch)
    else elim (strip_prefix (codes "nanos:") spec) [
      | none ↦ err (unknown_clock spec)
      | some n ↦ elim (parse_unsigned (2 ^ 128) n) [
        | none ↦ err (not_nanos n)
        | some nanos ↦ ok (fixed_clock time nanos)
      ]
    ]

-- `clamp(0, 255)`
unfoldable pub clamp_code : ℤ → ℕ
clamp_code (pos n) = min n 255
clamp_code (negsuc n) = 0

abbrev pub is_empty : List Text → Bool
is_empty [] = true
is_empty (_ ∷ _) = false

-- `cmd_record`, up to the call of the proxy.
unfoldable pub record_config :
    World → List Text → Bool → Text → List Text → Result CliError ProxyConfig
unfolding parse_clock
record_config w capture_env no_recording_env clock_spec agent =
    if is_empty agent
    then err empty_argv
    else if no_recording_env && not (is_empty capture_env)
    then err exclusive_flags
    else (parse_clock w.time w.system_clock clock_spec >>= λ clock. ok (record {
      agent_argv = agent;
      recorder_version = w.version;
      env_whitelist = capture_env;
      skip_recording_env = no_recording_env;
      clock = some clock;
    }))

-- `cmd_record`; what the proxy forwards is not part of its output here.
unfoldable pub cmd_record : World → List Text → Bool → Text → List Text → Command
unfolding record_config run_result clamp_code
cmd_record w capture_env no_recording_env clock_spec agent = record {
  result = record_config w capture_env no_recording_env clock_spec agent >>= λ cfg.
      map_err recording (run_result cfg w.host w.system_clock w.answers) >>= λ code.
      ok (clamp_code code);
  stdout = [];
  stderr = [];
}

module _ ⦃x : External⦄ where
  -- The line that a replay leaves on the standard error.
  unfoldable pub replay_note : Text → Outcome ℕ → Command
  unfolding decimal
  replay_note said (ok n, out) = record {
    result = ok 0;
    stdout = out;
    stderr = codes "acp: " ++ said ++ codes " " ++ decimal n ++ codes " a2c frames" ++ b'\n' ∷ [];
  }
  replay_note said (err e, out) = record { result = err (replaying e); stdout = out; stderr = [] }

  unfoldable pub cmd_replay : World → Text → Bool → Command
  unfolding open_trace replay_interactive_with replay_note
  cmd_replay w trace remap_ids = elim (open_trace w.formats (w.directory trace)) [
    | err e ↦ bail (opening e)
    | ok t ↦
        replay_note (codes "replay emitted")
          (replay_interactive_with t w.stdin [] (record { remap_ids = remap_ids }))
  ]

  unfoldable pub cmd_emit : World → Text → Command
  unfolding open_trace replay_offline replay_note
  cmd_emit w trace = elim (open_trace w.formats (w.directory trace)) [
    | err e ↦ bail (opening e)
    | ok t ↦ replay_note (codes "emitted") (replay_offline t [])
  ]

  unfoldable pub cmd_inspect : World → Text → Bool → Command
  unfolding open_trace inspect_text
  cmd_inspect w trace full = elim (open_trace w.formats (w.directory trace)) [
    | err e ↦ bail (opening e)
    | ok t ↦
        let (text, all) = inspect_text w.quotient trace t full in
        record { result = if all then ok 0 else err panic; stdout = utf8 text; stderr = [] }
  ]

  unfoldable pub cmd_diff : World → Text → Text → Bool → Command
  unfolding open_trace diff_two diff_text exit_code
  cmd_diff w a b dot = elim (open_trace w.formats (w.directory a)) [
    | err e ↦ bail (opening e)
    | ok ra ↦ elim (open_trace w.formats (w.directory b)) [
      | err e ↦ bail (opening e)
      | ok rb ↦ elim (diff_two ra a rb b) [
        | none ↦ bail panic
        | some report ↦ elim (diff_text dot report) [
          | none ↦ bail panic
          | some text ↦ record { result = ok (exit_code report); stdout = utf8 text; stderr = [] }
        ]
      ]
    ]
  ]

  unfoldable pub run : World → Cmd → Command
  unfolding cmd_record cmd_replay cmd_emit cmd_inspect cmd_diff
  run w (record_session trace capture_env no_recording_env clock agent) =
      cmd_record w capture_env no_recording_env clock agent
  run w (replay trace remap_ids) = cmd_replay w trace remap_ids
  run w (emit trace) = cmd_emit w trace
  run w (inspect trace full) = cmd_inspect w trace full
  run w (diff a b dot) = cmd_diff w a b dot

-- The exit code of the process: a panic of the main thread is 101.
unfoldable pub main_code : Result CliError ℕ → ℕ
main_code (ok code) = code
main_code (err panic) = 101
main_code (err (replaying (ReplayError.trace TraceError.panic))) = 101
main_code (err _) = 2
