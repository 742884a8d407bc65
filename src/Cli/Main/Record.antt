-- ===== src/Cli/Main/Record.antt =====
-- crates/acp-cli/src/main.rs: the clock of a recording, its manifest and its exit code.
use Prim.{Unit}
use acp_core.Base.{
  ℕ, ℤ, pos, negsuc, ◌<◌, ◌^◌, ◌≡◌, ◌≢◌, ◌↔◌, refl, sym, subst, inl, inr, Text, codes, Bool, true,
  ◌&&◌, not, ==_ne, nat_eq, list_eq, List, [], ◌∷◌, ◌++◌, Option, none, some, unwrap_or, decimal,
  parse_unsigned, parse_unsigned-decimal, arith,
}
use acp_core.Base.Fallible.{
  Result, ok, err, ◌>>=◌, ◌>>◌, map_err, Result-cases, ok-injective, OnOk-eq, OnOk-if, OnOk-bind,
  on_ok, on_err,
}
use acp_core.Trace.Event.{Manifest}
use acp_core.Trace.Clock.{Clock, Host, TimeCrate, fixed_clock}
use acp_core.Trace.Reader.{TraceError}
use acp_core.Proxy.{ProxyError, trace, ProxyConfig, make_manifest, run_result}
use acp_core.Cli.Main.{
  CliError, World, recording, parse_clock, clamp_code, record_config, cmd_record, main_code,
  is_empty,
}

-- The time of `--clock nanos:<N>` is the number that was written, for each that a `u128` holds, and
-- `epoch` is the time 0.
pub parse_clock-nanos :
    (time : TimeCrate) (system : Clock) (n : ℕ)
    → n < 2 ^ 128
    → (parse_clock time system (codes "nanos:" ++ decimal n) ≡ ok (fixed_clock time n))
      × (parse_clock time system (codes "epoch") ≡ parse_clock time system (codes "nanos:0"))
unfolding parse_clock
parse_clock-nanos time system n h =
    (rw (parse_unsigned-decimal (2 ^ 128) n h) refl, unfold parse_unsigned in refl)

-- The manifest of `acp record`.
abbrev pub recorded_manifest :
    World → List Text → Bool → Text → List Text → Result CliError Manifest
recorded_manifest w capture_env no_recording_env clock agent =
    record_config w capture_env no_recording_env clock agent >>= λ cfg.
    map_err recording (make_manifest cfg w.host w.system_clock)

fixed-parse_clock :
    (time : TimeCrate) (system system' : Clock) (spec : Text)
    → spec ≢ codes "system"
    → parse_clock time system spec ≡ parse_clock time system' spec
unfolding parse_clock
fixed-parse_clock time system system' spec h = rw (==_ne spec (codes "system") h) refl

-- With a fixed clock and without the recording environment the manifest is the same on every host and
-- at every time.
pub recorded_manifest-reproducible :
    (w : World) (host : Host) (now : Clock) (spec : Text) (agent : List Text)
    → spec ≢ codes "system"
    → recorded_manifest w [] true spec agent
      ≡ recorded_manifest (record w { host = host; system_clock = now }) [] true spec agent
unfolding record_config make_manifest
recorded_manifest-reproducible w host now spec [] h = refl
recorded_manifest-reproducible w host now spec (arg ∷ args) h =
    elim (Result-cases (parse_clock w.time now spec)) [
      | inl (clock, e) ↦ rw (fixed-parse_clock w.time w.system_clock now spec h, e) refl
      | inr (e, p) ↦ rw (fixed-parse_clock w.time w.system_clock now spec h, p) refl
    ]

-- The agent ended with a code that is not above 0, or a signal ended it.
abbrev pub IsQuiet : Option ℤ → Type 0
IsQuiet none = Unit
IsQuiet (some (pos n)) = n ≡ 0
IsQuiet (some (negsuc n)) = Unit

-- `run` behind the manifest.
abbrev ended :
    Result TraceError (Unit {0})
    → Result ProxyError (Unit {0})
    → Result ProxyError (Option ℤ)
    → Result TraceError (Unit {0})
    → Result ProxyError ℤ
ended created spawned waited finalized =
    map_err trace created
    >> spawned
    >> (waited >>= λ status. map_err trace finalized >> ok (unwrap_or status (pos 0)))

abbrev code_of : Result ProxyError ℤ → Result CliError ℕ
code_of r = map_err recording r >>= λ code. ok (clamp_code code)

ended_iff :
    (created : Result TraceError (Unit {0})) (spawned : Result ProxyError (Unit {0}))
    (waited : Result ProxyError (Option ℤ)) (finalized : Result TraceError (Unit {0}))
    → (main_code (code_of (ended created spawned waited finalized)) ≡ 0) ↔ (
        (status : Option ℤ) × (created ≡ ok tt)
        × (spawned ≡ ok tt)
        × (waited ≡ ok status)
        × (finalized ≡ ok tt)
        × IsQuiet status)
unfolding main_code clamp_code
ended_iff (err e) sp wt f = (λ z. absurd (omega arith), λ (_, c, _, _, _, _). absurd (cc))
ended_iff (ok _) (err e) wt f = (λ z. absurd (omega arith), λ (_, _, c, _, _, _). absurd (cc))
ended_iff (ok _) (ok _) (err e) f = (λ z. absurd (omega arith), λ (_, _, _, c, _, _). absurd (cc))
ended_iff (ok _) (ok _) (ok none) (err e) =
    (λ z. absurd (omega arith), λ (_, _, _, _, c, _). absurd (cc))
ended_iff (ok _) (ok _) (ok none) (ok _) = (λ z. (none, refl, refl, refl, refl, tt), λ _. refl)
ended_iff (ok _) (ok _) (ok (some n)) (err e) =
    (λ z. absurd (omega arith), λ (_, _, _, _, c, _). absurd (cc))
ended_iff (ok _) (ok _) (ok (some (pos n))) (ok _) = (
  λ z. (some (pos n), refl, refl, refl, refl, omega arith),
  λ (status, _, _, w, _, quiet).
      let zero_code : n ≡ 0 = subst IsQuiet (sym (ok-injective w)) quiet in omega arith,
)
ended_iff (ok _) (ok _) (ok (some (negsuc n))) (ok _) =
    (λ z. (some (negsuc n), refl, refl, refl, refl, tt), λ _. refl)

record_config-agent :
    (w : World) (capture_env : List Text) (no_recording_env : Bool) (spec : Text)
    (agent : List Text) (cfg : ProxyConfig)
    → record_config w capture_env no_recording_env spec agent ≡ ok cfg
    → (arg : Text) × (args : List Text) × (cfg.agent_argv ≡ arg ∷ args)
unfolding record_config
record_config-agent w capture_env no_recording_env spec [] cfg e = absurd (cc)
record_config-agent w capture_env no_recording_env spec (arg ∷ args) cfg e =
    OnOk-eq {P = λ (c : ProxyConfig). (a : Text) × (rest : List Text) × (c.agent_argv ≡ a ∷ rest)}
      (OnOk-if (no_recording_env && not (is_empty capture_env)) on_err
        (OnOk-bind (parse_clock w.time w.system_clock spec) _ λ clock _. on_ok (arg, args, refl)))
      e

main_code-err : (e : CliError) → ¬ main_code (err e) ≡ 0
unfolding main_code
main_code-err e z = ground arith

run_result-ended :
    (cfg : ProxyConfig) (w : World) (arg : Text) (args : List Text)
    → cfg.agent_argv ≡ arg ∷ args
    → run_result cfg w.host w.system_clock w.answers
      ≡ ended w.answers.created w.answers.spawned w.answers.waited w.answers.finalized
unfolding run_result make_manifest
run_result-ended cfg w arg args e = rw e refl

-- `acp record` exits with 0 exactly if its arguments are accepted, the trace and the agent's process
-- can be made, the agent is waited for, the end of the trace can be written, and the agent ended with a
-- code that is not above 0 or by a signal.
pub cmd_record_iff :
    (w : World) (capture_env : List Text) (no_recording_env : Bool) (spec : Text)
    (agent : List Text)
    → (main_code (cmd_record w capture_env no_recording_env spec agent).result ≡ 0) ↔ (
        (cfg : ProxyConfig) × (status : Option ℤ) × (record_config w capture_env no_recording_env
            spec agent
          ≡ ok cfg)
        × (w.answers.created ≡ ok tt)
        × (w.answers.spawned ≡ ok tt)
        × (w.answers.waited ≡ ok status)
        × (w.answers.finalized ≡ ok tt)
        × IsQuiet status)
unfolding cmd_record main_code
cmd_record_iff w capture_env no_recording_env spec agent =
    elim (Result-cases (record_config w capture_env no_recording_env spec agent)) [
      | inr (e, c) ↦
          (λ z. absurd (main_code-err e (rw c at z)), λ (_, _, o, _, _, _, _, _). absurd (cc))
      | inl (cfg, c) ↦
          let (arg, args, a) =
            record_config-agent w capture_env no_recording_env spec agent cfg c in
          let runs = run_result-ended cfg w arg args a in
          let both =
            ended_iff w.answers.created w.answers.spawned w.answers.waited w.answers.finalized in
          rw (c, runs)
            (
              λ z.
                  let (status, made, started, waited, done, quiet) = both.0 z in
                  (cfg, status, refl, made, started, waited, done, quiet),
              λ (_, status, _, made, started, waited, done, quiet).
                  both.1 (status, made, started, waited, done, quiet),
            )
    ]
