-- ===== src/Proxy.antt =====
-- crates/acp-proxy/src/lib.rs: the recording proxy. Two threads forward frames and share the trace's
-- writer behind a lock; the main thread takes the writer and finishes the trace. A step is what one
-- thread does between two points where another may go on.
pub mod Forwarding
pub mod Log
pub mod Finished
pub mod Completion
pub mod Recorded
use Prim.{Unit}
use acp_core.Base.{
  pos, unwrap_or, ℤ, Bool, true, false, if◌then◌else◌, ℕ, ◌≡◌, Bytes, List, [], ◌∷◌, ◌++◌, Option,
  none, some,
}
use acp_core.Base.Fallible.{Result, ok, err, ◌>>=◌, ◌>>◌, map_err}
use acp_core.Wire.Json.{External}
use acp_core.Wire.Frame.{WireError, Frame, write_frame}
use acp_core.Wire.Reader.Stream.{read_frames}
use acp_core.Trace.Event.{Direction, c2a, a2c, Manifest}
use acp_core.Trace.Clock.{Clock, Host, capture}
use acp_core.Trace.Disk.{Disk, Formats}
use acp_core.Trace.Reader.{TraceError}
use acp_core.Trace.Writer.{
  TraceWriter, new_with_clock, with_recording_env, create_with_clock, record_frame, finalize,
}
use acp_core.Base.{Text}

pub data ProxyError : Type 0 where
  io empty_argv : ProxyError
  wire : WireError → ProxyError
  trace : TraceError → ProxyError
  agent_exit : ℤ → ProxyError

-- Arguments are taken as the text that `to_string_lossy` makes of them. The directory is an argument
-- of what uses it.
pub record ProxyConfig : Type 0 where
  pub agent_argv : List Text
  pub recorder_version : Text
  pub env_whitelist : List Text
  pub skip_recording_env : Bool
  pub clock : Option Clock

-- `ProxyConfig::default`
abbrev pub default_config : ProxyConfig
default_config = record {
  agent_argv = [];
  recorder_version = [];
  env_whitelist = [];
  skip_recording_env = false;
  clock = none;
}

-- `run`, up to the manifest: the operating system and its clock are parameters.
unfoldable pub make_manifest : ProxyConfig → Host → Clock → Result ProxyError Manifest
unfolding new_with_clock with_recording_env capture
make_manifest cfg host system_clock = elim cfg.agent_argv [
  | [] ↦ err empty_argv
  | arg ∷ args ↦
      let clock = unwrap_or cfg.clock system_clock in
      let manifest = new_with_clock cfg.recorder_version (arg ∷ args) clock.rfc3339_now in
      ok (
        if cfg.skip_recording_env
        then manifest
        else with_recording_env manifest (capture host cfg.env_whitelist))
]

-- The thread that copies the agent's stderr, from what each `read` into its buffer of 4096 bytes returned
-- to what the parent's stderr was written; an empty `read` ends it.
unfoldable pub copy_stderr : (reads : List Bytes) (sink : Bytes) → Bytes
copy_stderr [] sink = sink
copy_stderr ([] ∷ reads) sink = sink
copy_stderr ((b ∷ bytes) ∷ reads) sink = copy_stderr reads (sink ++ b ∷ bytes)

-- What the operating system answers to `run`: creating the trace, starting the agent, waiting for it
-- (its exit code, none if a signal ended it), and writing the end of the trace.
pub record Answers : Type 0 where
  pub created : Result TraceError (Unit {0})
  pub spawned : Result ProxyError (Unit {0})
  pub waited : Result ProxyError (Option ℤ)
  pub finalized : Result TraceError (Unit {0})

-- The result of `run`; what its threads do meanwhile is below.
unfoldable pub run_result : ProxyConfig → Host → Clock → Answers → Result ProxyError ℤ
unfolding make_manifest
run_result cfg host system_clock answers = make_manifest cfg host system_clock >>= λ manifest.
    map_err trace answers.created
    >> answers.spawned
    >> (answers.waited >>= λ status.
        map_err trace answers.finalized >> ok (unwrap_or status (pos 0)))

module _ ⦃x : External⦄ where
  -- Where a forwarding thread stands: before `read_frame`, before the lock, or behind its loop.
  pub data Position : Type 0 where
    at_read : Position
    at_lock : Frame → Position
    ended : Option WireError → Position

  -- A forwarding thread: the frames of its reader that it has still to write, what ends them, and the
  -- bytes that its sink was given by writes that succeeded.
  pub record Pump : Type 0 where
    pub input : List Frame
    pub ended_by : Option WireError
    pub sink : Bytes
    pub position : Position

  -- `slot` is the content of the mutex; `exited` is whether the agent's process has ended.
  pub record Proxy : Type 0 where
    pub client : Pump
    pub agent : Pump
    pub slot : Option TraceWriter
    pub disk : Disk
    pub exited : Bool

  unfoldable pub pump : Bytes → Pump
  pump stream =
      let frames = read_frames stream in
      record { input = frames.frames; ended_by = frames.ended_by; sink = []; position = at_read }

  -- `run`, up to the start of the threads: what the client and the agent will write.
  unfoldable pub start : Formats → Manifest → Disk → (parent_stdin child_stdout : Bytes) → Proxy
  unfolding pump
  start F manifest d parent_stdin child_stdout =
      let (w, d') = create_with_clock F manifest d in
      record {
        client = pump parent_stdin;
        agent = pump child_stdout;
        slot = some w;
        disk = d';
        exited = false;
      }

  -- `read_frame` and `write_frame`, with their `?`.
  unfoldable pub forward : Pump → Pump
  forward p = elim p.input [
    | [] ↦ record p { position = ended p.ended_by }
    | f ∷ rest ↦ elim (write_frame p.sink f) [
      | err e ↦ record p { input = rest; position = ended (some e) }
      | ok sink ↦ record p { input = rest; sink = sink; position = at_lock f }
    ]
  ]

  -- The next round of the loop.
  unfoldable pub resume : Pump → Pump
  resume p = record p { position = at_read }

  -- `if let Some(w) = slot.as_mut() { w.record(dir, &frame)? }`
  unfoldable pub record_locked :
      Formats → ℕ → Direction → Frame → Option TraceWriter → Disk → Option TraceWriter × Disk
  record_locked F now dir f none d = (none, d)
  record_locked F now dir f (some w) d =
      let (w', d') = record_frame F now dir f (w, d) in (some w', d')

  -- `if let Some(w) = slot.take() { w.finalize()? }`
  unfoldable pub take_and_finalize : Formats → Text → Option TraceWriter → Disk → Disk
  take_and_finalize F now none d = d
  take_and_finalize F now (some w) d = finalize F now (w, d)

  -- The steps, in any order that the threads' positions allow.
  pub data ProxyStep (F : Formats) (s : Proxy) : Proxy → Type 0 where
    client_forwards :
        s.client.position ≡ at_read → ProxyStep F s (record s { client = forward s.client })
    -- The agent does not take the client's next frame, as when its process has ended: the write
    -- fails, and its `?` ends the thread.
    client_fails :
        (f : Frame) (rest : List Frame)
        → s.client.position ≡ at_read
        → s.client.input ≡ f ∷ rest
        → ProxyStep F s
            (record s { client = record s.client { position = ended (some WireError.io) } })
    client_records :
        (now : ℕ) (f : Frame)
        → s.client.position ≡ at_lock f
        → ProxyStep F s (record s {
          client = resume s.client;
          slot = (record_locked F now c2a f s.slot s.disk).0;
          disk = (record_locked F now c2a f s.slot s.disk).1;
        })
    agent_forwards :
        s.agent.position ≡ at_read → ProxyStep F s (record s { agent = forward s.agent })
    agent_records :
        (now : ℕ) (f : Frame)
        → s.agent.position ≡ at_lock f
        → ProxyStep F s (record s {
          agent = resume s.agent;
          slot = (record_locked F now a2c f s.slot s.disk).0;
          disk = (record_locked F now a2c f s.slot s.disk).1;
        })
    agent_exits : s.exited ≡ false → ProxyStep F s (record s { exited = true })
    -- The main thread has waited for the agent's process and joined the agent's thread; it takes the
    -- writer once.
    finishes :
        (now : Text) (e : Option WireError) (w : TraceWriter)
        → s.exited ≡ true
        → s.agent.position ≡ ended e
        → s.slot ≡ some w
        → ProxyStep F s (record s { slot = none; disk = take_and_finalize F now s.slot s.disk })

  pub data Reachable (F : Formats) (s : Proxy) : Proxy → Type 0 where
    here : Reachable F s s
    later : {t u : Proxy} → Reachable F s t → ProxyStep F t u → Reachable F s u
