-- ===== src/Proxy/Recorded.antt =====
-- What the proxy forwards is what it records, whatever the order in which its threads run.
use acp_core.Base.{
  ℕ, ◌≡◌, refl, ap, ap₂, sym, subst, ◌∙◌, Text, Bytes, List, [], ◌∷◌, ◌++◌, append_assoc,
  append-nil, Bool, true, false, Option, none, some,
}
use acp_core.Wire.Json.{External}
use acp_core.Wire.Frame.{WireError, Frame}
use acp_core.Trace.Event.{Direction, c2a, a2c, Manifest}
use acp_core.Trace.Disk.{Disk, Formats}
use acp_core.Trace.Writer.{TraceWriter, create_with_clock, finalize}
use acp_core.Trace.Session.{Observed, record_all, record_session}
use acp_core.Replay.Offline.{agent_frames, client_frames}
use acp_core.Proxy.{
  ended, Proxy, pump, start, resume, record_locked, take_and_finalize, ProxyStep, client_forwards,
  client_fails, client_records, agent_forwards, agent_records, agent_exits, finishes, Reachable,
  here, later,
}
use acp_core.Base.{All, All-map}
use acp_core.Wire.Frame.Parsed.{parse_iff}
use acp_core.Wire.Reader.Split.{read_frames-All}
use acp_core.Wire.Reader.Stream.{read_frames}
use acp_core.Proxy.Forwarding.{
  IsOneLine, Forwarded, forward-Forwarded, fail-Forwarded, resume-Forwarded,
}
use acp_core.Proxy.Log.{
  record_all-snoc, agent_frames-c2a, agent_frames-a2c, client_frames-c2a, client_frames-a2c,
}

module _ ⦃x : External⦄ (F : Formats) (m : Manifest) (d : Disk) where
  -- The lock's content after one more frame.
  record_locked-session :
      (log : List Observed) (now : ℕ) (dir : Direction) (f : Frame) (slot : Option TraceWriter)
      (disk : Disk)
      → slot ≡ some (record_session F m d log).0
      → disk ≡ (record_session F m d log).1
      → record_locked F now dir f slot disk ≡ (
        some (record_session F m d (log ++ (now, dir, f) ∷ [])).0,
        (record_session F m d (log ++ (now, dir, f) ∷ [])).1,
      )
  unfolding record_locked record_session
  record_locked-session log now dir f slot disk es ed =
      rw (es, ed, record_all-snoc F log (now, dir, f) (create_with_clock F m d))

  module _ (from_client from_agent : List Frame) where
    -- While the writer is in its slot it has recorded what was forwarded; once the trace is finished, it
    -- has all that the agent sent, and the client may have sent more.
    pub data IsTransparent (s : Proxy) : Type 0 where
      recording :
          (log : List Observed)
          → s.slot ≡ some (record_session F m d log).0
          → s.disk ≡ (record_session F m d log).1
          → Forwarded true from_agent s.agent (agent_frames log)
          → Forwarded false from_client s.client (client_frames log)
          → IsTransparent s
      finished :
          (log : List Observed) (unrecorded : List Frame) (now : Text) (e : Option WireError)
          → s.slot ≡ none
          → s.disk ≡ finalize F now (record_session F m d log)
          → s.agent.position ≡ ended e
          → Forwarded true from_agent s.agent (agent_frames log)
          → Forwarded false from_client s.client (client_frames log ++ unrecorded)
          → IsTransparent s

    step-IsTransparent : (s t : Proxy) → ProxyStep F s t → IsTransparent s → IsTransparent t
    unfolding record_locked take_and_finalize
    step-IsTransparent s t (client_forwards reading) (recording log es ed ea ec) =
        recording log es ed ea
          (forward-Forwarded false from_client s.client (client_frames log) reading ec)
    step-IsTransparent s t (client_forwards reading) (finished log more now e es ed stop ea ec) =
        finished log more now e es ed stop ea
          (forward-Forwarded false from_client s.client (client_frames log ++ more) reading ec)
    step-IsTransparent s t (client_fails f rest reading e) (recording log es ed ea ec) =
        recording log es ed ea
          (fail-Forwarded from_client s.client (client_frames log) _ reading ec)
    step-IsTransparent s t (client_fails f rest reading e')
          (finished log more now e es ed stop ea ec) =
        finished log more now e es ed stop ea
          (fail-Forwarded from_client s.client (client_frames log ++ more) _ reading ec)
    step-IsTransparent s t (agent_exits running) (recording log es ed ea ec) =
        recording log es ed ea ec
    step-IsTransparent s t (agent_exits running) (finished log more now e es ed stop ea ec) =
        finished log more now e es ed stop ea ec
    step-IsTransparent s t (agent_forwards reading) (recording log es ed ea ec) =
        recording log es ed
          (forward-Forwarded true from_agent s.agent (agent_frames log) reading ea) ec
    step-IsTransparent s t (agent_forwards reading) (finished log more now e es ed stop ea ec) =
        absurd (cc)
    step-IsTransparent s t (client_records at f locked) (recording log es ed ea ec) =
        let locked_by = record_locked-session log at c2a f s.slot s.disk es ed in
        recording (log ++ (at, c2a, f) ∷ []) (ap (λ r. r.0) locked_by) (ap (λ r. r.1) locked_by)
          (subst (Forwarded true from_agent s.agent) (sym (agent_frames-c2a log at f)) ea)
          (subst (Forwarded false from_client (resume s.client)) (sym (client_frames-c2a log at f))
            (resume-Forwarded false from_client s.client (client_frames log) f locked ec))
    step-IsTransparent s t (client_records at f locked) (finished log more now e es ed stop ea ec) =
        finished log (more ++ f ∷ []) now e (ap (λ w. (record_locked F at c2a f w s.disk).0) es)
          (ap (λ w. (record_locked F at c2a f w s.disk).1) es ∙ ed) stop ea
          (subst (Forwarded false from_client (resume s.client))
            (append_assoc (client_frames log) more (f ∷ []))
            (resume-Forwarded false from_client s.client (client_frames log ++ more) f locked ec))
    step-IsTransparent s t (agent_records at f locked) (recording log es ed ea ec) =
        let locked_by = record_locked-session log at a2c f s.slot s.disk es ed in
        recording (log ++ (at, a2c, f) ∷ []) (ap (λ r. r.0) locked_by) (ap (λ r. r.1) locked_by)
          (subst (Forwarded true from_agent (resume s.agent)) (sym (agent_frames-a2c log at f))
            (resume-Forwarded true from_agent s.agent (agent_frames log) f locked ea))
          (subst (Forwarded false from_client s.client) (sym (client_frames-a2c log at f)) ec)
    step-IsTransparent s t (agent_records at f locked) (finished log more now e es ed stop ea ec) =
        absurd (cc)
    step-IsTransparent s t (finishes at e w exited stop held) (recording log es ed ea ec) =
        finished log [] at e refl (ap₂ (λ w d'. take_and_finalize F at w d') es ed) stop ea
          (subst (Forwarded false from_client s.client) (sym (append-nil (client_frames log))) ec)
    step-IsTransparent s t (finishes at e w exited stop held)
          (finished log more now e' es ed stop' ea ec) =
        absurd (cc)

  one_line : (s : Bytes) → All IsOneLine (read_frames s).frames
  one_line s =
      All-map (read_frames s).frames (λ f p. ((parse_iff f.raw f).0 p).one_line) (read_frames-All s)

  pump-Forwarded :
      (steady : Bool) (stream : Bytes)
      → Forwarded steady (read_frames stream).frames (pump stream) []
  unfolding pump
  pump-Forwarded steady stream = record {
    sunk = refl;
    taken = refl;
    drained = λ _ e stuck. absurd (cc);
    one_line = one_line stream;
  }

  -- In every state that the proxy's threads can reach, in whatever order they run, the client was
  -- sent the text of the agent's frames in the trace, and the agent that of the client's frames, in
  -- order and byte for byte, but for a frame of each side on its way to the lock; these frames and
  -- those still to be written are the frames of the agent's and of the client's stream. Once the
  -- trace is finished it has all that the client was sent, and the agent may have been sent more
  -- frames.
  pub Reachable-IsTransparent :
      (parent_stdin child_stdout : Bytes) (s : Proxy)
      → Reachable F (start F m d parent_stdin child_stdout) s
      → IsTransparent (read_frames parent_stdin).frames (read_frames child_stdout).frames s
  unfolding start record_session record_all agent_frames client_frames
  Reachable-IsTransparent parent_stdin child_stdout s here =
      recording [] refl refl (pump-Forwarded true child_stdout) (pump-Forwarded false parent_stdin)
  Reachable-IsTransparent parent_stdin child_stdout s (later {t} r step) =
      step-IsTransparent (read_frames parent_stdin).frames (read_frames child_stdout).frames t s
        step (Reachable-IsTransparent parent_stdin child_stdout t r)
