-- ===== src/Proxy/Log.antt =====
-- What one more frame adds to a log of frames.
use acp_core.Base.{ℕ, ◌≡◌, refl, ap, ◌∙◌, List, [], ◌∷◌, ◌++◌, append-nil}
use acp_core.Wire.Json.{External}
use acp_core.Wire.Frame.{Frame}
use acp_core.Trace.Event.{c2a, a2c}
use acp_core.Trace.Disk.{Disk, Formats}
use acp_core.Trace.Writer.{TraceWriter, record_frame}
use acp_core.Trace.Session.{Observed, record_all}
use acp_core.Replay.Offline.{agent_frames, client_frames}

module _ ⦃x : External⦄ where
  pub record_all-snoc :
      (F : Formats) (log : List Observed) (o : Observed) (wd : TraceWriter × Disk)
      → record_all F (log ++ o ∷ []) wd ≡ record_frame F o.0 o.1 o.2 (record_all F log wd)
  unfolding record_all
  record_all-snoc F [] (now, dir, f) wd = refl
  record_all-snoc F ((now, dir, f) ∷ log) o wd =
      record_all-snoc F log o (record_frame F now dir f wd)

  pub agent_frames-append :
      (log rest : List Observed)
      → agent_frames (log ++ rest) ≡ agent_frames log ++ agent_frames rest
  unfolding agent_frames
  agent_frames-append [] rest = refl
  agent_frames-append ((now, c2a, f) ∷ log) rest = agent_frames-append log rest
  agent_frames-append ((now, a2c, f) ∷ log) rest = ap (λ l. f ∷ l) (agent_frames-append log rest)

  pub client_frames-append :
      (log rest : List Observed)
      → client_frames (log ++ rest) ≡ client_frames log ++ client_frames rest
  unfolding client_frames
  client_frames-append [] rest = refl
  client_frames-append ((now, c2a, f) ∷ log) rest = ap (λ l. f ∷ l) (client_frames-append log rest)
  client_frames-append ((now, a2c, f) ∷ log) rest = client_frames-append log rest

  pub agent_frames-c2a :
      (log : List Observed) (now : ℕ) (f : Frame)
      → agent_frames (log ++ (now, c2a, f) ∷ []) ≡ agent_frames log
  unfolding agent_frames
  agent_frames-c2a log now f =
      agent_frames-append log ((now, c2a, f) ∷ []) ∙ append-nil (agent_frames log)

  pub client_frames-a2c :
      (log : List Observed) (now : ℕ) (f : Frame)
      → client_frames (log ++ (now, a2c, f) ∷ []) ≡ client_frames log
  unfolding client_frames
  client_frames-a2c log now f =
      client_frames-append log ((now, a2c, f) ∷ []) ∙ append-nil (client_frames log)

  pub agent_frames-a2c :
      (log : List Observed) (now : ℕ) (f : Frame)
      → agent_frames (log ++ (now, a2c, f) ∷ []) ≡ agent_frames log ++ f ∷ []
  unfolding agent_frames
  agent_frames-a2c log now f = agent_frames-append log ((now, a2c, f) ∷ [])

  pub client_frames-c2a :
      (log : List Observed) (now : ℕ) (f : Frame)
      → client_frames (log ++ (now, c2a, f) ∷ []) ≡ client_frames log ++ f ∷ []
  unfolding client_frames
  client_frames-c2a log now f = client_frames-append log ((now, c2a, f) ∷ [])
