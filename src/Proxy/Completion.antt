-- ===== src/Proxy/Completion.antt =====
-- From any state, the proxy's threads can run to the end.
use acp_core.Base.{◌≡◌, refl, ◌⊎◌, inl, inr, Bytes, List, Option}
use acp_core.Wire.Json.{External}
use acp_core.Wire.Frame.{WireError, Frame}
use acp_core.Wire.Reader.Stream.{read_frames}
use acp_core.Trace.Event.{Manifest}
use acp_core.Trace.Disk.{Disk, Formats}
use acp_core.Proxy.{Position, at_read, at_lock, ended, Pump, Proxy, Reachable}

module _ ⦃x : External⦄ where
  -- Where a thread stands.
  pub position-cases :
      (q : Position)
      → (q ≡ at_read) ⊎ (((f : Frame) × (q ≡ at_lock f)) ⊎ ((e : Option WireError) × (q ≡ ended e)))
  position-cases at_read = inl refl
  position-cases (at_lock f) = inr (inl (f, refl))
  position-cases (ended e) = inr (inr (e, refl))

module _ ⦃x : External⦄ (F : Formats) (first : Proxy) where
  -- A state that can be reached, with one of its threads at its end.
  abbrev AgentEnds : Pump → Type 0
  AgentEnds client =
      (t : Proxy) × Reachable F first t
      × (t.client ≡ client)
      × (e : Option WireError) × (t.agent.position ≡ ended e)

module _ ⦃x : External⦄ (F : Formats) (m : Manifest) (d : Disk)
    (parent_stdin child_stdout : Bytes) where
  abbrev pub from_client : List Frame
  from_client = (read_frames parent_stdin).frames

  abbrev pub from_agent : List Frame
  from_agent = (read_frames child_stdout).frames
