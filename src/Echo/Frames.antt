-- ===== src/Echo/Frames.antt =====
-- What the echo agent writes, read by a `FrameReader`.
use acp_core.Base.{◌≡◌, Bytes, List, [], ◌∷◌, map, Option, some, All}
use acp_core.Wire.Json.{External, Json}
use acp_core.Wire.Frame.{Kind, FrameId, Frame}
use acp_core.Wire.Reader.Lines.{strip_cr}
use acp_core.Wire.Reader.Stream.{IsPlain, read_frames, wire_text}
use acp_core.Echo.{echo, envelopes_text}

module _ ⦃x : External⦄ where
  -- The ids of the responses among some frames.
  unfoldable pub response_ids : List Frame → List (Option FrameId)
  response_ids [] = []
  response_ids (f ∷ fs) =
      let rest = response_ids fs in
      elim f.kind [ Kind.response ↦ f.id ∷ rest | Kind.request ↦ rest | Kind.notification ↦ rest ]

  -- The envelopes that the agent writes.
  abbrev pub envelopes : Bytes → List Json
  envelopes stdin =
      (echo (read_frames stdin).frames (read_frames stdin).ended_by
        (record { prompt_count = 0; session_count = 0 })).0

  -- A value that is read back from its text, which does not end in a carriage return.
  abbrev pub IsReadable : Json → Type 0
  IsReadable v = (x.from_slice (x.to_vec v) ≡ some v) × (strip_cr (x.to_vec v) ≡ x.to_vec v)

  -- The frame that a reader makes of an envelope's text.
  record IsReply (v : Json) (k : Kind) (id : Option FrameId) : Type 0 where
    pub frame : Frame
    pub plain : IsPlain frame
    pub raw : frame.raw ≡ x.to_vec v
    pub value : frame.value ≡ v
    pub kind : frame.kind ≡ k
    pub same_id : frame.id ≡ id

  -- The frames of some envelopes, with the ids of the responses among them.
  record AreSent (envs : List Json) (ids : List FrameId) : Type 0 where
    pub frames : List Frame
    pub plain : All IsPlain frames
    pub text : envelopes_text envs ≡ wire_text frames
    pub values : map (λ (f : Frame). f.value) frames ≡ envs
    pub responses : response_ids frames ≡ map some ids
