-- ===== src/Echo/Replies.antt =====
-- The echo agent answers each request once, with the request's id.
use acp_core.Base.{
  ◌≡◌, refl, ap, sym, ◌∙◌, codes, List, [], ◌∷◌, ◌++◌, map, append-nil, Option, none, some,
  if◌then◌else◌, Option-cases, Bool-cases, inl, inr,
}
use acp_core.Wire.Json.{External, Json, get}
use acp_core.Wire.Frame.{FrameId, WireError, Frame, to_value}
use acp_core.Echo.{
  Counters, Method, initialize, session_new, session_prompt, shutdown, unknown, answer, field,
  is_shutdown, frame_method, echo, result_envelope, error_envelope, notification_envelope,
}

module _ ⦃x : External⦄ where
  -- The ids of the envelopes that carry one.
  unfoldable pub reply_ids : List Json → List Json
  reply_ids [] = []
  reply_ids (env ∷ envs) =
      let rest = reply_ids envs in
      elim (field env (codes "id")) [ none ↦ rest | some id ↦ id ∷ rest ]

  -- The ids of the frames that carry one, up to the first that asks to shut down.
  unfoldable pub request_ids : List Frame → List FrameId
  request_ids [] = []
  request_ids (frame ∷ frames) =
      let rest = request_ids frames in
      elim frame.id [
        | none ↦ rest
        | some id ↦ if is_shutdown (frame_method frame) then id ∷ [] else id ∷ rest
      ]

  answer-replies :
      (id : FrameId) (frame : Frame) (arm : Method) (s : Counters) (later : List Json)
      → reply_ids ((answer id frame arm s).0 ++ later) ≡ to_value id ∷ reply_ids later
  unfolding answer reply_ids result_envelope error_envelope notification_envelope get
  answer-replies id frame initialize s later = refl
  answer-replies id frame session_new s later = refl
  answer-replies id frame session_prompt s later = refl
  answer-replies id frame shutdown s later = refl
  answer-replies id frame (unknown method) s later = refl

  -- The agent's replies carry the ids of the requests, each once and in order, up to the first request
  -- to shut down; what it writes besides carries no id.
  pub echo-reply_ids :
      (frames : List Frame) (ended_by : Option WireError) (s : Counters)
      → reply_ids (echo frames ended_by s).0 ≡ map to_value (request_ids frames)
  unfolding echo request_ids reply_ids
  echo-reply_ids [] ended_by s = refl
  echo-reply_ids (frame ∷ frames) ended_by s = elim (Option-cases frame.id) [
    | inl notification ↦ rw notification (echo-reply_ids frames ended_by s)
    | inr (id, request) ↦
        let arm = frame_method frame in
        let envs = (answer id frame arm s).0 in
        elim (Bool-cases (is_shutdown arm)) [
          | inl stop ↦
              rw (request, stop)
                (ap reply_ids (sym (append-nil envs)) ∙ answer-replies id frame arm s [])
          | inr more ↦
              rw (request, more)
                (answer-replies id frame arm s (echo frames ended_by (answer id frame arm s).1).0
                  ∙ ap (λ l. to_value id ∷ l)
                      (echo-reply_ids frames ended_by (answer id frame arm s).1))
        ]
  ]
