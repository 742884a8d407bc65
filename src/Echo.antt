-- ===== src/Echo.antt =====
-- crates/acp-cli/src/bin/echo_agent.rs: the agent that the tests record. Its output is kept as the
-- envelopes that it writes, one to a line.
pub mod Replies
pub mod Sessions
pub mod Frames
use acp_core.Base.{
  ℕ, zero, suc, ◌+◌, ◌/◌, ◌%◌, ◌^◌, Text, Bytes, codes, Bool, true, false, List, [], ◌∷◌, ◌++◌, ℤ,
  pos, negsuc, Option, none, some, ltb, if◌then◌else◌, decimal, ◌==◌, nat_eq, list_eq, unwrap_or,
}
use acp_core.Wire.Json.{
  Value, null, number, string, object, end, member, External, Json, get, as_object, as_str,
}
use acp_core.Wire.Frame.{FrameId, WireError, Frame, and_then, to_value}
use acp_core.Wire.Reader.Stream.{read_frames}

-- The two counters of `run`.
pub record Counters : Type 0 where
  pub prompt_count : ℕ
  pub session_count : ℕ

-- The arms of `match method`.
pub data Method : Type 0 where
  initialize session_new session_prompt shutdown : Method
  unknown : Text → Method

unfoldable pub method_arm : Text → Method
method_arm s =
    if s == codes "initialize"
    then initialize
    else if s == codes "session/new"
    then session_new
    else if s == codes "session/prompt"
    then session_prompt
    else if s == codes "shutdown"
    then shutdown
    else unknown s

module _ ⦃x : External⦄ where
  -- `send_result`, `send_error` and `send_notification`, up to the write
  unfoldable pub result_envelope : FrameId → Json → Json
  result_envelope id result = object (
      member (codes "jsonrpc") (string (codes "2.0"))
        (member (codes "id") (to_value id) (member (codes "result") result end)))

  unfoldable pub error_envelope : FrameId → ℤ → Text → Json
  error_envelope id code message = object (
      member (codes "jsonrpc") (string (codes "2.0")) (
        member (codes "id") (to_value id) (
          member (codes "error")
            (object (
              member (codes "code") (number (x.from_i64 code))
                (member (codes "message") (string message) end)))
            end)))

  unfoldable pub notification_envelope : Text → Json → Json
  notification_envelope method params = object (
      member (codes "jsonrpc") (string (codes "2.0"))
        (member (codes "method") (string method) (member (codes "params") params end)))

  -- `Value::get` with a key
  abbrev pub field : Json → Text → Option Json
  field v key = and_then (as_object v) (λ ms. get ms key)

  unfoldable pub session_id : Frame → Text
  session_id frame =
      unwrap_or
        (and_then (and_then (field frame.value (codes "params")) (λ p. field p (codes "sessionId")))
          as_str)
        (codes "sess-?")

  unfoldable pub update_params : Text → ℕ → Json
  update_params session prompts = object (
      member (codes "sessionId") (string session) (
        member (codes "update")
          (object (
            member (codes "kind") (string (codes "agent_message_chunk")) (
              member (codes "content")
                (object (
                  member (codes "type") (string (codes "text"))
                    (member (codes "text") (string (codes "echo #" ++ decimal prompts)) end)))
                end)))
          end))

  -- What a request is answered with, and the counters then.
  unfoldable pub answer : FrameId → Frame → Method → Counters → List Json × Counters
  unfolding result_envelope error_envelope notification_envelope session_id update_params decimal
  answer id frame initialize s = (
    result_envelope id (
          object (
            member (codes "protocolVersion") (number (x.from_i64 (pos 1)))
              (member (codes "agentCapabilities") (object end) end)))
        ∷ [],
    s,
  )
  answer id frame session_new s =
      let count = (s.session_count + 1) % 2 ^ 64 in
      (
        result_envelope id
              (object (member (codes "sessionId") (string (codes "sess-" ++ decimal count)) end))
            ∷ [],
        record s { session_count = count },
      )
  answer id frame session_prompt s =
      let count = (s.prompt_count + 1) % 2 ^ 64 in
      (
        notification_envelope (codes "session/update") (update_params (session_id frame) count)
            ∷ result_envelope id
                (object (member (codes "stopReason") (string (codes "end_turn")) end))
            ∷ [],
        record s { prompt_count = count },
      )
  answer id frame shutdown s = (result_envelope id null ∷ [], s)
  answer id frame (unknown method) s =
      (error_envelope id (negsuc 32600) (codes "method not found: " ++ method) ∷ [], s)

  abbrev pub is_shutdown : Method → Bool
  is_shutdown shutdown = true
  is_shutdown _ = false

  abbrev pub frame_method : Frame → Method
  frame_method frame = method_arm (unwrap_or frame.method [])

  -- The loop over the frames: what is written, and the error of the reader that ends it.
  unfoldable pub echo : List Frame → Option WireError → Counters → List Json × Option WireError
  unfolding answer method_arm
  echo [] ended_by s = ([], ended_by)
  echo (frame ∷ frames) ended_by s = elim frame.id [
    | none ↦ echo frames ended_by s
    | some id ↦
        let arm = frame_method frame in
        let (replies, s') = answer id frame arm s in
        let rest = echo frames ended_by s' in
        if is_shutdown arm then (replies, none) else (replies ++ rest.0, rest.1)
  ]

  -- `write_envelope`, for each of them
  unfoldable pub envelopes_text : List Json → Bytes
  envelopes_text [] = []
  envelopes_text (env ∷ envs) = (x.to_vec env ++ b'\n' ∷ []) ++ envelopes_text envs

  -- `run`: the bytes on standard output, and the error.
  unfoldable pub run : Bytes → Bytes × Option WireError
  unfolding echo envelopes_text
  run stdin =
      let stream = read_frames stdin in
      let zeros : Counters = record { prompt_count = 0; session_count = 0 } in
      let (envs, e) = echo stream.frames stream.ended_by zeros in (envelopes_text envs, e)

-- The exit code of the process.
unfoldable pub exit_status : Option WireError → ℕ
exit_status none = 0
exit_status (some e) = 1
