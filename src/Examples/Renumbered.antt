-- ===== src/Examples/Renumbered.antt =====
-- A client that numbers its request otherwise than the recorded one did, for a library that knows the
-- texts of its session.
use acp_core.Base.{
  ◌≡◌, refl, sym, ℤ, pos, negsuc, Bytes, codes, false, List, [], ◌∷◌, ◌++◌, Option, none, some,
  if◌then◌else◌, ◌==◌, nat_eq, list_eq, int_eq, arith,
}
use mathlib.Core.Option.{some-injective}
use acp_core.Wire.Json.{Value, string, number, object, member, end, External, get, insert}
use acp_core.Wire.Frame.{IsSerde, Kind, FrameId, Frame, contains, is_some}
use acp_core.Wire.Reader.Stream.{wire_text}
use acp_core.Trace.Event.{c2a, a2c}
use acp_core.Trace.Session.{Observed}
use acp_core.Replay.{rewrite_id_in_value}
use acp_core.Replay.Renumbered.{answers, IsToldApart}
use acp_core.Examples.Frames.{
  request_text, response_text, request_value, response_value, hash, digit,
}

abbrev pub second_request_text : Bytes
second_request_text = codes "{\"jsonrpc\":\"2.0\",\"id\":2,\"method\":\"go\"}"

abbrev pub second_response_text : Bytes
second_response_text = codes "{\"jsonrpc\":\"2.0\",\"id\":2,\"result\":null}"

abbrev pub second_request_value : Value ℤ
second_request_value = object (
    member (codes "jsonrpc") (string (codes "2.0"))
      (member (codes "id") (number (pos 2)) (member (codes "method") (string (codes "go")) end)))

-- What the echo agent answers to the request.
abbrev pub refusal_text : Bytes
refusal_text =
    codes
      "{\"jsonrpc\":\"2.0\",\"id\":1,\"error\":{\"code\":-32601,\"message\":\"method not found: go\"}}"

abbrev pub refusal_value : Value ℤ
refusal_value = object (
    member (codes "jsonrpc") (string (codes "2.0")) (
      member (codes "id") (number (pos 1)) (
        member (codes "error")
          (object (
            member (codes "code") (number (negsuc 32600))
              (member (codes "message") (string (codes "method not found: go")) end)))
          end)))

abbrev pub second_from_slice : Bytes → Option (Value ℤ)
second_from_slice s =
    if s == request_text
    then some request_value
    else if s == response_text
    then some response_value
    else if s == second_request_text
    then some second_request_value
    else if s == refusal_text
    then some refusal_value
    else none

-- Right for the request and the response with id 2, and for the refusal.
unfoldable pub second_to_vec : Value ℤ → Bytes
unfolding get
second_to_vec (object ms) =
    if is_some (get ms (codes "error"))
    then refusal_text
    else if is_some (get ms (codes "result"))
    then second_response_text
    else second_request_text
second_to_vec v = codes "null"

instance abbrev pub second : External
second = record {
  Number = ℤ;
  as_i64 = λ n. some n;
  from_i64 = λ n. n;
  number_to_string = digit;
  from_slice = second_from_slice;
  to_vec = second_to_vec;
  hash = hash;
}

second_one_line : (v : Value ℤ) → contains (second_to_vec v) b'\n' ≡ false
unfolding second_to_vec contains
second_one_line v = ground arith

pub second-IsSerde : IsSerde second
second-IsSerde = record {
  as_i64_from = λ n i e. some-injective _ _ (sym e);
  from_i64_as = λ i. refl;
  one_line = second_one_line;
}

abbrev pub first_request : Frame
first_request = record {
  kind = Kind.request;
  method = some (codes "go");
  id = some (FrameId.num (pos 1));
  value = request_value;
  raw = request_text;
}

abbrev first_response : Frame
first_response = record {
  kind = Kind.response;
  method = none;
  id = some (FrameId.num (pos 1));
  value = response_value;
  raw = response_text;
}

abbrev session : List Observed
session = (5, c2a, first_request) ∷ (6, a2c, first_response) ∷ []

-- One for two, and two for every other id.
abbrev two : FrameId → FrameId
two id = FrameId.num (pos 2)

-- The client is sent the response under its own id.
second_answer : wire_text (answers two [] session) ≡ second_response_text ++ b'\n' ∷ []
unfolding answers acp_core.Replay.Renumbered.asks acp_core.Replay.Renumbered.asked_for
    rewrite_id_in_value second_to_vec insert
second_answer = refl
