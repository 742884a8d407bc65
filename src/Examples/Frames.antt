-- ===== src/Examples/Frames.antt =====
-- A request and its response, for libraries that know these two texts.
use acp_core.Base.{
  ℕ, zero, suc, ◌+◌, ◌%◌, ◌<◌, ◌≡◌, refl, ℤ, pos, negsuc, Bytes, codes, [], ◌∷◌, Option, none, some,
  if◌then◌else◌, ◌==◌, nat_eq, list_eq, All, replicate, arith,
}
use acp_core.Base.Fallible.{ok}
use acp_core.Wire.Json.{Value, null, number, string, object, end, member, External, get}
use acp_core.Wire.Frame.{
  Kind, FrameId, Frame, parse, contains, check_version, classify, method_of, id_of, has_outcome,
}
use acp_core.Wire.Hash.Digest.{IsByte}
use acp_core.Trace.Session.Blobs.{IsBlake3}

abbrev pub request_text : Bytes
request_text = codes "{\"jsonrpc\":\"2.0\",\"id\":1,\"method\":\"go\"}"

abbrev pub response_text : Bytes
response_text = codes "{\"jsonrpc\":\"2.0\",\"id\":1,\"result\":null}"

abbrev pub request_value : Value ℤ
request_value = object (
    member (codes "jsonrpc") (string (codes "2.0"))
      (member (codes "id") (number (pos 1)) (member (codes "method") (string (codes "go")) end)))

abbrev pub response_value : Value ℤ
response_value = object (
    member (codes "jsonrpc") (string (codes "2.0"))
      (member (codes "id") (number (pos 1)) (member (codes "result") null end)))

abbrev from_slice : Bytes → Option (Value ℤ)
from_slice s =
    if s == request_text
    then some request_value
    else if s == response_text
    then some response_value
    else none

abbrev pub sum : Bytes → ℕ
sum [] = 0
sum (n ∷ s) = n + sum s

-- Not a good hash, but 32 bytes.
abbrev pub hash : Bytes → Bytes
hash s = replicate 32 (sum s % 256)

-- Right below ten.
abbrev pub digit : ℤ → Bytes
digit (pos n) = (b'0' + n) ∷ []
digit (negsuc n) = b'-' ∷ (b'1' + n) ∷ []

instance abbrev pub toy : External
toy = record {
  Number = ℤ;
  as_i64 = λ n. some n;
  from_i64 = λ n. n;
  number_to_string = digit;
  from_slice = from_slice;
  to_vec = λ v. request_text;
  hash = hash;
}

pub replicate-IsByte : (k n : ℕ) → n < 256 → All IsByte (replicate k n)
replicate-IsByte zero n h = tt
replicate-IsByte (suc k) n h = (h, replicate-IsByte k n h)

pub toy-IsBlake3 : IsBlake3 toy
toy-IsBlake3 = record {
  are_bytes = λ b. replicate-IsByte 32 (sum b % 256) (omega arith);
  are_32 = λ b. refl;
}

abbrev pub request_frame : Frame
request_frame = record {
  kind = Kind.request;
  method = some (codes "go");
  id = some (FrameId.num (pos 1));
  value = request_value;
  raw = request_text;
}

abbrev pub response_frame : Frame
response_frame = record {
  kind = Kind.response;
  method = none;
  id = some (FrameId.num (pos 1));
  value = response_value;
  raw = response_text;
}

pub request_parsed : parse request_text ≡ ok request_frame
unfolding parse contains check_version get classify method_of id_of has_outcome
request_parsed = refl

pub response_parsed : parse response_text ≡ ok response_frame
unfolding parse contains check_version get classify method_of id_of has_outcome
response_parsed = refl
