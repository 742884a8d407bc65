-- ===== src/Wire/Frame.antt =====
-- crates/acp-wire/src/lib.rs: JSON-RPC frames, their classification, and the framed writers.
pub mod Parsed
pub mod Named
pub mod Classified
use acp_core.Base.{
  ℕ, Text, Bytes, codes, Bool, true, false, ◌||◌, [], ◌∷◌, ◌++◌, ℤ, Option, none, some, ◌≡◌,
  nat_beq, if◌then◌else◌, ◌==◌, nat_eq, list_eq,
}
use acp_core.Base.Fallible.{Result, ok, err, ok_or, ◌>>=◌, ◌>>◌}
use acp_core.Wire.Json.{
  Value, Members, null, number, string, External, Json, get, as_object, as_str,
}
use acp_core.Wire.Hash.{payload_hash, hex_with_prefix}

pub data Kind : Type 0 where
  request notification response : Kind

-- `Kind::as_str`
unfoldable pub kind_str : Kind → Text
kind_str request = codes "request"
kind_str notification = codes "notification"
kind_str response = codes "response"

-- The source's `Id`.
pub data FrameId : Type 0 where
  num : ℤ → FrameId
  str : Text → FrameId
  null_id : FrameId

pub data WireError : Type 0 where
  io utf8_error json_error not_json_rpc embedded_newline unclassifiable_frame eof : WireError

-- `[u8]::contains`
unfoldable pub contains : Bytes → ℕ → Bool
contains [] b = false
contains (c ∷ cs) b = nat_beq c b || contains cs b

abbrev pub is_some {ℓ} : {A : Type ℓ} → Option A → Bool
is_some none = false
is_some (some a) = true

abbrev pub and_then {ℓ κ} : {A : Type ℓ} {B : Type κ} → Option A → (A → Option B) → Option B
and_then none f = none
and_then (some a) f = f a

abbrev pub option_map {ℓ κ} : {A : Type ℓ} {B : Type κ} → (A → B) → Option A → Option B
option_map f none = none
option_map f (some a) = some (f a)

-- The `match` on the three tests.
unfoldable pub classify : Bool → Bool → Bool → Result WireError Kind
classify true true false = ok request
classify true false false = ok notification
classify false _ true = ok response
classify _ _ _ = err unclassifiable_frame

module _ ⦃x : External⦄ where
  pub record Frame : Type 0 where
    pub kind : Kind
    pub method : Option Text
    pub id : Option FrameId
    pub value : Json
    pub raw : Bytes

  -- `Id::from_value` and `Id::to_value`
  unfoldable pub from_value : Json → Option FrameId
  from_value (number n) = option_map num (x.as_i64 n)
  from_value (string s) = some (str s)
  from_value null = some null_id
  from_value _ = none

  unfoldable pub to_value : FrameId → Json
  to_value (num n) = number (x.from_i64 n)
  to_value (str s) = string s
  to_value null_id = null

  -- `match obj.get("jsonrpc")`
  unfoldable pub check_version : Option Json → Result WireError (Unit {0})
  check_version (some (string s)) = if s == codes "2.0" then ok tt else err not_json_rpc
  check_version _ = err not_json_rpc

  unfoldable pub method_of : Members x.Number → Option Text
  method_of obj = and_then (get obj (codes "method")) as_str

  unfoldable pub id_of : Members x.Number → Option FrameId
  unfolding from_value
  id_of obj = and_then (get obj (codes "id")) from_value

  -- `has_result || has_error`
  unfoldable pub has_outcome : Members x.Number → Bool
  has_outcome obj = is_some (get obj (codes "result")) || is_some (get obj (codes "error"))

  -- `Frame::parse`, once the line is a JSON value.
  unfoldable pub parse_value : Bytes → Json → Result WireError Frame
  parse_value line value = do
    obj ← ok_or (as_object value) unclassifiable_frame
    check_version (get obj (codes "jsonrpc"))
    kind ← classify (is_some (method_of obj)) (is_some (id_of obj)) (has_outcome obj)
    ok (record { kind = kind; method = method_of obj; id = id_of obj; value = value; raw = line })

  unfoldable pub parse : Bytes → Result WireError Frame
  unfolding parse_value
  parse line =
      if contains line b'\n'
      then err embedded_newline
      else do value ← ok_or (x.from_slice line) json_error; parse_value line value

  -- `Frame::payload_hash_str`
  unfoldable pub payload_hash_str : Frame → Text
  payload_hash_str f = hex_with_prefix (payload_hash f.value)

  -- `write_line`: what the writer holds afterwards. Writing to it does not fail.
  unfoldable pub write_line : Bytes → Bytes → Result WireError Bytes
  write_line w line =
      if contains line b'\n' then err embedded_newline else ok (w ++ line ++ b'\n' ∷ [])

  unfoldable pub write_frame : Bytes → Frame → Result WireError Bytes
  write_frame w frame =
      if contains frame.raw b'\n' then err embedded_newline else ok (w ++ frame.raw ++ b'\n' ∷ [])

-- What `serde_json` promises of numbers and of its compact printer: a number that is an `i64` is the
-- one made of it, and the other way round, and the text of a value is one line.
pub record IsSerde (x : External) : Type 0 where
  pub as_i64_from : (n : x.Number) (i : ℤ) → x.as_i64 n ≡ some i → x.from_i64 i ≡ n
  pub from_i64_as : (i : ℤ) → x.as_i64 (x.from_i64 i) ≡ some i
  pub one_line : (v : Value x.Number) → contains (x.to_vec v) b'\n' ≡ false
