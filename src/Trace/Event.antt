-- ===== src/Trace/Event.antt =====
-- crates/acp-trace/src/lib.rs: the rows of `events.jsonl` and the manifest.
use acp_core.Base.{ℕ, ℤ, Text, Bool, true, false, List, Option}
use acp_core.Base.{codes, ◌↔◌, ◌≡◌, PartialEq, arith}
use acp_core.Wire.Frame.{Kind, FrameId}

pub data Direction : Type 0 where
  c2a a2c : Direction

abbrev pub direction_beq : Direction → Direction → Bool
direction_beq c2a c2a = true
direction_beq a2c a2c = true
direction_beq _ _ = false

pub direction_beq_iff : (a b : Direction) → (direction_beq a b ≡ true) ↔ (a ≡ b)
direction_beq_iff a b = ground arith

instance abbrev pub direction_eq : PartialEq Direction
direction_eq = record { eq = direction_beq; eq_iff = direction_beq_iff }

-- `Direction::as_str`
unfoldable pub direction_str : Direction → Text
direction_str c2a = codes "c2a"
direction_str a2c = codes "a2c"

pub data RecordKind : Type 0 where
  request response notification : RecordKind

-- `RecordKind::from`
unfoldable pub record_kind : Kind → RecordKind
record_kind Kind.request = request
record_kind Kind.response = response
record_kind Kind.notification = notification

pub data RecordId : Type 0 where
  num : ℤ → RecordId
  str : Text → RecordId
  null_id : RecordId

-- `RecordId::from`
unfoldable pub record_id : FrameId → RecordId
record_id (FrameId.num n) = num n
record_id (FrameId.str s) = str s
record_id FrameId.null_id = null_id

pub record EventRecord : Type 0 where
  pub seq : ℕ
  pub t_wall_ns : ℕ
  pub dir : Direction
  pub kind : RecordKind
  pub method : Option Text
  pub id : Option RecordId
  pub hash : Text
  pub bytes : ℕ

pub record RecordingEnv : Type 0 where
  pub cwd : Option Text
  pub host_os : Option Text
  pub host_arch : Option Text
  pub recorder_pid : Option ℕ
  pub env : List (Text × Text)

abbrev pub format_version_1 : ℕ
format_version_1 = 1

pub record Manifest : Type 0 where
  pub format_version : ℕ
  pub recorder : Text
  pub recorder_version : Text
  pub agent_argv : List Text
  pub started_at : Text
  pub ended_at : Option Text
  pub event_count : Option ℕ
  pub events_hash : Option Text
  pub recording_env : Option RecordingEnv
