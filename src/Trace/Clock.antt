-- ===== src/Trace/Clock.antt =====
-- crates/acp-trace/src/lib.rs: the clocks, and the capture of the recorder's environment. The time
-- library and the operating system are parameters.
pub mod Capture
use Prim.Native.Nat.{Ordering}
use acp_core.Base.{
  ℕ, ◌-◌, ◌/◌, ◌%◌, ◌^◌, min, Text, codes, List, [], ◌∷◌, Option, none, some, unwrap_or, Bool,
  if◌then◌else◌, ◌==◌, nat_eq, list_eq,
}
use acp_core.Base.Loops.{◌>>=◌}
use acp_core.Wire.Canonical.{compare_units}
use acp_core.Trace.Event.{RecordingEnv, Manifest}
use acp_core.Trace.Writer.{new_with_clock}

-- The calls of the `time` crate: a time stamp in seconds, the nanoseconds of its second, its text.
pub record TimeCrate : Type 1 where
  pub OffsetDateTime : Type 0
  pub from_unix_timestamp : ℕ → Option OffsetDateTime
  pub replace_nanosecond : OffsetDateTime → ℕ → Option OffsetDateTime
  pub format_rfc3339 : OffsetDateTime → Option Text

-- What `Clock`'s two methods return.
pub record Clock : Type 0 where
  pub unix_nanos : ℕ
  pub rfc3339_now : Text

abbrev pub epoch_text : Text
epoch_text = codes "1970-01-01T00:00:00Z"

module _ (time : TimeCrate) where
  open time use {from_unix_timestamp, replace_nanosecond, format_rfc3339}

  -- `SystemClock`, from the time since the epoch, if it is not before that, and from the time in UTC.
  unfoldable pub system_clock : Option ℕ → time.OffsetDateTime → Clock
  system_clock since_epoch now_utc = record {
    unix_nanos = unwrap_or since_epoch 0;
    rfc3339_now = unwrap_or (format_rfc3339 now_utc) epoch_text;
  }

  -- `FixedClock`, from its nanoseconds: an `i64` of seconds and a `u32` of nanoseconds.
  unfoldable pub fixed_clock : ℕ → Clock
  fixed_clock nanos =
      let secs = min (nanos / 1000000000) (2 ^ 63 - 1) in
      let rest = nanos % 1000000000 % 2 ^ 32 in
      record {
        unix_nanos = nanos;
        rfc3339_now =
            unwrap_or
              (from_unix_timestamp secs >>= λ t. replace_nanosecond t rest >>= format_rfc3339)
              epoch_text;
      }

-- `FixedClock::epoch`
abbrev pub epoch : ℕ
epoch = 0

-- `Manifest::new`, from the system clock's text.
unfoldable pub manifest_new : Text → List Text → Clock → Manifest
unfolding new_with_clock
manifest_new recorder_version agent_argv system =
    new_with_clock recorder_version agent_argv system.rfc3339_now

-- `BTreeMap::insert`; strings are ordered by their bytes, which is the order of their characters.
unfoldable pub btree_insert : List (Text × Text) → Text → Text → List (Text × Text)
btree_insert [] k v = (k, v) ∷ []
btree_insert ((j, w) ∷ m) k v = elim (compare_units k j) [
  | Ordering.lt ↦ (k, v) ∷ (j, w) ∷ m
  | Ordering.eq ↦ (j, v) ∷ m
  | Ordering.gt ↦ (j, w) ∷ btree_insert m k v
]

-- What `RecordingEnv::capture` asks the operating system for; a text is the lossy one.
pub record Host : Type 0 where
  pub var : Text → Option Text
  pub current_dir : Option Text
  pub os : Text
  pub arch : Text
  pub process_id : ℕ

-- The loop over the names.
unfoldable pub capture_vars :
    (Text → Option Text) → List Text → List (Text × Text) → List (Text × Text)
unfolding btree_insert
capture_vars var [] env = env
capture_vars var (key ∷ keys) env =
    capture_vars var keys (elim (var key) [ none ↦ env | some v ↦ btree_insert env key v ])

unfoldable pub capture : Host → List Text → RecordingEnv
unfolding capture_vars
capture host env_whitelist = record {
  cwd = host.current_dir;
  host_os = some host.os;
  host_arch = some host.arch;
  recorder_pid = some host.process_id;
  env = capture_vars host.var env_whitelist [];
}
