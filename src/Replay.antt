-- ===== src/Replay.antt =====
-- crates/acp-replay/src/lib.rs: replay of a recorded session, offline and against a live client.
-- What is written to `out` before an error stays written, so the output comes back beside it.
pub mod Interactive
pub mod Offline
pub mod Rounds
pub mod Progress
pub mod Client
pub mod Roundtrip
pub mod Remap
pub mod Numbering
pub mod Renumbered
pub mod Walk
pub mod Emitted
pub mod Report
use acp_core.Base.{
  ℕ, suc, ◌+◌, ◌/◌, ◌%◌, ◌^◌, Text, Bytes, codes, Bool, true, false, ◌&&◌, List, [], ◌∷◌, ◌++◌,
  Option, none, some, if◌then◌else◌, ◌==◌, nat_eq, list_eq, int_eq, drop,
}
use acp_core.Base.Fallible.{Result, ok, err, map_err, ◌>>=◌}
use acp_core.Wire.Json.{External, Json, Value, object, get, insert}
use acp_core.Wire.Canonical.{hex, canonicalize}
use acp_core.Wire.Frame.{
  Kind, FrameId, num, str, null_id, WireError, Frame, is_some, option_map, to_value, parse,
  payload_hash_str, write_line,
}
use acp_core.Trace.Event.{Direction, c2a, a2c, RecordKind, RecordId, EventRecord}
use acp_core.Trace.Disk.{Disk}
use acp_core.Trace.Reader.{TraceError, TraceReader, load_blob}

pub record DivergenceDetail : Type 0 where
  pub expected_seq : ℕ
  pub expected_method : Option Text
  pub expected_hash : Text
  pub got_method : Option Text
  pub got_id : Option Bytes
  pub got_hash : Text
  pub client_frames_consumed : ℕ

pub data ReplayError : Type 0 where
  io json : ReplayError
  wire : WireError → ReplayError
  trace : TraceError → ReplayError
  trace_exhausted : Option Text → ReplayError
  divergence : DivergenceDetail → ReplayError

-- `Id`'s derived `PartialEq`
abbrev pub id_beq : FrameId → FrameId → Bool
id_beq (num a) (num b) = a == b
id_beq (str a) (str b) = a == b
id_beq null_id null_id = true
id_beq _ _ = false

-- `HashMap<Id, Id>`: `get` and `insert`
unfoldable pub id_get : List (FrameId × FrameId) → FrameId → Option FrameId
id_get [] k = none
id_get ((j, v) ∷ m) k = let rest = id_get m k in if id_beq j k then some v else rest

unfoldable pub id_insert : List (FrameId × FrameId) → FrameId → FrameId → List (FrameId × FrameId)
id_insert [] k v = (k, v) ∷ []
id_insert ((j, w) ∷ m) k v =
    let rest = id_insert m k v in if id_beq j k then (j, v) ∷ m else (j, w) ∷ rest

unfoldable pub record_id_to_wire : RecordId → FrameId
record_id_to_wire (RecordId.num n) = num n
record_id_to_wire (RecordId.str s) = str s
record_id_to_wire RecordId.null_id = null_id

abbrev pub is_response : RecordKind → Bool
is_response RecordKind.response = true
is_response _ = false

abbrev pub frame_is_response : Kind → Bool
frame_is_response Kind.response = true
frame_is_response _ = false

-- acp-replay's own `hex_with_prefix`
unfoldable pub hex_digits : Bytes → Text
hex_digits [] = []
hex_digits (b ∷ bytes) = hex (b / 16) ∷ hex (b % 16) ∷ hex_digits bytes

unfoldable pub hex_with_prefix : Bytes → Text
unfolding hex_digits
hex_with_prefix bytes = codes "blake3:" ++ hex_digits bytes

-- The first `C2a` event at or behind an index: its index and itself.
unfoldable pub next_c2a : ℕ → List EventRecord → Option (ℕ × EventRecord)
next_c2a idx [] = none
next_c2a idx (row ∷ rows) = elim row.dir [ c2a ↦ some (idx, row) | a2c ↦ next_c2a (suc idx) rows ]

-- `find_next_c2a`
unfoldable pub find_next_c2a : List EventRecord → ℕ → Result ReplayError (ℕ × EventRecord)
unfolding next_c2a
find_next_c2a events from = elim (next_c2a from (drop from events)) [
  | none ↦ err (trace_exhausted none)
  | some e ↦ ok e
]

module _ ⦃x : External⦄ where
  -- The value with the member "id" replaced, if it is an object with one.
  unfoldable pub with_id : Json → FrameId → Json
  with_id (object ms) id =
      if is_some (get ms (codes "id"))
      then object (insert ms (codes "id") (to_value id))
      else object ms
  with_id v id = v

  unfoldable pub hash_with_id : Json → FrameId → Text
  unfolding hex_with_prefix with_id
  hash_with_id v id = hex_with_prefix (x.hash (canonicalize (with_id v id)))

  unfoldable pub rewrite_id_in_value : Json → FrameId → Bytes
  rewrite_id_in_value (object ms) id = x.to_vec (object (insert ms (codes "id") (to_value id)))
  rewrite_id_in_value v id = x.to_vec v

  -- `frames_equivalent`
  unfoldable pub frames_equivalent : Frame → Frame → Bool
  frames_equivalent a b =
      acp_core.Wire.Hash.payload_hash a.value == acp_core.Wire.Hash.payload_hash b.value

  -- `divergence`
  unfoldable pub diverged : EventRecord → Frame → Text → Text → ℕ → ReplayError
  diverged expected got expected_hash got_hash consumed = divergence (record {
    expected_seq = expected.seq;
    expected_method = expected.method;
    expected_hash = expected_hash;
    got_method = got.method;
    got_id = option_map (λ id. x.to_vec (to_value id)) got.id;
    got_hash = got_hash;
    client_frames_consumed = consumed;
  })

  abbrev pub Outcome : Type 0 → Type 0
  Outcome A = Result ReplayError A × Bytes

  -- `load_blob(rec)?` and `write_line(out, &bytes)?`
  unfoldable pub emit_raw : Disk → EventRecord → Bytes → Result ReplayError Bytes
  emit_raw d row out =
      map_err trace (load_blob d row) >>= λ bytes. map_err wire (write_line out bytes)

  -- `replay_offline`, from a count of frames
  unfoldable pub offline : Disk → List EventRecord → ℕ → Bytes → Outcome ℕ
  unfolding emit_raw
  offline d [] n out = (ok n, out)
  offline d (row ∷ rows) n out = elim row.dir [
    | c2a ↦ offline d rows n out
    | a2c ↦ elim (emit_raw d row out) [
      | err e ↦ (err e, out)
      | ok out' ↦ offline d rows ((n + 1) % 2 ^ 64) out'
    ]
  ]

  unfoldable pub replay_offline : TraceReader → Bytes → Outcome ℕ
  unfolding offline
  replay_offline t out = offline t.disk t.events 0 out

  -- The bytes of a response with its id mapped back to the client's.
  unfoldable pub mapped_bytes : List (FrameId × FrameId) → Frame → Bytes → Bytes
  mapped_bytes id_map frame bytes =
      if frame_is_response frame.kind
      then elim frame.id [
        | none ↦ bytes
        | some recorded ↦ elim (id_get id_map recorded) [
          | none ↦ bytes
          | some client ↦ rewrite_id_in_value frame.value client
        ]
      ]
      else bytes

  -- The body of the loop in `emit_a2c_block`.
  unfoldable pub emit_one :
      Bool → List (FrameId × FrameId) → Disk → EventRecord → Bytes → Result ReplayError Bytes
  unfolding emit_raw mapped_bytes
  emit_one remap_ids id_map d row out =
      if remap_ids && is_response row.kind
      then (map_err trace (load_blob d row) >>= λ bytes. map_err wire (parse bytes) >>= λ frame.
          map_err wire (write_line out (mapped_bytes id_map frame bytes)))
      else emit_raw d row out

  -- The loop of `emit_a2c_block`, over the events from index `idx`: the new cursor and count.
  unfoldable pub emit_rows :
      Bool → List (FrameId × FrameId) → Disk → ℕ → List EventRecord → ℕ → Bytes → Outcome (ℕ × ℕ)
  unfolding emit_one
  emit_rows remap_ids id_map d idx [] emitted out = (ok (idx, emitted), out)
  emit_rows remap_ids id_map d idx (row ∷ rows) emitted out = elim row.dir [
    | c2a ↦ (ok (idx, emitted), out)
    | a2c ↦ elim (emit_one remap_ids id_map d row out) [
      | err e ↦ (err e, out)
      | ok out' ↦ emit_rows remap_ids id_map d (suc idx) rows ((emitted + 1) % 2 ^ 64) out'
    ]
  ]
