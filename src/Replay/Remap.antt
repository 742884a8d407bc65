-- ===== src/Replay/Remap.antt =====
-- Interactive replay with `remap_ids`: a request under another id, and the response to it.
use acp_core.Base.{
  ℕ, suc, ◌≡◌, refl, ◌≢◌, inl, inr, Bytes, true, List, [], ◌∷◌, some, ==_iff, ==_refl, ==_ne,
  nat_eq, list_eq, int_eq, Bool-cases, arith,
}
use acp_core.Base.Fallible.{ok}
use acp_core.Wire.Json.{External}
use acp_core.Wire.Frame.{Kind, FrameId, num, str, null_id, Frame, payload_hash_str}
use acp_core.Trace.Event.{RecordId, EventRecord}
use acp_core.Replay.{
  id_beq, id_get, id_insert, record_id_to_wire, find_next_c2a, hash_with_id, mapped_bytes,
  rewrite_id_in_value,
}
use acp_core.Replay.Interactive.{ReplayOptions, Session, match_remapped, match_frame}

pub id_beq_self : (k : FrameId) → id_beq k k ≡ true
id_beq_self (num n) = ==_refl n
id_beq_self (str s) = ==_refl s
id_beq_self null_id = refl

id_get-id_insert :
    (m : List (FrameId × FrameId)) (k v : FrameId) → id_get (id_insert m k v) k ≡ some v
unfolding id_get id_insert
id_get-id_insert [] k v = rw (id_beq_self k)
id_get-id_insert ((j, w) ∷ m) k v = elim (Bool-cases (id_beq j k)) [
  | inl here ↦ rw (here, here)
  | inr there ↦ rw (there, there) (id_get-id_insert m k v)
]

module _ ⦃x : External⦄ where
  mapped_bytes-response :
      (id_map : List (FrameId × FrameId)) (frame : Frame) (bytes : Bytes)
      (recorded client : FrameId)
      → frame.kind ≡ Kind.response
      → frame.id ≡ some recorded
      → id_get id_map recorded ≡ some client
      → mapped_bytes id_map frame bytes ≡ rewrite_id_in_value frame.value client
  unfolding mapped_bytes
  mapped_bytes-response id_map frame bytes recorded client k i e = ground (arith, k, i, e)

  pub match_remapped-same :
      (idx : ℕ) (expected : EventRecord) (incoming : Frame) (s : Session) (recorded : RecordId)
      (client : FrameId)
      → expected.id ≡ some recorded
      → incoming.id ≡ some client
      → hash_with_id incoming.value (record_id_to_wire recorded) ≡ expected.hash
      → match_remapped idx expected incoming s
        ≡ ok (record s {
          cursor = suc idx;
          id_map = id_insert s.id_map (record_id_to_wire recorded) client;
        })
  unfolding match_remapped
  match_remapped-same idx expected incoming s recorded client ei ii same =
      let equal =
        (==_iff (hash_with_id incoming.value (record_id_to_wire recorded)) expected.hash).1 same in
      ground (arith, ei, ii, equal)

  -- With `remap_ids`, a request of the client whose hash is not the recorded one, but is with the
  -- recorded id in its place, is matched; and a response with the recorded id is then written with
  -- the client's id in its place.
  pub match_frame-remapped :
      (opts : ReplayOptions) (events : List EventRecord) (s : Session) (idx : ℕ)
      (expected : EventRecord) (incoming : Frame) (recorded : RecordId) (client : FrameId)
      (response : Frame) (bytes : Bytes)
      → opts.remap_ids ≡ true
      → find_next_c2a events s.cursor ≡ ok (idx, expected)
      → payload_hash_str incoming ≢ expected.hash
      → expected.id ≡ some recorded
      → incoming.id ≡ some client
      → hash_with_id incoming.value (record_id_to_wire recorded) ≡ expected.hash
      → response.kind ≡ Kind.response
      → response.id ≡ some (record_id_to_wire recorded)
      → (next : Session) × (match_frame opts events incoming s ≡ ok next)
        × (next.cursor ≡ suc idx)
        × (mapped_bytes next.id_map response bytes ≡ rewrite_id_in_value response.value client)
  unfolding match_frame
  match_frame-remapped opts events s idx expected incoming recorded client response bytes on found
        differs ei ii same k i =
      let id_map = id_insert s.id_map (record_id_to_wire recorded) client in
      (
        record s { cursor = suc idx; id_map = id_map },
        rw (found, ==_ne (payload_hash_str incoming) expected.hash differs, on)
            (match_remapped-same idx expected incoming s recorded client ei ii same),
        refl,
        mapped_bytes-response id_map response bytes (record_id_to_wire recorded) client k i
            (id_get-id_insert s.id_map (record_id_to_wire recorded) client),
      )
