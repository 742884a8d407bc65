-- ===== src/Replay/Renumbered.antt =====
-- A whole replay with `remap_ids`, to a client that numbers its requests in its own way.
pub mod Matching
pub mod Roundtrip
use acp_core.Base.{
  ℕ, suc, ◌+◌, ◌%◌, ◌^◌, ◌<◌, ◌≤◌, ◌≡◌, ◌≢◌, refl, ap, sym, subst, ◌∙◌, inl, inr, Bytes, Bool, true,
  false, not, ◌&&◌, ◌||◌, List, [], ◌∷◌, ◌++◌, append_assoc, append-nil, map, Option, none, some,
  if◌then◌else◌, ==_ne, ==_refl, nat_eq, list_eq, int_eq, Bool-cases, Option-cases, All, length,
  drop, arith,
}
use acp_core.Base.Fallible.{ok}
use acp_core.Wire.Json.{External}
use acp_core.Wire.Frame.{
  IsSerde, Kind, FrameId, Frame, contains, parse, payload_hash_str, write_line,
}
use acp_core.Wire.Frame.Parsed.{parse_iff}
use acp_core.Wire.Reader.Stream.{wire_text}
use acp_core.Trace.Event.{Direction, c2a, a2c, EventRecord, record_kind}
use acp_core.Trace.Disk.{Disk}
use acp_core.Trace.Writer.{event_of}
use acp_core.Trace.Reader.{TraceReader, hash_of, load_blob}
use acp_core.Trace.Session.{Observed, rows_from}
use acp_core.Trace.Session.Blobs.{AreParsed}
use acp_core.Replay.{
  id_beq, id_get, id_insert, frame_is_response, mapped_bytes, emit_one, emit_raw,
  rewrite_id_in_value,
}
use acp_core.Replay.Offline.{agent_frames, client_frames, AreStored, emit_raw-stored, event_of-hash}
use acp_core.Replay.Interactive.{ReplayOptions, Session}
use acp_core.Replay.Remap.{id_beq_self, match_remapped-same}
use acp_core.Replay.Numbering.{
  under, rewrite_id_in_value-one_line, id_get-id_insert_other, id_beq-eq,
  record_id_to_wire-record_id, payload_hash_str-under, hash_with_id-under,
}

abbrev pub remapping : ReplayOptions
remapping = record { remap_ids = true }

-- The loop's variables.
abbrev pub at : ℕ → ℕ → ℕ → List (FrameId × FrameId) → Session
at cursor emitted consumed id_map = record {
  cursor = cursor;
  emitted = emitted;
  client_frames_consumed = consumed;
  id_map = id_map;
}

-- Whether an id is among those of the client's requests.
unfoldable pub asked_for : List FrameId → FrameId → Bool
asked_for [] q = false
asked_for (r ∷ asked) q = id_beq r q || asked_for asked q

module _ ⦃x : External⦄ where
  -- The ids of the client's requests, with one more frame.
  unfoldable pub asks : List FrameId → Frame → List FrameId
  asks asked f = elim f.kind [
    | Kind.request ↦ elim f.id [ none ↦ asked | some r ↦ r ∷ asked ]
    | Kind.notification ↦ asked
    | Kind.response ↦ asked
  ]

module _ ⦃x : External⦄ (σ : FrameId → FrameId) where
  -- What the client sends now for a frame that it sent when recording: a request has another id.
  unfoldable pub renumber : Frame → Frame
  unfolding under
  renumber f = elim f.kind [
    | Kind.request ↦ elim f.id [ none ↦ f | some r ↦ under (σ r) f ]
    | Kind.notification ↦ f
    | Kind.response ↦ f
  ]

  -- Whether a response with an id is to be written with another one.
  unfoldable pub is_moved : List FrameId → FrameId → Bool
  is_moved asked r = asked_for asked r && not (id_beq (σ r) r)

  -- What the client is to be sent for a frame of the agent.
  unfoldable pub answered : List FrameId → Frame → Frame
  unfolding under is_moved
  answered asked f =
      if frame_is_response f.kind
      then elim f.id [ none ↦ f | some r ↦ if is_moved asked r then under (σ r) f else f ]
      else f

  -- What the client is to be sent for a whole session.
  unfoldable pub answers : List FrameId → List Observed → List Frame
  unfolding asks answered
  answers asked [] = []
  answers asked ((now, c2a, f) ∷ rest) = answers (asks asked f) rest
  answers asked ((now, a2c, f) ∷ rest) = answered asked f ∷ answers asked rest

  -- The map of ids has the client's id for each id that was asked for and that the client changes.
  abbrev pub Tracks : List FrameId → List (FrameId × FrameId) → Type 0
  Tracks asked id_map =
      (q : FrameId) → id_get id_map q ≡ (if is_moved asked q then some (σ q) else none)

  pub mapped_bytes-answered :
      (asked : List FrameId) (id_map : List (FrameId × FrameId)) (f : Frame)
      → Tracks asked id_map
      → mapped_bytes id_map f f.raw ≡ (answered asked f).raw
  unfolding mapped_bytes answered under
  mapped_bytes-answered asked id_map f tracks = elim (Option-cases f.id) [
    | inl e ↦ ground (arith, e)
    | inr (r, e) ↦ ground (arith, e, tracks r)
  ]

  pub answered-one_line :
      (asked : List FrameId) (f : Frame)
      → IsSerde x
      → parse f.raw ≡ ok f
      → contains (answered asked f).raw b'\n' ≡ false
  unfolding answered under
  answered-one_line asked f h p =
      let plain = ((parse_iff f.raw f).0 p).one_line in
      elim (Option-cases f.id) [
        | inl e ↦ ground (arith, e, plain)
        | inr (r, e) ↦ ground (arith, e, plain, rewrite_id_in_value-one_line f.value (σ r) h)
      ]

  -- Renumbering is seen in a frame's hash.
  abbrev pub IsToldApart : Frame → Type 0
  IsToldApart f = payload_hash_str (renumber f) ≡ payload_hash_str f → (renumber f).id ≡ f.id

  module _ (asked : List FrameId) (id_map : List (FrameId × FrameId)) (r : FrameId) where
    pub Tracks-same : σ r ≡ r → Tracks asked id_map → Tracks (r ∷ asked) id_map
    unfolding is_moved asked_for
    Tracks-same same tracks q = elim (Bool-cases (id_beq r q)) [
      | inl here ↦
          let own : id_beq (σ q) q ≡ true =
            subst (λ z. id_beq (σ z) z ≡ true) (id_beq-eq r q here)
              (ap (λ z. id_beq z r) same ∙ id_beq_self r) in
          ground (arith, here, own, tracks q)
      | inr there ↦ rw there (tracks q)
    ]

    pub Tracks-moved :
        id_beq (σ r) r ≡ false → Tracks asked id_map → Tracks (r ∷ asked) (id_insert id_map r (σ r))
    unfolding is_moved asked_for
    Tracks-moved moved tracks q = elim (Bool-cases (id_beq r q)) [
      | inl here ↦
          let other : id_beq (σ q) q ≡ false =
            subst (λ z. id_beq (σ z) z ≡ false) (id_beq-eq r q here) moved in
          let to : σ r ≡ σ q = ap σ (id_beq-eq r q here) in
          rw (id_get-id_insert_other id_map r (σ r) q, here, other, to)
      | inr there ↦ rw (id_get-id_insert_other id_map r (σ r) q, there) (tracks q)
    ]
