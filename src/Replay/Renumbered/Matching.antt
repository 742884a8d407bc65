-- ===== src/Replay/Renumbered/Matching.antt =====
-- One round of interactive replay, for a client that numbers its requests in its own way.
use acp_core.Base.{
  ℕ, suc, ◌≡◌, ◌≢◌, refl, ap, Text, sym, subst, ◌∙◌, ◌⊎◌, inl, inr, Bytes, true, false, List, [],
  ◌∷◌, ◌++◌, append_assoc, some, ==_iff, ==_ne, ◌==◌, nat_eq, list_eq, int_eq, Bool-cases,
  Option-cases, drop, arith,
}
use acp_core.Base.Fallible.{ok}
use mathlib.Core.Option.{some-injective}
use acp_core.Wire.Json.{External}
use acp_core.Wire.Frame.{
  IsSerde, Kind, FrameId, Frame, option_map, parse, payload_hash_str, write_line,
}
use acp_core.Trace.Event.{c2a, a2c, EventRecord, record_kind, record_id}
use acp_core.Trace.Disk.{Disk}
use acp_core.Trace.Writer.{event_of}
use acp_core.Trace.Reader.{TraceReader, load_blob}
use acp_core.Trace.Session.Blobs.{payload_hash_str-hash_of}
use acp_core.Replay.{
  id_beq, id_insert, frame_is_response, is_response, emit_one, record_id_to_wire, hash_with_id,
}
use acp_core.Replay.Interactive.{Session, match_frame}
use acp_core.Replay.Offline.{emit_raw-stored, event_of-hash}
use acp_core.Replay.Rounds.{find-here, match_frame-same}
use acp_core.Replay.Remap.{match_remapped-same}
use acp_core.Replay.Numbering.{
  under, record_id_to_wire-record_id, payload_hash_str-under, hash_with_id-under, id_beq-eq,
}
use acp_core.Replay.Renumbered.{
  remapping, at, renumber, asks, answered, Tracks, IsToldApart, mapped_bytes-answered,
  answered-one_line, Tracks-same, Tracks-moved,
}

module _ ⦃x : External⦄ where
  event_of-is_response :
      (seq now : ℕ) (f : Frame)
      → is_response (event_of seq now a2c f).kind ≡ frame_is_response f.kind
  unfolding event_of record_kind
  event_of-is_response seq now f = ground arith

module _ ⦃x : External⦄ (σ : FrameId → FrameId) (serde : IsSerde x) where
  answered_other :
      (asked : List FrameId) (f : Frame) → frame_is_response f.kind ≡ false → answered σ asked f ≡ f
  unfolding answered
  answered_other asked f other = rw other

  -- A recorded row of the agent is written in the client's numbering.
  pub emit_one-answered :
      (d : Disk) (asked : List FrameId) (id_map : List (FrameId × FrameId)) (seq now : ℕ)
      (f : Frame) (out : Bytes)
      → Tracks σ asked id_map
      → load_blob d (event_of seq now a2c f) ≡ ok f.raw
      → parse f.raw ≡ ok f
      → emit_one true id_map d (event_of seq now a2c f) out
        ≡ ok (out ++ ((answered σ asked f).raw ++ b'\n' ∷ []))
  unfolding emit_one write_line
  emit_one-answered d asked id_map seq now f out tracks loaded p =
      let line = answered-one_line σ asked f serde p in
      let bytes = mapped_bytes-answered σ asked id_map f tracks in
      let kinds = event_of-is_response seq now f in
      elim (Bool-cases (frame_is_response f.kind)) [
        | inl response ↦
            rw (kinds, response, loaded, p, bytes, line)
              (ap ok (append_assoc out (answered σ asked f).raw (b'\n' ∷ [])))
        | inr other ↦
            rw (kinds, other, answered_other asked f other)
              (emit_raw-stored d (event_of seq now a2c f) f out loaded p)
      ]

  -- A request is put under its new id and is asked for, and every other frame is left as it is.
  renumber-cases :
      (asked : List FrameId) (f : Frame)
      → ((r : FrameId) × (f.id ≡ some r)
          × (renumber σ f ≡ under (σ r) f)
          × (asks asked f ≡ r ∷ asked))
        ⊎ ((renumber σ f ≡ f) × (asks asked f ≡ asked))
  unfolding renumber asks
  renumber-cases asked f = elim (kinds f.kind) [
    | inl request ↦ elim (Option-cases f.id) [
      | inl e ↦ inr (ground (arith, request, e), ground (arith, request, e))
      | inr (r, e) ↦ inl (r, e, ground (arith, request, e), ground (arith, request, e))
    ]
    | inr (inl notification) ↦ inr (ground (arith, notification), ground (arith, notification))
    | inr (inr response) ↦ inr (ground (arith, response), ground (arith, response))
  ]
    where
      kinds : (k : Kind) → (k ≡ Kind.request) ⊎ ((k ≡ Kind.notification) ⊎ (k ≡ Kind.response))
      kinds Kind.request = inl refl
      kinds Kind.notification = inr (inl refl)
      kinds Kind.response = inr (inr refl)

  event_of-payload : (seq now : ℕ) (f : Frame) → payload_hash_str f ≡ (event_of seq now c2a f).hash
  event_of-payload seq now f = payload_hash_str-hash_of f ∙ sym (event_of-hash seq now c2a f)

  module _ (t : TraceReader) where
    abbrev pub Matched : (asked : List FrameId) (g : Frame) (s : Session) → Type 0
    Matched asked g s =
        (id_map : List (FrameId × FrameId)) × (match_frame remapping t.events g s
          ≡ ok (at (suc s.cursor) s.emitted s.client_frames_consumed id_map))
        × Tracks σ asked id_map

    match_frame-under :
        (asked : List FrameId) (s : Session) (seq now : ℕ) (f : Frame) (rows : List EventRecord)
        (r : FrameId)
        → drop s.cursor t.events ≡ event_of seq now c2a f ∷ rows
        → parse f.raw ≡ ok f
        → f.id ≡ some r
        → payload_hash_str (under (σ r) f) ≢ payload_hash_str f
        → Tracks σ asked s.id_map
        → Matched (r ∷ asked) (under (σ r) f) s
    unfolding match_frame under event_of
    match_frame-under asked s seq now f rows r e p i differs tracks =
        let row = event_of seq now c2a f in
        let hash = event_of-payload seq now f in
        let own : row.id ≡ some (record_id r) = ap (option_map record_id) i in
        let to_wire = record_id_to_wire-record_id r in
        let back : hash_with_id (under (σ r) f).value (record_id_to_wire (record_id r)) ≡ row.hash =
          ap (hash_with_id (under (σ r) f).value) to_wire
          ∙ hash_with_id-under f r (σ r) serde p i
          ∙ hash in
        let other : payload_hash_str (under (σ r) f) ≢ row.hash =
          λ same. differs (same ∙ sym hash) in
        (
          id_insert s.id_map r (σ r),
          rw (find-here remapping t row rows s.cursor e refl, ==_ne _ row.hash other)
              (match_remapped-same s.cursor row (under (σ r) f) s (record_id r) (σ r) own refl back
                ∙ ap
                    (λ q. ok (
                      at (suc s.cursor) s.emitted s.client_frames_consumed
                        (id_insert s.id_map q (σ r))))
                    to_wire),
          Tracks-moved σ asked s.id_map r is_other tracks,
        )
      where
        is_other : id_beq (σ r) r ≡ false
        is_other = elim (Bool-cases (id_beq (σ r) r)) [
          | inr other ↦ other
          | inl same ↦ absurd (
              differs (
                ap (λ q. payload_hash_str (under q f)) (id_beq-eq (σ r) r same)
                ∙ payload_hash_str-under f r serde p i))
        ]

    -- A request of the client under its new id, and every other frame of it, is matched.
    pub match_frame-renumbered :
        (asked : List FrameId) (s : Session) (seq now : ℕ) (f : Frame) (rows : List EventRecord)
        → drop s.cursor t.events ≡ event_of seq now c2a f ∷ rows
        → parse f.raw ≡ ok f
        → IsToldApart σ f
        → Tracks σ asked s.id_map
        → Matched (asks asked f) (renumber σ f) s
    unfolding under event_of
    match_frame-renumbered asked s seq now f rows e p apart tracks = elim (renumber-cases asked f) [
      | inr (kept, same) ↦ (
        s.id_map,
        match_frame-same remapping t (event_of seq now c2a f) rows s (renumber σ f) e refl
            (ap payload_hash_str kept ∙ event_of-payload seq now f),
        subst (λ l. Tracks σ l s.id_map) (sym same) tracks,
      )
      | inl (r, i, moved, more) ↦
          elim (Bool-cases (payload_hash_str (renumber σ f) == payload_hash_str f)) [
            | inl same ↦
                let hash = (==_iff (payload_hash_str (renumber σ f)) (payload_hash_str f)).0 same in
                let unmoved : σ r ≡ r =
                  some-injective _ _ (ap (λ (g : Frame). g.id) (sym moved) ∙ apart hash ∙ i) in
                (
                  s.id_map,
                  match_frame-same remapping t (event_of seq now c2a f) rows s (renumber σ f) e refl
                      (hash ∙ event_of-payload seq now f),
                  subst (λ l. Tracks σ l s.id_map) (sym more)
                      (Tracks-same σ asked s.id_map r unmoved tracks),
                )
            | inr other ↦
                let differs : payload_hash_str (under (σ r) f) ≢ payload_hash_str f =
                  λ h. differ other (ap payload_hash_str moved ∙ h) in
                subst (λ l. Matched l (renumber σ f) s) (sym more)
                  (subst (λ g. Matched (r ∷ asked) g s) (sym moved)
                    (match_frame-under asked s seq now f rows r e p i differs tracks))
          ]
    ]
      where
        differ : {a b : Text} → (a == b) ≡ false → a ≢ b
        differ {a} {b} unlike e = let yes = (==_iff a b).1 e in let never : true ≡ false = cc in cc
