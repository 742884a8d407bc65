-- ===== src/Replay/Progress.antt =====
-- Interactive replay as long as the client sends what was recorded.
use acp_core.Base.{
  ℕ, suc, ◌+◌, ◌%◌, ◌^◌, ◌<◌, ◌≡◌, ap, sym, ◌∙◌, inl, inr, Text, Bytes, Bool, ◌&&◌, List, [], ◌∷◌,
  ◌++◌, map, Option, nat_eq, list_eq, int_eq, Bool-cases, length, drop, arith,
}
use acp_core.Base.Fallible.{ok, Result-cases, ok-injective}
use acp_core.Wire.Json.{External}
use acp_core.Wire.Frame.{WireError, Frame, payload_hash_str}
use acp_core.Trace.Event.{c2a, a2c, EventRecord}
use acp_core.Trace.Disk.{Disk}
use acp_core.Trace.Reader.{TraceReader, load_blob}
use acp_core.Trace.Integrity.{load_blob_iff}
use acp_core.Replay.{Outcome, emit_raw, emit_one, mapped_bytes, id_get, offline, is_response}
use acp_core.Replay.Interactive.{ReplayOptions, Session, emit_a2c_block, serve}
use acp_core.Replay.Rounds.{
  direction-cases, AwaitsClient, drop-suc, offline-c2a, offline-a2c, block-a2c, block-stops,
  match_frame-same, serve-frame,
}

-- The hashes of the rows that the client sent.
unfoldable pub client_hashes : List EventRecord → List Text
client_hashes [] = []
client_hashes (row ∷ rows) =
    let rest = client_hashes rows in elim row.dir [ c2a ↦ row.hash ∷ rest | a2c ↦ rest ]

client_hashes-a2c :
    (row : EventRecord) (rows : List EventRecord)
    → row.dir ≡ a2c
    → client_hashes (row ∷ rows) ≡ client_hashes rows
unfolding client_hashes
client_hashes-a2c row rows dir = ground arith

client_hashes-c2a :
    (row : EventRecord) (rows : List EventRecord)
    → row.dir ≡ c2a
    → client_hashes (row ∷ rows) ≡ row.hash ∷ client_hashes rows
unfolding client_hashes
client_hashes-c2a row rows dir = ground arith

module _ ⦃x : External⦄ where
  mapped_bytes-nil : (f : Frame) (b : Bytes) → mapped_bytes [] f b ≡ b
  unfolding mapped_bytes id_get
  mapped_bytes-nil f b = ground arith

  -- Without a mapping of ids, a response is written as it was recorded.
  emit_one-nil :
      (remap_ids : Bool) (d : Disk) (row : EventRecord) (out : Bytes)
      → emit_one remap_ids [] d row out ≡ emit_raw d row out
  unfolding emit_one emit_raw
  emit_one-nil remap_ids d row out = elim (Result-cases (load_blob d row)) [
    | inl (b, e) ↦
        let intact = (load_blob_iff d row b).0 e in
        elim (Bool-cases (remap_ids && is_response row.kind)) [
          | inl on ↦ rw (on, e, intact.parsed, mapped_bytes-nil intact.frame b)
          | inr off ↦ rw off
        ]
    | inr (er, e) ↦ ground (arith, e)
  ]

  -- The loop's variables while no id has been mapped.
  abbrev pub at : ℕ → ℕ → ℕ → Session
  at cursor emitted consumed = record {
    cursor = cursor;
    emitted = emitted;
    client_frames_consumed = consumed;
    id_map = [];
  }

  module _ (opts : ReplayOptions) (t : TraceReader) where
    -- A client's frames and the rows up to them, gone through.
    pub serve-prefix :
        (rows rest : List EventRecord) (idx n k : ℕ) (fs gs : List Frame)
        (ended_by : Option WireError) (out : Bytes) (n' : ℕ) (out' : Bytes)
        → drop idx t.events ≡ rows ++ rest
        → AwaitsClient rest
        → map payload_hash_str fs ≡ client_hashes rows
        → k + length fs < 2 ^ 64
        → offline t.disk rows n out ≡ (ok n', out')
        → serve opts t (fs ++ gs) ended_by (emit_a2c_block opts t (at idx n k) out)
          ≡ serve opts t gs ended_by (ok (at (idx + length rows) n' (k + length fs)), out')
    unfolding client_hashes offline
    serve-prefix [] rest idx n k [] gs ended_by out n' out' e stop same small off =
        let none_emitted : ◌≡◌ {A = ℕ} n n' = ok-injective (ap (λ (r : Outcome ℕ). r.0) off) in
        let none_written : ◌≡◌ {A = Bytes} out out' = ap (λ (r : Outcome ℕ). r.1) off in
        let stay : idx + 0 ≡ idx = omega arith in
        let none_read : k + 0 ≡ k = omega arith in
        rw (
          block-stops opts t rest (at idx n k) out e stop,
          stay,
          none_read,
          none_emitted,
          none_written,
        )
    serve-prefix [] rest idx n k (f ∷ fs) gs ended_by out n' out' e stop same small off =
        absurd (cc)
    serve-prefix (row ∷ rows) rest idx n k fs gs ended_by out n' out' e stop same small off =
        elim (direction-cases row.dir) [
          | inr dir ↦
              let (mid, one, off') = offline-a2c t.disk row rows n out dir off in
              let one' = emit_one-nil opts.remap_ids t.disk row out ∙ one in
              let next : idx + suc (length rows) ≡ suc idx + length rows = omega arith in
              rw (next, block-a2c opts t row (rows ++ rest) (at idx n k) out e dir one')
                (serve-prefix rows rest (suc idx) ((n + 1) % 2 ^ 64) k fs gs ended_by mid n' out'
                  (drop-suc t.events idx e) stop (same ∙ client_hashes-a2c row rows dir) small off')
          | inl dir ↦
              client fs (same ∙ client_hashes-c2a row rows dir) small dir λ gs' fs' same' small'.
                serve-prefix rows rest (suc idx) n (suc k) fs' gs' ended_by out n' out'
                  (drop-suc t.events idx e) stop same' small'
                  (sym (offline-c2a t.disk row rows n out dir) ∙ off)
        ]
      where
        client :
            (fs : List Frame)
            → map payload_hash_str fs ≡ row.hash ∷ client_hashes rows
            → k + length fs < 2 ^ 64
            → row.dir ≡ c2a
            → ((gs' fs' : List Frame)
                → map payload_hash_str fs' ≡ client_hashes rows
                → suc k + length fs' < 2 ^ 64
                → serve opts t
                    (fs' ++ gs')
                    ended_by
                    (emit_a2c_block opts t (at (suc idx) n (suc k)) out)
                  ≡ serve opts t gs' ended_by
                      (ok (at (suc idx + length rows) n' (suc k + length fs')), out'))
            → serve opts t (fs ++ gs) ended_by (emit_a2c_block opts t (at idx n k) out)
              ≡ serve opts t gs ended_by
                  (ok (at (idx + suc (length rows)) n' (k + length fs)), out')
        client [] same small dir later = absurd (cc)
        client (f ∷ fs) same small dir later =
            let next : idx + suc (length rows) ≡ suc idx + length rows = omega arith in
            let read : k + suc (length fs) ≡ suc k + length fs = omega arith in
            let hash : payload_hash_str f ≡ row.hash = cc in
            rw (next, read, block-stops opts t (row ∷ rows ++ rest) (at idx n k) out e dir)
              (serve-frame opts t f (fs ++ gs) ended_by (at idx n k) (at (suc idx) n k) out
                  (match_frame-same opts t row (rows ++ rest) (at idx n k) f e dir hash)
                  (omega arith)
                ∙ later gs fs (cc) (omega arith))
