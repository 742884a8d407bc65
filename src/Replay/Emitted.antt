-- ===== src/Replay/Emitted.antt =====
-- What offline replay writes for any trace, damaged ones too.
use acp_core.Base.{
  ℕ, suc, ◌+◌, ◌%◌, ◌^◌, ◌<◌, ◌≡◌, refl, ap, sym, ◌∙◌, inl, inr, Bytes, List, [], ◌∷◌, ◌++◌,
  append_assoc, append-nil, Option, none, some, length, arith,
}
use acp_core.Base.Fallible.{Result, ok, err, Result-cases}
use acp_core.Wire.Json.{External}
use acp_core.Wire.Frame.{Frame, parse}
use acp_core.Wire.Frame.Parsed.{parse_iff}
use acp_core.Wire.Reader.Stream.{wire_text}
use acp_core.Trace.Event.{c2a, a2c, EventRecord}
use acp_core.Trace.Disk.{Disk}
use acp_core.Trace.Reader.{TraceError, TraceReader, hash_of, load_blob}
use acp_core.Trace.Integrity.{load_blob_iff}
use acp_core.Replay.{ReplayError, trace, emit_raw, offline, replay_offline}
use acp_core.Replay.Offline.{emit_raw-stored, offline-emits}
use acp_core.Replay.Rounds.{direction-cases, offline-c2a}

-- The result behind some frames.
abbrev pub ended_with : Option TraceError → ℕ → Result ReplayError ℕ
ended_with none n = ok (n % 2 ^ 64)
ended_with (some e) n = err (trace e)

ended_with-suc :
    (e : Option TraceError) (n k : ℕ)
    → ended_with e ((n + 1) % 2 ^ 64 + k) ≡ ended_with e (n + suc k)
ended_with-suc none n k =
    let wrapped : ((n + 1) % 2 ^ 64 + k) % 2 ^ 64 ≡ (n + suc k) % 2 ^ 64 = omega arith in
    ap ok wrapped
ended_with-suc (some e) n k = refl

module _ ⦃x : External⦄ (d : Disk) where
  -- The frames that rows of a trace stand for, up to the end or to the first row of the agent that
  -- cannot be loaded.
  pub data Emits : List EventRecord → List Frame → Option TraceError → Type 0 where
    done : Emits [] [] none
    skips :
        {row : EventRecord} {rows : List EventRecord} {fs : List Frame} {e : Option TraceError}
        → row.dir ≡ c2a
        → Emits rows fs e
        → Emits (row ∷ rows) fs e
    writes :
        {row : EventRecord} {rows : List EventRecord} {f : Frame} {fs : List Frame}
        {e : Option TraceError}
        → row.dir ≡ a2c
        → load_blob d row ≡ ok f.raw
        → parse f.raw ≡ ok f
        → hash_of f ≡ row.hash
        → Emits rows fs e
        → Emits (row ∷ rows) (f ∷ fs) e
    fails :
        {row : EventRecord} {rows : List EventRecord} {e : TraceError}
        → row.dir ≡ a2c
        → load_blob d row ≡ err e
        → Emits (row ∷ rows) [] (some e)

  Emitted : List EventRecord → ℕ → Bytes → Type 0
  Emitted rows n out =
      (fs : List Frame) × (e : Option TraceError) × Emits rows fs e
      × (offline d rows n out ≡ (ended_with e (n + length fs), out ++ wire_text fs))

  offline-Emitted :
      (rows : List EventRecord) (n : ℕ) (out : Bytes) → n < 2 ^ 64 → Emitted rows n out
  unfolding offline emit_raw Emitted
  offline-Emitted [] n out small =
      let same : n ≡ (n + 0) % 2 ^ 64 = omega arith in
      (
        [],
        none,
        done,
        ap (λ k. (ok k, out)) same ∙ ap (λ b. (ok ((n + 0) % 2 ^ 64), b)) (sym (append-nil out)),
      )
  offline-Emitted (row ∷ rows) n out small = elim (direction-cases row.dir) [
    | inl dir ↦
        let (fs, e, h, run) = offline-Emitted rows n out small in
        (fs, e, skips dir h, offline-c2a d row rows n out dir ∙ run)
    | inr dir ↦ elim (Result-cases (load_blob d row)) [
      | inr (e, failed) ↦ (
        [],
        some e,
        fails dir failed,
        rw (dir, failed) (ap (λ b. (err (trace e), b)) (sym (append-nil out))),
      )
      | inl (b, loaded) ↦
          let h = (load_blob_iff d row b).0 loaded in
          let raw : h.frame.raw ≡ b =
            ap (λ (f : Frame). f.raw) ((parse_iff b h.frame).0 h.parsed).frame in
          let loaded' : load_blob d row ≡ ok h.frame.raw = loaded ∙ ap ok (sym raw) in
          let parsed : parse h.frame.raw ≡ ok h.frame = ap parse raw ∙ h.parsed in
          let line = h.frame.raw ++ b'\n' ∷ [] in
          let (fs, e, hs, run) =
            offline-Emitted rows ((n + 1) % 2 ^ 64) (out ++ line) (omega arith) in
          (
            h.frame ∷ fs,
            e,
            writes dir loaded' parsed h.same_hash hs,
            offline-emits d row rows n out dir (emit_raw-stored d row h.frame out loaded' parsed)
                ∙ run
                ∙ ap (λ r. (r, (out ++ line) ++ wire_text fs)) (ended_with-suc e n (length fs))
                ∙ ap (λ b. (ended_with e (n + suc (length fs)), b))
                    (append_assoc out line (wire_text fs)),
          )
    ]
  ]

-- Whatever is in the files of a trace, offline replay writes frames only, each of them the bytes in
-- the blob store with the payload hash of its row, one for each row of the agent, in order. It counts
-- them modulo 2^64; or a row's blob cannot be loaded, and then the error is that of `load_blob` and
-- the frames of the rows before have been written.
pub replay_offline-Emits :
    ⦃x : External⦄ (t : TraceReader) (out : Bytes)
    → (fs : List Frame) × (e : Option TraceError) × Emits t.disk t.events fs e
      × (replay_offline t out ≡ (ended_with e (length fs), out ++ wire_text fs))
unfolding replay_offline Emitted
replay_offline-Emits t out =
    let (fs, e, h, run) = offline-Emitted t.disk t.events 0 out (omega arith) in
    let from_zero : 0 + length fs ≡ length fs = omega arith in
    (fs, e, h, run ∙ ap (λ n. (ended_with e n, out ++ wire_text fs)) from_zero)
