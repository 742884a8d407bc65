-- ===== src/Replay/Rounds.antt =====
-- The steps of both kinds of replay: a row of the agent that is written, a frame of the client that is
-- matched, and where a block of the agent's rows ends.
use acp_core.Base.{
  ℕ, zero, suc, ◌+◌, ◌%◌, ◌^◌, ◌<◌, ◌≡◌, refl, ap, ◌∙◌, ◌⊎◌, inl, inr, Bytes, Bool, List, [], ◌∷◌,
  Option, some, ==_refl, nat_eq, list_eq, int_eq, drop, arith,
}
use acp_core.Base.Fallible.{ok, err, Result-cases}
use acp_core.Wire.Json.{External}
use acp_core.Wire.Frame.{FrameId, WireError, Frame, payload_hash_str}
use acp_core.Trace.Event.{Direction, c2a, a2c, EventRecord}
use acp_core.Trace.Disk.{Disk}
use acp_core.Trace.Reader.{TraceReader}
use acp_core.Replay.{find_next_c2a, next_c2a, emit_raw, emit_one, emit_rows, offline}
use acp_core.Replay.Interactive.{
  ReplayOptions, Session, match_frame, emit_a2c_block, count_frame, serve,
}

pub direction-cases : (d : Direction) → (d ≡ c2a) ⊎ (d ≡ a2c)
direction-cases c2a = inl refl
direction-cases a2c = inr refl

-- The rows are at an end or go on with a frame of the client.
abbrev pub AwaitsClient : List EventRecord → Type 0
AwaitsClient [] = Unit
AwaitsClient (row ∷ rows) = row.dir ≡ c2a

pub drop-suc {ℓ} :
    {A : Type ℓ} (xs : List A) (i : ℕ) {y : A} {ys : List A}
    → drop i xs ≡ y ∷ ys
    → drop (suc i) xs ≡ ys
drop-suc [] zero e = absurd (cc)
drop-suc [] (suc i) e = absurd (cc)
drop-suc (x ∷ xs) zero e = ap (λ l. drop 1 l) e
drop-suc (x ∷ xs) (suc i) e = drop-suc xs i e

module _ ⦃x : External⦄ where
  pub emit_rows-a2c :
      (remap_ids : Bool) (id_map : List (FrameId × FrameId)) (d : Disk) (idx : ℕ)
      (row : EventRecord) (rows : List EventRecord) (n : ℕ) (out : Bytes) {out' : Bytes}
      → row.dir ≡ a2c
      → emit_one remap_ids id_map d row out ≡ ok out'
      → emit_rows remap_ids id_map d idx (row ∷ rows) n out
        ≡ emit_rows remap_ids id_map d (suc idx) rows ((n + 1) % 2 ^ 64) out'
  unfolding emit_rows
  emit_rows-a2c remap_ids id_map d idx row rows n out dir one = ground arith

  next_c2a-here :
      (idx : ℕ) (row : EventRecord) (rows : List EventRecord)
      → row.dir ≡ c2a
      → next_c2a idx (row ∷ rows) ≡ some (idx, row)
  unfolding next_c2a
  next_c2a-here idx row rows dir = ground arith

  pub offline-c2a :
      (d : Disk) (row : EventRecord) (rows : List EventRecord) (n : ℕ) (out : Bytes)
      → row.dir ≡ c2a
      → offline d (row ∷ rows) n out ≡ offline d rows n out
  unfolding offline
  offline-c2a d row rows n out dir = ground arith

  -- A row of the agent that was written, and the rows behind it.
  pub offline-a2c :
      (d : Disk) (row : EventRecord) (rows : List EventRecord) (n : ℕ) (out : Bytes) {n' : ℕ}
      {out' : Bytes}
      → row.dir ≡ a2c
      → offline d (row ∷ rows) n out ≡ (ok n', out')
      → (mid : Bytes) × (emit_raw d row out ≡ ok mid)
        × (offline d rows ((n + 1) % 2 ^ 64) mid ≡ (ok n', out'))
  unfolding offline
  offline-a2c d row rows n out dir e = elim (Result-cases (emit_raw d row out)) [
    | inl (mid, one) ↦ (mid, one, ground (arith, e))
    | inr (er, failed) ↦ absurd (ground (arith, e))
  ]

  module _ (opts : ReplayOptions) (t : TraceReader) where
    -- The block goes on behind a row of the agent that was written.
    pub block-a2c :
        (row : EventRecord) (rows : List EventRecord) (s : Session) (out : Bytes) {out' : Bytes}
        → drop s.cursor t.events ≡ row ∷ rows
        → row.dir ≡ a2c
        → emit_one opts.remap_ids s.id_map t.disk row out ≡ ok out'
        → emit_a2c_block opts t s out
          ≡ emit_a2c_block opts t
              (record s { cursor = suc s.cursor; emitted = (s.emitted + 1) % 2 ^ 64 })
              out'
    unfolding emit_a2c_block emit_rows
    block-a2c row rows s out e dir one = rw (
      e,
      drop-suc t.events s.cursor e,
      emit_rows-a2c opts.remap_ids s.id_map t.disk s.cursor row rows s.emitted out dir one,
    )

    -- And it ends before a row of the client.
    pub block-stops :
        (rows : List EventRecord) (s : Session) (out : Bytes)
        → drop s.cursor t.events ≡ rows
        → AwaitsClient rows
        → emit_a2c_block opts t s out ≡ (ok s, out)
    unfolding emit_a2c_block emit_rows
    block-stops [] s out e stop = rw e
    block-stops (row ∷ rows) s out e stop = rw (e, stop)

    pub find-here :
        (row : EventRecord) (rows : List EventRecord) (idx : ℕ)
        → drop idx t.events ≡ row ∷ rows
        → row.dir ≡ c2a
        → find_next_c2a t.events idx ≡ ok (idx, row)
    unfolding find_next_c2a
    find-here row rows idx e dir = rw (find_next_c2a, e, next_c2a-here idx row rows dir)

    -- A frame of the client with the recorded hash is matched.
    pub match_frame-same :
        (row : EventRecord) (rows : List EventRecord) (s : Session) (f : Frame)
        → drop s.cursor t.events ≡ row ∷ rows
        → row.dir ≡ c2a
        → payload_hash_str f ≡ row.hash
        → match_frame opts t.events f s ≡ ok (record s { cursor = suc s.cursor })
    unfolding match_frame
    match_frame-same row rows s f e dir same =
        rw (find-here row rows s.cursor e dir, same, ==_refl row.hash)

    -- A matched frame is counted, and the agent's rows behind it follow.
    pub serve-frame :
        (f : Frame) (fs : List Frame) (ended_by : Option WireError) (s s' : Session) (out : Bytes)
        → match_frame opts t.events f s ≡ ok s'
        → s'.client_frames_consumed + 1 < 2 ^ 64
        → serve opts t (f ∷ fs) ended_by (ok s, out)
          ≡ serve opts t fs ended_by (
              emit_a2c_block opts t
                (record s' { client_frames_consumed = suc s'.client_frames_consumed })
                out)
    unfolding serve count_frame
    serve-frame f fs ended_by s s' out matched small =
        let k = s'.client_frames_consumed in
        let wrapped : (k + 1) % 2 ^ 64 ≡ suc k = omega arith in
        ap
          (λ r. elim r [
            | err e ↦ (err e, out)
            | ok s' ↦ serve opts t fs ended_by (emit_a2c_block opts t (count_frame s') out)
          ])
          matched
        ∙ ap
            (λ m.
              serve opts t fs ended_by
                (emit_a2c_block opts t (record s' { client_frames_consumed = m }) out))
            wrapped
