-- ===== src/Cli/Inspect/Counts.antt =====
-- crates/acp-cli/src/main.rs: what `acp inspect` counts.
use acp_core.Base.{
  ℕ, suc, ◌+◌, ◌%◌, ◌^◌, ◌<◌, ◌≡◌, refl, ap, ap₂, ◌∙◌, subst, Text, Bool, true, false, ◌||◌, List,
  [], ◌∷◌, map, Bool-cases, inl, inr, if◌then◌else◌, ◌==◌, ==_iff, nat_eq, list_eq, length, arith,
}
use acp_core.Trace.Event.{EventRecord, c2a, a2c}
use acp_core.Cli.{count_rows, count_dirs}
use acp_core.Cli.Inspect.{has_hash, unique_hashes}
use acp_core.Wire.Json.{External}
use acp_core.Trace.Event.{Manifest}
use acp_core.Trace.Disk.{Disk, Formats}
use acp_core.Trace.Writer.{event_of}
use acp_core.Trace.Session.{Observed, rows_from}
use acp_core.Replay.Offline.{client_frames, agent_frames, opened}

-- No hash stands twice.
abbrev pub IsDistinct : List Text → Type 0
IsDistinct [] = Unit
IsDistinct (h ∷ set) = (has_hash set h ≡ false) × IsDistinct set

or_false : (b : Bool) → b ≡ (b || false)
or_false true = refl
or_false false = refl

new_hash :
    (later same before : Bool)
    → ((if same then true else before) || later) ≡ (before || (if same then true else later))
new_hash later same before = ground arith

old_hash :
    (later : Bool) (set : List Text) (old h : Text)
    → has_hash set old ≡ true
    → (has_hash set h || later) ≡ (has_hash set h || (if old == h then true else later))
old_hash later set old h e = elim (Bool-cases (old == h)) [
  | inl same ↦
      let found : has_hash set h ≡ true =
        subst (λ g. has_hash set g ≡ true) ((==_iff old h).0 same) e in
      rw found refl
  | inr other ↦ rw other refl
]

unique_hashes_lem :
    (events : List EventRecord) (set : List Text)
    → IsDistinct set
    → IsDistinct (unique_hashes events set)
      × ((h : Text)
          → has_hash (unique_hashes events set) h
            ≡ (has_hash set h || has_hash (map (λ e. e.hash) events) h))
unfolding unique_hashes
unique_hashes_lem [] set p = (p, λ h. or_false (has_hash set h))
unique_hashes_lem (e ∷ events) set p = elim (Bool-cases (has_hash set e.hash)) [
  | inl old ↦
      let (distinct, same) = unique_hashes_lem events set p in
      rw old
        (distinct, λ h. same h ∙ old_hash (has_hash (map (λ e. e.hash) events) h) set e.hash h old)
  | inr new ↦
      let (distinct, same) = unique_hashes_lem events (e.hash ∷ set) (new, p) in
      rw new (
        distinct,
        λ h.
            same h
            ∙ new_hash (has_hash (map (λ e. e.hash) events) h) (e.hash == h) (has_hash set h),
      )
]

-- The payloads that `acp inspect` counts are the hashes of the rows, each once.
pub unique_hashes-IsDistinct :
    (events : List EventRecord)
    → IsDistinct (unique_hashes events [])
      × ((h : Text) → has_hash (unique_hashes events []) h ≡ has_hash (map (λ e. e.hash) events) h)
unique_hashes-IsDistinct events = unique_hashes_lem events [] tt

module _ ⦃x : External⦄ where
  count_rows-rows_from :
      (seq : ℕ) (frames : List Observed) (c a : ℕ)
      → c + a + length frames < 2 ^ 64
      → count_rows (rows_from seq frames) (c, a)
        ≡ (c + length (client_frames frames), a + length (agent_frames frames))
  unfolding count_rows rows_from client_frames agent_frames event_of
  count_rows-rows_from seq [] c a h = ap₂ (λ c a. (c, a)) (omega arith) (omega arith)
  count_rows-rows_from seq ((now, c2a, f) ∷ rest) c a h =
      let next : (c + 1) % 2 ^ 64 ≡ c + 1 = omega arith in
      ap (λ n. count_rows (rows_from (suc seq) rest) (n, a)) next
      ∙ count_rows-rows_from (suc seq) rest (c + 1) a (omega arith)
      ∙ ap (λ n. (n, a + length (agent_frames rest))) (omega arith)
  count_rows-rows_from seq ((now, a2c, f) ∷ rest) c a h =
      let next : (a + 1) % 2 ^ 64 ≡ a + 1 = omega arith in
      ap (λ n. count_rows (rows_from (suc seq) rest) (c, n)) next
      ∙ count_rows-rows_from (suc seq) rest c (a + 1) (omega arith)
      ∙ ap (λ n. (c + length (client_frames rest), n)) (omega arith)

  -- Of a finished recording of fewer than 2^64 frames, `acp inspect` counts the frames that the client
  -- sent and those that the agent sent.
  pub count_dirs-recorded :
      (F : Formats) (m : Manifest) (d : Disk) (frames : List Observed) (now : Text)
      → length frames < 2 ^ 64
      → count_dirs (opened F m d frames now)
        ≡ (length (client_frames frames), length (agent_frames frames))
  unfolding count_dirs
  count_dirs-recorded F m d frames now small =
      count_rows-rows_from 0 frames 0 0 (omega arith)
      ∙ ap₂ (λ c a. (c, a)) (omega arith) (omega arith)
