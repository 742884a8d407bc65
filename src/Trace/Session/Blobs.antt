-- ===== src/Trace/Session/Blobs.antt =====
-- Every row of a recording has its blob: the bytes of the first frame with the row's hash.
use acp_core.Base.{
  ℕ, zero, suc, ◌/◌, ◌%◌, ◌<◌, ◌≤◌, ◌≡◌, refl, ap, ap₂, sym, subst, ◌∙◌, inl, inr, Text, Bytes,
  codes, utf8, encode_utf8, true, false, List, [], ◌∷◌, ◌++◌, Option, none, some, ltb,
  if◌then◌else◌, ==_iff, ==_refl, nat_eq, list_eq, Bool-cases, All, length, get_elem?,
  take-append-drop, strip_prefix, arith,
}
use mathlib.Core.Option.{some-injective}
use acp_core.Base.Fallible.{ok}
use acp_core.Wire.Canonical.{hex}
use acp_core.Wire.Json.{External}
use acp_core.Wire.Hash.{payload_hash, hex_byte, hex_bytes, hex_with_prefix}
use acp_core.Wire.Hash.Digest.{IsByte, hex_bytes-ascii}
use acp_core.Wire.Frame.{Frame, parse, payload_hash_str}
use acp_core.Trace.Event.{Direction, EventRecord, Manifest}
use acp_core.Trace.Disk.{
  BlobPath, path_beq, Disk, Formats, read_blob, create_new, format_blake3_hex, blob_path,
}
use acp_core.Trace.Writer.{TraceWriter, create_with_clock, record_frame}
use acp_core.Trace.Reader.{split_at, hash_of, load_blob}
use acp_core.Trace.Session.{Observed, record_all, record_session}

pub format_blake3_hex-eq : (bytes : Bytes) → format_blake3_hex bytes ≡ hex_bytes bytes
unfolding format_blake3_hex hex_bytes hex_byte
format_blake3_hex-eq [] = refl
format_blake3_hex-eq (b ∷ bytes) =
    ap (λ s. hex (b / 16) ∷ hex (b % 16) ∷ s) (format_blake3_hex-eq bytes)

-- What `blake3::hash` returns: 32 bytes.
pub record IsBlake3 (x : External) : Type 0 where
  pub are_bytes : (b : Bytes) → All IsByte (x.hash b)
  pub are_32 : (b : Bytes) → length (x.hash b) ≡ 32

-- The path of a blob gives back its hash.
blob_path-injective : (s t : Text) → blob_path s ≡ blob_path t → s ≡ t
blob_path-injective s t e =
    sym (take-append-drop 2 s) ∙ ap (λ (p : BlobPath). p.0 ++ p.1) e ∙ take-append-drop 2 t

split_at-two :
    (s : Text)
    → All (λ c. c < 0x80) s
    → 2 ≤ length s
    → (split_at 2 s ≡ some (blob_path s)) × (ltb (length (utf8 s)) 2 ≡ false)
unfolding split_at encode_utf8
split_at-two [] p h = absurd (omega arith)
split_at-two (c ∷ []) p h = absurd (omega arith)
split_at-two (c ∷ d ∷ []) p h = ground arith
split_at-two (c ∷ d ∷ e ∷ s) p h = ground arith

read_blob-create :
    (blobs : List (BlobPath × Bytes)) (p q : BlobPath) (raw : Bytes)
    → read_blob (create_new blobs p raw) q ≡ elim (read_blob blobs q) [
      | none ↦ if path_beq p q then some raw else none
      | some b ↦ some b
    ]
unfolding read_blob create_new
read_blob-create blobs p q raw = ground (arith, ==_iff p.0 q.0, ==_iff p.1 q.1, path_eq p q)
  where
    path_eq : (p q : BlobPath) → p.0 ≡ q.0 → p.1 ≡ q.1 → read_blob blobs p ≡ read_blob blobs q
    path_eq p q e f = ap₂ (λ u v. read_blob blobs (u, v)) e f

pub path_beq-eq : (p q : BlobPath) → path_beq p q ≡ true → p ≡ q
path_beq-eq p q h =
    ap₂ (λ u v. (u, v)) (ground (arith, ==_iff p.0 q.0, ==_iff p.1 q.1))
      (ground (arith, ==_iff p.0 q.0, ==_iff p.1 q.1))

path_beq_self : (p : BlobPath) → path_beq p p ≡ true
path_beq_self p = ground (arith, ==_refl p.0, ==_refl p.1)

module _ ⦃x : External⦄ where
  -- The texts that acp-wire and acp-trace make of a payload hash are one.
  pub payload_hash_str-hash_of : (f : Frame) → payload_hash_str f ≡ hash_of f
  unfolding payload_hash_str hex_with_prefix hash_of
  payload_hash_str-hash_of f =
      ap (λ s. codes "blake3:" ++ s) (sym (format_blake3_hex-eq (payload_hash f.value)))

  abbrev pub path_of : Frame → BlobPath
  path_of f = blob_path (format_blake3_hex (payload_hash f.value))

  -- The bytes of the first frame with a given path.
  unfoldable pub first_at : List Observed → BlobPath → Option Bytes
  first_at [] p = none
  first_at ((now, dir, f) ∷ rest) p =
      let others = first_at rest p in if path_beq (path_of f) p then some f.raw else others

  read_blob-record_all :
      (F : Formats) (frames : List Observed) (wd : TraceWriter × Disk) (p : BlobPath)
      → read_blob (record_all F frames wd).1.blobs p
        ≡ elim (read_blob wd.1.blobs p) [ none ↦ first_at frames p | some b ↦ some b ]
  unfolding record_all first_at record_frame
  read_blob-record_all F [] wd p = ground arith
  read_blob-record_all F ((now, dir, f) ∷ rest) wd p = ground (
    arith,
    read_blob-record_all F rest (record_frame F now dir f wd) p,
    read_blob-create wd.1.blobs (path_of f) p f.raw,
  )

  -- Each frame came from `Frame::parse`.
  abbrev pub AreParsed : List Observed → Type 0
  AreParsed = All (λ o. parse (o.2).raw ≡ ok o.2)

  first_at-parsed :
      (frames : List Observed) (p : BlobPath) (b : Bytes)
      → AreParsed frames
      → first_at frames p ≡ some b
      → (g : Frame) × (parse b ≡ ok g) × (path_of g ≡ p)
  unfolding first_at
  first_at-parsed [] p b h e = absurd (cc)
  first_at-parsed ((now, dir, f) ∷ rest) p b h e = elim (Bool-cases (path_beq (path_of f) p)) [
    | inl here ↦
        let raw : f.raw ≡ b = some-injective _ _ (rw here at e) in
        (f, subst (λ r. parse r ≡ ok f) raw h.0, path_beq-eq (path_of f) p here)
    | inr other ↦ first_at-parsed rest p b h.1 (rw other at e)
  ]

  first_at_self :
      (frames : List Observed) (k : ℕ) {now : ℕ} {dir : Direction} {f : Frame}
      → get_elem? frames k ≡ some (now, dir, f)
      → (b : Bytes) × (first_at frames (path_of f) ≡ some b)
  unfolding first_at
  first_at_self [] k e = absurd (cc)
  first_at_self ((now, dir, g) ∷ rest) zero {f} e =
      let same : g ≡ f = ap (λ (o : Observed). o.2) (some-injective _ _ e) in
      let hit : path_beq (path_of g) (path_of f) ≡ true =
        subst (λ q. path_beq (path_of g) q ≡ true) (ap path_of same) (path_beq_self (path_of g)) in
      (g.raw, rw hit)
  first_at_self ((now, dir, g) ∷ rest) (suc k) {f} e =
      let (b, h) = first_at_self rest k e in
      elim (Bool-cases (path_beq (path_of g) (path_of f))) [
        | inl same ↦ (g.raw, rw same)
        | inr other ↦ (b, rw other h)
      ]

  pub digest :
      IsBlake3 x
      → (f : Frame) → All IsByte (payload_hash f.value) × (length (payload_hash f.value) ≡ 32)
  unfolding payload_hash
  digest law f = (law.are_bytes _, law.are_32 _)

  hex-ascii :
      IsBlake3 x
      → (f : Frame)
      → All (λ c. c < 0x80) (format_blake3_hex (payload_hash f.value))
        × (length (format_blake3_hex (payload_hash f.value)) ≡ 64)
  hex-ascii law f =
      let (are_bytes, are_32) = digest law f in
      let (ascii, size) = hex_bytes-ascii (payload_hash f.value) are_bytes in
      let e = format_blake3_hex-eq (payload_hash f.value) in (rw e ascii, rw e (omega arith))

  -- The text of a hash is ASCII.
  pub hash_of-ascii : IsBlake3 x → (f : Frame) → All (λ c. c < 0x80) (hash_of f)
  unfolding hash_of
  hash_of-ascii law f = (
    omega arith,
    (
      omega arith,
      (
        omega arith,
        (omega arith, (omega arith, (omega arith, (omega arith, (hex-ascii law f).0)))),
      ),
    ),
  )

  pub hash_text :
      IsBlake3 x
      → (f : Frame)
      → (split_at 2 (format_blake3_hex (payload_hash f.value)) ≡ some (path_of f))
        × (ltb (length (utf8 (format_blake3_hex (payload_hash f.value)))) 2 ≡ false)
  hash_text law f =
      let (ascii, size) = hex-ascii law f in
      split_at-two (format_blake3_hex (payload_hash f.value)) ascii (omega arith)

  pub strip-hash_of :
      (f : Frame)
      → strip_prefix (codes "blake3:") (hash_of f) ≡ some (format_blake3_hex (payload_hash f.value))
  unfolding hash_of
  strip-hash_of f = refl

  pub hash_of-same : (g f : Frame) → path_of g ≡ path_of f → hash_of g ≡ hash_of f
  unfolding hash_of
  hash_of-same g f same = ap (λ s. codes "blake3:" ++ s) (blob_path-injective _ _ same)

  pub load_blob-lem :
      (d : Disk) (row : EventRecord) (f g : Frame) (b : Bytes)
      → IsBlake3 x
      → row.hash ≡ hash_of f
      → read_blob d.blobs (path_of f) ≡ some b
      → parse b ≡ ok g
      → path_of g ≡ path_of f
      → load_blob d row ≡ ok b
  unfolding load_blob
  load_blob-lem d row f g b law eh er ep same =
      let (cut, long) = hash_text law f in
      rw (eh, strip-hash_of f, long, cut, er, ep, hash_of-same g f same, ==_refl (hash_of f))

  -- A row of a recording into a directory without blobs loads the bytes of the first frame that was
  -- recorded with the same payload hash as the row's frame. The frames were parsed from their
  -- bytes, and hashes are 32 bytes.
  pub load_blob-recorded :
      (F : Formats) (m : Manifest) (d : Disk) (frames : List Observed) (k : ℕ) (row : EventRecord)
      {now : ℕ} {dir : Direction} {f : Frame}
      → IsBlake3 x
      → AreParsed frames
      → d.blobs ≡ []
      → get_elem? frames k ≡ some (now, dir, f)
      → row.hash ≡ hash_of f
      → (b : Bytes) × (first_at frames (path_of f) ≡ some b)
        × (load_blob (record_session F m d frames).1 row ≡ ok b)
  unfolding record_session create_with_clock read_blob
  load_blob-recorded F m d frames k row {f} law parsed fresh here eh =
      let (b, first) = first_at_self frames k here in
      let (g, ep, same) = first_at-parsed frames (path_of f) b parsed first in
      let stored = read_blob-record_all F frames (create_with_clock F m d) (path_of f) in
      (b, first, load_blob-lem _ row f g b law eh (stored ∙ rw fresh first) ep same)
