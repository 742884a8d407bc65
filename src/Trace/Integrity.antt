-- ===== src/Trace/Integrity.antt =====
-- When `load_blob` gives bytes, and when a trace opens.
use acp_core.Base.{
  ◌≡◌, ◌↔◌, Text, Bytes, codes, utf8, false, some, ltb, ◌==◌, ==_iff, ==_refl, nat_eq, list_eq,
  Bool-cases, inl, inr, length, strip_prefix,
}
use acp_core.Base.Fallible.{
  ok, ok_or, map_err, OnOk, on_ok, on_err, OnOk-bind, OnOk-eq, map_err-eq-ok, ok_or-eq-ok,
}
use acp_core.Wire.Json.{External}
use acp_core.Wire.Frame.{Frame, parse}
use acp_core.Trace.Event.{EventRecord}
use acp_core.Trace.Disk.{BlobPath, Disk, read_blob}
use acp_core.Trace.Reader.{TraceError, split_at, hash_of, load_blob}

module _ ⦃x : External⦄ (d : Disk) (row : EventRecord) (b : Bytes) where
  -- The blob store has `b` where the row's hash points, and `b` is a frame with that hash.
  pub record IsIntact : Type 0 where
    pub digits : Text
    pub path : BlobPath
    pub frame : Frame
    pub prefixed : strip_prefix (codes "blake3:") row.hash ≡ some digits
    pub long : ltb (length (utf8 digits)) 2 ≡ false
    pub cut : split_at 2 digits ≡ some path
    pub stored : read_blob d.blobs path ≡ some b
    pub parsed : parse b ≡ ok frame
    pub same_hash : hash_of frame ≡ row.hash

module _ ⦃x : External⦄ (d : Disk) (row : EventRecord) where
  load_blob-OnOk : OnOk (IsIntact d row) (load_blob d row)
  unfolding load_blob
  load_blob-OnOk =
      OnOk-bind (ok_or (strip_prefix (codes "blake3:") row.hash) _) _ λ digits prefixed.
        elim (Bool-cases (ltb (length (utf8 digits)) 2)) [
          | inl short ↦ rw short on_err
          | inr long ↦ rw long (
              OnOk-bind (ok_or (split_at 2 digits) _) _ λ path cut.
                OnOk-bind (ok_or (read_blob d.blobs path) _) _ λ bytes stored.
                  OnOk-bind (map_err TraceError.wire (parse bytes)) _ λ frame parsed.
                    elim (Bool-cases (hash_of frame == row.hash)) [
                      | inl same ↦ rw same (
                          on_ok (record {
                            digits = digits;
                            path = path;
                            frame = frame;
                            prefixed = ok_or-eq-ok _ _ prefixed;
                            long = long;
                            cut = ok_or-eq-ok _ _ cut;
                            stored = ok_or-eq-ok _ _ stored;
                            parsed = map_err-eq-ok _ (parse bytes) parsed;
                            same_hash = (==_iff (hash_of frame) row.hash).0 same;
                          }))
                      | inr other ↦ rw other on_err
                    ])
        ]

  -- `load_blob` gives exactly the bytes that the blob store has where the row's hash points and that
  -- are a frame with that hash.
  pub load_blob_iff : (b : Bytes) → (load_blob d row ≡ ok b) ↔ IsIntact d row b
  unfolding load_blob
  load_blob_iff b = (
    λ e. OnOk-eq load_blob-OnOk e,
    λ h. rw (h.prefixed, h.long, h.cut, h.stored, h.parsed, h.same_hash, ==_refl row.hash),
  )
