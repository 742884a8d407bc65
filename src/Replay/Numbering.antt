-- ===== src/Replay/Numbering.antt =====
-- A client that numbers its requests in its own way: its frames, the responses in its numbering, and
-- what the map of ids knows of it.
use acp_core.Base.{
  ℤ, ◌≡◌, refl, ap, sym, subst, ◌∙◌, inl, inr, Text, Bytes, codes, true, false, List, [], ◌∷◌,
  Option, none, some, if◌then◌else◌, ==_iff, ==_refl, ◌==◌, nat_eq, list_eq, int_eq, Bool-cases,
  ◌/◌, ◌%◌, ◌++◌, arith,
}
use mathlib.Core.Option.{some-injective}
use acp_core.Wire.Json.{
  Value, null, boolean, number, string, array, object, Members, end, member, External, Json, get,
  insert,
}
use acp_core.Base.Fallible.{ok}
use acp_core.Wire.Canonical.{hex, canonicalize}
use acp_core.Wire.Hash.{hex_bytes, hex_byte, hex_with_prefix, payload_hash}
use acp_core.Wire.Frame.{
  IsSerde, FrameId, num, str, null_id, Frame, option_map, and_then, from_value, to_value, id_of,
  contains, parse, payload_hash_str,
}
use acp_core.Wire.Frame.Parsed.{parse_iff}
use acp_core.Trace.Event.{record_id}
use acp_core.Replay.{
  id_beq, id_get, id_insert, record_id_to_wire, hash_with_id, with_id, rewrite_id_in_value,
  hex_digits,
}

pub id_beq-eq : (j k : FrameId) → id_beq j k ≡ true → j ≡ k
id_beq-eq (num a) (num b) e = ap num ((==_iff a b).0 e)
id_beq-eq (str a) (str b) e = ap str ((==_iff a b).0 e)
id_beq-eq null_id null_id e = refl
id_beq-eq (num a) (str b) e = absurd (cc)
id_beq-eq (num a) null_id e = absurd (cc)
id_beq-eq (str a) (num b) e = absurd (cc)
id_beq-eq (str a) null_id e = absurd (cc)
id_beq-eq null_id (num b) e = absurd (cc)
id_beq-eq null_id (str b) e = absurd (cc)

-- What a map has for an id after an insertion.
pub id_get-id_insert_other :
    (m : List (FrameId × FrameId)) (k v q : FrameId)
    → id_get (id_insert m k v) q ≡ (if id_beq k q then some v else id_get m q)
unfolding id_get id_insert
id_get-id_insert_other [] k v q = refl
id_get-id_insert_other ((j, w) ∷ m) k v q = elim (Bool-cases (id_beq j k)) [
  | inl here ↦ rw (here, id_beq-eq j k here) (ground arith)
  | inr there ↦ rw there (ground (arith, id_get-id_insert_other m k v q, apart))
]
  where
    apart : id_beq j k ≡ false → id_beq k q ≡ true → id_beq j q ≡ false
    apart e f = subst (λ z. id_beq j z ≡ false) (id_beq-eq k q f) e

-- An object's member that was put in is found, and put in again takes its place; and the value
-- that a key has changes nothing when it is put in.
module _ {N : Type 0} (k : Text) where
  get-insert : (ms : Members N) (v : Value N) → get (insert ms k v) k ≡ some v
  unfolding get insert
  get-insert end v = rw (==_refl k)
  get-insert (member j w ms) v = elim (Bool-cases (j == k)) [
    | inl here ↦ rw (here, here)
    | inr there ↦ rw (there, there) (get-insert ms v)
  ]

  insert-insert : (ms : Members N) (v w : Value N) → insert (insert ms k v) k w ≡ insert ms k w
  unfolding insert
  insert-insert end v w = rw (==_refl k)
  insert-insert (member j u ms) v w = elim (Bool-cases (j == k)) [
    | inl here ↦ rw (here, here)
    | inr there ↦ rw (there, there, insert-insert ms v w)
  ]

  insert_found : (ms : Members N) (v : Value N) → get ms k ≡ some v → insert ms k v ≡ ms
  unfolding get insert
  insert_found end v e = absurd (cc)
  insert_found (member j u ms) v e = elim (Bool-cases (j == k)) [
    | inl here ↦ rw here (ap (λ z. member j z ms) (sym (some-injective _ _ (rw here at e))))
    | inr there ↦ rw there (ap (member j u) (insert_found ms v (rw there at e)))
  ]

pub record_id_to_wire-record_id : (id : FrameId) → record_id_to_wire (record_id id) ≡ id
unfolding record_id_to_wire record_id
record_id_to_wire-record_id (num n) = refl
record_id_to_wire-record_id (str s) = refl
record_id_to_wire-record_id null_id = refl

hex_digits-eq : (bytes : Bytes) → hex_digits bytes ≡ hex_bytes bytes
unfolding hex_digits hex_bytes hex_byte
hex_digits-eq [] = refl
hex_digits-eq (b ∷ bytes) = ap (λ s. hex (b / 16) ∷ hex (b % 16) ∷ s) (hex_digits-eq bytes)

option_map-some :
    (o : Option ℤ) {id : FrameId}
    → option_map num o ≡ some id
    → (i : ℤ) × (o ≡ some i) × (id ≡ num i)
option_map-some (some i) e = (i, refl, sym (some-injective _ _ e))
option_map-some none e = absurd (cc)

module _ ⦃x : External⦄ where
  to_value-from_value :
      (v : Json) (id : FrameId) → IsSerde x → from_value v ≡ some id → to_value id ≡ v
  unfolding to_value from_value
  to_value-from_value null id h e = ap to_value (sym (some-injective _ _ e))
  to_value-from_value (string s) id h e = ap to_value (sym (some-injective _ _ e))
  to_value-from_value (number n) id h e =
      let (i, small, same) = option_map-some (x.as_i64 n) e in
      ap to_value same ∙ ap number (h.as_i64_from n i small)
  to_value-from_value (boolean b) id h e = absurd (cc)
  to_value-from_value (array a) id h e = absurd (cc)
  to_value-from_value (object ms) id h e = absurd (cc)

  id_of-some :
      (o : Option Json) {id : FrameId}
      → and_then o from_value ≡ some id
      → (v : Json) × (o ≡ some v) × (from_value v ≡ some id)
  id_of-some (some v) e = (v, refl, e)
  id_of-some none e = absurd (cc)

  with_id-there :
      (obj : Members x.Number) (id : FrameId) {v : Json}
      → get obj (codes "id") ≡ some v
      → with_id (object obj) id ≡ object (insert obj (codes "id") (to_value id))
  unfolding with_id
  with_id-there obj id e = rw e

  -- A value with its id replaced and put back is the value.
  with_id-with_id :
      (obj : Members x.Number) (id other : FrameId)
      → IsSerde x
      → id_of obj ≡ some id
      → with_id (with_id (object obj) other) id ≡ object obj
  unfolding id_of
  with_id-with_id obj id other h e =
      let (v, found, same) = id_of-some (get obj (codes "id")) e in
      let again = get-insert (codes "id") obj (to_value other) in
      ap (λ w. with_id w id) (with_id-there obj other found)
      ∙ with_id-there _ id again
      ∙ ap object (
          insert-insert (codes "id") obj (to_value other) (to_value id)
          ∙ insert_found (codes "id") obj (to_value id)
              (found ∙ ap some (sym (to_value-from_value v id h same))))

  -- A frame under another id.
  unfoldable pub under : FrameId → Frame → Frame
  unfolding with_id
  under id f = record f {
    id = some id;
    value = with_id f.value id;
    raw = rewrite_id_in_value f.value id;
  }

  -- The hash of a parsed frame under another id is, with its own id put back, the frame's.
  pub hash_with_id-under :
      (f : Frame) (id other : FrameId)
      → IsSerde x
      → parse f.raw ≡ ok f
      → f.id ≡ some id
      → hash_with_id (under other f).value id ≡ payload_hash_str f
  unfolding under hash_with_id payload_hash_str acp_core.Replay.hex_with_prefix hex_with_prefix
      payload_hash
  hash_with_id-under f id other h p e =
      let d = (parse_iff f.raw f).0 p in
      let object_value : f.value ≡ object d.obj = ap (λ (g : Frame). g.value) d.frame in
      let own : id_of d.obj ≡ some id = sym (ap (λ (g : Frame). g.id) d.frame) ∙ e in
      let back : with_id (under other f).value id ≡ f.value =
        ap (λ v. with_id (with_id v other) id) object_value
        ∙ with_id-with_id d.obj id other h own
        ∙ sym object_value in
      ap (λ s. codes "blake3:" ++ s)
        (hex_digits-eq (x.hash (canonicalize (with_id (under other f).value id)))
          ∙ ap (λ v. hex_bytes (x.hash (canonicalize v))) back)

  -- Under its own id it keeps its hash.
  pub payload_hash_str-under :
      (f : Frame) (id : FrameId)
      → IsSerde x
      → parse f.raw ≡ ok f
      → f.id ≡ some id
      → payload_hash_str (under id f) ≡ payload_hash_str f
  unfolding under payload_hash_str id_of
  payload_hash_str-under f id h p e =
      let d = (parse_iff f.raw f).0 p in
      let object_value : f.value ≡ object d.obj = ap (λ (g : Frame). g.value) d.frame in
      let own : id_of d.obj ≡ some id = sym (ap (λ (g : Frame). g.id) d.frame) ∙ e in
      let (v, found, same) = id_of-some (get d.obj (codes "id")) own in
      let unchanged : with_id f.value id ≡ f.value =
        ap (λ v. with_id v id) object_value
        ∙ with_id-there d.obj id found
        ∙ ap object (
            insert_found (codes "id") d.obj (to_value id)
              (found ∙ ap some (sym (to_value-from_value v id h same))))
        ∙ sym object_value in
      ap (λ v. hex_with_prefix (payload_hash v)) unchanged

  -- Its text is one line.
  pub rewrite_id_in_value-one_line :
      (v : Json) (id : FrameId) → IsSerde x → contains (rewrite_id_in_value v id) b'\n' ≡ false
  unfolding rewrite_id_in_value
  rewrite_id_in_value-one_line (object ms) id h = h.one_line _
  rewrite_id_in_value-one_line null id h = h.one_line _
  rewrite_id_in_value-one_line (boolean b) id h = h.one_line _
  rewrite_id_in_value-one_line (number n) id h = h.one_line _
  rewrite_id_in_value-one_line (string s) id h = h.one_line _
  rewrite_id_in_value-one_line (array a) id h = h.one_line _
