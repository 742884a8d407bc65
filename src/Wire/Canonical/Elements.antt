-- ===== src/Wire/Canonical/Elements.antt =====
-- What is read back of the elements of arrays and objects.
use acp_core.Base.{
  ℕ, zero, suc, ◌≤◌, ◌≡◌, refl, ap, sym, ◌∙◌, Text, Bytes, IsText, true, false, List, [], ◌∷◌, ◌++◌,
  append_assoc, some, nat_beq, All, arith,
}
use acp_core.Wire.Json.{Items, Members, nil, cons, end, member, External, Json}
use acp_core.Wire.Canonical.{
  write_value, write_items, write_string, write_chars, comma, write_entries,
}
use acp_core.Wire.Canonical.Strings.{read_string-write_string}
use acp_core.Wire.Canonical.Tree.{
  read_value, read_items, read_members, members_of, text_of, size, IsNumberText,
}
use acp_core.Wire.Canonical.Entries.{map_values, total}
use acp_core.Wire.Canonical.Readable.{
  ends, starts_value, read_items-cons, read_members-cons, write_value-starts,
}

comma-suc : (i : ℕ) → comma (suc i) ≡ b',' ∷ []
comma-suc i = ground arith

module _ ⦃x : External⦄ where
  abbrev pub IsReadable : Json → Type 0
  IsReadable v =
      (n : ℕ) (r : Bytes)
      → size v ≤ n
      → ends r ≡ true
      → read_value n (write_value v ++ r) ≡ some (text_of v, r)

  pub items-ends :
      (i : ℕ) (a : Items x.Number) (r : Bytes) → ends (write_items (suc i) a ++ b']' ∷ r) ≡ true
  unfolding write_items
  items-ends i nil r = refl
  items-ends i (cons v a) r =
      ap (λ c. ends (c ++ write_value v ++ write_items (suc (suc i)) a ++ b']' ∷ r)) (comma-suc i)

  -- A member of an object, with its key.
  abbrev pub IsEntry : Text × Json → Type 0
  IsEntry e = IsText e.0 × IsReadable e.1

  entries-ends :
      (i : ℕ) (es : List (Text × Bytes)) (r : Bytes)
      → ends (write_entries (suc i) es ++ b'}' ∷ r) ≡ true
  unfolding write_entries
  entries-ends i [] r = refl
  entries-ends i ((k, v) ∷ es) r =
      ap (λ c. ends (c ++ write_string k ++ b':' ∷ v ++ write_entries (suc (suc i)) es ++ b'}' ∷ r))
        (comma-suc i)

  no_members-read : (n : ℕ) (r : Bytes) → read_members (suc n) (b'}' ∷ r) ≡ some (end, r)
  unfolding read_members
  no_members-read n r = refl

  member-read :
      (i n : ℕ) (k : Text) (v : Json) (rest r : Bytes) (o : Members Bytes)
      → IsText k
      → read_value n (write_value v ++ rest) ≡ some (text_of v, rest)
      → read_members n rest ≡ some (o, r)
      → read_members (suc n) (comma i ++ write_string k ++ (b':' ∷ (write_value v ++ rest)))
        ≡ some (member k (text_of v) o, r)
  unfolding write_string
  member-read zero n k v rest r o tk e f =
      let behind = b':' ∷ (write_value v ++ rest) in
      read_members-cons n b'"' ((write_chars k ++ b'"' ∷ []) ++ behind) (write_value v ++ rest) rest
        r k (text_of v) o refl (read_string-write_string k behind tk) e f
  member-read (suc i) n k v rest r o tk e f =
      let behind = b':' ∷ (write_value v ++ rest) in
      ap (λ c. read_members (suc n) (c ++ write_string k ++ behind)) (comma-suc i)
      ∙ read_members-cons n b',' (write_string k ++ behind) (write_value v ++ rest) rest r k
          (text_of v) o refl (read_string-write_string k behind tk) e f

  pub entries-read :
      (i n : ℕ) (es : List (Text × Json)) (r : Bytes)
      → All IsEntry es
      → total es ≤ n
      → read_members n (write_entries i (map_values write_value es) ++ b'}' ∷ r)
        ≡ some (members_of (map_values text_of es), r)
  unfolding total map_values write_entries
  entries-read i zero [] r p h = absurd (omega arith)
  entries-read i zero ((k, v) ∷ es) r p h = absurd (omega arith)
  entries-read i (suc n) [] r p h = no_members-read n r
  entries-read i (suc n) ((k, v) ∷ es) r ((tk, readable), p) h =
      let later = write_entries (suc i) (map_values write_value es) in
      let rest = later ++ b'}' ∷ r in
      ap (read_members (suc n)) (
        append_assoc (comma i ++ write_string k ++ b':' ∷ write_value v) later (b'}' ∷ r)
        ∙ append_assoc (comma i ++ write_string k) (b':' ∷ write_value v) rest)
      ∙ member-read i n k v rest r (members_of (map_values text_of es)) tk
          (readable n rest (omega arith) (entries-ends i (map_values write_value es) r))
          (entries-read (suc i) n es r p (omega arith))

module _ ⦃x : External⦄ (numbers : IsNumberText x) where
  value-cons :
      (v : Json)
      → (b : ℕ) × (s : Bytes) × (write_value v ≡ b ∷ s)
        × (nat_beq b b',' ≡ false)
        × (nat_beq b b']' ≡ false)
        × (nat_beq b b'}' ≡ false)
  unfolding starts_value
  value-cons v = first (write_value v) (write_value-starts numbers v)
    where
      first :
          (l : Bytes)
          → starts_value l ≡ true
          → (b : ℕ) × (s : Bytes) × (l ≡ b ∷ s)
            × (nat_beq b b',' ≡ false)
            × (nat_beq b b']' ≡ false)
            × (nat_beq b b'}' ≡ false)
      first [] h = absurd (cc)
      first (b ∷ s) h = (b, s, refl, ground arith, ground arith, ground arith)

  pub item-read :
      (i n : ℕ) (v : Json) (rest r : Bytes) (a : Items Bytes)
      → read_value n (write_value v ++ rest) ≡ some (text_of v, rest)
      → read_items n rest ≡ some (a, r)
      → read_items (suc n) (comma i ++ write_value v ++ rest) ≡ some (cons (text_of v) a, r)
  item-read zero n v rest r a e k =
      let (b, s, eq, no_comma, no_end, _) = value-cons v in
      ap (λ l. read_items (suc n) (l ++ rest)) eq
      ∙ read_items-cons n b (s ++ rest) rest r (text_of v) a no_end
          (rw no_comma (ap (λ l. read_value n (l ++ rest)) (sym eq) ∙ e)) k
  item-read (suc i) n v rest r a e k =
      ap (λ c. read_items (suc n) (c ++ write_value v ++ rest)) (comma-suc i)
      ∙ read_items-cons n b',' (write_value v ++ rest) rest r (text_of v) a refl e k
