-- ===== src/Wire/Canonical/Injective.antt =====
-- The canonical form of a value can be read back, so that values with one canonical form are the same
-- but for the order of members and the spelling of numbers.
use acp_core.Base.{
  ℕ, zero, suc, ◌+◌, ◌≤◌, ◌≡◌, refl, ap, sym, subst, ◌∙◌, Bytes, true, false, [], ◌∷◌, ◌++◌,
  append_assoc, append-nil, some, All, arith,
}
use mathlib.Core.Option.{some-injective}
use acp_core.Base.Loops.{◌>>=◌}
use acp_core.Wire.Json.{
  Value, Items, Members, null, boolean, number, string, array, object, nil, cons, end, member,
  External, Json,
}
use acp_core.Wire.Canonical.{
  canonicalize, write_value, write_items, written_members, comma, write_entries, sort_entries,
}
use acp_core.Wire.Canonical.Tree.{
  in_number, read_value, read_items, read_members, members_of, text_of, texts_of, size, items_size,
  HasTexts, ItemsHaveTexts, MembersHaveTexts, IsNumberText,
}
use acp_core.Wire.Canonical.Entries.{
  sort_entries-map_values, sort_entries-All, entries, total-sort_entries, members-entries,
}
use acp_core.Wire.Canonical.Readable.{ends, read_value-number, read_value-string}
use acp_core.Wire.Canonical.Elements.{IsReadable, IsEntry, items-ends, item-read, entries-read}

module _ ⦃x : External⦄ (numbers : IsNumberText x) where
  -- The same for fuel that is not zero.
  abbrev HasSuc : Json → Type 0
  HasSuc v =
      (n : ℕ) (r : Bytes)
      → size v ≤ suc n
      → ends r ≡ true
      → read_value (suc n) (write_value v ++ r) ≡ some (text_of v, r)

  size-pos : (v : Json) → 1 ≤ size v
  unfolding size
  size-pos null = omega arith
  size-pos (boolean b) = omega arith
  size-pos (number n) = omega arith
  size-pos (string s) = omega arith
  size-pos (array a) = omega arith
  size-pos (object o) = omega arith

  HasSuc-IsReadable : (v : Json) → HasSuc v → IsReadable v
  HasSuc-IsReadable v p zero r h e = absurd (omega (arith, size-pos v))
  HasSuc-IsReadable v p (suc n) r h e = p n r h e

  abbrev AreReadable : Items x.Number → Type 0
  AreReadable a =
      (i n : ℕ) (r : Bytes)
      → items_size a ≤ suc n
      → read_items (suc n) (write_items i a ++ b']' ∷ r) ≡ some (texts_of a, r)

  items-read :
      (a : Items x.Number)
      → AreReadable a
      → (i n : ℕ) (r : Bytes) → items_size a ≤ n
      → read_items n (write_items i a ++ b']' ∷ r) ≡ some (texts_of a, r)
  unfolding items_size
  items-read nil p i zero r h = absurd (omega arith)
  items-read (cons v a) p i zero r h = absurd (omega arith)
  items-read a p i (suc n) r h = p i n r h

  entries-object : (o : Members x.Number) → All IsEntry (entries o) → HasSuc (object o)
  unfolding write_value size text_of read_value
  entries-object o p n r h e =
      let es = entries o in
      let (written, texts, few) = members-entries o in
      ap (λ m. m >>= λ (b, u). some (object b, u))
        (ap (read_members n)
            (append_assoc (write_entries 0 (sort_entries (written_members o))) (b'}' ∷ []) r)
          ∙ ap (λ ws. read_members n (write_entries 0 ws ++ b'}' ∷ r))
              (ap sort_entries written ∙ sort_entries-map_values write_value es)
          ∙ entries-read 0 n (sort_entries es) r (sort_entries-All IsEntry es p)
              (omega (arith, total-sort_entries es)))
      ∙ ap (λ ts. some (object (members_of ts), r))
          (sym (ap sort_entries texts ∙ sort_entries-map_values text_of es))

  array-items : (a : Items x.Number) → AreReadable a → HasSuc (array a)
  unfolding write_value size text_of read_value
  array-items a p n r h e =
      ap (λ o. o >>= λ (b, u). some (array b, u))
        (ap (read_items n) (append_assoc (write_items 0 a) (b']' ∷ []) r)
          ∙ items-read a p 0 n r (omega arith))

  cons-items :
      (v : Json) (a : Items x.Number) → IsReadable v → AreReadable a → AreReadable (cons v a)
  unfolding write_items items_size texts_of
  cons-items v a p q i n r h =
      let rest = write_items (suc i) a ++ b']' ∷ r in
      ap (read_items (suc n))
        (append_assoc (comma i ++ write_value v) (write_items (suc i) a) (b']' ∷ r))
      ∙ item-read numbers i n v rest r (texts_of a) (p n rest (omega arith) (items-ends i a r))
          (items-read a q (suc i) n r (omega arith))

  nil-items : AreReadable nil
  unfolding write_items texts_of read_items
  nil-items i n r h = refl

  number-read : (m : x.Number) → HasSuc (number m)
  unfolding write_value text_of
  number-read m n r h e =
      let (c, s, eq) = numbers.first_of m in
      let plain = subst (All (λ c. in_number c ≡ true)) eq (numbers.in_all m) in
      ap (λ t. read_value (suc n) (t ++ r)) eq
      ∙ read_value-number n c s r plain e
      ∙ ap (λ t. some (number t, r)) (sym eq)

  mutual
    unfolding write_value size HasTexts text_of write_items items_size texts_of entries read_value

    value-read : (v : Json) → HasTexts v → HasSuc v
    value-read null p n r h e = refl
    value-read (boolean true) p n r h e = refl
    value-read (boolean false) p n r h e = refl
    value-read (number m) p n r h e = number-read m n r h e
    value-read (string s) p n r h e = read_value-string n s r p
    value-read (array a) p n r h e = array-items a (items-All a p) n r h e
    value-read (object o) p n r h e = entries-object o (entries-All o p) n r h e

    items-All : (a : Items x.Number) → ItemsHaveTexts a → AreReadable a
    items-All nil p = nil-items
    items-All (cons v a) p =
        cons-items v a (HasSuc-IsReadable v (value-read v p.0)) (items-All a p.1)

    entries-All : (o : Members x.Number) → MembersHaveTexts o → All IsEntry (entries o)
    entries-All end p = tt
    entries-All (member k v o) (tk, tv, p) =
        ((tk, HasSuc-IsReadable v (value-read v tv)), entries-All o p)

  -- The canonical form of a value whose strings are of scalar values is read back: numbers as their
  -- text, and members in ascending order of their keys.
  canonicalize-read :
      (v : Json)
      → HasTexts v
      → (n : ℕ) → size v ≤ suc n
      → read_value (suc n) (canonicalize v) ≡ some (text_of v, [])
  unfolding canonicalize
  canonicalize-read v p n h =
      ap (read_value (suc n)) (sym (append-nil (write_value v))) ∙ value-read v p n [] h refl

  -- Values with one canonical form are the same but for the order of members and for numbers that are
  -- printed alike, at any depth. Their strings are of scalar values, and a number's text is of digits,
  -- signs, points and `e`.
  pub canonicalize-injective :
      (v w : Json)
      → HasTexts v
      → HasTexts w
      → canonicalize v ≡ canonicalize w
      → text_of v ≡ text_of w
  canonicalize-injective v w p q e =
      let fuel = size v + size w in
      ap (λ (r : Value Bytes × Bytes). r.0)
        (some-injective _ _ (
          sym (canonicalize-read v p fuel (omega arith))
          ∙ ap (read_value (suc fuel)) e
          ∙ canonicalize-read w q fuel (omega arith)))
