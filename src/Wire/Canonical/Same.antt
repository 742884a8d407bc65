-- ===== src/Wire/Canonical/Same.antt =====
-- Which values have one canonical form: those with the same members in some order.
use Prim.Native.Nat.{Ordering}
use acp_core.Base.{
  ℕ, suc, ◌≡◌, ◌↔◌, refl, ap, ap₂, sym, ◌∙◌, ◌≢◌, subst, inl, inr, Text, IsText, Bytes, All, List,
  [], ◌∷◌, ◌++◌, none, true, false,
}
use acp_core.Wire.Json.{
  Value, Items, Members, null, boolean, number, string, array, object, nil, cons, end, member,
  External, Json,
}
use acp_core.Wire.Canonical.{
  canonicalize, write_value, write_items, written_members, comma, write_entries, sort_entries,
  insert_entry, utf16_cmp,
}
use acp_core.Wire.Canonical.Order.{utf16_cmp_self}
use acp_core.Wire.Canonical.Sorting.{gt-cases, insert_entry_before, insert_entry_after}
use acp_core.Wire.Canonical.Tree.{
  members_of, text_of, texts_of, entry_texts, HasTexts, ItemsHaveTexts, MembersHaveTexts,
  IsNumberText,
}
use acp_core.Wire.Canonical.Entries.{sort_entries-All}
use acp_core.Wire.Canonical.Injective.{canonicalize-injective}
use acp_core.Wire.Canonical.Permuted.{
  SameJson, SameItems, SameMembers, same, same_array, same_object, same_then, same_nil, same_cons,
  same_end, same_member, swap, same_trans, same_members, SameJson-sym, canonicalize-same,
}

module _ ⦃x : External⦄ where
  -- A value with the text of each of its numbers; the members stay in their order.
  mutual
    pub printed : Json → Value Bytes
    printed null = null
    printed (boolean b) = boolean b
    printed (number n) = number (x.number_to_string n)
    printed (string s) = string s
    printed (array a) = array (printed_items a)
    printed (object o) = object (printed_members o)

    pub printed_items : Items x.Number → Items Bytes
    printed_items nil = nil
    printed_items (cons v a) = cons (printed v) (printed_items a)

    pub printed_members : Members x.Number → Members Bytes
    printed_members end = end
    printed_members (member k v o) = member k (printed v) (printed_members o)

-- Numbers that are their texts.
abbrev texts : External
texts = record {
  Number = Bytes;
  as_i64 = λ _. none;
  from_i64 = λ _. [];
  number_to_string = λ b. b;
  from_slice = λ _. none;
  to_vec = λ _. [];
  hash = λ b. b;
}

-- The canonical form sees of a number only its text.
module _ ⦃x : External⦄ where
  mutual
    unfolding write_value write_items written_members printed printed_items printed_members

    write_value-printed : (v : Json) → write_value ⦃x = texts⦄ (printed v) ≡ write_value v
    write_value-printed null = refl
    write_value-printed (boolean true) = refl
    write_value-printed (boolean false) = refl
    write_value-printed (number n) = refl
    write_value-printed (string s) = refl
    write_value-printed (array a) = ap (λ b. b'[' ∷ b ++ b']' ∷ []) (write_items-printed a 0)
    write_value-printed (object o) =
        ap (λ e. b'{' ∷ write_entries 0 (sort_entries e) ++ b'}' ∷ []) (written_members-printed o)

    write_items-printed :
        (a : Items x.Number) (i : ℕ) → write_items ⦃x = texts⦄ i (printed_items a) ≡ write_items i a
    write_items-printed nil i = refl
    write_items-printed (cons v a) i =
        ap₂ (λ b r. comma i ++ b ++ r) (write_value-printed v) (write_items-printed a (suc i))

    written_members-printed :
        (o : Members x.Number) → written_members ⦃x = texts⦄ (printed_members o) ≡ written_members o
    written_members-printed end = refl
    written_members-printed (member k v o) =
        ap₂ (λ b es. (k, b) ∷ es) (write_value-printed v) (written_members-printed o)

-- Inserting an entry only changes the order of members.
abbrev KeyIsText : Text × Value Bytes → Type 0
KeyIsText e = IsText e.0

insert_entry-same :
    (e : Text × Value Bytes) (es : List (Text × Value Bytes))
    → IsText e.0
    → All KeyIsText es
    → SameMembers (member e.0 e.1 (members_of es)) (members_of (insert_entry e es))
unfolding insert_entry
insert_entry-same e [] p q = same_members _
insert_entry-same e (d ∷ ds) p q = elim (gt-cases (utf16_cmp e.0 d.0)) [
  | inl gt ↦
      subst (λ l. SameMembers (member e.0 e.1 (members_of (d ∷ ds))) (members_of l))
        (sym (insert_entry_after e d ds gt))
        (same_trans (swap e.0 d.0 e.1 d.1 (members_of ds) p q.0 (keys_apart gt))
          (same_member d.0 (same d.1) (insert_entry-same e ds p q.1)))
  | inr ge ↦
      subst (λ l. SameMembers (member e.0 e.1 (members_of (d ∷ ds))) (members_of l))
        (sym (insert_entry_before e d ds ge)) (same_members _)
]
  where
    keys_apart : utf16_cmp e.0 d.0 ≡ Ordering.gt → e.0 ≢ d.0
    keys_apart gt k = let eq = ap (utf16_cmp e.0) (sym k) ∙ utf16_cmp_self e.0 in cc

module _ ⦃x : External⦄ where
  entry_texts-KeyIsText :
      (o : Members x.Number) → MembersHaveTexts o → All KeyIsText (entry_texts o)
  unfolding entry_texts MembersHaveTexts
  entry_texts-KeyIsText end p = tt
  entry_texts-KeyIsText (member k v o) p = (p.0, entry_texts-KeyIsText o p.2)

  mutual
    unfolding printed printed_items printed_members text_of texts_of entry_texts HasTexts
        ItemsHaveTexts MembersHaveTexts sort_entries

    printed-text_of : (v : Json) → HasTexts v → SameJson (printed v) (text_of v)
    printed-text_of null p = same null
    printed-text_of (boolean b) p = same (boolean b)
    printed-text_of (number n) p = same _
    printed-text_of (string s) p = same (string s)
    printed-text_of (array a) p = same_array (items-texts_of a p)
    printed-text_of (object o) p = same_object (members-sorted o p)

    items-texts_of :
        (a : Items x.Number) → ItemsHaveTexts a → SameItems (printed_items a) (texts_of a)
    items-texts_of nil p = same_nil
    items-texts_of (cons v a) p = same_cons (printed-text_of v p.0) (items-texts_of a p.1)

    members-sorted :
        (o : Members x.Number)
        → MembersHaveTexts o
        → SameMembers (printed_members o) (members_of (sort_entries (entry_texts o)))
    members-sorted end p = same_end
    members-sorted (member k v o) p =
        same_trans (same_member k (printed-text_of v p.1) (members-sorted o p.2)) (
          insert_entry-same (k, text_of v) (sort_entries (entry_texts o)) p.0
            (sort_entries-All KeyIsText (entry_texts o) (entry_texts-KeyIsText o p.2)))

  canonicalize-printed : (v : Json) → canonicalize ⦃x = texts⦄ (printed v) ≡ canonicalize v
  unfolding canonicalize
  canonicalize-printed v = write_value-printed v

  -- Two values have one canonical form exactly if, with their numbers printed, one is made of the other
  -- by changing the places of neighbouring members with different keys, at any depth. Their strings
  -- are of scalar values, and a number's text is of digits, signs, points and `e`.
  pub canonicalize_iff :
      (v w : Json)
      → IsNumberText x
      → HasTexts v
      → HasTexts w
      → (canonicalize v ≡ canonicalize w) ↔ SameJson (printed v) (printed w)
  canonicalize_iff v w numbers p q = (
    λ e. same_then (printed-text_of v p) (
        subst (λ t. SameJson t (printed w)) (sym (canonicalize-injective numbers v w p q e))
          (SameJson-sym (printed-text_of w q))),
    λ s. sym (canonicalize-printed v) ∙ canonicalize-same ⦃x = texts⦄ s ∙ canonicalize-printed w,
  )
