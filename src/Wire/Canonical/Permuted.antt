-- ===== src/Wire/Canonical/Permuted.antt =====
-- JSON values that differ in the order of object members, at any depth, have one canonical form.
use acp_core.Base.{ℕ, suc, ◌≡◌, refl, sym, ap, ap₂, ◌≢◌, ◌∙◌, Text, IsText, Bytes, [], ◌∷◌, ◌++◌}
use acp_core.Wire.Json.{
  Value, Items, Members, array, object, nil, cons, end, member, External, Json,
}
use acp_core.Wire.Canonical.{
  canonicalize, write_value, write_items, written_members, sort_entries, insert_entry,
  write_entries, comma,
}
use acp_core.Wire.Canonical.Order.{utf16_cmp-eq}
use acp_core.Wire.Canonical.Sorting.{insert_entry_comm}

-- Equal but for the order of members: two neighbours of an object with different keys may change
-- places, any number of times, and the values inside may differ in the same way.
mutual
  pub data SameJson {N : Type 0} : Value N → Value N → Type 0 where
    same : (v : Value N) → SameJson v v
    same_array : {a b : Items N} → SameItems a b → SameJson (array a) (array b)
    same_object : {o p : Members N} → SameMembers o p → SameJson (object o) (object p)
    same_then : {u v w : Value N} → SameJson u v → SameJson v w → SameJson u w

  pub data SameItems {N : Type 0} : Items N → Items N → Type 0 where
    same_nil : SameItems nil nil
    same_cons :
        {v w : Value N} {a b : Items N}
        → SameJson v w
        → SameItems a b
        → SameItems (cons v a) (cons w b)

  pub data SameMembers {N : Type 0} : Members N → Members N → Type 0 where
    same_end : SameMembers end end
    same_member :
        {v w : Value N} {o p : Members N} (k : Text)
        → SameJson v w
        → SameMembers o p
        → SameMembers (member k v o) (member k w p)
    swap :
        (j k : Text) (v w : Value N) (o : Members N)
        → IsText j
        → IsText k
        → j ≢ k
        → SameMembers (member j v (member k w o)) (member k w (member j v o))
    same_trans : {o p q : Members N} → SameMembers o p → SameMembers p q → SameMembers o q

module _ {N : Type 0} where
  pub same_members : (o : Members N) → SameMembers o o
  same_members end = same_end
  same_members (member k v o) = same_member k (same v) (same_members o)

  mutual
    pub SameJson-sym : {v w : Value N} → SameJson v w → SameJson w v
    SameJson-sym (same v) = same v
    SameJson-sym (same_array s) = same_array (SameItems-sym s)
    SameJson-sym (same_object s) = same_object (SameMembers-sym s)
    SameJson-sym (same_then s t) = same_then (SameJson-sym t) (SameJson-sym s)

    SameItems-sym : {a b : Items N} → SameItems a b → SameItems b a
    SameItems-sym same_nil = same_nil
    SameItems-sym (same_cons s t) = same_cons (SameJson-sym s) (SameItems-sym t)

    SameMembers-sym : {o p : Members N} → SameMembers o p → SameMembers p o
    SameMembers-sym same_end = same_end
    SameMembers-sym (same_member k s t) = same_member k (SameJson-sym s) (SameMembers-sym t)
    SameMembers-sym (swap j k v w o tj tk ne) = swap k j w v o tk tj (λ e. ne (sym e))
    SameMembers-sym (same_trans s t) = same_trans (SameMembers-sym t) (SameMembers-sym s)

module _ ⦃x : External⦄ where
  mutual
    unfolding write_value sort_entries

    write_value-same : {v w : Json} → SameJson v w → write_value v ≡ write_value w
    write_value-same (same v) = refl
    write_value-same (same_then s t) = write_value-same s ∙ write_value-same t
    write_value-same (same_array s) =
        ap (λ (b : Bytes). b'[' ∷ b ++ b']' ∷ []) (write_items-same s 0)
    write_value-same (same_object s) =
        ap (λ e. b'{' ∷ write_entries 0 e ++ b'}' ∷ []) (sort_entries-same s)

    write_items-same :
        {a b : Items x.Number} → SameItems a b → (i : ℕ) → write_items i a ≡ write_items i b
    write_items-same same_nil i = refl
    write_items-same (same_cons s t) i =
        ap₂ (λ u v. comma i ++ u ++ v) (write_value-same s) (write_items-same t (suc i))

    sort_entries-same :
        {o p : Members x.Number}
        → SameMembers o p
        → sort_entries (written_members o) ≡ sort_entries (written_members p)
    sort_entries-same same_end = refl
    sort_entries-same (same_member k s t) =
        ap₂ (λ u e. insert_entry (k, u) e) (write_value-same s) (sort_entries-same t)
    sort_entries-same (swap j k v w o tj tk ne) =
        insert_entry_comm (j, write_value v) (k, write_value w) (sort_entries (written_members o))
          (λ e. ne (utf16_cmp-eq j k tj tk e))
    sort_entries-same (same_trans s t) = sort_entries-same s ∙ sort_entries-same t

  -- Two values that differ only in the order of object members, at any depth, have one canonical
  -- form.
  pub canonicalize-same : {v w : Json} → SameJson v w → canonicalize v ≡ canonicalize w
  unfolding canonicalize
  canonicalize-same s = write_value-same s
