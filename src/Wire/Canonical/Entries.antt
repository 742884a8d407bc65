-- ===== src/Wire/Canonical/Entries.antt =====
-- An object's members as a list, and what sorting keeps of it.
use acp_core.Base.{ℕ, suc, ◌+◌, ◌≡◌, refl, ap, ◌∙◌, inl, inr, Text, All, List, [], ◌∷◌, arith}
use acp_core.Wire.Json.{Members, end, member, External, Json}
use acp_core.Wire.Canonical.{utf16_cmp, insert_entry, sort_entries, write_value, written_members}
use acp_core.Wire.Canonical.Sorting.{
  gt-cases, All-insert_entry, insert_entry_before, insert_entry_after,
}
use acp_core.Wire.Canonical.Tree.{size, members_size, text_of, entry_texts}

unfoldable pub map_values : {A B : Type 0} → (A → B) → List (Text × A) → List (Text × B)
map_values f [] = []
map_values f ((k, a) ∷ es) = (k, f a) ∷ map_values f es

module _ {A B : Type 0} (f : A → B) where
  insert_entry-map_values :
      (e : Text × A) (es : List (Text × A))
      → insert_entry (e.0, f e.1) (map_values f es) ≡ map_values f (insert_entry e es)
  unfolding insert_entry map_values
  insert_entry-map_values e [] = refl
  insert_entry-map_values e (d ∷ ds) = ground (arith, insert_entry-map_values e ds)

  pub sort_entries-map_values :
      (es : List (Text × A)) → sort_entries (map_values f es) ≡ map_values f (sort_entries es)
  unfolding sort_entries map_values
  sort_entries-map_values [] = refl
  sort_entries-map_values (e ∷ es) =
      ap (insert_entry (e.0, f e.1)) (sort_entries-map_values es)
      ∙ insert_entry-map_values e (sort_entries es)

module _ {A : Type 0} where
  pub sort_entries-All :
      (P : Text × A → Type 0) (es : List (Text × A)) → All P es → All P (sort_entries es)
  unfolding sort_entries
  sort_entries-All P [] p = tt
  sort_entries-All P (e ∷ es) (p, q) =
      All-insert_entry P e (sort_entries es) p (sort_entries-All P es q)

module _ ⦃x : External⦄ where
  unfoldable pub entries : Members x.Number → List (Text × Json)
  entries end = []
  entries (member k v o) = (k, v) ∷ entries o

  unfoldable pub total : List (Text × Json) → ℕ
  total [] = 1
  total ((k, v) ∷ es) = suc (size v + total es)

  total-insert_entry :
      (e : Text × Json) (es : List (Text × Json))
      → total (insert_entry e es) ≡ suc (size e.1 + total es)
  unfolding insert_entry total
  total-insert_entry e [] = refl
  total-insert_entry e (d ∷ ds) = elim (gt-cases (utf16_cmp e.0 d.0)) [
    | inl h ↦ ap total (insert_entry_after e d ds h) ∙ omega (arith, total-insert_entry e ds)
    | inr h ↦ ap total (insert_entry_before e d ds h)
  ]

  pub total-sort_entries : (es : List (Text × Json)) → total (sort_entries es) ≡ total es
  unfolding sort_entries total
  total-sort_entries [] = refl
  total-sort_entries (e ∷ es) =
      omega (arith, total-insert_entry e (sort_entries es), total-sort_entries es)

  pub members-entries :
      (o : Members x.Number)
      → (written_members o ≡ map_values write_value (entries o))
        × (entry_texts o ≡ map_values text_of (entries o))
        × (members_size o ≡ total (entries o))
  unfolding map_values entries total written_members entry_texts members_size
  members-entries end = (refl, refl, refl)
  members-entries (member k v o) =
      let (w, t, n) = members-entries o in
      (
        ap (λ es. (k, write_value v) ∷ es) w,
        ap (λ es. (k, text_of v) ∷ es) t,
        ap (λ m. suc (size v + m)) n,
      )
