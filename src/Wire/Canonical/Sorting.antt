-- ===== src/Wire/Canonical/Sorting.antt =====
-- The stable sort of an object's entries by key.
use Prim.Native.Nat.{Ordering}
use mathlib.Core.List.{Perm}
use mathlib.Core.List.Perm
use acp_core.Base.{◌≡◌, refl, ◌≢◌, ◌⊎◌, inl, inr, Text, All, List, [], ◌∷◌, arith}
use acp_core.Wire.Canonical.{utf16_cmp, insert_entry, sort_entries}
use acp_core.Wire.Canonical.Order.{utf16_cmp-flip, utf16_cmp_trans}

pub gt-cases : (o : Ordering) → (o ≡ Ordering.gt) ⊎ (o ≢ Ordering.gt)
gt-cases Ordering.gt = inl refl
gt-cases Ordering.lt = inr (λ e. cc)
gt-cases Ordering.eq = inr (λ e. cc)

module _ {B : Type 0} where
  -- No entry stands behind one with a smaller key.
  abbrev pub IsSorted : List (Text × B) → Type 0
  IsSorted [] = Unit
  IsSorted (e ∷ es) = All (λ d. utf16_cmp e.0 d.0 ≢ Ordering.gt) es × IsSorted es

  pub All-insert_entry :
      (P : Text × B → Type 0) (e : Text × B) (es : List (Text × B))
      → P e
      → All P es
      → All P (insert_entry e es)
  unfolding insert_entry
  All-insert_entry P e [] p h = (p, tt)
  All-insert_entry P e (d ∷ ds) p h = ground (arith, All-insert_entry P e ds p)

  pub insert_entry_before :
      (e d : Text × B) (ds : List (Text × B))
      → utf16_cmp e.0 d.0 ≢ Ordering.gt
      → insert_entry e (d ∷ ds) ≡ e ∷ d ∷ ds
  unfolding insert_entry
  insert_entry_before e d ds h = ground arith

  pub insert_entry_after :
      (e d : Text × B) (ds : List (Text × B))
      → utf16_cmp e.0 d.0 ≡ Ordering.gt
      → insert_entry e (d ∷ ds) ≡ d ∷ insert_entry e ds
  unfolding insert_entry
  insert_entry_after e d ds h = ground arith

  insert_entry-perm : (e : Text × B) (es : List (Text × B)) → Perm (insert_entry e es) (e ∷ es)
  unfolding insert_entry
  insert_entry-perm e [] = Perm.refl (e ∷ [])
  insert_entry-perm e (d ∷ ds) = elim (gt-cases (utf16_cmp e.0 d.0)) [
    | inl h ↦
        rw (insert_entry_after e d ds h)
          (Perm.trans (Perm.cons d (insert_entry-perm e ds)) (Perm.swap e d ds))
    | inr h ↦ rw (insert_entry_before e d ds h) (Perm.refl (e ∷ d ∷ ds))
  ]

  below-All :
      (e d : Text × B) (ds : List (Text × B))
      → utf16_cmp e.0 d.0 ≢ Ordering.gt
      → All (λ c. utf16_cmp d.0 c.0 ≢ Ordering.gt) ds
      → All (λ c. utf16_cmp e.0 c.0 ≢ Ordering.gt) ds
  below-All e d [] h a = tt
  below-All e d (c ∷ ds) h a = (
    λ g. ground (
      arith,
      utf16_cmp_trans e.0 c.0 d.0,
      utf16_cmp-flip e.0 d.0,
      utf16_cmp-flip c.0 e.0,
      utf16_cmp-flip c.0 d.0,
      h,
      a.0,
    ),
    below-All e d ds h a.1,
  )

  insert_entry-IsSorted :
      (e : Text × B) (es : List (Text × B)) → IsSorted es → IsSorted (insert_entry e es)
  unfolding insert_entry
  insert_entry-IsSorted e [] s = (tt, tt)
  insert_entry-IsSorted e (d ∷ ds) s = elim (gt-cases (utf16_cmp e.0 d.0)) [
    | inl h ↦ rw (insert_entry_after e d ds h) (
      All-insert_entry _ e ds (ground (arith, utf16_cmp-flip e.0 d.0)) s.0,
      insert_entry-IsSorted e ds s.1,
    )
    | inr h ↦ rw (insert_entry_before e d ds h) ((h, below-All e d ds h s.0), s)
  ]

  -- Sorting keeps the entries and puts their keys in ascending order of UTF-16 code units.
  pub sort_entries-IsSorted :
      (es : List (Text × B)) → IsSorted (sort_entries es) × Perm (sort_entries es) es
  unfolding sort_entries
  sort_entries-IsSorted [] = (tt, Perm.refl [])
  sort_entries-IsSorted (e ∷ es) =
      let (s, p) = sort_entries-IsSorted es in
      (
        insert_entry-IsSorted e (sort_entries es) s,
        Perm.trans (insert_entry-perm e (sort_entries es)) (Perm.cons e p),
      )

  -- Entries with different keys may be inserted in either order.
  pub insert_entry_comm :
      (e f : Text × B) (es : List (Text × B))
      → utf16_cmp e.0 f.0 ≢ Ordering.eq
      → insert_entry e (insert_entry f es) ≡ insert_entry f (insert_entry e es)
  unfolding insert_entry
  insert_entry_comm e f [] h = ground (arith, utf16_cmp-flip e.0 f.0)
  insert_entry_comm e f (d ∷ ds) h = ground (
    arith,
    utf16_cmp-flip e.0 f.0,
    utf16_cmp_trans e.0 d.0 f.0,
    utf16_cmp_trans f.0 d.0 e.0,
    insert_entry_comm e f ds h,
  )
