-- ===== src/Diverge/Table.antt =====
-- The table of `lcs_diff` holds the lengths of longest common subsequences of prefixes.
use native.Mathlib.Decide.{dec_lt, ℕ_discrete}
use native.Mathlib.Numerals.{add-one}
use acp_core.Base.{
  ℕ, zero, suc, ◌+◌, ◌*◌, ◌^◌, ◌≤◌, ◌<◌, max, ◌≡◌, refl, ap, ap₂, sym, ◌∙◌, ◌≢◌, ◌⊎◌, inl, inr,
  Bool, true, false, List, none, some, if◌then◌else◌, Bool-cases, length, get_elem?, set, lt→ltb,
  length-set, length-replicate, get_elem?-replicate, get_elem?-set_self, get_elem?-set_ne,
  get_elem?_total, Returns, returns, Returns-map, for-Returns, arith,
}
use acp_core.Diverge.{
  Step, step_eq, store, idx, cell_count, blank_table, fill_cell, fill_row, fill_table,
}
use acp_core.Diverge.Cells.{idx-injective, idx_bound, Fits, product_large, idx-eq, cell_count-eq}

module _ (a b : List Step) where
  -- Whether the steps at `i` and `j` are there and match.
  unfoldable pub same_at : ℕ → ℕ → Bool
  same_at i j = elim (get_elem? a i) [
    | none ↦ false
    | some s ↦ elim (get_elem? b j) [ none ↦ false | some t ↦ step_eq s t ]
  ]

  pub same_at_lem :
      (i j : ℕ) {s t : Step}
      → get_elem? a i ≡ some s
      → get_elem? b j ≡ some t
      → same_at i j ≡ step_eq s t
  unfolding same_at
  same_at_lem i j es et = ground arith

  -- The recurrence for the first `i` and the first `j` steps.
  unfoldable pub lcs : ℕ → ℕ → ℕ
  lcs zero j = 0
  lcs (suc i) zero = 0
  lcs (suc i) (suc j) = if same_at i j then suc (lcs i j) else max (lcs i (suc j)) (lcs (suc i) j)

  pub lcs-zero : (i : ℕ) → lcs i 0 ≡ 0
  unfolding lcs
  lcs-zero zero = refl
  lcs-zero (suc i) = refl

  pub lcs_match : (i j : ℕ) → same_at i j ≡ true → lcs (suc i) (suc j) ≡ suc (lcs i j)
  unfolding lcs
  lcs_match i j h = rw h

  pub lcs_skip :
      (i j : ℕ) → same_at i j ≡ false → lcs (suc i) (suc j) ≡ max (lcs i (suc j)) (lcs (suc i) j)
  unfolding lcs
  lcs_skip i j h = rw h

  pub lcs-le : (i j : ℕ) → (lcs i j ≤ i) × (lcs i j ≤ j)
  unfolding lcs
  lcs-le zero j = omega arith
  lcs-le (suc i) zero = omega arith
  lcs-le (suc i) (suc j) = ground (arith, lcs-le i j, lcs-le i (suc j), lcs-le (suc i) j)

  -- The cells that are final once the loops stand at row `i` and column `j`.
  abbrev Done : ℕ → ℕ → ℕ → ℕ → Type 0
  Done i j p q = (q ≡ 0) ⊎ ((p < suc i) ⊎ ((p ≡ suc i) × (q < suc j)))

  record IsFilled (i j : ℕ) (dp : List ℕ) : Type 0 where
    size : length dp ≡ (length a + 1) * (length b + 1)
    cells :
        (p q : ℕ)
        → p ≤ length a
        → q ≤ length b
        → Done i j p q
        → get_elem? dp (idx a b p q) ≡ some (lcs p q)

  store-IsFilled :
      (i j v : ℕ) (dp : List ℕ)
      → Fits a b
      → i < length a
      → j < length b
      → IsFilled i j dp
      → v ≡ lcs (suc i) (suc j)
      → Returns (IsFilled i (suc j)) (store dp (idx a b (i + 1) (j + 1)) v)
  unfolding store
  store-IsFilled i j v dp fits hi hj f e =
      let k = idx a b (i + 1) (j + 1) in
      let inside : k < length dp =
        rw (f.size, idx-eq a b (i + 1) (j + 1) fits (omega arith) (omega arith))
          (idx_bound (length a) (length b) (i + 1) (j + 1) (omega arith) (omega arith)) in
      rw (lt→ltb _ _ inside) (
        returns (record {
          size = length-set dp k v ∙ f.size;
          cells = λ p q hp hq d. cell inside p q hp hq d;
        }))
    where
      cell :
          idx a b (i + 1) (j + 1) < length dp
          → (p q : ℕ) → p ≤ length a
          → q ≤ length b
          → Done i (suc j) p q
          → get_elem? (set dp (idx a b (i + 1) (j + 1)) v) (idx a b p q) ≡ some (lcs p q)
      cell inside p q hp hq d = elim (ℕ_discrete (idx a b (i + 1) (j + 1)) (idx a b p q)) [
        | yes same ↦
            let (rows, cols) =
              idx-injective (length b + 1) (i + 1) (j + 1) p q (omega arith) (omega arith) (
                sym (idx-eq a b (i + 1) (j + 1) fits (omega arith) (omega arith))
                ∙ same
                ∙ idx-eq a b p q fits hp hq) in
            rw (← same, get_elem?-set_self dp (idx a b (i + 1) (j + 1)) v inside)
              (ap some (e ∙ ap₂ lcs (omega arith) (omega arith)))
        | no other ↦
            get_elem?-set_ne dp (idx a b (i + 1) (j + 1)) (idx a b p q) v other
            ∙ f.cells p q hp hq (before other d)
      ]
        where
          before : idx a b (i + 1) (j + 1) ≢ idx a b p q → Done i (suc j) p q → Done i j p q
          before other (inl z) = inl z
          before other (inr (inl above)) = inr (inl above)
          before other (inr (inr (row, lt))) = elim (ℕ_discrete q (suc j)) [
            | yes col ↦ absurd (other (ap₂ (idx a b) (omega arith) (omega arith)))
            | no ne ↦ inr (inr (row, omega arith))
          ]

  module _ (fits : Fits a b) where
    -- The length of a common subsequence is a `u32`.
    lcs_small : (i j : ℕ) → i < length a → j < length b → lcs i j + 1 < 2 ^ 32
    lcs_small i j hi hj = elim (dec_lt (length a + 1) (2 ^ 32)) [
      | yes few ↦ omega (arith, lcs-le i j)
      | no many ↦ elim (dec_lt (length b + 1) (2 ^ 32)) [
        | yes few ↦ omega (arith, lcs-le i j)
        | no many' ↦
            absurd (
              omega
                (arith, product_large (length a + 1) (length b + 1) (omega arith) (omega arith)))
      ]
    ]

    fill_cell-IsFilled :
        (i j : ℕ) (dp : List ℕ)
        → i < length a
        → j < length b
        → IsFilled i j dp
        → Returns (IsFilled i (suc j)) (fill_cell a b i j dp)
    unfolding fill_cell
    fill_cell-IsFilled i j dp hi hj f =
        let (s, es) = get_elem?_total a i hi in
        let (t, et) = get_elem?_total b j hj in
        let same = same_at_lem i j es et in
        rw (es, et)
          (elim (Bool-cases (step_eq s t)) [
            | inl yes_eq ↦
                rw (yes_eq, f.cells i j (omega arith) (omega arith) (inr (inl (omega arith))))
                  (store-IsFilled i j _ dp fits hi hj f
                    (rw (lcs_match i j (same ∙ yes_eq)) (omega (arith, lcs_small i j hi hj))))
            | inr not_eq ↦
                rw
                  (
                    not_eq,
                    f.cells i (j + 1) (omega arith) (omega arith) (inr (inl (omega arith))),
                    f.cells (i + 1) j (omega arith) (omega arith)
                        (inr (inr (omega arith, omega arith))),
                  )
                  (store-IsFilled i j _ dp fits hi hj f
                    (simp (lcs_skip i j (same ∙ not_eq), add-one)))
          ])

    fill_row-IsFilled :
        (i : ℕ) (dp : List ℕ)
        → i < length a
        → IsFilled i 0 dp
        → Returns (IsFilled (suc i) 0) (fill_row a b i dp)
    unfolding fill_row
    fill_row-IsFilled i dp hi f =
        Returns-map
          (for-Returns (IsFilled i) (length b) (fill_cell a b i) (length b) 0 dp (omega arith)
            (λ j t lo hj g. fill_cell-IsFilled i j t hi hj g) f)
          λ t g. record { size = g.size; cells = λ p q hp hq d. g.cells p q hp hq (next p q hq d) }
      where
        next : (p q : ℕ) → q ≤ length b → Done (suc i) 0 p q → Done i (length b) p q
        next p q hq (inl z) = inl z
        next p q hq (inr (inl above)) = elim (dec_lt p (suc i)) [
          | yes lt ↦ inr (inl lt)
          | no ng ↦ inr (inr (omega arith, omega arith))
        ]
        next p q hq (inr (inr (row, lt))) = inl (omega arith)

    -- Every index of the loops is in range, and the cell of two prefixes holds their `lcs`.
    pub fill_table-Returns :
        Returns
          (λ dp.
            (p q : ℕ) → p ≤ length a → q ≤ length b → get_elem? dp (idx a b p q) ≡ some (lcs p q))
          (fill_table a b)
    unfolding fill_table blank_table
    fill_table-Returns =
        let small : 4 * cell_count a b < 2 ^ 63 = rw (cell_count-eq a b fits) fits in
        rw (lt→ltb _ _ small) (
          Returns-map
            (for-Returns (λ i. IsFilled i 0) (length a) (fill_row a b) (length a) 0 _ (omega arith)
              (λ i t lo hi f. fill_row-IsFilled i t hi f)
              (record {
                size = length-replicate _ 0 ∙ cell_count-eq a b fits;
                cells = λ p q hp hq d.
                    get_elem?-replicate _ (idx a b p q) 0 (
                      rw (cell_count-eq a b fits, idx-eq a b p q fits hp hq)
                        (idx_bound (length a) (length b) p q hp hq))
                    ∙ ap some (sym (blank p q d));
              }))
            λ dp f p q hp hq. f.cells p q hp hq (inr (inl (omega arith))))
      where
        blank : (p q : ℕ) → Done 0 0 p q → lcs p q ≡ 0
        blank p q (inl z) = rw (z, lcs-zero)
        blank p q (inr (inl lt)) = omega (arith, lcs-le p q)
        blank p q (inr (inr (row, lt))) = omega (arith, lcs-le p q)
