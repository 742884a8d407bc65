-- ===== src/Diverge/Backtrack.antt =====
-- The operations that `lcs_diff` reads off the table align the two sequences.
use acp_core.Base.{
  ℕ, zero, suc, ◌+◌, ◌≤◌, ◌≡◌, refl, ap, sym, subst, ◌∙◌, ◌⊎◌, inl, inr, Text, true, List, [], ◌∷◌,
  ◌++◌, append_assoc, append-nil, map, map-append, reverse, reverse-append, Option, some, leb,
  Bool-cases, ==_iff, nat_eq, list_eq, length, get_elem?, take, take-suc, take-length,
  get_elem?_total, Returns, returns, Returns-bind, Returns-refl, Returns-eq, arith,
}
use acp_core.Trace.Event.{Direction, direction_eq}
use acp_core.Diverge.{
  Step, step_eq, DiffOp, common, only_a, only_b, idx, common_op, only_a_op, only_b_op, backtrack,
  drain_a, drain_b, lcs_diff,
}
use acp_core.Diverge.Cells.{Fits}
use acp_core.Diverge.Table.{same_at_lem, lcs, lcs-zero, lcs_match, lcs_skip, fill_table-Returns}

-- What an operation says of a step of trace A, and of one of trace B. A common operation carries
-- the method of A only.
abbrev pub SeenA : Type 0
SeenA = ℕ × Direction × Text × Option Text

abbrev pub SeenB : Type 0
SeenB = ℕ × Direction × Text

abbrev pub seen_a : Step → SeenA
seen_a s = (s.seq, s.dir, s.hash, s.method)

abbrev pub seen_b : Step → SeenB
seen_b s = (s.seq, s.dir, s.hash)

-- The steps of A, and those of B, that the operations tell of, in order.
abbrev pub side_a : List DiffOp → List SeenA
side_a [] = []
side_a (common i j d h m ∷ ops) = (i, d, h, m) ∷ side_a ops
side_a (only_a i d h m ∷ ops) = (i, d, h, m) ∷ side_a ops
side_a (only_b j d h m ∷ ops) = side_a ops

abbrev pub side_b : List DiffOp → List SeenB
side_b [] = []
side_b (common i j d h m ∷ ops) = (j, d, h) ∷ side_b ops
side_b (only_a i d h m ∷ ops) = side_b ops
side_b (only_b j d h m ∷ ops) = (j, d, h) ∷ side_b ops

-- The number of common operations.
abbrev pub commons : List DiffOp → ℕ
commons [] = 0
commons (common i j d h m ∷ ops) = suc (commons ops)
commons (only_a i d h m ∷ ops) = commons ops
commons (only_b j d h m ∷ ops) = commons ops

reverse-snoc {ℓ} : {A : Type ℓ} (xs : List A) (x : A) → reverse (xs ++ x ∷ []) ≡ x ∷ reverse xs
reverse-snoc xs x = reverse-append xs (x ∷ [])

pub step_eq_iff : (s t : Step) → step_eq s t ≡ true → (s.dir ≡ t.dir) × (s.hash ≡ t.hash)
unfolding step_eq
step_eq_iff s t h = ground (arith, ==_iff s.dir t.dir, ==_iff s.hash t.hash)

shift {ℓ κ} :
    {A : Type ℓ} {B : Type κ} (f : A → B) (xs : List A) (i : ℕ) (x : A) (ys : List B)
    → get_elem? xs i ≡ some x
    → map f (take i xs) ++ f x ∷ ys ≡ map f (take (suc i) xs) ++ ys
shift f xs i x ys e = rw (take-suc xs i x e, map-append, append_assoc) refl

module _ (a b : List Step) where
  -- With `i` and `j` steps left, the operations `ops` tell of all other steps, in order.
  record IsAligned (i j : ℕ) (ops : List DiffOp) : Type 0 where
    in_a : i ≤ length a
    in_b : j ≤ length b
    left : map seen_a (take i a) ++ side_a ops ≡ map seen_a a
    right : map seen_b (take j b) ++ side_b ops ≡ map seen_b b
    count : lcs a b i j + commons ops ≡ lcs a b (length a) (length b)

  push_common :
      {i j : ℕ} {ops : List DiffOp} (s t : Step)
      → get_elem? a i ≡ some s
      → get_elem? b j ≡ some t
      → step_eq s t ≡ true
      → IsAligned (suc i) (suc j) ops
      → IsAligned i j (common_op s t ∷ ops)
  push_common {i} {j} {ops} s t es et e p =
      let (dirs, hashes) = step_eq_iff s t e in
      record {
        in_a = omega arith;
        in_b = omega arith;
        left = shift seen_a a i s (side_a ops) es ∙ p.left;
        right = rw (dirs, hashes) (shift seen_b b j t (side_b ops) et) ∙ p.right;
        count = omega (arith, lcs_match a b i j (same_at_lem a b i j es et ∙ e));
      }

  push_a :
      {i j : ℕ} {ops : List DiffOp} (s : Step)
      → get_elem? a i ≡ some s
      → lcs a b (suc i) j ≡ lcs a b i j
      → IsAligned (suc i) j ops
      → IsAligned i j (only_a_op s ∷ ops)
  push_a {i} {j} {ops} s es e p = record {
    in_a = omega arith;
    in_b = p.in_b;
    left = shift seen_a a i s (side_a ops) es ∙ p.left;
    right = p.right;
    count = omega arith;
  }

  push_b :
      {i j : ℕ} {ops : List DiffOp} (t : Step)
      → get_elem? b j ≡ some t
      → lcs a b i (suc j) ≡ lcs a b i j
      → IsAligned i (suc j) ops
      → IsAligned i j (only_b_op t ∷ ops)
  push_b {i} {j} {ops} t et e p = record {
    in_a = p.in_a;
    in_b = omega arith;
    left = p.left;
    right = shift seen_b b j t (side_b ops) et ∙ p.right;
    count = omega arith;
  }

  -- One of the two sequences is used up.
  IsDrained : ℕ × ℕ × List DiffOp → Type 0
  IsDrained (i, j, ops) = IsAligned i j (reverse ops) × ((i ≡ 0) ⊎ (j ≡ 0))

  snoc-IsAligned :
      {i j : ℕ} (ops : List DiffOp) {op : DiffOp}
      → IsAligned i j (op ∷ reverse ops)
      → IsAligned i j (reverse (ops ++ op ∷ []))
  snoc-IsAligned {i} {j} ops {op} p = subst (IsAligned i j) (sym (reverse-snoc ops op)) p

  backtrack-IsDrained :
      (dp : List ℕ)
      → ((p q : ℕ) → p ≤ length a → q ≤ length b → get_elem? dp (idx a b p q) ≡ some (lcs a b p q))
      → (i j : ℕ) (ops : List DiffOp) → IsAligned i j (reverse ops)
      → Returns IsDrained (backtrack a b dp i j ops)
  unfolding backtrack IsDrained
  backtrack-IsDrained dp cells zero j ops p = returns (p, inl refl)
  backtrack-IsDrained dp cells (suc i) zero ops p = returns (p, inr refl)
  backtrack-IsDrained dp cells (suc i) (suc j) ops p =
      Returns-bind (Returns-refl _ (get_elem?_total a i p.in_a).1) λ s es.
        Returns-bind (Returns-refl _ (get_elem?_total b j p.in_b).1) λ t et.
          let same = same_at_lem a b i j es et in
          elim (Bool-cases (step_eq s t)) [
            | inl match ↦ rw match (
                backtrack-IsDrained dp cells i j (ops ++ common_op s t ∷ [])
                  (snoc-IsAligned ops (push_common s t es et match p)))
            | inr differ ↦
                let skip = lcs_skip a b i j (same ∙ differ) in
                rw differ (
                  Returns-bind (Returns-eq _ (cells i (suc j) (omega arith) p.in_b)) λ up eu.
                    Returns-bind (Returns-eq _ (cells (suc i) j p.in_a (omega arith))) λ left el.
                      elim (Bool-cases (leb left up)) [
                        | inl le ↦ rw le (
                            backtrack-IsDrained dp cells i (suc j) (ops ++ only_a_op s ∷ [])
                              (snoc-IsAligned ops (push_a s es (ground arith) p)))
                        | inr gt ↦ rw gt (
                            backtrack-IsDrained dp cells (suc i) j (ops ++ only_b_op t ∷ [])
                              (snoc-IsAligned ops (push_b t et (ground arith) p)))
                      ])
          ]

  drain_a-IsAligned :
      (i j : ℕ) (ops : List DiffOp)
      → IsAligned i j (reverse ops)
      → (i ≡ 0) ⊎ (j ≡ 0)
      → Returns (λ r. IsAligned 0 j (reverse r)) (drain_a a i ops)
  unfolding drain_a
  drain_a-IsAligned zero j ops p z = returns p
  drain_a-IsAligned (suc i) j ops p z =
      let out : j ≡ 0 = omega arith in
      Returns-bind (Returns-refl _ (get_elem?_total a i p.in_a).1) λ s es.
        drain_a-IsAligned i j (ops ++ only_a_op s ∷ [])
          (snoc-IsAligned ops (push_a s es (rw (out, lcs-zero, lcs-zero)) p)) (inr out)

  drain_b-IsAligned :
      (j : ℕ) (ops : List DiffOp)
      → IsAligned 0 j (reverse ops)
      → Returns (λ r. IsAligned 0 0 (reverse r)) (drain_b b j ops)
  unfolding drain_b
  drain_b-IsAligned zero ops p = returns p
  drain_b-IsAligned (suc j) ops p =
      Returns-bind (Returns-refl _ (get_elem?_total b j p.in_b).1) λ t et.
        drain_b-IsAligned j (ops ++ only_b_op t ∷ [])
          (snoc-IsAligned ops (push_b t et (unfold lcs in refl) p))

  -- What the operations are to be: they tell of all steps of A and of all steps of B, in order, and
  -- as many are common as the recurrence allows.
  pub record IsDiff (ops : List DiffOp) : Type 0 where
    pub tells_a : side_a ops ≡ map seen_a a
    pub tells_b : side_b ops ≡ map seen_b b
    pub longest : commons ops ≡ lcs a b (length a) (length b)

  -- `lcs_diff` stays in its arrays and returns: its operations tell of every step of A and of every
  -- step of B, once and in order, and the common ones are as many as the longest common
  -- subsequence by the recurrence. The table has fewer than 2^63 bytes: then the
  -- source can allocate it, and neither an index nor a cell wraps.
  pub lcs_diff-IsDiff : Fits a b → Returns IsDiff (lcs_diff a b)
  unfolding lcs_diff IsDrained
  lcs_diff-IsDiff fits = Returns-bind (fill_table-Returns a b fits) λ dp cells.
      Returns-bind
        (backtrack-IsDrained dp cells (length a) (length b) [] (record {
          in_a = omega arith;
          in_b = omega arith;
          left = append-nil _ ∙ ap (map seen_a) (take-length a);
          right = append-nil _ ∙ ap (map seen_b) (take-length b);
          count = omega arith;
        }))
        λ (i, j, ops) (p, z). Returns-bind (drain_a-IsAligned i j ops p z) λ ops' p'.
          Returns-bind (drain_b-IsAligned j ops' p') λ ops'' q. returns (record {
            tells_a = q.left;
            tells_b = q.right;
            longest = omega (arith, lcs-zero a b 0, q.count);
          })
