-- ===== src/Diverge/Longest.antt =====
-- No common subsequence of the two traces is longer than what the diff has in common.
use acp_core.Base.{
  ℕ, zero, suc, ◌+◌, ◌≤◌, ◌≡◌, refl, ap, subst, sym, ◌∙◌, Text, true, List, [], ◌∷◌, ◌++◌,
  append_assoc, append-nil, some, ==_iff, nat_eq, list_eq, length, length-append, get_elem?,
  get_elem?-append, Returns-some, arith,
}
use acp_core.Trace.Event.{Direction, direction_eq}
use acp_core.Diverge.{Step, step_eq, DiffOp, lcs_diff}
use acp_core.Diverge.Cells.{Fits}
use acp_core.Diverge.Table.{same_at_lem, lcs, lcs_match}
use acp_core.Diverge.Backtrack.{commons, lcs_diff-IsDiff}

-- What decides whether two steps match.
abbrev pub Key : Type 0
Key = Direction × Text

abbrev pub key : Step → Key
key s = (s.dir, s.hash)

-- `ks` are the keys of some of the steps, in their order.
pub data Subseq : List Key → List Step → Type 0 where
  done : Subseq [] []
  skip : {ks : List Key} {ss : List Step} (s : Step) → Subseq ks ss → Subseq ks (s ∷ ss)
  keep :
      {ks : List Key} {ss : List Step} (k : Key) (s : Step)
      → key s ≡ k
      → Subseq ks ss
      → Subseq (k ∷ ks) (s ∷ ss)

step_eq_of_keys : (s t : Step) → key s ≡ key t → step_eq s t ≡ true
unfolding step_eq
step_eq_of_keys s t e = ground (
  arith,
  ==_iff s.dir t.dir,
  ==_iff s.hash t.hash,
  ap (λ (k : Key). k.0) e,
  ap (λ (k : Key). k.1) e,
)

-- The same from the end: `ks`, reversed, are keys of some of the first `i` steps.
data Embeds (a : List Step) : List Key → ℕ → Type 0 where
  start : Embeds a [] 0
  pass : {ks : List Key} {i : ℕ} → Embeds a ks i → Embeds a ks (suc i)
  take_key :
      {ks : List Key} {i : ℕ} (k : Key) (s : Step)
      → get_elem? a i ≡ some s
      → key s ≡ k
      → Embeds a ks i
      → Embeds a (k ∷ ks) (suc i)

module _ (a b : List Step) where
  lcs_bounds :
      (i j : ℕ)
      → (lcs a b i j ≤ lcs a b (suc i) j)
        × (lcs a b (suc i) j ≤ suc (lcs a b i j))
        × (lcs a b i j ≤ lcs a b i (suc j))
        × (lcs a b i (suc j) ≤ suc (lcs a b i j))
  unfolding lcs
  lcs_bounds zero zero = ground arith
  lcs_bounds zero (suc j) = ground (arith, lcs_bounds zero j)
  lcs_bounds (suc i) zero = ground (arith, lcs_bounds i zero)
  lcs_bounds (suc i) (suc j) = ground (arith, lcs_bounds (suc i) j, lcs_bounds i (suc j))

  length-le-lcs :
      {ks : List Key} {i j : ℕ} → Embeds a ks i → Embeds b ks j → length ks ≤ lcs a b i j
  length-le-lcs start f = omega arith
  length-le-lcs (pass {i = i} e) f = omega (arith, length-le-lcs e f, (lcs_bounds i _).0)
  length-le-lcs (take_key k s es ek e) (pass {i = j} f) =
      omega (arith, length-le-lcs (take_key k s es ek e) f, (lcs_bounds _ j).2)
  length-le-lcs (take_key {i = i} k s es ek e) (take_key {i = j} k' t et et' f) =
      rw (lcs_match a b i j (same_at_lem a b i j es et ∙ step_eq_of_keys s t (ek ∙ sym et')))
        (omega (arith, length-le-lcs e f))

-- `ks`, reversed, before `rs`.
rev_onto : List Key → List Key → List Key
rev_onto [] rs = rs
rev_onto (k ∷ ks) rs = rev_onto ks (k ∷ rs)

length-rev_onto : (ks rs : List Key) → length (rev_onto ks rs) ≡ length ks + length rs
unfolding rev_onto
length-rev_onto [] rs = omega arith
length-rev_onto (k ∷ ks) rs = omega (arith, length-rev_onto ks (k ∷ rs))

snoc_length : (pre : List Step) (s : Step) → suc (length pre) ≡ length (pre ++ s ∷ [])
snoc_length pre s = omega (arith, length-append {0} pre (s ∷ []))

module _ (a : List Step) where
  Subseq-Embeds :
      (pre : List Step) {ks : List Key} {ss : List Step} (rs : List Key)
      → Subseq ks ss
      → pre ++ ss ≡ a
      → Embeds a rs (length pre)
      → Embeds a (rev_onto ks rs) (length a)
  unfolding rev_onto
  Subseq-Embeds pre rs done e h =
      subst (λ n. Embeds a rs n) (ap length (sym (append-nil pre) ∙ e)) h
  Subseq-Embeds pre {ss = s ∷ ss} rs (skip s' c) e h =
      Subseq-Embeds (pre ++ s ∷ []) rs c (append_assoc pre (s ∷ []) ss ∙ e)
        (subst (λ n. Embeds a rs n) (snoc_length pre s) (pass h))
  Subseq-Embeds pre {ks = k ∷ ks} {ss = s ∷ ss} rs (keep k' s' ek c) e h =
      Subseq-Embeds (pre ++ s ∷ []) (k ∷ rs) c (append_assoc pre (s ∷ []) ss ∙ e) (
        subst (λ n. Embeds a (k ∷ rs) n) (snoc_length pre s)
          (take_key k s
            (subst (λ l. get_elem? l (length pre) ≡ some s) e (get_elem?-append pre s ss)) ek h))

module _ (a b : List Step) where
  pub Subseq-le-lcs :
      {ks : List Key} → Subseq ks a → Subseq ks b → length ks ≤ lcs a b (length a) (length b)
  Subseq-le-lcs {ks} c d = omega (
    arith,
    length-rev_onto ks [],
    length-le-lcs a b (Subseq-Embeds a [] [] c refl start) (Subseq-Embeds b [] [] d refl start),
  )

  -- No common subsequence of the two traces, by direction and hash, is longer than the number of
  -- common operations of the diff. The table of A and B has fewer than 2^63 bytes.
  pub lcs_diff_longest :
      {ks : List Key} (ops : List DiffOp)
      → Fits a b
      → lcs_diff a b ≡ some ops
      → Subseq ks a
      → Subseq ks b
      → length ks ≤ commons ops
  lcs_diff_longest ops fits e c d =
      omega (arith, Subseq-le-lcs c d, (Returns-some (lcs_diff-IsDiff a b fits) e).longest)
