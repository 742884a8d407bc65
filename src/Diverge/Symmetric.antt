-- ===== src/Diverge/Symmetric.antt =====
-- The diff of two traces in either order.
use acp_core.Base.{
  ℕ, zero, suc, ◌≡◌, refl, ap, ap₂, sym, ◌∙◌, inl, inr, List, Option, none, some, ==_comm, Bool,
  false, ◌&&◌, nat_eq, list_eq, Bool-cases, length, get_elem?, arith,
}
use acp_core.Base.{Returns-some}
use acp_core.Trace.Event.{direction_eq}
use acp_core.Diverge.{Step, step_eq, DiffOp, DiffStats, diff_steps}
use acp_core.Diverge.Cells.{Fits}
use acp_core.Diverge.Table.{same_at, lcs, lcs-zero}
use acp_core.Diverge.Stats.{IsSummary, diff_steps-IsSummary}

step_eq_comm : (s t : Step) → step_eq s t ≡ step_eq t s
unfolding step_eq
step_eq_comm s t = ap₂ (λ x y. x && y) (==_comm s.dir t.dir) (==_comm s.hash t.hash)

same_at_comm : (a b : List Step) (i j : ℕ) → same_at a b i j ≡ same_at b a j i
unfolding same_at
same_at_comm a b i j = found (get_elem? a i) (get_elem? b j)
  where
    found :
        (o p : Option Step)
        → elim o as (λ _. Bool) [
          | none ↦ false
          | some s ↦ elim p as (λ _. Bool) [ none ↦ false | some t ↦ step_eq s t ]
        ]
          ≡ elim p as (λ _. Bool) [
            | none ↦ false
            | some t ↦ elim o as (λ _. Bool) [ none ↦ false | some s ↦ step_eq t s ]
          ]
    found none none = refl
    found none (some t) = refl
    found (some s) none = refl
    found (some s) (some t) = step_eq_comm s t

lcs_comm : (a b : List Step) (i j : ℕ) → lcs a b i j ≡ lcs b a j i
unfolding lcs
lcs_comm a b zero j = sym (lcs-zero b a j)
lcs_comm a b (suc i) zero = refl
lcs_comm a b (suc i) (suc j) = elim (Bool-cases (same_at a b i j)) [
  | inl same ↦ rw (same, sym (same_at_comm a b i j) ∙ same) (ap suc (lcs_comm a b i j))
  | inr other ↦
      rw (other, sym (same_at_comm a b i j) ∙ other)
        (omega (arith, lcs_comm a b i (suc j), lcs_comm a b (suc i) j))
]

-- The diffs of two traces in either order find as many common steps, and what one finds only in its
-- first trace the other finds only in its second. The table of both has fewer than 2^63 bytes.
pub diff_steps_comm :
    (a b : List Step) (ops ops' : List DiffOp) (st st' : DiffStats)
    → Fits a b
    → diff_steps a b ≡ some (ops, st)
    → diff_steps b a ≡ some (ops', st')
    → (st.common ≡ st'.common) × (st.only_a ≡ st'.only_b) × (st.only_b ≡ st'.only_a)
diff_steps_comm a b ops ops' st st' fits e e' =
    let fits_back : Fits b a = omega arith in
    let s : IsSummary a b ops st = Returns-some (diff_steps-IsSummary a b fits) e in
    let s' : IsSummary b a ops' st' = Returns-some (diff_steps-IsSummary b a fits_back) e' in
    let same : st.common ≡ st'.common =
      s.common_count
      ∙ s.diff.longest
      ∙ lcs_comm a b (length a) (length b)
      ∙ sym s'.diff.longest
      ∙ sym s'.common_count in
    (same, omega (arith, s.all_a, s'.all_b), omega (arith, s.all_b, s'.all_a))
