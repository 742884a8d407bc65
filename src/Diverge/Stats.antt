-- ===== src/Diverge/Stats.antt =====
-- What the statistics of a diff say of its operations and of the two traces.
use acp_core.Base.{
  ℕ, suc, ◌+◌, ◌%◌, ◌^◌, ◌<◌, ◌≡◌, refl, ap, subst, sym, ◌∙◌, ◌↔◌, List, [], ◌∷◌, map, Option, none,
  some, All, length, get_elem?, take, Returns, returns, Returns-bind, Returns-some, arith,
}
use acp_core.Diverge.{
  Step, DiffOp, common, only_a, only_b, DiffStats, first, count_ops, no_stats, diff_steps,
}
use acp_core.Diverge.Cells.{Fits}
use acp_core.Diverge.Backtrack.{
  SeenA, SeenB, seen_a, seen_b, side_a, side_b, commons, IsDiff, lcs_diff-IsDiff,
}
use acp_core.Diverge.Longest.{Key, key, Subseq, done, keep, Subseq-le-lcs}

abbrev pub IsCommon : DiffOp → Type 0
IsCommon (common i j d h m) = Unit
IsCommon _ = ⊥

-- The first operation that is not common, if there is one.
abbrev pub IsFirst : List DiffOp → Option ℕ → Type 0
IsFirst ops none = All IsCommon ops
IsFirst ops (some k) =
    All IsCommon (take k ops) × ((op : DiffOp) × (get_elem? ops k ≡ some op) × ¬ IsCommon op)

first_other : List DiffOp → Option ℕ
first_other [] = none
first_other (common i j d h m ∷ ops) = elim (first_other ops) [
  | none ↦ none
  | some k ↦ some (suc k)
]
first_other (only_a i d h m ∷ ops) = some 0
first_other (only_b j d h m ∷ ops) = some 0

IsFirst-cons :
    (op : DiffOp) (ops : List DiffOp) (o : Option ℕ)
    → IsCommon op
    → IsFirst ops o
    → IsFirst (op ∷ ops) (elim o [ none ↦ none | some k ↦ some (suc k) ])
IsFirst-cons op ops none c f = (c, f)
IsFirst-cons op ops (some k) c f = ((c, f.0), f.1)

first_other-IsFirst : (ops : List DiffOp) → IsFirst ops (first_other ops)
unfolding first_other
first_other-IsFirst [] = tt
first_other-IsFirst (common i j d h m ∷ ops) =
    IsFirst-cons (common i j d h m) ops (first_other ops) tt (first_other-IsFirst ops)
first_other-IsFirst (only_a i d h m ∷ ops) = (tt, (only_a i d h m, refl, λ c. c))
first_other-IsFirst (only_b j d h m ∷ ops) = (tt, (only_b j d h m, refl, λ c. c))

onlys_a : List DiffOp → ℕ
onlys_a [] = 0
onlys_a (only_a i d h m ∷ ops) = suc (onlys_a ops)
onlys_a (common i j d h m ∷ ops) = onlys_a ops
onlys_a (only_b j d h m ∷ ops) = onlys_a ops

onlys_b : List DiffOp → ℕ
onlys_b [] = 0
onlys_b (only_b j d h m ∷ ops) = suc (onlys_b ops)
onlys_b (common i j d h m ∷ ops) = onlys_b ops
onlys_b (only_a i d h m ∷ ops) = onlys_b ops

-- `f` unless something came before; `i` operations went before.
later : ℕ → Option ℕ → Option ℕ → Option ℕ
later i (some k) f = some k
later i none none = none
later i none (some k) = some (i + k)

later_zero : (o : Option ℕ) → later 0 none o ≡ o
unfolding later
later_zero none = refl
later_zero (some k) = ap some (omega arith)

count_ops_lem :
    (i : ℕ) (ops : List DiffOp) (st : DiffStats)
    → st.common + commons ops < 2 ^ 64
    → st.only_a + onlys_a ops < 2 ^ 64
    → st.only_b + onlys_b ops < 2 ^ 64
    → ((count_ops i ops st).common ≡ st.common + commons ops)
      × ((count_ops i ops st).only_a ≡ st.only_a + onlys_a ops)
      × ((count_ops i ops st).only_b ≡ st.only_b + onlys_b ops)
      × ((count_ops i ops st).first_divergence ≡ later i st.first_divergence (first_other ops))
unfolding count_ops onlys_a onlys_b first_other later
count_ops_lem i [] st p q r = ground arith
count_ops_lem i (common i' j d h m ∷ ops) st p q r =
    let (c, oa, ob, fd) =
      count_ops_lem (suc i) ops (record st { common = (st.common + 1) % 2 ^ 64 }) (omega arith)
        (omega arith) (omega arith) in
    (omega arith, omega arith, omega arith, ground (arith, fd))
count_ops_lem i (only_a i' d h m ∷ ops) st p q r =
    let (c, oa, ob, fd) =
      count_ops_lem (suc i) ops
        (record st {
          only_a = (st.only_a + 1) % 2 ^ 64;
          first_divergence = first st.first_divergence i;
        })
        (omega arith) (omega arith) (omega arith) in
    (omega arith, omega arith, omega arith, ground (arith, fd))
count_ops_lem i (only_b j d h m ∷ ops) st p q r =
    let (c, oa, ob, fd) =
      count_ops_lem (suc i) ops
        (record st {
          only_b = (st.only_b + 1) % 2 ^ 64;
          first_divergence = first st.first_divergence i;
        })
        (omega arith) (omega arith) (omega arith) in
    (omega arith, omega arith, omega arith, ground (arith, fd))

length-side_a : (ops : List DiffOp) → length (side_a ops) ≡ commons ops + onlys_a ops
unfolding onlys_a
length-side_a [] = refl
length-side_a (common i j d h m ∷ ops) = omega (arith, length-side_a ops)
length-side_a (only_a i d h m ∷ ops) = omega (arith, length-side_a ops)
length-side_a (only_b j d h m ∷ ops) = omega (arith, length-side_a ops)

length-side_b : (ops : List DiffOp) → length (side_b ops) ≡ commons ops + onlys_b ops
unfolding onlys_b
length-side_b [] = refl
length-side_b (common i j d h m ∷ ops) = omega (arith, length-side_b ops)
length-side_b (only_a i d h m ∷ ops) = omega (arith, length-side_b ops)
length-side_b (only_b j d h m ∷ ops) = omega (arith, length-side_b ops)

length-map {ℓ κ} :
    {A : Type ℓ} {B : Type κ} (f : A → B) (xs : List A) → length (map f xs) ≡ length xs
length-map f [] = refl
length-map f (x ∷ xs) = ap suc (length-map f xs)

-- The statistics count the operations of a diff of `a` and `b`, and name the first divergence.
pub record IsSummary (a b : List Step) (ops : List DiffOp) (st : DiffStats) : Type 0 where
  pub diff : IsDiff a b ops
  pub common_count : st.common ≡ commons ops
  pub all_a : st.common + st.only_a ≡ length a
  pub all_b : st.common + st.only_b ≡ length b
  pub divergence : IsFirst ops st.first_divergence

module _ (a b : List Step) (fits : Fits a b) where
  IsDiff-IsSummary :
      (ops : List DiffOp) → IsDiff a b ops → IsSummary a b ops (count_ops 0 ops no_stats)
  unfolding later
  IsDiff-IsSummary ops d =
      let tells_a = ap length d.tells_a ∙ length-map {0, 0} seen_a a in
      let tells_b = ap length d.tells_b ∙ length-map {0, 0} seen_b b in
      let (c, oa, ob, fd) =
        count_ops_lem 0 ops no_stats (omega (arith, length-side_a ops))
          (omega (arith, length-side_a ops)) (omega (arith, length-side_b ops)) in
      record {
        diff = d;
        common_count = omega arith;
        all_a = omega (arith, length-side_a ops, tells_a);
        all_b = omega (arith, length-side_b ops, tells_b);
        divergence =
            subst (IsFirst ops) (sym (fd ∙ later_zero (first_other ops))) (first_other-IsFirst ops);
      }

  -- `diff_steps` returns; the common operations and those of one trace add up to the steps of that
  -- trace, and the first divergence is the index of the first operation that is not common, none
  -- if all are. The table of A and B has fewer than 2^63 bytes.
  pub diff_steps-IsSummary : Returns (λ (ops, st). IsSummary a b ops st) (diff_steps a b)
  unfolding diff_steps
  diff_steps-IsSummary =
      Returns-bind (lcs_diff-IsDiff a b fits) λ ops d. returns (IsDiff-IsSummary ops d)

-- The keys of the steps that operations tell of.
abbrev key_a : SeenA → Key
key_a t = (t.1, t.2)

abbrev key_b : SeenB → Key
key_b t = (t.1, t.2)

same_sides :
    (ops : List DiffOp)
    → onlys_a ops ≡ 0
    → onlys_b ops ≡ 0
    → map key_a (side_a ops) ≡ map key_b (side_b ops)
unfolding onlys_a onlys_b
same_sides [] p q = refl
same_sides (common i j d h m ∷ ops) p q = ap (λ ks. (d, h) ∷ ks) (same_sides ops p q)
same_sides (only_a i d h m ∷ ops) p q = absurd (omega arith)
same_sides (only_b j d h m ∷ ops) p q = absurd (omega arith)

keys_a : (a : List Step) → map key_a (map seen_a a) ≡ map key a
keys_a [] = refl
keys_a (s ∷ a) = ap (λ ks. key s ∷ ks) (keys_a a)

keys_b : (b : List Step) → map key_b (map seen_b b) ≡ map key b
keys_b [] = refl
keys_b (s ∷ b) = ap (λ ks. key s ∷ ks) (keys_b b)

Subseq-self : (a : List Step) → Subseq (map key a) a
Subseq-self [] = done
Subseq-self (s ∷ a) = keep (key s) s refl (Subseq-self a)

-- A diff finds nothing in only one of the traces exactly if the traces have the same directions
-- and hashes in the same order. The table of A and B has fewer than 2^63 bytes.
pub no_divergence_iff :
    (a b : List Step) (ops : List DiffOp) (st : DiffStats)
    → Fits a b
    → diff_steps a b ≡ some (ops, st)
    → ((st.only_a ≡ 0) × (st.only_b ≡ 0)) ↔ (map key a ≡ map key b)
no_divergence_iff a b ops st fits e =
    let s : IsSummary a b ops st = Returns-some (diff_steps-IsSummary a b fits) e in
    (
      λ (p, q).
          let pa : onlys_a ops ≡ 0 = omega (
            arith,
            s.all_a,
            s.common_count,
            length-side_a ops,
            ap length s.diff.tells_a,
            length-map {0, 0} seen_a a,
          ) in
          let pb : onlys_b ops ≡ 0 = omega (
            arith,
            s.all_b,
            s.common_count,
            length-side_b ops,
            ap length s.diff.tells_b,
            length-map {0, 0} seen_b b,
          ) in
          sym (keys_a a)
          ∙ ap (map key_a) (sym s.diff.tells_a)
          ∙ same_sides ops pa pb
          ∙ ap (map key_b) s.diff.tells_b
          ∙ keys_b b,
      λ same.
          let long =
            Subseq-le-lcs a b (Subseq-self a)
              (subst (λ ks. Subseq ks b) (sym same) (Subseq-self b)) in
          let la : length a ≡ length b =
            omega (arith, ap length same, length-map {0, 0} key a, length-map {0, 0} key b) in
          let lk = length-map key a in
          (
            omega (arith, s.all_a, s.common_count, s.diff.longest),
            omega (arith, s.all_a, s.all_b, s.common_count, s.diff.longest),
          ),
    )
