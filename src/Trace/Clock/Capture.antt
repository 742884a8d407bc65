-- ===== src/Trace/Clock/Capture.antt =====
-- What is captured of the recorder's environment.
use Prim.Native.Nat.{Ordering}
use acp_core.Base.{
  ◌≡◌, refl, ap, sym, subst, ◌∙◌, Text, Bool, true, false, ◌||◌, List, [], ◌∷◌, Option, none, some,
  if◌then◌else◌, ◌==◌, ==_iff, ==_ne, nat_eq, list_eq, All, All-map, Bool-cases, Option-cases, inl,
  inr, ◌⊎◌, arith,
}
use acp_core.Wire.Canonical.{compare_units}
use acp_core.Wire.Canonical.Order.{
  flip, compare_units-eq, compare_units_self, compare_units-flip, compare_units_trans,
}
use acp_core.Trace.Clock.{btree_insert, Host, capture_vars, capture}

-- The value of a key in a map, and whether a list has a name.
unfoldable pub lookup : List (Text × Text) → Text → Option Text
lookup [] k = none
lookup ((j, v) ∷ m) k = let rest = lookup m k in if j == k then some v else rest

unfoldable pub has : List Text → Text → Bool
has [] k = false
has (j ∷ keys) k = let rest = has keys k in (j == k) || rest

-- Keys in ascending order, none twice.
abbrev pub IsAscending : List (Text × Text) → Type 0
IsAscending [] = Unit
IsAscending ((k, v) ∷ m) = All (λ e. compare_units k e.0 ≡ Ordering.lt) m × IsAscending m

ordering-cases : (o : Ordering) → (o ≡ Ordering.lt) ⊎ ((o ≡ Ordering.eq) ⊎ (o ≡ Ordering.gt))
ordering-cases Ordering.lt = inl refl
ordering-cases Ordering.eq = inr (inl refl)
ordering-cases Ordering.gt = inr (inr refl)

-- The branches of an insertion.
abbrev inserted : Text × Text → List (Text × Text) → Text → Text → Ordering → List (Text × Text)
inserted (j, w) m k v Ordering.lt = (k, v) ∷ (j, w) ∷ m
inserted (j, w) m k v Ordering.eq = (j, v) ∷ m
inserted (j, w) m k v Ordering.gt = (j, w) ∷ btree_insert m k v

btree_insert-cons :
    (j w : Text) (m : List (Text × Text)) (k v : Text) (o : Ordering)
    → compare_units k j ≡ o
    → btree_insert ((j, w) ∷ m) k v ≡ inserted (j, w) m k v o
unfolding btree_insert
btree_insert-cons j w m k v o e =
    ap
      (λ o. elim o [
        | Ordering.lt ↦ (k, v) ∷ (j, w) ∷ m
        | Ordering.eq ↦ (j, v) ∷ m
        | Ordering.gt ↦ (j, w) ∷ btree_insert m k v
      ])
      e
    ∙ cases o
  where
    cases :
        (o : Ordering)
        → (elim o [
          | Ordering.lt ↦ (k, v) ∷ (j, w) ∷ m
          | Ordering.eq ↦ (j, v) ∷ m
          | Ordering.gt ↦ (j, w) ∷ btree_insert m k v
        ])
          ≡ inserted (j, w) m k v o
    cases Ordering.lt = refl
    cases Ordering.eq = refl
    cases Ordering.gt = refl

lookup-btree_insert :
    (m : List (Text × Text)) (k v q : Text)
    → lookup (btree_insert m k v) q ≡ (if k == q then some v else lookup m q)
unfolding lookup
lookup-btree_insert [] k v q = unfold btree_insert in refl
lookup-btree_insert ((j, w) ∷ m) k v q = elim (ordering-cases (compare_units k j)) [
  | inl before ↦ ap (λ l. lookup l q) (btree_insert-cons j w m k v Ordering.lt before)
  | inr (inl same) ↦
      ap (λ l. lookup l q) (btree_insert-cons j w m k v Ordering.eq same)
      ∙ subst
          (λ i.
            (if i == q then some v else lookup m q)
            ≡ (if k == q then some v else (if i == q then some w else lookup m q)))
          (compare_units-eq k j same) (ground arith)
  | inr (inr after) ↦
      ap (λ l. lookup l q) (btree_insert-cons j w m k v Ordering.gt after)
      ∙ elim (Bool-cases (j == q)) [
        | inl hit ↦
            let apart : (k == q) ≡ false = ==_ne k q λ e.
              let e' : k ≡ j = e ∙ sym ((==_iff j q).0 hit) in
              let self : compare_units k j ≡ Ordering.eq =
                ap (λ i. compare_units i j) e' ∙ compare_units_self j in
              cc in
            rw (hit, apart) refl
        | inr miss ↦ rw miss (lookup-btree_insert m k v q)
      ]
]

-- The value of a name after the loop.
abbrev captured : Bool → Option Text → Option Text → Option Text
captured true (some v) before = some v
captured true none before = before
captured false v before = before

capture_vars-lookup :
    (var : Text → Option Text) (keys : List Text) (env : List (Text × Text)) (q : Text)
    → lookup (capture_vars var keys env) q ≡ captured (has keys q) (var q) (lookup env q)
unfolding capture_vars has
capture_vars-lookup var [] env q = refl
capture_vars-lookup var (key ∷ keys) env q =
    let same : (key == q) ≡ true → var q ≡ var key = λ e. ap var (sym ((==_iff key q).0 e)) in
    elim (Option-cases (var key)) [
      | inl unset ↦ rw unset (capture_vars-lookup var keys env q ∙ ground (arith, unset, same))
      | inr (v, set) ↦ rw set (
          capture_vars-lookup var keys (btree_insert env key v) q
          ∙ ground (arith, set, same, lookup-btree_insert env key v q))
    ]

compare_units_lt :
    (a b c : Text)
    → compare_units a b ≡ Ordering.lt
    → compare_units b c ≡ Ordering.lt
    → compare_units a c ≡ Ordering.lt
compare_units_lt a b c h k =
    let down : compare_units c b ≡ Ordering.gt = compare_units-flip b c ∙ ap flip k in
    let up : compare_units c a ≡ Ordering.gt =
      compare_units_trans c b a down (λ g. let no : Ordering.lt ≡ Ordering.gt = sym h ∙ g in cc) in
    compare_units-flip c a ∙ ap flip up

-- A key below all of a map's, and below a new one, is below all of the map's with the new one.
below-btree_insert :
    (i : Text) (m : List (Text × Text)) (k v : Text)
    → compare_units i k ≡ Ordering.lt
    → All (λ e. compare_units i e.0 ≡ Ordering.lt) m
    → All (λ e. compare_units i e.0 ≡ Ordering.lt) (btree_insert m k v)
below-btree_insert i [] k v h p = unfold btree_insert in (h, tt)
below-btree_insert i ((j, w) ∷ m) k v h p =
    let P = λ (e : Text × Text). compare_units i e.0 ≡ Ordering.lt in
    elim (ordering-cases (compare_units k j)) [
      | inl before ↦ subst (All P) (sym (btree_insert-cons j w m k v _ before)) (h, (p.0, p.1))
      | inr (inl same) ↦ subst (All P) (sym (btree_insert-cons j w m k v _ same)) (p.0, p.1)
      | inr (inr after) ↦
          subst (All P) (sym (btree_insert-cons j w m k v _ after))
            (p.0, below-btree_insert i m k v h p.1)
    ]

btree_insert-IsAscending :
    (m : List (Text × Text)) (k v : Text) → IsAscending m → IsAscending (btree_insert m k v)
btree_insert-IsAscending [] k v h = unfold btree_insert in (tt, tt)
btree_insert-IsAscending ((j, w) ∷ m) k v h = elim (ordering-cases (compare_units k j)) [
  | inl before ↦
      subst IsAscending (sym (btree_insert-cons j w m k v _ before))
        ((before, All-map m (λ e. compare_units_lt k j e.0 before) h.0), h)
  | inr (inl same) ↦ subst IsAscending (sym (btree_insert-cons j w m k v _ same)) h
  | inr (inr after) ↦
      let below : compare_units j k ≡ Ordering.lt = compare_units-flip k j ∙ ap flip after in
      subst IsAscending (sym (btree_insert-cons j w m k v _ after))
        (below-btree_insert j m k v below h.0, btree_insert-IsAscending m k v h.1)
]

capture_vars-IsAscending :
    (var : Text → Option Text) (keys : List Text) (env : List (Text × Text))
    → IsAscending env
    → IsAscending (capture_vars var keys env)
unfolding capture_vars
capture_vars-IsAscending var [] env h = h
capture_vars-IsAscending var (key ∷ keys) env h = elim (Option-cases (var key)) [
  | inl unset ↦ rw unset (capture_vars-IsAscending var keys env h)
  | inr (v, set) ↦ rw set (
      capture_vars-IsAscending var keys (btree_insert env key v)
        (btree_insert-IsAscending env key v h))
]

-- The captured environment has a variable exactly if its name was listed and it is set, with its value;
-- no other variable gets in. Its names are in ascending order, none of them twice.
pub capture_only_listed :
    (host : Host) (env_whitelist : List Text)
    → ((q : Text)
        → lookup (capture host env_whitelist).env q
          ≡ (if has env_whitelist q then host.var q else none))
      × IsAscending (capture host env_whitelist).env
unfolding capture lookup
capture_only_listed host env_whitelist = (
  λ q. capture_vars-lookup host.var env_whitelist [] q ∙ value (has env_whitelist q) (host.var q),
  capture_vars-IsAscending host.var env_whitelist [] tt,
)
  where
    value : (b : Bool) (o : Option Text) → captured b o none ≡ (if b then o else none)
    value true (some v) = refl
    value true none = refl
    value false o = refl
