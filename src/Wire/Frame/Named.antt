-- ===== src/Wire/Frame/Named.antt =====
-- crates/acp-wire/src/lib.rs: the method and the id of a frame, in terms of the members of an object.
use acp_core.Base.{
  ℤ, ◌≡◌, refl, ap, subst, ◌∙◌, ◌≢◌, inl, inr, ◌↔◌, Text, codes, Option, none, some, ◌==◌, ==_iff,
  ==_refl, ==_ne, nat_eq, list_eq, Bool-cases, Option-cases,
}
use mathlib.Core.Option.{some-injective}
use acp_core.Wire.Json.{
  Value, Members, null, boolean, number, string, array, object, end, member, External, Json, get,
  as_str,
}
use acp_core.Wire.Frame.{FrameId, num, str, null_id, and_then, from_value, method_of, id_of}

-- The first member with a name has a value.
pub data Has {N : Type 0} : Members N → Text → Value N → Type 0 where
  has_first : (k : Text) (v : Value N) (o : Members N) → Has (member k v o) k v
  has_later :
      {j k : Text} {v w : Value N} {o : Members N} → j ≢ k → Has o k v → Has (member j w o) k v

module _ {N : Type 0} where
  pub Has-get : {o : Members N} {k : Text} {v : Value N} → Has o k v → get o k ≡ some v
  unfolding get
  Has-get (has_first k v o) = rw (==_refl k)
  Has-get (has_later {j} {k} {o} ne h) = rw (==_ne j k ne, Has-get h)

  pub get-Has : (o : Members N) (k : Text) (v : Value N) → get o k ≡ some v → Has o k v
  unfolding get
  get-Has end k v e = absurd (cc)
  get-Has (member j w o) k v e = elim (Bool-cases (j == k)) [
    | inl same ↦
        let names = (==_iff j k).0 same in
        let values : w ≡ v = some-injective _ _ (rw same at e) in
        subst (λ u. Has (member j w o) k u) values
          (subst (λ l. Has (member j w o) l w) names (has_first j w o))
    | inr other ↦
        has_later (λ same. absurd (cc (other, same, ==_refl k))) (get-Has o k v (rw other at e))
  ]

module _ ⦃x : External⦄ where
  -- A frame's method is the text of the member `method`, if that is a string.
  abbrev pub MethodIs : Members x.Number → Option Text → Type 0
  MethodIs obj (some s) = Has obj (codes "method") (string s)
  MethodIs obj none = (s : Text) → ¬ Has obj (codes "method") (string s)

  -- An id is a number that is an `i64`, a string or null.
  pub data IsId : Json → FrameId → Type 0 where
    number_id : (n : x.Number) (i : ℤ) → x.as_i64 n ≡ some i → IsId (number n) (num i)
    string_id : (s : Text) → IsId (string s) (str s)
    absent_id : IsId null null_id

  abbrev pub IdIs : Members x.Number → Option FrameId → Type 0
  IdIs obj (some i) = (v : Json) × Has obj (codes "id") v × IsId v i
  IdIs obj none = (i : FrameId) (v : Json) → Has obj (codes "id") v → ¬ IsId v i

  method_of-some :
      (obj : Members x.Number) (s : Text) → (method_of obj ≡ some s) ↔ MethodIs obj (some s)
  unfolding method_of
  method_of-some obj s = (λ e. found (get obj (codes "method")) refl e, λ h. rw (Has-get h) refl)
    where
      found :
          (o : Option Json)
          → get obj (codes "method") ≡ o
          → and_then o as_str ≡ some s
          → Has obj (codes "method") (string s)
      found none g e = absurd (cc)
      found (some (string t)) g e =
          get-Has obj (codes "method") (string s)
            (g ∙ ap (λ u. some (string u)) (some-injective _ _ e))
      found (some _) g e = absurd (cc)

  pub method_of_iff :
      (obj : Members x.Number) (m : Option Text) → (method_of obj ≡ m) ↔ MethodIs obj m
  method_of_iff obj (some s) = method_of-some obj s
  method_of_iff obj none = (
    λ e s h. let found = (method_of-some obj s).1 h in cc,
    λ no. elim (Option-cases (method_of obj)) [
      | inl e ↦ e
      | inr (s, e) ↦ absurd (no s ((method_of-some obj s).0 e))
    ],
  )

  from_value_iff : (v : Json) (i : FrameId) → (from_value v ≡ some i) ↔ IsId v i
  unfolding from_value
  from_value_iff v i = (λ e. is_id v e, λ h. from h)
    where
      from : {v : Json} {i : FrameId} → IsId v i → from_value v ≡ some i
      from (number_id n i e) = rw e refl
      from (string_id s) = refl
      from absent_id = refl

      is_id : (v : Json) → from_value v ≡ some i → IsId v i
      is_id (number n) e = elim (Option-cases (x.as_i64 n)) [
        | inl none_there ↦ absurd (let e' = rw none_there at e in cc)
        | inr (k, there) ↦
            subst (IsId (number n)) (some-injective _ _ (rw there at e)) (number_id n k there)
      ]
      is_id (string s) e = subst (IsId (string s)) (some-injective _ _ e) (string_id s)
      is_id null e = subst (IsId null) (some-injective _ _ e) absent_id
      is_id (boolean b) e = absurd (cc)
      is_id (array a) e = absurd (cc)
      is_id (object o) e = absurd (cc)

  id_of-some : (obj : Members x.Number) (i : FrameId) → (id_of obj ≡ some i) ↔ IdIs obj (some i)
  unfolding id_of
  id_of-some obj i = (
    λ e. elim (Option-cases (get obj (codes "id"))) [
      | inl missing ↦ absurd (let e' = rw missing at e in cc)
      | inr (v, there) ↦
          (v, get-Has obj (codes "id") v there, (from_value_iff v i).0 (rw there at e))
    ],
    λ (v, h, is). rw (Has-get h) ((from_value_iff v i).1 is),
  )

  pub id_of_iff : (obj : Members x.Number) (i : Option FrameId) → (id_of obj ≡ i) ↔ IdIs obj i
  id_of_iff obj (some i) = id_of-some obj i
  id_of_iff obj none = (
    λ e i v h is. let found = (id_of-some obj i).1 (v, h, is) in cc,
    λ no. elim (Option-cases (id_of obj)) [
      | inl e ↦ e
      | inr (i, e) ↦ let (v, h, is) = (id_of-some obj i).0 e in absurd (no i v h is)
    ],
  )
