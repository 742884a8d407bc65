-- ===== src/Wire/Frame/Classified.antt =====
-- crates/acp-wire/src/lib.rs: which lines are JSON-RPC frames, in terms of the members of an object.
use acp_core.Base.{
  ◌≡◌, refl, ap, sym, subst, ◌∙◌, ◌≢◌, ap₂, ◌⊎◌, inl, inr, ◌↔◌, Text, Bytes, codes, true, false, [],
  ◌∷◌, All, Option, none, some, nat_eq, list_eq, Bool-cases, Option-cases, arith,
}
use acp_core.Base.Fallible.{ok}
use acp_core.Wire.Json.{Members, string, object, External, Json, get}
use acp_core.Wire.Frame.{
  Kind, request, notification, response, FrameId, Frame, contains, is_some, method_of, id_of,
  has_outcome, parse,
}
use acp_core.Wire.Frame.Named.{Has, Has-get, get-Has, MethodIs, IdIs, method_of_iff, id_of_iff}
use acp_core.Wire.Frame.Parsed.{HasKind, Describes, parse_iff}

contains_iff : (line : Bytes) → (contains line b'\n' ≡ false) ↔ All (λ c. c ≢ b'\n') line
unfolding contains
contains_iff [] = (λ e. tt, λ p. refl)
contains_iff (c ∷ line) =
    let rest = contains_iff line in
    (
      λ e. ((λ same. ground (arith, e, same)), rest.0 (ground (arith, e))),
      λ p. let other = p.0 in ground (arith, rest.1 p.1),
    )

module _ ⦃x : External⦄ where
  abbrev pub HasOutcome : Members x.Number → Type 0
  HasOutcome obj =
      ((v : Json) × Has obj (codes "result") v) ⊎ ((v : Json) × Has obj (codes "error") v)

  -- A request has a method and an id, a notification a method and no id, and neither a result or an
  -- error; a response has one of these, and no method.
  abbrev pub KindIs : Members x.Number → Kind → Option Text → Option FrameId → Type 0
  KindIs obj request m i = (m ≢ none) × (i ≢ none) × ¬ HasOutcome obj
  KindIs obj notification m i = (m ≢ none) × (i ≡ none) × ¬ HasOutcome obj
  KindIs obj response m i = (m ≡ none) × HasOutcome obj

  pub record IsJsonRpc (line : Bytes) (f : Frame) : Type 0 where
    pub obj : Members x.Number
    pub one_line : All (λ c. c ≢ b'\n') line
    pub parsed : x.from_slice line ≡ some (object obj)
    pub version : Has obj (codes "jsonrpc") (string (codes "2.0"))
    pub method : MethodIs obj f.method
    pub id : IdIs obj f.id
    pub kind : KindIs obj f.kind f.method f.id
    pub value : f.value ≡ object obj
    pub raw : f.raw ≡ line

  is_some_iff :
      (obj : Members x.Number) (k : Text)
      → (is_some (get obj k) ≡ true) ↔ ((v : Json) × Has obj k v)
  is_some_iff obj k = (
    λ e. elim (Option-cases (get obj k)) [
      | inl missing ↦ absurd (let e' = rw missing at e in cc)
      | inr (v, there) ↦ (v, get-Has obj k v there)
    ],
    λ (v, h). rw (Has-get h) refl,
  )

  has_outcome_iff : (obj : Members x.Number) → (has_outcome obj ≡ true) ↔ HasOutcome obj
  unfolding has_outcome
  has_outcome_iff obj = (
    λ e. elim (Bool-cases (is_some (get obj (codes "result")))) [
      | inl result ↦ inl ((is_some_iff obj (codes "result")).0 result)
      | inr other ↦ inr ((is_some_iff obj (codes "error")).0 (rw other at e))
    ],
    λ h. elim h [
      | inl result ↦ rw ((is_some_iff obj (codes "result")).1 result) refl
      | inr error ↦
          let failed = (is_some_iff obj (codes "error")).1 error in
          elim (Bool-cases (is_some (get obj (codes "result")))) [
            | inl result ↦ rw result refl
            | inr other ↦ rw (other, failed) refl
          ]
    ],
  )

  no_outcome_iff : (obj : Members x.Number) → (has_outcome obj ≡ false) ↔ (¬ HasOutcome obj)
  no_outcome_iff obj = (
    λ e h. let there = (has_outcome_iff obj).1 h in cc,
    λ no. elim (Bool-cases (has_outcome obj)) [
      | inl there ↦ absurd (no ((has_outcome_iff obj).0 there))
      | inr e ↦ e
    ],
  )

  is_some-there {ℓ} : {A : Type ℓ} (o : Option A) → (is_some o ≡ true) ↔ (o ≢ none)
  is_some-there none = (λ e. absurd (cc), λ ne. absurd (ne refl))
  is_some-there (some a) = (λ e e'. cc, λ ne. refl)

  is_some-missing {ℓ} : {A : Type ℓ} (o : Option A) → (is_some o ≡ false) ↔ (o ≡ none)
  is_some-missing none = (λ e. refl, λ e. refl)
  is_some-missing (some a) = (λ e. absurd (cc), λ e. absurd (cc))

  HasKind_iff :
      (obj : Members x.Number) (k : Kind) → HasKind obj k ↔ KindIs obj k (method_of obj) (id_of obj)
  HasKind_iff obj request =
      let m = is_some-there (method_of obj) in
      let i = is_some-there (id_of obj) in
      let o = no_outcome_iff obj in
      (λ (p, q, r). (m.0 p, i.0 q, o.0 r), λ (p, q, r). (m.1 p, i.1 q, o.1 r))
  HasKind_iff obj notification =
      let m = is_some-there (method_of obj) in
      let i = is_some-missing (id_of obj) in
      let o = no_outcome_iff obj in
      (λ (p, q, r). (m.0 p, i.0 q, o.0 r), λ (p, q, r). (m.1 p, i.1 q, o.1 r))
  HasKind_iff obj response =
      let m = is_some-missing (method_of obj) in
      let o = has_outcome_iff obj in (λ (p, r). (m.0 p, o.0 r), λ (p, r). (m.1 p, o.1 r))

  Describes-IsJsonRpc : (line : Bytes) (f : Frame) → Describes line f → IsJsonRpc line f
  Describes-IsJsonRpc line f d =
      let methods = ap (λ (g : Frame). g.method) (sym d.frame) in
      let ids = ap (λ (g : Frame). g.id) (sym d.frame) in
      record {
        obj = d.obj;
        one_line = (contains_iff line).0 d.one_line;
        parsed = d.parsed;
        version = get-Has d.obj (codes "jsonrpc") (string (codes "2.0")) d.version;
        method = (method_of_iff d.obj f.method).0 methods;
        id = (id_of_iff d.obj f.id).0 ids;
        kind =
            subst (λ m. KindIs d.obj f.kind m f.id) methods
              (subst (KindIs d.obj f.kind (method_of d.obj)) ids
                ((HasKind_iff d.obj f.kind).0 d.kind));
        value = ap (λ (g : Frame). g.value) d.frame;
        raw = ap (λ (g : Frame). g.raw) d.frame;
      }

  IsJsonRpc-Describes : (line : Bytes) (f : Frame) → IsJsonRpc line f → Describes line f
  IsJsonRpc-Describes line f r =
      let methods = sym ((method_of_iff r.obj f.method).1 r.method) in
      let ids = sym ((id_of_iff r.obj f.id).1 r.id) in
      record {
        obj = r.obj;
        one_line = (contains_iff line).1 r.one_line;
        parsed = r.parsed;
        version = Has-get r.version;
        kind = (HasKind_iff r.obj f.kind).1 (
            subst (λ m. KindIs r.obj f.kind m (id_of r.obj)) methods
              (subst (KindIs r.obj f.kind f.method) ids r.kind));
        frame =
            ap₂ (λ m i. record f { method = m; id = i }) methods ids
            ∙ ap₂
                (λ v b. record f { method = method_of r.obj; id = id_of r.obj; value = v; raw = b })
                r.value r.raw;
      }

  -- `Frame::parse` returns a frame exactly for a line without a newline that is a JSON object whose
  -- `jsonrpc` is "2.0" and that is of one of the three kinds by its members `method`, `id`, `result`
  -- and `error`: a request, a notification, or a response with a result or an error. The frame has
  -- that kind, the method and id that the object has, the object and the bytes of the line.
  pub parse-IsJsonRpc : (line : Bytes) (f : Frame) → (parse line ≡ ok f) ↔ IsJsonRpc line f
  parse-IsJsonRpc line f = (
    λ e. Describes-IsJsonRpc line f ((parse_iff line f).0 e),
    λ r. (parse_iff line f).1 (IsJsonRpc-Describes line f r),
  )
