-- ===== src/Wire/Frame/Parsed.antt =====
-- What `Frame::parse` accepts, and how it classifies what it accepts.
use acp_core.Base.{
  subst, sym, ◌≡◌, ap, ◌∙◌, ◌↔◌, inl, inr, Bytes, codes, true, false, Option, none, some, ==_iff,
  nat_eq, list_eq, Bool-cases, arith,
}
use acp_core.Base.Fallible.{>>=-eq-ok, ok_or-eq-ok, ok-injective, ok, ok_or}
use acp_core.Wire.Json.{Members, null, boolean, number, string, array, object, External, Json, get}
use acp_core.Wire.Frame.{
  Kind, request, notification, response, Frame, json_error, contains, is_some, classify,
  check_version, method_of, id_of, has_outcome, parse_value, parse,
}

module _ ⦃x : External⦄ where
  -- A request has a method and an id, a notification a method and no id, and neither has a result
  -- or an error; a response has a result or an error, and no method.
  abbrev pub HasKind : Members x.Number → Kind → Type 0
  HasKind obj request =
      (is_some (method_of obj) ≡ true) × (is_some (id_of obj) ≡ true) × (has_outcome obj ≡ false)
  HasKind obj notification =
      (is_some (method_of obj) ≡ true) × (is_some (id_of obj) ≡ false) × (has_outcome obj ≡ false)
  HasKind obj response = (is_some (method_of obj) ≡ false) × (has_outcome obj ≡ true)

  abbrev pub framed : Bytes → Members x.Number → Kind → Frame
  framed line obj k = record {
    kind = k;
    method = method_of obj;
    id = id_of obj;
    value = object obj;
    raw = line;
  }

  -- A line without a newline that is a JSON object of version 2.0 and of the frame's kind; the
  -- frame keeps the line's bytes.
  pub record Describes (line : Bytes) (f : Frame) : Type 0 where
    pub obj : Members x.Number
    pub one_line : contains line b'\n' ≡ false
    pub parsed : x.from_slice line ≡ some (object obj)
    pub version : get obj (codes "jsonrpc") ≡ some (string (codes "2.0"))
    pub kind : HasKind obj f.kind
    pub frame : f ≡ framed line obj f.kind

  classify_lem :
      (obj : Members x.Number) (k : Kind)
      → classify (is_some (method_of obj)) (is_some (id_of obj)) (has_outcome obj) ≡ ok k
      → HasKind obj k
  unfolding classify
  classify_lem obj k h = ground arith

  HasKind-classify :
      (obj : Members x.Number) (k : Kind)
      → HasKind obj k
      → classify (is_some (method_of obj)) (is_some (id_of obj)) (has_outcome obj) ≡ ok k
  unfolding classify
  HasKind-classify obj k h = ground arith

  check_version_iff :
      (o : Option Json) → (check_version o ≡ ok tt) ↔ (o ≡ some (string (codes "2.0")))
  unfolding check_version
  check_version_iff (some (string s)) = ground (arith, ==_iff s (codes "2.0"))
  check_version_iff none = ground arith
  check_version_iff (some _) = ground arith

  module _ (line : Bytes) (f : Frame) where
    parse_value-Describes :
        (v : Json)
        → contains line b'\n' ≡ false
        → x.from_slice line ≡ some v
        → parse_value line v ≡ ok f
        → Describes line f
    unfolding parse_value
    parse_value-Describes (object obj) one_line parsed h =
        let (u, version, h') = >>=-eq-ok (check_version (get obj (codes "jsonrpc"))) _ h in
        let (k, kind, h'') =
          >>=-eq-ok (classify (is_some (method_of obj)) (is_some (id_of obj)) (has_outcome obj)) _
            h' in
        let e = ok-injective h'' in
        let kinds = ap (λ (g : Frame). g.kind) e in
        record {
          obj = obj;
          one_line = one_line;
          parsed = parsed;
          version = (check_version_iff _).0 version;
          kind = subst (HasKind obj) kinds (classify_lem obj k kind);
          frame = sym e ∙ ap (framed line obj) kinds;
        }
    parse_value-Describes null one_line parsed h = cc
    parse_value-Describes (boolean b) one_line parsed h = cc
    parse_value-Describes (number n) one_line parsed h = cc
    parse_value-Describes (string s) one_line parsed h = cc
    parse_value-Describes (array a) one_line parsed h = cc

    Describes-parse : Describes line f → parse line ≡ ok f
    unfolding parse
    Describes-parse d = rw (
      d.one_line,
      d.parsed,
      (check_version_iff _).1 d.version,
      HasKind-classify d.obj f.kind d.kind,
      ← d.frame,
    )

    -- `Frame::parse` accepts exactly the lines without a newline that are JSON-RPC 2.0 objects of
    -- one of the three kinds, and returns their kind, method, id, value and bytes.
    pub parse_iff : (parse line ≡ ok f) ↔ Describes line f
    unfolding parse
    parse_iff = (accepted, Describes-parse)
      where
        accepted : parse line ≡ ok f → Describes line f
        accepted h = elim (Bool-cases (contains line b'\n')) [
          | inl newline ↦ let h' = rw newline at h in cc
          | inr one_line ↦
              let h' = rw one_line at h in
              let (v, parsed, e) = >>=-eq-ok (ok_or (x.from_slice line) json_error) _ h' in
              parse_value-Describes v one_line (ok_or-eq-ok _ _ parsed) e
        ]
