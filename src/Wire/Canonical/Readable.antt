-- ===== src/Wire/Canonical/Readable.antt =====
-- What the reader of canonical JSON makes of the pieces that are written.
use acp_core.Base.{
  ℕ, suc, ◌≡◌, refl, ap, subst, ◌∙◌, Text, Bytes, IsText, Bool, true, false, not, ◌||◌, [], ◌∷◌,
  ◌++◌, some, nat_beq, if◌then◌else◌, All, arith,
}
use acp_core.Base.Loops.{◌>>=◌}
use acp_core.Wire.Json.{
  Value, Items, Members, null, boolean, number, string, array, object, cons, member, External, Json,
}
use acp_core.Wire.Canonical.{write_value, write_string}
use acp_core.Wire.Canonical.Strings.{read_string, read_string-write_string}
use acp_core.Wire.Canonical.Tree.{
  in_number, span_number, read_value, read_items, read_members, IsNumberText,
}

-- Nothing that follows could belong to a number.
abbrev pub ends : Bytes → Bool
ends [] = true
ends (c ∷ s) = not (in_number c)

span_number-append :
    (t r : Bytes) → All (λ c. in_number c ≡ true) t → ends r ≡ true → span_number (t ++ r) ≡ (t, r)
unfolding span_number
span_number-append [] [] p h = refl
span_number-append [] (c ∷ r) p h = ground arith
span_number-append (c ∷ t) r (d, p) h = rw (d, span_number-append t r p h) refl

-- A value starts with a byte that ends nothing and separates nothing.
unfoldable pub starts_value : Bytes → Bool
starts_value [] = false
starts_value (b ∷ s) = not (nat_beq b b',' || nat_beq b b']' || nat_beq b b'}')

number_plain :
    (c : ℕ)
    → in_number c ≡ true
    → (nat_beq c b'n' ≡ false)
      × (nat_beq c b't' ≡ false)
      × (nat_beq c b'f' ≡ false)
      × (nat_beq c b'"' ≡ false)
      × (nat_beq c b'[' ≡ false)
      × (nat_beq c b'{' ≡ false)
      × (starts_value (c ∷ []) ≡ true)
unfolding starts_value
number_plain c d = ground arith

pub read_value-number :
    (n c : ℕ) (t r : Bytes)
    → All (λ c. in_number c ≡ true) (c ∷ t)
    → ends r ≡ true
    → read_value (suc n) (c ∷ t ++ r) ≡ some (number (c ∷ t), r)
unfolding read_value
read_value-number n c t r (d, p) h =
    let (null_not, true_not, false_not, quote_not, array_not, object_not, _) = number_plain c d in
    let spanned = span_number-append (c ∷ t) r (d, p) h in
    rw (null_not, true_not, false_not, quote_not, array_not, object_not)
      (ap (λ (q : Bytes × Bytes). some (number q.0, q.1)) spanned)

pub read_value-string :
    (n : ℕ) (s : Text) (r : Bytes)
    → IsText s
    → read_value (suc n) (write_string s ++ r) ≡ some (string s, r)
unfolding read_value write_string
read_value-string n s r p =
    ap (λ o. o >>= λ (t, u). some (string t, u)) (read_string-write_string s r p)

-- One more item; `b` is the comma, or the first byte of the item.
pub read_items-cons :
    (n b : ℕ) (s t r : Bytes) (v : Value Bytes) (a : Items Bytes)
    → nat_beq b b']' ≡ false
    → read_value n (if nat_beq b b',' then s else b ∷ s) ≡ some (v, t)
    → read_items n t ≡ some (a, r)
    → read_items (suc n) (b ∷ s) ≡ some (cons v a, r)
unfolding read_items
read_items-cons n b s t r v a h e k = rw (h, e, k) refl

pub read_members-cons :
    (n b : ℕ) (s t u r : Bytes) (k : Text) (v : Value Bytes) (o : Members Bytes)
    → nat_beq b b'}' ≡ false
    → read_string (if nat_beq b b',' then s else b ∷ s) ≡ some (k, b':' ∷ t)
    → read_value n t ≡ some (v, u)
    → read_members n u ≡ some (o, r)
    → read_members (suc n) (b ∷ s) ≡ some (member k v o, r)
unfolding read_members
read_members-cons n b s t u r k v o h e f g = rw (h, e, f, g) refl

module _ ⦃x : External⦄ (numbers : IsNumberText x) where
  pub write_value-starts : (v : Json) → starts_value (write_value v) ≡ true
  unfolding write_value write_string starts_value
  write_value-starts null = refl
  write_value-starts (boolean true) = refl
  write_value-starts (boolean false) = refl
  write_value-starts (number n) =
      let (c, s, e) = numbers.first_of n in
      let all = subst (All (λ c. in_number c ≡ true)) e (numbers.in_all n) in
      let (_, _, _, _, _, _, plain) = number_plain c all.0 in ap starts_value e ∙ plain
  write_value-starts (string s) = refl
  write_value-starts (array a) = refl
  write_value-starts (object o) = refl
