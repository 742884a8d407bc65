-- ===== src/Wire/Canonical/Tree.antt =====
-- A reader of canonical JSON, and what it makes of a value: numbers as their text, and an object's
-- members in ascending order.
use acp_core.Base.{
  ℕ, zero, suc, ◌+◌, Text, Bytes, Bool, true, false, ◌||◌, ◌&&◌, List, [], ◌∷◌, Option, none, some,
  nat_beq, leb, if◌then◌else◌, drop, IsText, All, ◌≡◌,
}
use acp_core.Base.Loops.{◌>>=◌}
use acp_core.Wire.Json.{
  Value, Items, Members, null, boolean, number, string, array, object, nil, cons, end, member,
  External, Json,
}
use acp_core.Wire.Canonical.{sort_entries}
use acp_core.Wire.Canonical.Strings.{read_string}

-- A character of a number's text.
abbrev pub in_number : ℕ → Bool
in_number c =
    (leb b'0' c && leb c b'9')
    || nat_beq c b'-'
    || nat_beq c b'+'
    || nat_beq c b'.'
    || nat_beq c b'e'

-- A number's text, and what is behind it.
unfoldable pub span_number : Bytes → Bytes × Bytes
span_number [] = ([], [])
span_number (c ∷ s) =
    let rest = span_number s in if in_number c then (c ∷ rest.0, rest.1) else ([], c ∷ s)

-- The fuel goes down with each value and each step in a list.
unfoldable mutual
  pub read_value : ℕ → Bytes → Option (Value Bytes × Bytes)
  read_value zero s = none
  read_value (suc n) [] = none
  read_value (suc n) (b ∷ s) =
      if nat_beq b b'n'
      then some (null, drop 3 s)
      else if nat_beq b b't'
      then some (boolean true, drop 3 s)
      else if nat_beq b b'f'
      then some (boolean false, drop 4 s)
      else if nat_beq b b'"'
      then (read_string (b ∷ s) >>= λ (t, r). some (string t, r))
      else if nat_beq b b'['
      then (read_items n s >>= λ (a, r). some (array a, r))
      else if nat_beq b b'{'
      then (read_members n s >>= λ (o, r). some (object o, r))
      else some (number (span_number (b ∷ s)).0, (span_number (b ∷ s)).1)

  -- An array behind its bracket.
  pub read_items : ℕ → Bytes → Option (Items Bytes × Bytes)
  read_items zero s = none
  read_items (suc n) [] = none
  read_items (suc n) (b ∷ s) =
      if nat_beq b b']'
      then some (nil, s)
      else (read_value n (if nat_beq b b',' then s else b ∷ s) >>= λ (v, t).
          read_items n t >>= λ (a, r). some (cons v a, r))

  -- An object behind its brace.
  pub read_members : ℕ → Bytes → Option (Members Bytes × Bytes)
  read_members zero s = none
  read_members (suc n) [] = none
  read_members (suc n) (b ∷ s) =
      if nat_beq b b'}'
      then some (end, s)
      else (read_string (if nat_beq b b',' then s else b ∷ s) >>= λ (k, t).
          read_value n (drop 1 t) >>= λ (v, u).
          read_members n u >>= λ (o, r). some (member k v o, r))

abbrev pub members_of : List (Text × Value Bytes) → Members Bytes
members_of [] = end
members_of ((k, v) ∷ es) = member k v (members_of es)

module _ ⦃x : External⦄ where
  -- What is read back of a value.
  unfoldable mutual
    pub text_of : Json → Value Bytes
    text_of null = null
    text_of (boolean b) = boolean b
    text_of (number n) = number (x.number_to_string n)
    text_of (string s) = string s
    text_of (array a) = array (texts_of a)
    text_of (object o) = object (members_of (sort_entries (entry_texts o)))

    pub texts_of : Items x.Number → Items Bytes
    texts_of nil = nil
    texts_of (cons v a) = cons (text_of v) (texts_of a)

    pub entry_texts : Members x.Number → List (Text × Value Bytes)
    entry_texts end = []
    entry_texts (member k v o) = (k, text_of v) ∷ entry_texts o

  -- Fuel that is enough for a value.
  unfoldable mutual
    pub size : Json → ℕ
    size (array a) = suc (items_size a)
    size (object o) = suc (members_size o)
    size _ = 1

    pub items_size : Items x.Number → ℕ
    items_size nil = 1
    items_size (cons v a) = suc (size v + items_size a)

    pub members_size : Members x.Number → ℕ
    members_size end = 1
    members_size (member k v o) = suc (size v + members_size o)

  -- The strings of a value are of scalar values, as Rust's are.
  unfoldable mutual
    pub HasTexts : Json → Type 0
    HasTexts (string s) = IsText s
    HasTexts (array a) = ItemsHaveTexts a
    HasTexts (object o) = MembersHaveTexts o
    HasTexts _ = Unit

    pub ItemsHaveTexts : Items x.Number → Type 0
    ItemsHaveTexts nil = Unit
    ItemsHaveTexts (cons v a) = HasTexts v × ItemsHaveTexts a

    pub MembersHaveTexts : Members x.Number → Type 0
    MembersHaveTexts end = Unit
    MembersHaveTexts (member k v o) = IsText k × HasTexts v × MembersHaveTexts o

-- A number's text is a character of a number and such characters behind it.
pub record IsNumberText (x : External) : Type 0 where
  pub first_of : (n : x.Number) → (c : ℕ) × (s : Bytes) × (x.number_to_string n ≡ c ∷ s)
  pub in_all : (n : x.Number) → All (λ c. in_number c ≡ true) (x.number_to_string n)
