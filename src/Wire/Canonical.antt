-- ===== src/Wire/Canonical.antt =====
-- crates/acp-wire/src/canonical.rs: the RFC 8785 form of a JSON value. A function that pushes onto
-- `out` is modelled by the bytes that it appends.
pub mod Order
pub mod Sorting
pub mod Permuted
pub mod Strings
pub mod Tree
pub mod Entries
pub mod Readable
pub mod Elements
pub mod Injective
pub mod Same
use Prim.Native.Nat.{Ordering, compare}
use acp_core.Base.{
  ℕ, suc, ◌/◌, ◌%◌, Text, Bytes, codes, encode_utf8, encode_utf16, true, false, List, [], ◌∷◌, ◌++◌,
  ltb, if◌then◌else◌, nat_beq, get_elem?, unwrap_or,
}
use acp_core.Wire.Json.{
  Items, Members, null, boolean, number, string, array, object, nil, cons, end, member, External,
  Json,
}

-- The table `HEX`; it is indexed by four bits.
unfoldable pub hex : ℕ → ℕ
hex i = unwrap_or (get_elem? (codes "0123456789abcdef") i) 0

unfoldable pub write_uescape : ℕ → Bytes
write_uescape code_unit =
    codes "\\u"
    ++ hex (code_unit / 4096 % 16)
      ∷ hex (code_unit / 256 % 16)
      ∷ hex (code_unit / 16 % 16)
      ∷ hex (code_unit % 16)
      ∷ []

-- The arms of the `match c` in `write_string`.
unfoldable pub write_char : ℕ → Bytes
write_char c =
    if nat_beq c b'"'
    then codes "\\\""
    else if nat_beq c b'\\'
    then codes "\\\\"
    else if nat_beq c 0x08
    then codes "\\b"
    else if nat_beq c 0x09
    then codes "\\t"
    else if nat_beq c 0x0A
    then codes "\\n"
    else if nat_beq c 0x0C
    then codes "\\f"
    else if nat_beq c 0x0D
    then codes "\\r"
    else if ltb c 0x20
    then write_uescape c
    else encode_utf8 c

unfoldable pub write_chars : Text → Bytes
write_chars [] = []
write_chars (c ∷ s) = write_char c ++ write_chars s

unfoldable pub write_string : Text → Bytes
unfolding write_chars
write_string s = b'"' ∷ write_chars s ++ b'"' ∷ []

-- The loop of `utf16_cmp` over the two iterators.
unfoldable pub compare_units : List ℕ → List ℕ → Ordering
compare_units [] [] = Ordering.eq
compare_units (x ∷ a) [] = Ordering.gt
compare_units [] (y ∷ b) = Ordering.lt
compare_units (x ∷ a) (y ∷ b) = elim (compare x y) [ Ordering.eq ↦ compare_units a b | ord ↦ ord ]

unfoldable pub utf16_cmp : Text → Text → Ordering
unfolding compare_units encode_utf16
utf16_cmp a b = compare_units (encode_utf16 a) (encode_utf16 b)

-- `slice::sort_by` by the key of an entry: a stable sort.
module _ {B : Type 0} where
  unfoldable pub insert_entry : Text × B → List (Text × B) → List (Text × B)
  insert_entry e [] = e ∷ []
  insert_entry e (d ∷ ds) = elim (utf16_cmp e.0 d.0) [
    | Ordering.gt ↦ d ∷ insert_entry e ds
    | _ ↦ e ∷ d ∷ ds
  ]

  unfoldable pub sort_entries : List (Text × B) → List (Text × B)
  sort_entries [] = []
  sort_entries (e ∷ es) = insert_entry e (sort_entries es)

-- `if i > 0 { out.push(b',') }`
abbrev pub comma : ℕ → Bytes
comma i = if ltb 0 i then b',' ∷ [] else []

-- The loop over the sorted entries, from index `i`. An entry holds the bytes that its value
-- writes; the sort reads only the keys, so it does not matter that they are computed before it.
unfoldable pub write_entries : ℕ → List (Text × Bytes) → Bytes
write_entries i [] = []
write_entries i ((k, val) ∷ es) =
    comma i ++ write_string k ++ b':' ∷ val ++ write_entries (suc i) es

module _ ⦃x : External⦄ where
  unfoldable mutual
    pub write_value : Json → Bytes
    write_value null = codes "null"
    write_value (boolean true) = codes "true"
    write_value (boolean false) = codes "false"
    write_value (number n) = x.number_to_string n
    write_value (string s) = write_string s
    write_value (array arr) = b'[' ∷ write_items 0 arr ++ b']' ∷ []
    write_value (object obj) =
        b'{' ∷ write_entries 0 (sort_entries (written_members obj)) ++ b'}' ∷ []

    pub write_items : ℕ → Items x.Number → Bytes
    write_items i nil = []
    write_items i (cons item arr) = comma i ++ write_value item ++ write_items (suc i) arr

    pub written_members : Members x.Number → List (Text × Bytes)
    written_members end = []
    written_members (member k val obj) = (k, write_value val) ∷ written_members obj

  unfoldable pub canonicalize : Json → Bytes
  canonicalize v = write_value v
