-- ===== src/Wire/Json.antt =====
-- `serde_json::Value`, and what crates/acp-wire takes from `serde_json` and `blake3`.
use acp_core.Base.{Text, Bytes, Bool, ℤ, Option, none, some, if◌then◌else◌, ◌==◌, nat_eq, list_eq}

-- An object's members stand in the order of the map's iteration (`preserve_order`). `N` is
-- `serde_json::Number`.
mutual
  pub data Value (N : Type 0) : Type 0 where
    null : Value N
    boolean : Bool → Value N
    number : N → Value N
    string : Text → Value N
    array : Items N → Value N
    object : Members N → Value N

  pub data Items (N : Type 0) : Type 0 where
    nil : Items N
    cons : Value N → Items N → Items N

  pub data Members (N : Type 0) : Type 0 where
    end : Members N
    member : Text → Value N → Members N → Members N

-- The libraries that the crates call: numbers and their text, the JSON parser and compact
-- printer of `serde_json`, and `blake3::hash`.
pub record External : Type 1 where
  pub Number : Type 0
  pub as_i64 : Number → Option ℤ
  pub from_i64 : ℤ → Number
  pub number_to_string : Number → Bytes
  pub from_slice : Bytes → Option (Value Number)
  pub to_vec : Value Number → Bytes
  pub hash : Bytes → Bytes

abbrev pub Json : ⦃x : External⦄ → Type 0
Json ⦃x⦄ = Value x.Number

module _ {N : Type 0} where
  -- `Map::get`
  unfoldable pub get : Members N → Text → Option (Value N)
  get end k = none
  get (member j v ms) k = let rest = get ms k in if j == k then some v else rest

  -- `Map::insert`: the value of a key that is there is replaced in place.
  unfoldable pub insert : Members N → Text → Value N → Members N
  insert end k v = member k v end
  insert (member j w ms) k v =
      let rest = insert ms k v in if j == k then member j v ms else member j w rest

  -- `Value::as_object` and `Value::as_str`
  abbrev pub as_object : Value N → Option (Members N)
  as_object (object ms) = some ms
  as_object _ = none

  abbrev pub as_str : Value N → Option Text
  as_str (string s) = some s
  as_str _ = none
