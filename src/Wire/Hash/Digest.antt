-- ===== src/Wire/Hash/Digest.antt =====
-- crates/acp-wire/src/lib.rs: the text of a digest, and how it is read back.
pub mod Reading
use acp_core.Base.{
  ℕ, zero, suc, ◌+◌, ◌*◌, ◌-◌, ◌/◌, ◌%◌, ◌⊎◌, take, drop, leb, codes, ap₂, ◌||◌, ◌<◌, ◌≤◌, ◌≡◌,
  refl, ap, Text, Bytes, Bool, true, ◌&&◌, [], ◌∷◌, ltb, if◌then◌else◌, nat_beq, All, length, arith,
}
use acp_core.Wire.Canonical.{hex}
use acp_core.Wire.Hash.{hex_byte, hex_bytes, hex_with_prefix}

abbrev pub IsByte : ℕ → Type 0
IsByte b = b < 256

-- A lower-case hexadecimal digit, and its value.
abbrev pub IsDigit : ℕ → Type 0
IsDigit c = ((b'0' ≤ c) × (c ≤ b'9')) ⊎ ((b'a' ≤ c) × (c ≤ b'f'))

-- The value of a lower-case hexadecimal digit.
pub unhex : ℕ → ℕ
unhex c = if ltb c b'a' then c - b'0' else c - 87

holds_below : ℕ → (ℕ → Bool) → Bool
holds_below zero test = true
holds_below (suc k) test = test k && holds_below k test

holds_below_lem :
    (limit : ℕ) (test : ℕ → Bool) (i : ℕ)
    → i < limit
    → holds_below limit test ≡ true
    → test i ≡ true
unfolding holds_below
holds_below_lem zero test i lt h = absurd (omega arith)
holds_below_lem (suc k) test i lt h = ground (arith, holds_below_lem k test i)

unhex-hex_table : holds_below 16 (λ i. nat_beq (unhex (hex i)) i) ≡ true
unfolding holds_below unhex hex
unhex-hex_table = refl

pub unhex-hex : (i : ℕ) → i < 16 → unhex (hex i) ≡ i
unhex-hex i h = let t = holds_below_lem 16 _ i h unhex-hex_table in ground arith

hex-injective : (i j : ℕ) → i < 16 → j < 16 → hex i ≡ hex j → i ≡ j
hex-injective i j p q e = cc (unhex-hex i p, unhex-hex j q, ap unhex e)

hex_bytes-injective :
    (a b : Bytes) → All IsByte a → All IsByte b → hex_bytes a ≡ hex_bytes b → a ≡ b
unfolding hex_bytes hex_byte
hex_bytes-injective [] [] p q e = refl
hex_bytes-injective [] (y ∷ b) p q e = cc
hex_bytes-injective (x ∷ a) [] p q e = cc
hex_bytes-injective (x ∷ a) (y ∷ b) p q e = ground (
  arith,
  hex-injective (x / 16) (y / 16),
  hex-injective (x % 16) (y % 16),
  hex_bytes-injective a b p.1 q.1,
)

pub length-hex_bytes : (a : Bytes) → length (hex_bytes a) ≡ 2 * length a
unfolding hex_bytes hex_byte
length-hex_bytes [] = omega arith
length-hex_bytes (x ∷ a) = omega (arith, length-hex_bytes a)

is_digit : ℕ → Bool
is_digit c = (leb b'0' c && leb c b'9') || (leb b'a' c && leb c b'f')

is_digit-hex_table : holds_below 16 (λ i. is_digit (hex i)) ≡ true
unfolding holds_below is_digit hex
is_digit-hex_table = refl

hex-IsDigit : (i : ℕ) → i < 16 → IsDigit (hex i)
unfolding is_digit
hex-IsDigit i h = let t = holds_below_lem 16 _ i h is_digit-hex_table in ground arith

pub hex_bytes-IsDigit : (a : Bytes) → All IsByte a → All IsDigit (hex_bytes a)
unfolding hex_bytes hex_byte
hex_bytes-IsDigit [] p = tt
hex_bytes-IsDigit (x ∷ a) p = (
  hex-IsDigit (x / 16) (omega arith),
  (hex-IsDigit (x % 16) (omega arith), hex_bytes-IsDigit a p.1),
)

pub hex_bytes-ascii :
    (a : Bytes)
    → All IsByte a
    → All (λ c. c < 0x80) (hex_bytes a) × (length (hex_bytes a) ≡ 2 * length a)
hex_bytes-ascii a p = (ascii (hex_bytes a) (hex_bytes-IsDigit a p), length-hex_bytes a)
  where
    ascii : (s : Text) → All IsDigit s → All (λ c. c < 0x80) s
    ascii [] d = tt
    ascii (c ∷ s) d = (omega arith, ascii s d.1)

-- The bytes that pairs of digits spell, the high digit first.
pub read_hex : Text → Bytes
read_hex (high ∷ low ∷ s) = (16 * unhex high + unhex low) ∷ read_hex s
read_hex _ = []

pub read_hex-hex_bytes : (a : Bytes) → All IsByte a → read_hex (hex_bytes a) ≡ a
unfolding read_hex hex_bytes hex_byte
read_hex-hex_bytes [] p = refl
read_hex-hex_bytes (b ∷ a) p =
    let high = unhex-hex (b / 16) (omega arith) in
    let low = unhex-hex (b % 16) (omega arith) in
    let byte : 16 * unhex (hex (b / 16)) + unhex (hex (b % 16)) ≡ b = omega arith in
    ap₂ (λ c s. c ∷ s) byte (read_hex-hex_bytes a p.1)

-- The text of a digest is the prefix `blake3:` and two lower-case hexadecimal digits for each byte,
-- from which the digest is read back, the high digit of each byte first.
pub hex_with_prefix_faithful :
    (a : Bytes)
    → All IsByte a
    → (take 7 (hex_with_prefix a) ≡ codes "blake3:")
      × (length (hex_with_prefix a) ≡ 7 + 2 * length a)
      × All IsDigit (drop 7 (hex_with_prefix a))
      × (read_hex (drop 7 (hex_with_prefix a)) ≡ a)
unfolding hex_with_prefix
hex_with_prefix_faithful a p =
    (refl, omega (arith, length-hex_bytes a), hex_bytes-IsDigit a p, read_hex-hex_bytes a p)
