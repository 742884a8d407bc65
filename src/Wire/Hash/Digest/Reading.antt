-- ===== src/Wire/Hash/Digest/Reading.antt =====
-- crates/acp-wire/src/lib.rs: a text of lower-case digits is the text of the digest that it spells.
use acp_core.Base.{
  ℕ, zero, suc, ◌+◌, ◌*◌, ◌/◌, ◌%◌, ◌<◌, ◌≡◌, refl, ap, Text, Bool, true, [], ◌∷◌, nat_beq, leb,
  ◌||◌, ◌&&◌, All, length, arith, if◌then◌else◌,
}
use acp_core.Wire.Canonical.{hex}
use acp_core.Wire.Hash.{hex_byte, hex_bytes}
use acp_core.Wire.Hash.Digest.{IsDigit, unhex, read_hex, holds_below, holds_below_lem}

digit_again : ℕ → Bool
digit_again c =
    if (leb b'0' c && leb c b'9') || (leb b'a' c && leb c b'f')
    then nat_beq (hex (unhex c)) c && leb (unhex c) 15
    else true

digit_again_table : holds_below 103 digit_again ≡ true
unfolding digit_again holds_below hex unhex
digit_again_table = refl

hex-unhex : (c : ℕ) → IsDigit c → (hex (unhex c) ≡ c) × (unhex c < 16)
unfolding digit_again
hex-unhex c d =
    let small : c < 103 = omega arith in
    let t = holds_below_lem 103 digit_again c small digit_again_table in ground (arith, t, d)

-- A text of an even number of digits is what is written of the bytes that it spells.
pub hex_bytes-read_hex :
    (n : ℕ) (s : Text) → length s ≡ 2 * n → All IsDigit s → hex_bytes (read_hex s) ≡ s
unfolding hex_bytes hex_byte read_hex
hex_bytes-read_hex n [] e p = refl
hex_bytes-read_hex zero (c ∷ s) e p = absurd (omega arith)
hex_bytes-read_hex (suc n) (c ∷ []) e p = absurd (omega arith)
hex_bytes-read_hex (suc n) (c ∷ d ∷ s) e p =
    let (high, high_small) = hex-unhex c p.0 in
    let (low, low_small) = hex-unhex d p.1.0 in
    let quotient : (16 * unhex c + unhex d) / 16 ≡ unhex c = omega arith in
    let rest : (16 * unhex c + unhex d) % 16 ≡ unhex d = omega arith in
    rw (quotient, rest, high, low)
      (ap (λ t. c ∷ d ∷ t) (hex_bytes-read_hex n s (omega arith) p.1.1))
