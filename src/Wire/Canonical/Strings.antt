-- ===== src/Wire/Canonical/Strings.antt =====
-- Canonical strings against a reader of JSON strings: escapes, and characters in UTF-8.
use acp_core.Base.{
  ℕ, zero, suc, ◌+◌, ◌-◌, ◌*◌, ◌/◌, ◌%◌, ◌<◌, ◌≤◌, ◌≡◌, refl, ap, sym, ◌∙◌, inl, inr, Text, Bytes,
  codes, IsScalar, IsText, encode_utf8, Bool, true, false, not, [], ◌∷◌, ◌++◌, append_assoc, Option,
  none, some, nat_beq, ltb, if◌then◌else◌, length, length-append, arith,
}
use acp_core.Base.Loops.{◌>>=◌}
use acp_core.Wire.Hash.Digest.{unhex, unhex-hex}
use acp_core.Wire.Canonical.{write_uescape, write_char, write_chars, write_string}

-- Behind a backslash.
read_escape : Bytes → Option (ℕ × Bytes)
read_escape [] = none
read_escape (e ∷ s) =
    if nat_beq e b'b'
    then some (0x08, s)
    else if nat_beq e b't'
    then some (0x09, s)
    else if nat_beq e b'n'
    then some (0x0A, s)
    else if nat_beq e b'f'
    then some (0x0C, s)
    else if nat_beq e b'r'
    then some (0x0D, s)
    else if nat_beq e b'u'
    then read_digits s
    else some (e, s)
  where
    read_digits : Bytes → Option (ℕ × Bytes)
    read_digits (p ∷ q ∷ r ∷ t ∷ s) =
        some (((unhex p * 16 + unhex q) * 16 + unhex r) * 16 + unhex t, s)
    read_digits _ = none

-- The bytes behind the first of a character in UTF-8.
read_behind : ℕ → Bytes → Option (ℕ × Bytes)
read_behind b (c ∷ s) =
    if ltb b 0xE0
    then some ((b - 0xC0) * 64 + (c - 0x80), s)
    else (if ltb b 0xF0 then third b c s else fourth b c s)
  where
    third : ℕ → ℕ → Bytes → Option (ℕ × Bytes)
    third b c (d ∷ s) = some (((b - 0xE0) * 64 + (c - 0x80)) * 64 + (d - 0x80), s)
    third b c [] = none

    fourth : ℕ → ℕ → Bytes → Option (ℕ × Bytes)
    fourth b c (d ∷ e ∷ s) =
        some ((((b - 0xF0) * 64 + (c - 0x80)) * 64 + (d - 0x80)) * 64 + (e - 0x80), s)
    fourth b c _ = none
read_behind b [] = none

-- A character of a string, and what is behind it.
read_char : Bytes → Option (ℕ × Bytes)
unfolding read_escape read_behind
read_char [] = none
read_char (b ∷ s) =
    if nat_beq b b'\\' then read_escape s else (if ltb b 0x80 then some (b, s) else read_behind b s)

-- Up to the closing quote, and what is behind it.
read_chars : ℕ → Bytes → Option (Text × Bytes)
unfolding read_char
read_chars zero s = none
read_chars (suc fuel) [] = none
read_chars (suc fuel) (b ∷ s) =
    if nat_beq b b'"'
    then some ([], s)
    else (read_char (b ∷ s) >>= λ (c, t). read_chars fuel t >>= λ (cs, u). some (c ∷ cs, u))

-- A string of JSON has at least one byte for each character.
pub read_string : Bytes → Option (Text × Bytes)
unfolding read_chars
read_string [] = none
read_string (b ∷ s) = if nat_beq b b'"' then read_chars (length s) s else none

read_char-write_uescape :
    (c : ℕ) (r : Bytes) → c < 0x10000 → read_char (write_uescape c ++ r) ≡ some (c, r)
unfolding read_char read_escape write_uescape
read_char-write_uescape c r h =
    let whole : ((c / 4096 % 16 * 16 + c / 256 % 16) * 16 + c / 16 % 16) * 16 + c % 16 ≡ c =
      omega arith in
    rw
      (
        unhex-hex (c / 4096 % 16) (omega arith),
        unhex-hex (c / 256 % 16) (omega arith),
        unhex-hex (c / 16 % 16) (omega arith),
        unhex-hex (c % 16) (omega arith),
      )
      (ap (λ d. some (d, r)) whole)

read_char-encode_utf8 :
    (c : ℕ) (r : Bytes)
    → c < 0x110000
    → nat_beq c b'\\' ≡ false
    → read_char (encode_utf8 c ++ r) ≡ some (c, r)
unfolding read_char read_behind encode_utf8
read_char-encode_utf8 c r h n = ground arith

read_char-escape :
    (r : Bytes)
    → (read_char (codes "\\\"" ++ r) ≡ some (b'"', r))
      × (read_char (codes "\\\\" ++ r) ≡ some (b'\\', r))
      × (read_char (codes "\\b" ++ r) ≡ some (0x08, r))
      × (read_char (codes "\\t" ++ r) ≡ some (0x09, r))
      × (read_char (codes "\\n" ++ r) ≡ some (0x0A, r))
      × (read_char (codes "\\f" ++ r) ≡ some (0x0C, r))
      × (read_char (codes "\\r" ++ r) ≡ some (0x0D, r))
unfolding read_char read_escape
read_char-escape r = (refl, refl, refl, refl, refl, refl, refl)

read_char-write_char :
    (c : ℕ) (r : Bytes) → c < 0x110000 → read_char (write_char c ++ r) ≡ some (c, r)
unfolding write_char
read_char-write_char c r h =
    ground (arith, read_char-write_uescape c r, read_char-encode_utf8 c r, read_char-escape r)

starts_plain : Bytes → Bool
starts_plain [] = false
starts_plain (b ∷ s) = not (nat_beq b b'"')

-- What a character writes starts with no quote.
write_char-cons :
    (c : ℕ) → (b : ℕ) × (s : Bytes) × (write_char c ≡ b ∷ s) × (nat_beq b b'"' ≡ false)
unfolding write_char write_uescape encode_utf8 starts_plain
write_char-cons c = starts (write_char c) (ground arith)
  where
    starts :
        (l : Bytes)
        → starts_plain l ≡ true
        → (b : ℕ) × (s : Bytes) × (l ≡ b ∷ s) × (nat_beq b b'"' ≡ false)
    starts [] h = absurd (cc)
    starts (b ∷ s) h = (b, s, refl, ground arith)

read_chars-char :
    (fuel b c : ℕ) (s t u : Bytes) (cs : Text)
    → nat_beq b b'"' ≡ false
    → read_char (b ∷ s) ≡ some (c, t)
    → read_chars fuel t ≡ some (cs, u)
    → read_chars (suc fuel) (b ∷ s) ≡ some (c ∷ cs, u)
unfolding read_chars
read_chars-char fuel b c s t u cs h e k = rw (h, e, k) refl

IsScalar-lt : (c : ℕ) → IsScalar c → c < 0x110000
IsScalar-lt c (inl h) = omega arith
IsScalar-lt c (inr h) = h.1

read_chars-write_chars :
    (fuel : ℕ) (s : Text) (r : Bytes)
    → IsText s
    → length s < fuel
    → read_chars fuel (write_chars s ++ b'"' ∷ r) ≡ some (s, r)
unfolding write_chars
read_chars-write_chars zero s r p h = absurd (omega arith)
read_chars-write_chars (suc fuel) [] r p h = unfold read_chars in refl
read_chars-write_chars (suc fuel) (c ∷ s) r (scalar, p) h =
    let (b, t, e, plain) = write_char-cons c in
    let behind = write_chars s ++ b'"' ∷ r in
    ap (read_chars (suc fuel)) (append_assoc (write_char c) (write_chars s) (b'"' ∷ r))
    ∙ ap (λ l. read_chars (suc fuel) (l ++ behind)) e
    ∙ read_chars-char fuel b c (t ++ behind) behind r s plain
        (ap (λ l. read_char (l ++ behind)) (sym e)
          ∙ read_char-write_char c behind (IsScalar-lt c scalar))
        (read_chars-write_chars fuel s r p (omega arith))

length-write_chars : (s : Text) → length s ≤ length (write_chars s)
unfolding write_chars
length-write_chars [] = omega arith
length-write_chars (c ∷ s) =
    let (b, t, e, _) = write_char-cons c in
    omega (arith, length-append (write_char c) (write_chars s), ap length e, length-write_chars s)

pub read_string-write_string :
    (s : Text) (r : Bytes) → IsText s → read_string (write_string s ++ r) ≡ some (s, r)
unfolding read_string write_string
read_string-write_string s r p =
    ap (λ l. read_chars (length l) l) (append_assoc (write_chars s) (b'"' ∷ []) r)
    ∙ read_chars-write_chars (length (write_chars s ++ b'"' ∷ r)) s r p
        (omega (arith, length-append (write_chars s) (b'"' ∷ r), length-write_chars s))
