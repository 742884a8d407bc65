-- ===== src/Base/Utf8.antt =====
-- Whether bytes are UTF-8, as Rust's `String`s are.
use Prim.Native.Nat.{ℕ, zero, suc, ◌+◌, ◌/◌, ◌%◌, ◌<◌, ◌≤◌}
use mathlib.Core.Path.{◌≡◌, refl, ◌∙◌}
use mathlib.Core.Logic.{inl, inr}
use mathlib.Core.Bool.{Bool, true, false, ◌&&◌}
use mathlib.Core.List.{[], ◌∷◌, ◌++◌}
use mathlib.Core.Option.{Option, none, some}
use native.Mathlib.Omega.{arith}
use acp_core.Base.Tests.{Option-cases, Bool-cases, ltb, leb, if◌then◌else◌, nat_beq, nat_beq_iff}
use acp_core.Base.Lists.{All}
use acp_core.Base.Strings.{Text, Bytes, IsScalar, IsText, encode_utf8, utf8}

-- What may follow a byte at the start of a character: how many bytes, and from where to where the next
-- one is. The cases are those of the table of well-formed sequences in the Unicode standard.
unfoldable pub utf8_start : ℕ → Option (ℕ × ℕ × ℕ)
utf8_start b =
    if ltb b 0x80
    then some (0, 0x80, 0xBF)
    else if ltb b 0xC2
    then none
    else if ltb b 0xE0
    then some (1, 0x80, 0xBF)
    else if nat_beq b 0xE0
    then some (2, 0xA0, 0xBF)
    else if nat_beq b 0xED
    then some (2, 0x80, 0x9F)
    else if ltb b 0xF0
    then some (2, 0x80, 0xBF)
    else if nat_beq b 0xF0
    then some (3, 0x90, 0xBF)
    else if ltb b 0xF4
    then some (3, 0x80, 0xBF)
    else if nat_beq b 0xF4
    then some (3, 0x80, 0x8F)
    else none

-- Whether bytes are UTF-8 when so many of a character are still to come.
unfoldable pub utf8_rest : (more low high : ℕ) → Bytes → Bool
unfolding utf8_start
utf8_rest zero low high [] = true
utf8_rest (suc more) low high [] = false
utf8_rest zero low high (b ∷ s) = elim (utf8_start b) [
  | none ↦ false
  | some (more, low', high') ↦ utf8_rest more low' high' s
]
utf8_rest (suc more) low high (b ∷ s) =
    let rest = utf8_rest more 0x80 0xBF s in leb low b && leb b high && rest

-- `std::str::from_utf8(..).is_ok()`
unfoldable pub is_utf8 : Bytes → Bool
unfolding utf8_rest
is_utf8 s = utf8_rest 0 0x80 0xBF s

utf8_start-low : (b more low high : ℕ) → utf8_start b ≡ some (more, low, high) → 0x7F < low
unfolding utf8_start
utf8_start-low b more low high e = ground (arith, e)

utf8_rest-newline :
    (more low high : ℕ) (s : Bytes)
    → 0x7F < low
    → utf8_rest more low high (s ++ b'\n' ∷ []) ≡ utf8_rest more low high s
unfolding utf8_rest utf8_start
utf8_rest-newline zero low high [] h = refl
utf8_rest-newline (suc more) low high [] h = ground (arith, h)
utf8_rest-newline zero low high (b ∷ s) h = elim (Option-cases (utf8_start b)) [
  | inl bad ↦ rw (utf8_rest, bad)
  | inr ((more, low', high'), e) ↦
      rw (utf8_rest, e) (utf8_rest-newline more low' high' s (utf8_start-low b more low' high' e))
]
utf8_rest-newline (suc more) low high (b ∷ s) h =
    rw (utf8_rest-newline more 0x80 0xBF s (omega arith))

-- A newline at the end makes no difference.
pub is_utf8-newline : (s : Bytes) → is_utf8 (s ++ b'\n' ∷ []) ≡ is_utf8 s
unfolding is_utf8
is_utf8-newline s = utf8_rest-newline 0 0x80 0xBF s (omega arith)

utf8_rest-one :
    (c : ℕ) (s : Bytes)
    → ltb c 0x80 ≡ true
    → utf8_rest 0 0x80 0xBF (c ∷ s) ≡ utf8_rest 0 0x80 0xBF s
unfolding utf8_rest utf8_start
utf8_rest-one c s one = rw (utf8_rest, utf8_start, one)

-- A character of three bytes.
utf8_rest-three :
    (b c d : ℕ) (s : Bytes)
    → 0xE0 ≤ b
    → b < 0xF0
    → 0x80 ≤ c
    → c ≤ 0xBF
    → 0x80 ≤ d
    → d ≤ 0xBF
    → (b ≡ 0xE0 → 0xA0 ≤ c)
    → (b ≡ 0xED → c ≤ 0x9F)
    → utf8_rest 0 0x80 0xBF (b ∷ c ∷ d ∷ s) ≡ utf8_rest 0 0x80 0xBF s
unfolding utf8_rest utf8_start
utf8_rest-three b c d s b0 b1 c0 c1 d0 d1 first last =
    ground (arith, b0, b1, c0, c1, d0, d1, first, last, nat_beq_iff b 0xE0, nat_beq_iff b 0xED)

utf8_rest-four :
    (b c d e : ℕ) (s : Bytes)
    → 0xF0 ≤ b
    → b < 0xF5
    → 0x80 ≤ c
    → c ≤ 0xBF
    → 0x80 ≤ d
    → d ≤ 0xBF
    → 0x80 ≤ e
    → e ≤ 0xBF
    → (b ≡ 0xF0 → 0x90 ≤ c)
    → (b ≡ 0xF4 → c ≤ 0x8F)
    → utf8_rest 0 0x80 0xBF (b ∷ c ∷ d ∷ e ∷ s) ≡ utf8_rest 0 0x80 0xBF s
unfolding utf8_rest utf8_start
utf8_rest-four b c d e s b0 b1 c0 c1 d0 d1 e0 e1 first last =
    ground
      (arith, b0, b1, c0, c1, d0, d1, e0, e1, first, last, nat_beq_iff b 0xF0, nat_beq_iff b 0xF4)

utf8_rest-two :
    (b c : ℕ) (s : Bytes)
    → 0xC2 ≤ b
    → b < 0xE0
    → 0x80 ≤ c
    → c ≤ 0xBF
    → utf8_rest 0 0x80 0xBF (b ∷ c ∷ s) ≡ utf8_rest 0 0x80 0xBF s
unfolding utf8_rest utf8_start
utf8_rest-two b c s b0 b1 c0 c1 = ground (arith, b0, b1, c0, c1)

utf8_rest-encode_utf8 :
    (c : ℕ) (s : Bytes)
    → IsScalar c
    → utf8_rest 0 0x80 0xBF (encode_utf8 c ++ s) ≡ utf8_rest 0 0x80 0xBF s
unfolding encode_utf8
utf8_rest-encode_utf8 c s h = elim (Bool-cases (ltb c 0x80)) [
  | inl one ↦ rw one (utf8_rest-one c s one)
  | inr more ↦ elim (Bool-cases (ltb c 0x800)) [
    | inl two ↦
        rw (more, two)
          (utf8_rest-two (0xC0 + c / 64) (0x80 + c % 64) s (ground (arith, more))
            (ground (arith, two)) (omega arith) (omega arith))
    | inr more' ↦ elim (Bool-cases (ltb c 0x10000)) [
      | inl three ↦
          let large : 0x800 ≤ c = ground (arith, more') in
          let small : c < 0x10000 = ground (arith, three) in
          rw (more, more', three)
            (utf8_rest-three (0xE0 + c / 4096) (0x80 + c / 64 % 64) (0x80 + c % 64) s (omega arith)
              (omega arith) (omega arith) (omega arith) (omega arith) (omega arith)
              (λ e. omega arith) (λ e. ground (arith, h, e, small)))
      | inr four ↦
          let large : 0x10000 ≤ c = ground (arith, four) in
          let small : c < 0x110000 = ground (arith, h, large) in
          rw (more, more', four)
            (utf8_rest-four (0xF0 + c / 262144) (0x80 + c / 4096 % 64) (0x80 + c / 64 % 64)
              (0x80 + c % 64) s (omega arith) (omega arith) (omega arith) (omega arith)
              (omega arith) (omega arith) (omega arith) (omega arith) (λ e. omega arith)
              (λ e. omega arith))
    ]
  ]
]

utf8_rest-utf8 : (t : Text) → IsText t → utf8_rest 0 0x80 0xBF (utf8 t) ≡ true
unfolding utf8_rest
utf8_rest-utf8 [] h = refl
utf8_rest-utf8 (c ∷ t) h = utf8_rest-encode_utf8 c (utf8 t) h.0 ∙ utf8_rest-utf8 t h.1

-- The bytes of a text are UTF-8.
pub is_utf8-utf8 : (t : Text) → IsText t → is_utf8 (utf8 t) ≡ true
unfolding is_utf8
is_utf8-utf8 = utf8_rest-utf8

-- So are bytes below 0x80.
pub is_utf8-ascii : (s : Bytes) → All (λ c. c < 0x80) s → is_utf8 s ≡ true
unfolding is_utf8 utf8_rest
is_utf8-ascii [] h = refl
is_utf8-ascii (c ∷ s) h = utf8_rest-one c s (ground (arith, h.0)) ∙ is_utf8-ascii s h.1
