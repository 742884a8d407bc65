-- ===== src/Base/Decimal.antt =====
-- `Display`, `FromStr` and padding of unsigned integers.
use Prim.Native.Nat.{ℕ, zero, suc, ◌+◌, ◌-◌, ◌*◌, ◌/◌, ◌%◌, ◌<◌}
use mathlib.Core.Path.{◌≡◌, refl, ap, sym, ◌∙◌}
use mathlib.Core.Logic.{inl, inr}
use mathlib.Core.Bool.{◌&&◌}
use mathlib.Core.List.{[], ◌∷◌, ◌++◌}
use mathlib.Core.Option.{Option, none, some, some-injective}
use native.Mathlib.Omega.{arith}
use acp_core.Base.Tests.{ltb, leb, nat_beq, if◌then◌else◌, Bool-cases}
use acp_core.Base.Lists.{length, replicate}
use acp_core.Base.Strings.{Text}

-- A number has no more digits than its value and one.
unfoldable pub digits : ℕ → ℕ → Text
digits zero n = []
digits (suc fuel) n =
    let rest = digits fuel (n / 10) in
    if ltb n 10 then (b'0' + n) ∷ [] else rest ++ (b'0' + n % 10) ∷ []

unfoldable pub decimal : ℕ → Text
unfolding digits
decimal n = digits (suc n) n

-- `{:>width}` and `{:<width}`
unfoldable pub pad_left : ℕ → Text → Text
pad_left width s = replicate (width - length s) b' ' ++ s

unfoldable pub pad_right : ℕ → Text → Text
pad_right width s = s ++ replicate (width - length s) b' '

-- The digits of a number below `bound`, behind those of `n`.
unfoldable pub parse_digits : (bound n : ℕ) → Text → Option ℕ
parse_digits bound n [] = some n
parse_digits bound n (c ∷ s) =
    let v = n * 10 + (c - b'0') in
    let rest = parse_digits bound v s in
    if leb b'0' c && leb c b'9' && ltb v bound then rest else none

-- `str::parse` to an unsigned integer: a sign `+` may stand in front, and there is a digit.
unfoldable pub parse_unsigned : ℕ → Text → Option ℕ
unfolding parse_digits
parse_unsigned bound [] = none
parse_unsigned bound (c ∷ []) = parse_digits bound 0 (c ∷ [])
parse_unsigned bound (c ∷ d ∷ s) =
    let signed = parse_digits bound 0 (d ∷ s) in
    let unsigned = parse_digits bound 0 (c ∷ d ∷ s) in if nat_beq c b'+' then signed else unsigned

parse_digits-snoc :
    (bound n : ℕ) (s : Text) (m d : ℕ)
    → parse_digits bound n s ≡ some m
    → d < 10
    → m * 10 + d < bound
    → parse_digits bound n (s ++ (b'0' + d) ∷ []) ≡ some (m * 10 + d)
unfolding parse_digits
parse_digits-snoc bound n [] m d e h k = let same : n ≡ m = some-injective _ _ e in ground arith
parse_digits-snoc bound n (c ∷ s) m d e h k =
    ground (arith, parse_digits-snoc bound (n * 10 + (c - b'0')) s m d)

digits-parse_digits :
    (bound fuel n : ℕ) → n < fuel → n < bound → parse_digits bound 0 (digits fuel n) ≡ some n
unfolding digits
digits-parse_digits bound zero n h k = absurd (omega arith)
digits-parse_digits bound (suc fuel) n h k = elim (Bool-cases (ltb n 10)) [
  | inl small ↦ rw small (unfold parse_digits in ground arith)
  | inr large ↦ rw large (
      let few : n / 10 < fuel = ground arith in
      let whole : n / 10 * 10 + n % 10 ≡ n = omega arith in
      parse_digits-snoc bound 0 (digits fuel (n / 10)) (n / 10) (n % 10)
        (digits-parse_digits bound fuel (n / 10) few (omega arith)) (omega arith) (omega arith)
      ∙ ap some whole)
]

pub digits-cons : (fuel n : ℕ) → (c : ℕ) × (s : Text) × (digits (suc fuel) n ≡ c ∷ s)
unfolding digits
digits-cons fuel n = elim (Bool-cases (ltb n 10)) [
  | inl small ↦ (b'0' + n, [], rw small)
  | inr large ↦
      let (c, s, e) = snoc-cons (digits fuel (n / 10)) (b'0' + n % 10) in (c, s, rw large e)
]
  where
    snoc-cons : (s : Text) (d : ℕ) → (c : ℕ) × (t : Text) × (s ++ d ∷ [] ≡ c ∷ t)
    snoc-cons [] d = (d, [], refl)
    snoc-cons (c ∷ s) d = (c, s ++ d ∷ [], refl)

-- A text that starts with a digit has no sign.
parse_unsigned-unsigned :
    (bound n c : ℕ) (s : Text)
    → parse_digits bound 0 (c ∷ s) ≡ some n
    → parse_unsigned bound (c ∷ s) ≡ some n
unfolding parse_unsigned parse_digits
parse_unsigned-unsigned bound n c [] e = e
parse_unsigned-unsigned bound n c (d ∷ s) e = ground arith

-- A number that is printed is read back, if it is below the bound.
pub parse_unsigned-decimal : (bound n : ℕ) → n < bound → parse_unsigned bound (decimal n) ≡ some n
unfolding decimal
parse_unsigned-decimal bound n h =
    let (c, s, e) = digits-cons n n in
    ap (parse_unsigned bound) e
    ∙ parse_unsigned-unsigned bound n c s
        (sym (ap (parse_digits bound 0) e) ∙ digits-parse_digits bound (suc n) n (omega arith) h)
