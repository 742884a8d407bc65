-- ===== src/Diverge/Render/OneLine.antt =====
-- Pieces of a rendering that have no newline.
use acp_core.Base.{
  ℕ, zero, suc, ◌+◌, ◌-◌, ◌/◌, ◌%◌, ◌≡◌, refl, ap, inl, inr, Text, codes, Bool-cases, false, [],
  ◌∷◌, ◌++◌, Option, none, some, nat_beq, ltb, length, take, unwrap_or, strip_prefix, replicate,
  digits, decimal, pad_left, pad_right, arith,
}
use acp_core.Base.Loops.{◌>>=◌}
use acp_core.Wire.Frame.{contains}
use acp_core.Wire.Reader.Lines.{contains-append}
use acp_core.Trace.Event.{Direction, direction_str}
use acp_core.Diverge.{DiffStats}
use acp_core.Diverge.Render.{describe, debug_option, stats_line}
use acp_core.Diverge.Render.Hashes.{IsAscii, short_hash-take, strip_prefix-kept}

abbrev pub IsOneLine : Text → Type 0
IsOneLine s = contains s b'\n' ≡ false

pub append-IsOneLine : (l m : Text) → IsOneLine l → IsOneLine m → IsOneLine (l ++ m)
append-IsOneLine l m h k = rw (contains-append l m b'\n', h) k

take-IsOneLine : (n : ℕ) (s : Text) → IsOneLine s → IsOneLine (take n s)
unfolding contains
take-IsOneLine zero s h = refl
take-IsOneLine (suc n) [] h = refl
take-IsOneLine (suc n) (c ∷ s) h = ground (arith, take-IsOneLine n s)

replicate-IsOneLine : (n c : ℕ) → nat_beq c b'\n' ≡ false → IsOneLine (replicate n c)
unfolding contains
replicate-IsOneLine zero c h = refl
replicate-IsOneLine (suc n) c h = rw h (replicate-IsOneLine n c h)

contains-tail : (c : ℕ) (s : Text) → IsOneLine (c ∷ s) → IsOneLine s
unfolding contains
contains-tail c s h = ground arith

digit-IsOneLine : (n : ℕ) → IsOneLine ((b'0' + n) ∷ [])
unfolding contains
digit-IsOneLine n = ground arith

digits-IsOneLine : (fuel n : ℕ) → IsOneLine (digits fuel n)
unfolding digits
digits-IsOneLine zero n = unfold contains in refl
digits-IsOneLine (suc fuel) n = elim (Bool-cases (ltb n 10)) [
  | inl small ↦ rw small (digit-IsOneLine n)
  | inr large ↦ rw large (
      append-IsOneLine (digits fuel (n / 10)) ((b'0' + n % 10) ∷ [])
        (digits-IsOneLine fuel (n / 10)) (digit-IsOneLine (n % 10)))
]

pad_left-IsOneLine : (width : ℕ) (s : Text) → IsOneLine s → IsOneLine (pad_left width s)
unfolding pad_left
pad_left-IsOneLine width s h =
    append-IsOneLine (replicate (width - length s) b' ') s
      (replicate-IsOneLine (width - length s) b' ' refl) h

pad_right-IsOneLine : (width : ℕ) (s : Text) → IsOneLine s → IsOneLine (pad_right width s)
unfolding pad_right
pad_right-IsOneLine width s h =
    append-IsOneLine s (replicate (width - length s) b' ') h
      (replicate-IsOneLine (width - length s) b' ' refl)

direction_str-IsOneLine : (d : Direction) → IsOneLine (direction_str d)
unfolding direction_str contains
direction_str-IsOneLine d = ground arith

decimal-IsOneLine : (n : ℕ) → IsOneLine (decimal n)
unfolding decimal
decimal-IsOneLine n = digits-IsOneLine (suc n) n

pub describe-IsOneLine :
    (d : Direction) (m : Option Text) (h : Text)
    → IsAscii h
    → IsOneLine h
    → IsOneLine (unwrap_or m [])
    → (s : Text) × (describe d m h ≡ some s) × IsOneLine s
unfolding describe
describe-IsOneLine d m h a o k =
    let prefix = codes "blake3:" in
    let shown = take 12 (unwrap_or (strip_prefix prefix h) h) in
    let short = prefix ++ shown ++ 0x2026 ∷ [] in
    let short_line : IsOneLine short =
      append-IsOneLine (prefix ++ shown) (0x2026 ∷ [])
        (append-IsOneLine prefix shown (unfold contains in refl) (
          take-IsOneLine 12 (unwrap_or (strip_prefix prefix h) h)
            (strip_prefix-kept IsOneLine contains-tail prefix h o)))
        (unfold contains in refl) in
    let space : IsOneLine (codes " ") = unfold contains in refl in
    (
      direction_str d ++ codes " " ++ pad_right 40 (unwrap_or m []) ++ codes " " ++ short,
      ap
          (λ (r : Option Text). r >>= λ s.
            some (direction_str d ++ codes " " ++ pad_right 40 (unwrap_or m []) ++ codes " " ++ s))
          (short_hash-take h a),
      append-IsOneLine (direction_str d ++ codes " " ++ pad_right 40 (unwrap_or m []) ++ codes " ")
          short
          (append-IsOneLine (direction_str d ++ codes " " ++ pad_right 40 (unwrap_or m []))
            (codes " ")
            (append-IsOneLine (direction_str d ++ codes " ") (pad_right 40 (unwrap_or m []))
              (append-IsOneLine (direction_str d) (codes " ") (direction_str-IsOneLine d) space)
              (pad_right-IsOneLine 40 (unwrap_or m []) k))
            space)
          short_line,
    )

-- A number in its column, between two texts.
pub column-IsOneLine :
    (before after : Text) (n : ℕ)
    → IsOneLine before
    → IsOneLine after
    → IsOneLine (before ++ pad_left 5 (decimal n) ++ after)
column-IsOneLine before after n h k =
    append-IsOneLine (before ++ pad_left 5 (decimal n)) after
      (append-IsOneLine before (pad_left 5 (decimal n)) h
        (pad_left-IsOneLine 5 (decimal n) (decimal-IsOneLine n)))
      k

debug_option-IsOneLine : (o : Option ℕ) → IsOneLine (debug_option o)
unfolding debug_option
debug_option-IsOneLine none = unfold contains in refl
debug_option-IsOneLine (some n) =
    append-IsOneLine (codes "Some(" ++ decimal n) (codes ")")
      (append-IsOneLine (codes "Some(") (decimal n) (unfold contains in refl) (decimal-IsOneLine n))
      (unfold contains in refl)

-- A number behind a text, and a name behind it.
number-IsOneLine :
    (before after : Text) (n : ℕ)
    → IsOneLine before
    → IsOneLine after
    → IsOneLine (before ++ decimal n ++ after)
number-IsOneLine before after n h k =
    append-IsOneLine (before ++ decimal n) after
      (append-IsOneLine before (decimal n) h (decimal-IsOneLine n)) k

pub stats_line-IsOneLine : (st : DiffStats) → IsOneLine (stats_line st)
unfolding stats_line
stats_line-IsOneLine st =
    let before_a = codes "# common=" ++ decimal st.common ++ codes " only_a=" in
    let before_b = before_a ++ decimal st.only_a ++ codes " only_b=" in
    let before_first = before_b ++ decimal st.only_b ++ codes " first_div=" in
    append-IsOneLine before_first (debug_option st.first_divergence)
      (number-IsOneLine before_b (codes " first_div=") st.only_b
        (number-IsOneLine before_a (codes " only_b=") st.only_a
          (number-IsOneLine (codes "# common=") (codes " only_a=") st.common
            (unfold contains in refl) (unfold contains in refl))
          (unfold contains in refl))
        (unfold contains in refl))
      (debug_option-IsOneLine st.first_divergence)
