-- ===== src/Diverge/Render/Hashes.antt =====
-- Shortened hashes: a hash of ASCII characters is cut without a panic.
use acp_core.Base.{
  ℕ, zero, suc, ◌-◌, ◌<◌, ◌≤◌, ◌≡◌, refl, ap, sym, ◌∙◌, inl, inr, min, Text, codes, utf8,
  Bool-cases, List, [], ◌∷◌, ◌++◌, Option, some, nat_beq, All, length, take, drop, strip_prefix,
  unwrap_or, encode_utf8, arith, subst, Option-cases,
}
use mathlib.Core.Option.{some-injective}
use acp_core.Base.Loops.{◌>>=◌}
use acp_core.Trace.Event.{Direction}
use acp_core.Trace.Reader.{split_at}
use acp_core.Diverge.{DiffReport, DiffOp, common, only_a, only_b}
use acp_core.Diverge.Backtrack.{SeenA, SeenB, side_a, side_b}
use acp_core.Diverge.Render.{
  short_hash, byte_prefix, op_line, describe, unified_ops, render_unified,
}

abbrev pub IsAscii : Text → Type 0
IsAscii = All (λ c. c < 0x80)

encode_utf8-ascii : (c : ℕ) → c < 0x80 → encode_utf8 c ≡ c ∷ []
unfolding encode_utf8
encode_utf8-ascii c h = ground arith

length-utf8 : (s : Text) → IsAscii s → length (utf8 s) ≡ length s
length-utf8 [] p = refl
length-utf8 (c ∷ s) (h, p) = rw (encode_utf8-ascii c h) (ap suc (length-utf8 s p))

split_at-take :
    (n : ℕ) (s : Text) → IsAscii s → n ≤ length s → split_at n s ≡ some (take n s, drop n s)
unfolding split_at
split_at-take zero [] p h = refl
split_at-take (suc n) [] p h = absurd (omega arith)
split_at-take zero (c ∷ s) (a, p) h = refl
split_at-take (suc n) (c ∷ s) (a, p) h =
    let back : suc n - 1 ≡ n = omega arith in
    rw (encode_utf8-ascii c a, back, split_at-take n s p (omega arith)) (ground arith)

-- What a text's tails keep holds of the text without a prefix.
module _ (P : Text → Type 0) (tail : (c : ℕ) (s : Text) → P (c ∷ s) → P s) where
  strip_prefix-tail : (p s t : Text) → strip_prefix p s ≡ some t → P s → P t
  strip_prefix-tail [] s t e a = subst P (some-injective _ _ e) a
  strip_prefix-tail (c ∷ p) [] t e a = absurd (cc)
  strip_prefix-tail (c ∷ p) (d ∷ s) t e a = elim (Bool-cases (nat_beq c d)) [
    | inl same ↦ strip_prefix-tail p s t (sym (rw same refl) ∙ e) (tail d s a)
    | inr other ↦ ground arith
  ]

  pub strip_prefix-kept : (p s : Text) → P s → P (unwrap_or (strip_prefix p s) s)
  strip_prefix-kept p s a = elim (Option-cases (strip_prefix p s)) [
    | inl e ↦ rw e a
    | inr (t, e) ↦ rw e (strip_prefix-tail p s t e a)
  ]

take-min : (n : ℕ) (s : Text) → take (min (length s) n) s ≡ take n s
take-min zero [] = refl
take-min (suc n) [] = let least : min 0 (suc n) ≡ 0 = omega arith in rw least refl
take-min zero (c ∷ s) = let least : min (suc (length s)) 0 ≡ 0 = omega arith in rw least refl
take-min (suc n) (c ∷ s) =
    let both : min (suc (length s)) (suc n) ≡ suc (min (length s) n) = omega arith in
    rw both (ap (λ t. c ∷ t) (take-min n s))

-- A hash of ASCII characters is shown by its first twelve, less the name of the algorithm.
pub short_hash-take :
    (h : Text)
    → IsAscii h
    → short_hash h
      ≡ some (
          codes "blake3:"
          ++ take 12 (unwrap_or (strip_prefix (codes "blake3:") h) h)
          ++ 0x2026 ∷ [])
unfolding short_hash
short_hash-take h a =
    let stripped = unwrap_or (strip_prefix (codes "blake3:") h) h in
    let ascii = strip_prefix-kept IsAscii (λ c s p. p.1) (codes "blake3:") h a in
    ap
      (λ m.
        byte_prefix (min m 12) stripped >>= λ shown. some (codes "blake3:" ++ shown ++ 0x2026 ∷ []))
      (length-utf8 stripped ascii)
    ∙ ap (λ o. o >>= (λ (l, r). some l) >>= λ shown. some (codes "blake3:" ++ shown ++ 0x2026 ∷ []))
        (split_at-take (min (length stripped) 12) stripped ascii (omega arith))
    ∙ ap (λ t. some (codes "blake3:" ++ t ++ 0x2026 ∷ [])) (take-min 12 stripped)

abbrev pub op_hash : DiffOp → Text
op_hash (common _ _ _ h _) = h
op_hash (only_a _ _ h _) = h
op_hash (only_b _ _ h _) = h

-- The hashes of a diff are those of its steps.
pub op_hash-All :
    (P : Text → Type 0) (ops : List DiffOp)
    → All (λ (s : SeenA). P s.2) (side_a ops)
    → All (λ (s : SeenB). P s.2) (side_b ops)
    → All (λ op. P (op_hash op)) ops
op_hash-All P [] p q = tt
op_hash-All P (common i j d h m ∷ ops) p q = (p.0, op_hash-All P ops p.1 q.1)
op_hash-All P (only_a i d h m ∷ ops) p q = (p.0, op_hash-All P ops p.1 q)
op_hash-All P (only_b j d h m ∷ ops) p q = (q.0, op_hash-All P ops p q.1)

bind-some :
    {A : Type 0} (m : Option A) (f : A → Text)
    → (a : A) × (m ≡ some a)
    → (t : Text) × ((m >>= λ a. some (f a)) ≡ some t)
bind-some m f (a, e) = (f a, rw e refl)

describe-some :
    (d : Direction) (m : Option Text) (h : Text)
    → IsAscii h
    → (s : Text) × (describe d m h ≡ some s)
unfolding describe
describe-some d m h a = bind-some (short_hash h) _ (_, short_hash-take h a)

op_line-some : (op : DiffOp) → IsAscii (op_hash op) → (l : Text) × (op_line op ≡ some l)
unfolding op_line
op_line-some (common i j d h m) a = bind-some _ _ (describe-some d m h a)
op_line-some (only_a i d h m) a = bind-some _ _ (describe-some d m h a)
op_line-some (only_b j d h m) a = bind-some _ _ (describe-some d m h a)

unified_ops-some :
    (ops : List DiffOp)
    → All (λ op. IsAscii (op_hash op)) ops
    → (text : Text) × (unified_ops ops ≡ some text)
unfolding unified_ops
unified_ops-some [] p = ([], refl)
unified_ops-some (op ∷ ops) (p, q) =
    let (l, e) = op_line-some op p in
    let (text, es) = unified_ops-some ops q in (l ++ b'\n' ∷ text, rw (e, es) refl)

-- A report whose hashes are of ASCII characters can be made into text.
pub render_unified-some :
    (report : DiffReport)
    → All (λ op. IsAscii (op_hash op)) report.ops
    → (text : Text) × (render_unified report ≡ some text)
unfolding render_unified
render_unified-some report p = bind-some (unified_ops report.ops) _ (unified_ops-some report.ops p)
