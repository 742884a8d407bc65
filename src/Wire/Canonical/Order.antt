-- ===== src/Wire/Canonical/Order.antt =====
-- `utf16_cmp` is a strict total order on strings.
use Prim.Native.Nat.{Ordering}
use acp_core.Base.{ℕ, ◌≡◌, refl, ◌≢◌, Text, IsText, encode_utf16, List, [], ◌∷◌, arith}
use acp_core.Wire.Canonical.{compare_units, utf16_cmp}

-- The comparison with its sides exchanged.
abbrev pub flip : Ordering → Ordering
flip Ordering.lt = Ordering.gt
flip Ordering.eq = Ordering.eq
flip Ordering.gt = Ordering.lt

pub compare_units-flip : (a b : List ℕ) → compare_units b a ≡ flip (compare_units a b)
unfolding compare_units
compare_units-flip [] [] = refl
compare_units-flip (x ∷ a) [] = refl
compare_units-flip [] (y ∷ b) = refl
compare_units-flip (x ∷ a) (y ∷ b) = ground (arith, compare_units-flip a b)

pub compare_units-eq : (a b : List ℕ) → compare_units a b ≡ Ordering.eq → a ≡ b
unfolding compare_units
compare_units-eq [] [] h = refl
compare_units-eq (x ∷ a) [] h = ground arith
compare_units-eq [] (y ∷ b) h = ground arith
compare_units-eq (x ∷ a) (y ∷ b) h = ground (arith, compare_units-eq a b)

pub compare_units_self : (a : List ℕ) → compare_units a a ≡ Ordering.eq
unfolding compare_units
compare_units_self [] = refl
compare_units_self (x ∷ a) = ground (arith, compare_units_self a)

-- c ≤ b and b < a give c < a.
pub compare_units_trans :
    (a b c : List ℕ)
    → compare_units a b ≡ Ordering.gt
    → compare_units c b ≢ Ordering.gt
    → compare_units a c ≡ Ordering.gt
unfolding compare_units
compare_units_trans [] [] c h k = ground arith
compare_units_trans [] (y ∷ b) c h k = ground arith
compare_units_trans (x ∷ a) b [] h k = refl
compare_units_trans (x ∷ a) [] (z ∷ c) h k = ground arith
compare_units_trans (x ∷ a) (y ∷ b) (z ∷ c) h k = ground (arith, compare_units_trans a b c)

-- A surrogate pair is no single unit, and both determine the scalar value.
encode_utf16-injective :
    (a b : Text) → IsText a → IsText b → encode_utf16 a ≡ encode_utf16 b → a ≡ b
unfolding encode_utf16
encode_utf16-injective [] [] p q h = refl
encode_utf16-injective (c ∷ a) [] p q h = ground arith
encode_utf16-injective [] (d ∷ b) p q h = ground arith
encode_utf16-injective (c ∷ a) (d ∷ b) p q h = ground (arith, encode_utf16-injective a b p.1 q.1)

pub utf16_cmp-flip : (a b : Text) → utf16_cmp b a ≡ flip (utf16_cmp a b)
unfolding utf16_cmp
utf16_cmp-flip a b = compare_units-flip (encode_utf16 a) (encode_utf16 b)

-- Different keys never compare equal.
pub utf16_cmp-eq : (a b : Text) → IsText a → IsText b → utf16_cmp a b ≡ Ordering.eq → a ≡ b
unfolding utf16_cmp
utf16_cmp-eq a b p q h = encode_utf16-injective a b p q (compare_units-eq _ _ h)

pub utf16_cmp_self : (a : Text) → utf16_cmp a a ≡ Ordering.eq
unfolding utf16_cmp
utf16_cmp_self a = compare_units_self (encode_utf16 a)

pub utf16_cmp_trans :
    (a b c : Text)
    → utf16_cmp a b ≡ Ordering.gt
    → utf16_cmp c b ≢ Ordering.gt
    → utf16_cmp a c ≡ Ordering.gt
unfolding utf16_cmp
utf16_cmp_trans a b c = compare_units_trans (encode_utf16 a) (encode_utf16 b) (encode_utf16 c)
