-- ===== src/Examples/Canonical.antt =====
-- Two spellings of an object, with numbers in decimal.
use acp_core.Base.{
  ℕ, zero, suc, ◌+◌, ◌/◌, ◌%◌, ◌≡◌, ◌↔◌, refl, inl, inr, Bytes, codes, Bool-cases, ltb, true, ℤ,
  pos, negsuc, [], ◌∷◌, ◌++◌, All, digits, decimal, digits-cons, arith,
}
use acp_core.Wire.Json.{Value, null, number, object, end, member, External}
use acp_core.Wire.Canonical.{canonicalize}
use acp_core.Wire.Canonical.Tree.{in_number, HasTexts, IsNumberText}
use acp_core.Wire.Canonical.Same.{printed, canonicalize_iff}
use acp_core.Wire.Canonical.Permuted.{SameJson}
use acp_core.Examples.Frames.{toy}

number_text : ℤ → Bytes
number_text (pos n) = decimal n
number_text (negsuc n) = b'-' ∷ decimal (suc n)

-- As the other examples, but that numbers are printed in full.
abbrev printer : External
printer = record toy { number_to_string = number_text }

All-snoc : (P : ℕ → Type 0) (s : Bytes) (d : ℕ) → All P s → P d → All P (s ++ d ∷ [])
All-snoc P [] d p q = (q, tt)
All-snoc P (c ∷ s) d p q = (p.0, All-snoc P s d p.1 q)

digits-All : (fuel n : ℕ) → All (λ c. in_number c ≡ true) (digits fuel n)
unfolding digits
digits-All zero n = tt
digits-All (suc fuel) n = elim (Bool-cases (ltb n 10)) [
  | inl small ↦ rw small ((ground arith, tt))
  | inr large ↦
      rw large (
        All-snoc _ (digits fuel (n / 10)) (b'0' + n % 10) (digits-All fuel (n / 10)) (ground arith))
]

printer-IsNumberText : IsNumberText printer
unfolding number_text decimal
printer-IsNumberText = record { first_of = starts; in_all = all }
  where
    starts : (n : ℤ) → (c : ℕ) × (s : Bytes) × (number_text n ≡ c ∷ s)
    starts (pos n) = digits-cons n n
    starts (negsuc n) = (b'-', decimal (suc n), refl)

    all : (n : ℤ) → All (λ c. in_number c ≡ true) (number_text n)
    all (pos n) = digits-All (suc n) n
    all (negsuc n) = (refl, digits-All (suc (suc n)) (suc n))

abbrev one_order : Value ℤ
one_order = object (member (codes "a") null (member (codes "b") (number (pos 12)) end))

abbrev other_order : Value ℤ
other_order = object (member (codes "b") (number (pos 12)) (member (codes "a") null end))

one_order-HasTexts : HasTexts ⦃x = printer⦄ one_order
unfolding HasTexts
one_order-HasTexts = ((inl (omega arith), tt), tt, ((inl (omega arith), tt), tt, tt))

other_order-HasTexts : HasTexts ⦃x = printer⦄ other_order
unfolding HasTexts
other_order-HasTexts = ((inl (omega arith), tt), tt, ((inl (omega arith), tt), tt, tt))

canonicalize_iff_example :
    (canonicalize ⦃x = printer⦄ one_order ≡ canonicalize ⦃x = printer⦄ other_order)
    ↔ SameJson (printed ⦃x = printer⦄ one_order) (printed ⦃x = printer⦄ other_order)
canonicalize_iff_example =
    canonicalize_iff ⦃x = printer⦄ one_order other_order printer-IsNumberText one_order-HasTexts
      other_order-HasTexts
