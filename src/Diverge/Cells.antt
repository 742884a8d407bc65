-- ===== src/Diverge/Cells.antt =====
-- crates/acp-diverge/src/lib.rs: the cells of the table of `lcs_diff`, their number and their indexes.
use native.Mathlib.Decide.{dec_lt}
use acp_core.Base.{ℕ, ◌+◌, ◌*◌, ◌^◌, ◌≤◌, ◌<◌, ◌≡◌, ap, ap₂, sym, ◌-◌, ◌≢◌, List, length, arith}
use acp_core.Diverge.{Step, idx, cell_count}

rows_apart : (w k l m n : ℕ) → m < w → n < w → k < l → k * w + m ≢ l * w + n
rows_apart w k l m n hm hn lt e =
    let gap : l ≡ k + 1 + (l - k - 1) = omega arith in
    absurd (omega (arith, ap (λ (t : ℕ). t * w) gap))

-- A cell's place determines its row and column; `w` is the width of a row.
pub idx-injective :
    (w p q p' q' : ℕ) → q < w → q' < w → p * w + q ≡ p' * w + q' → (p ≡ p') × (q ≡ q')
idx-injective w p q p' q' h h' e = elim (dec_lt p p') [
  | yes lt ↦ absurd (rows_apart w p p' q q' h h' lt e)
  | no nl ↦ elim (dec_lt p' p) [
    | yes lt ↦ absurd (rows_apart w p' p q' q h' h lt (sym e))
    | no ng ↦ let rows : p ≡ p' = omega arith in (rows, omega (arith, ap (λ (t : ℕ). t * w) rows))
  ]
]

pub idx_bound : (n m p q : ℕ) → p ≤ n → q ≤ m → p * (m + 1) + q < (n + 1) * (m + 1)
idx_bound n m p q hp hq = grind arith

-- The table of two sequences, with a row and a column more, fits in memory: its cells of 4 bytes have
-- fewer than 2^63 bytes.
abbrev pub Fits : List Step → List Step → Type 0
Fits a b = 4 * ((length a + 1) * (length b + 1)) < 2 ^ 63

pub product_large : (p q : ℕ) → 2 ^ 32 ≤ p → 2 ^ 32 ≤ q → 2 ^ 64 ≤ p * q
product_large p q hp hq =
    let r = p - 2 ^ 32 in
    let s = q - 2 ^ 32 in
    let whole : p * q ≡ (2 ^ 32 + r) * (2 ^ 32 + s) =
      ap₂ (λ m n. m * n) (omega arith) (omega arith) in
    omega (arith, whole)

pub idx-eq :
    (a b : List Step) (p q : ℕ)
    → Fits a b
    → p ≤ length a
    → q ≤ length b
    → idx a b p q ≡ p * (length b + 1) + q
idx-eq a b p q fits hp hq = omega (arith, idx_bound (length a) (length b) p q hp hq)

pub cell_count-eq : (a b : List Step) → Fits a b → cell_count a b ≡ (length a + 1) * (length b + 1)
cell_count-eq a b fits = omega arith
