-- ===== src/Wire/Reader/TextLines.antt =====
-- The lines of a text, each without its newline.
use acp_core.Base.{ℕ, ◌≡◌, refl, Text, false, List, [], ◌∷◌, ◌++◌, nat_beq, if◌then◌else◌, arith}
use acp_core.Wire.Frame.{contains}

-- The lines of a text: what stands before each newline, and what is left behind the last.
pub add_front : ℕ → List Text → List Text
add_front c [] = (c ∷ []) ∷ []
add_front c (l ∷ ls) = (c ∷ l) ∷ ls

unfoldable pub text_lines : Text → List Text
unfolding add_front
text_lines [] = []
text_lines (c ∷ s) =
    let rest = text_lines s in if nat_beq c b'\n' then [] ∷ rest else add_front c rest

pub text_lines-line :
    (l s : Text) → contains l b'\n' ≡ false → text_lines (l ++ b'\n' ∷ s) ≡ l ∷ text_lines s
unfolding text_lines contains add_front
text_lines-line [] s h = refl
text_lines-line (c ∷ l) s h = ground (arith, text_lines-line l s)

pub text_lines-last :
    (c : ℕ) (l : Text) → contains (c ∷ l) b'\n' ≡ false → text_lines (c ∷ l) ≡ (c ∷ l) ∷ []
unfolding text_lines contains add_front
text_lines-last c [] h = ground arith
text_lines-last c (d ∷ l) h = ground (arith, text_lines-last d l)
