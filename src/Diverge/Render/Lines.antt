-- ===== src/Diverge/Render/Lines.antt =====
-- The lines of the text rendering.
use acp_core.Base.{ℕ, Text, [], ◌∷◌, unwrap_or}
use acp_core.Diverge.{DiffOp, common, only_a, only_b}
use acp_core.Diverge.Render.OneLine.{IsOneLine}
use acp_core.Diverge.Render.Hashes.{IsAscii, op_hash}

-- Which side an operation is on, as its line says.
abbrev pub mark : DiffOp → ℕ
mark (common _ _ _ _ _) = b' '
mark (only_a _ _ _ _) = b'-'
mark (only_b _ _ _ _) = b'+'

abbrev pub op_method : DiffOp → Text
op_method (common _ _ _ _ m) = unwrap_or m []
op_method (only_a _ _ _ m) = unwrap_or m []
op_method (only_b _ _ _ m) = unwrap_or m []

-- The hash is of ASCII characters, and neither it nor the method has a newline.
pub record IsPlain (op : DiffOp) : Type 0 where
  pub ascii : IsAscii (op_hash op)
  pub one_line : IsOneLine (op_hash op)
  pub method_line : IsOneLine (op_method op)

abbrev pub first_of : Text → ℕ
first_of [] = 0
first_of (c ∷ s) = c
