-- ===== src/Diverge/Render.antt =====
-- crates/acp-diverge/src/lib.rs: `render_unified` and `render_dot`. A slice that cuts a character,
-- which panics, is `none`.
pub mod Hashes
pub mod OneLine
pub mod Lines
use acp_core.Base.{
  ℕ, suc, ◌+◌, min, Text, Bytes, codes, utf8, Bool, List, [], ◌∷◌, ◌++◌, Option, none, some,
  nat_beq, ltb, if◌then◌else◌, decimal, pad_left, pad_right, strip_prefix, unwrap_or, length,
}
use acp_core.Base.Loops.{◌>>=◌}
use acp_core.Trace.Event.{Direction, direction_str}
use acp_core.Trace.Reader.{split_at}
use acp_core.Diverge.{DiffOp, common, only_a, only_b, DiffStats, DiffReport}

-- `&s[..n]`, for an index up to the length.
abbrev byte_prefix : ℕ → Text → Option Text
byte_prefix n s = split_at n s >>= λ (a, b). some a

unfoldable pub short_hash : Text → Option Text
unfolding split_at
short_hash h =
    let stripped = unwrap_or (strip_prefix (codes "blake3:") h) h in
    byte_prefix (min (length (utf8 stripped)) 12) stripped >>= λ shown.
    some (codes "blake3:" ++ shown ++ 0x2026 ∷ [])

-- `{:?}` of an `Option<usize>`
unfoldable pub debug_option : Option ℕ → Text
unfolding decimal
debug_option none = codes "None"
debug_option (some n) = codes "Some(" ++ decimal n ++ codes ")"

-- The direction, the method and the hash of an operation's line.
unfoldable pub describe : Direction → Option Text → Text → Option Text
unfolding direction_str pad_right short_hash
describe dir method hash = short_hash hash >>= λ short.
    some
      (direction_str dir ++ codes " " ++ pad_right 40 (unwrap_or method []) ++ codes " " ++ short)

-- The line of an operation, without its newline.
unfoldable pub op_line : DiffOp → Option Text
unfolding describe decimal pad_left
op_line (common a_seq b_seq dir hash method) = describe dir method hash >>= λ rest. some (
    codes "  ["
    ++ pad_left 5 (decimal a_seq)
    ++ codes "|"
    ++ pad_left 5 (decimal b_seq)
    ++ codes "] "
    ++ rest)
op_line (only_a a_seq dir hash method) = describe dir method hash >>= λ rest.
    some (codes "- [" ++ pad_left 5 (decimal a_seq) ++ codes "|     ] " ++ rest)
op_line (only_b b_seq dir hash method) = describe dir method hash >>= λ rest.
    some (codes "+ [     |" ++ pad_left 5 (decimal b_seq) ++ codes "] " ++ rest)

unfoldable pub unified_ops : List DiffOp → Option Text
unfolding op_line
unified_ops [] = some []
unified_ops (op ∷ ops) =
    op_line op >>= λ line. unified_ops ops >>= λ rest. some (line ++ b'\n' ∷ rest)

unfoldable pub stats_line : DiffStats → Text
unfolding decimal debug_option
stats_line stats =
    codes "# common="
    ++ decimal stats.common
    ++ codes " only_a="
    ++ decimal stats.only_a
    ++ codes " only_b="
    ++ decimal stats.only_b
    ++ codes " first_div="
    ++ debug_option stats.first_divergence

unfoldable pub render_unified : DiffReport → Option Text
unfolding unified_ops stats_line
render_unified report = unified_ops report.ops >>= λ ops. some (
    (codes "--- " ++ report.label_a)
    ++ b'\n'
      ∷ ((codes "+++ " ++ report.label_b) ++ b'\n' ∷ (stats_line report.stats ++ b'\n' ∷ ops)))

-- `replace('"', "\\\"")`
unfoldable pub escape_quotes : Text → Text
escape_quotes [] = []
escape_quotes (c ∷ s) =
    let rest = escape_quotes s in if nat_beq c b'"' then b'\\' ∷ b'"' ∷ rest else c ∷ rest

unfoldable pub dot_node : ℕ → Text → Direction → Option Text → Text → Text
unfolding decimal direction_str escape_quotes
dot_node i side dir method colour =
    codes "  n"
    ++ decimal i
    ++ codes " [label=\""
    ++ side
    ++ direction_str dir
    ++ codes " "
    ++ escape_quotes (unwrap_or method [])
    ++ codes "\", style=filled, fillcolor=\""
    ++ colour
    ++ codes "\"];"

unfoldable pub dot_op : ℕ → DiffOp → Text
unfolding dot_node
dot_op i (common _ _ dir _ method) = dot_node i [] dir method (codes "#d6f5d6")
dot_op i (only_a _ dir _ method) = dot_node i (codes "only-A: ") dir method (codes "#fbd5d5")
dot_op i (only_b _ dir _ method) = dot_node i (codes "only-B: ") dir method (codes "#fde3a7")

unfoldable pub dot_edge : ℕ → Text
unfolding decimal
dot_edge i = codes "  n" ++ decimal i ++ codes " -> n" ++ decimal (i + 1) ++ codes ";"

-- The loop over the operations, from index `i`, of `n` in all.
unfoldable pub dot_ops : (n i : ℕ) → List DiffOp → Text
unfolding dot_op dot_edge
dot_ops n i [] = []
dot_ops n i (op ∷ ops) =
    let rest = dot_ops n (i + 1) ops in
    dot_op i op ++ b'\n' ∷ (if ltb (i + 1) n then dot_edge i ++ b'\n' ∷ rest else rest)

unfoldable pub dot_label : DiffReport → Text
unfolding decimal
dot_label report =
    codes "  label=\""
    ++ report.label_a
    ++ codes " vs "
    ++ report.label_b
    ++ codes "\\ncommon="
    ++ decimal report.stats.common
    ++ codes " only_a="
    ++ decimal report.stats.only_a
    ++ codes " only_b="
    ++ decimal report.stats.only_b
    ++ codes "\";"

unfoldable pub render_dot : DiffReport → Text
unfolding dot_ops dot_label
render_dot report =
    codes "digraph divergence {"
    ++ b'\n' ∷ codes "  rankdir=LR;"
    ++ b'\n' ∷ codes "  node [shape=box, fontname=\"monospace\"];"
    ++ b'\n' ∷ codes "  labelloc=\"t\";"
    ++ b'\n' ∷ dot_label report
    ++ b'\n' ∷ dot_ops (length report.ops) 0 report.ops
    ++ codes "}"
    ++ b'\n' ∷ []
