-- ===== src/Cli.antt =====
-- crates/acp-cli/src/main.rs: what the commands compute. Their arguments are parsed by a library, and
-- what they print is not modelled but for the parts below.
pub mod Inspect
pub mod Main
use acp_core.Base.{
  ℕ, suc, ◌+◌, ◌-◌, ◌%◌, ◌^◌, Text, codes, Bool, true, false, ◌&&◌, ◌||◌, List, [], ◌∷◌, ◌++◌, map,
  reverse, take, length, Option, none, some, nat_beq, leb, if◌then◌else◌,
}
use acp_core.Wire.Frame.{contains}
use acp_core.Trace.Event.{Direction, c2a, a2c, RecordKind, EventRecord}
use acp_core.Trace.Disk.{Disk, Formats}
use acp_core.Trace.Reader.{TraceError, TraceReader, open_trace}
use acp_core.Base.Fallible.{Result, ok, err}
use acp_core.Diverge.{DiffReport, diff_two}
use acp_core.Diverge.Render.{render_dot, render_unified}

-- The counts of `count_dirs`, from two counts.
unfoldable pub count_rows : List EventRecord → ℕ × ℕ → ℕ × ℕ
count_rows [] (c, a) = (c, a)
count_rows (e ∷ rows) (c, a) = elim e.dir [
  | c2a ↦ count_rows rows ((c + 1) % 2 ^ 64, a)
  | a2c ↦ count_rows rows (c, (a + 1) % 2 ^ 64)
]

unfoldable pub count_dirs : TraceReader → ℕ × ℕ
unfolding count_rows
count_dirs r = count_rows r.events (0, 0)

unfoldable pub record_kind_str : RecordKind → Text
record_kind_str RecordKind.request = codes "request"
record_kind_str RecordKind.response = codes "response"
record_kind_str RecordKind.notification = codes "notification"

-- An argument with a space is quoted.
unfoldable pub shell_word : Text → Text
unfolding contains
shell_word p = if contains p b' ' then b'"' ∷ p ++ b'"' ∷ [] else p

-- `join(" ")`
unfoldable pub join_words : List Text → Text
join_words [] = []
join_words (p ∷ []) = p
join_words (p ∷ q ∷ rest) = p ++ b' ' ∷ join_words (q ∷ rest)

unfoldable pub shell_join : List Text → Text
unfolding shell_word join_words
shell_join parts = join_words (map shell_word parts)

-- The rows that `cmd_inspect` lists, and how many it says to leave out.
unfoldable pub shown : Bool → List EventRecord → List EventRecord
shown full events =
    if full || leb (length events) 20
    then events
    else take 10 events ++ reverse (take 10 (reverse events))

unfoldable pub not_shown : Bool → List EventRecord → ℕ
not_shown full events = if full || leb (length events) 20 then 0 else length events - 20

-- The exit code of `cmd_diff`, from the report.
unfoldable pub exit_code : DiffReport → ℕ
exit_code report = if nat_beq report.stats.only_a 0 && nat_beq report.stats.only_b 0 then 0 else 1

-- What `cmd_diff` prints.
unfoldable pub diff_text : Bool → DiffReport → Option Text
unfolding render_dot render_unified
diff_text dot report = if dot then some (render_dot report) else render_unified report
