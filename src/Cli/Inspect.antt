-- ===== src/Cli/Inspect.antt =====
-- crates/acp-cli/src/main.rs: what `acp inspect` prints.
pub mod Rows
pub mod Counts
use acp_core.Base.{
  ℕ, ◌+◌, ◌%◌, ◌^◌, Text, codes, Bool, true, false, List, [], ◌∷◌, ◌++◌, length, Option, none, some,
  nat_beq, if◌then◌else◌, ◌==◌, nat_eq, list_eq, unwrap_or, decimal, pad_left, pad_right,
}
use acp_core.Trace.Event.{EventRecord, RecordingEnv, Manifest, direction_str}
use acp_core.Trace.Reader.{TraceReader}
use acp_core.Diverge.Render.{short_hash}
use acp_core.Cli.{count_dirs, record_kind_str, shell_join, shown, not_shown}

-- `println!`
abbrev pub line : Text → Text
line s = s ++ b'\n' ∷ []

unfoldable pub env_lines : List (Text × Text) → Text
env_lines [] = []
env_lines ((k, v) ∷ env) = line (codes "  " ++ k ++ codes " = " ++ v) ++ env_lines env

-- The lines on the recorder's host.
unfoldable pub host_lines : RecordingEnv → Text
unfolding env_lines decimal
host_lines env =
    line (
      codes "host            : "
      ++ unwrap_or env.host_os (codes "?")
      ++ codes " / "
      ++ unwrap_or env.host_arch (codes "?"))
    ++ elim env.cwd [ none ↦ [] | some cwd ↦ line (codes "cwd             : " ++ cwd) ]
    ++ elim env.recorder_pid [
      | none ↦ []
      | some pid ↦ line (codes "recorder_pid    : " ++ decimal pid)
    ]
    ++ elim env.env [
      | [] ↦ []
      | kv ∷ rest ↦
          line (codes "captured env    : " ++ decimal (length (kv ∷ rest)) ++ codes " key(s)")
          ++ env_lines (kv ∷ rest)
    ]

-- The lines on the manifest, with the number of rows.
unfoldable pub manifest_lines : Text → Manifest → ℕ → Text
unfolding host_lines shell_join decimal
manifest_lines trace_dir m rows =
    line (codes "trace_dir       : " ++ trace_dir)
    ++ line (codes "format_version  : " ++ decimal m.format_version)
    ++ line (codes "recorder        : " ++ m.recorder ++ codes " " ++ m.recorder_version)
    ++ line (codes "agent_argv      : " ++ shell_join m.agent_argv)
    ++ line (codes "started_at      : " ++ m.started_at)
    ++ line (codes "ended_at        : " ++ unwrap_or m.ended_at (codes "<unfinished>"))
    ++ line (codes "event_count     : " ++ decimal (unwrap_or m.event_count (rows % 2 ^ 64)))
    ++ line (codes "events_hash     : " ++ unwrap_or m.events_hash (codes "<unfinished>"))
    ++ elim m.recording_env [ none ↦ [] | some env ↦ host_lines env ]

-- The sum of a `u64`.
unfoldable pub bytes_total : List EventRecord → ℕ → ℕ
bytes_total [] n = n
bytes_total (e ∷ events) n = bytes_total events ((n + e.bytes) % 2 ^ 64)

-- `HashSet::insert` of each hash: the set's elements, each once.
abbrev pub has_hash : List Text → Text → Bool
has_hash [] h = false
has_hash (g ∷ set) h = if g == h then true else has_hash set h

unfoldable pub unique_hashes : List EventRecord → List Text → List Text
unique_hashes [] set = set
unique_hashes (e ∷ events) set =
    unique_hashes events (if has_hash set e.hash then set else e.hash ∷ set)

-- The lines that count; `quotient` prints a quotient of two `f64`.
unfoldable pub count_lines : (ℕ → ℕ → Text) → TraceReader → Text
unfolding count_dirs bytes_total unique_hashes decimal
count_lines quotient t =
    let (c2a, a2c) = count_dirs t in
    let unique = length (unique_hashes t.events []) in
    let ratio = if nat_beq unique 0 then quotient 0 1 else quotient (length t.events) unique in
    line (codes "c2a frames      : " ++ decimal c2a)
    ++ line (codes "a2c frames      : " ++ decimal a2c)
    ++ line (codes "total wire bytes: " ++ decimal (bytes_total t.events 0))
    ++ line (
        codes "unique payloads : "
        ++ decimal unique
        ++ codes " (dedup ratio "
        ++ ratio
        ++ codes "x)")

-- The line of a row, from its shortened hash.
unfoldable pub row_text : EventRecord → Text → Text
unfolding decimal pad_left pad_right direction_str record_kind_str
row_text e hash =
    pad_left 4 (decimal e.seq)
    ++ codes " "
    ++ pad_right 4 (direction_str e.dir)
    ++ codes " "
    ++ pad_right 13 (record_kind_str e.kind)
    ++ codes " "
    ++ pad_right 40 (unwrap_or e.method [])
    ++ codes " "
    ++ pad_left 6 (decimal e.bytes)
    ++ codes "  "
    ++ hash

-- A slice that cuts a character is `none`.
unfoldable pub row_line : EventRecord → Option Text
unfolding short_hash row_text
row_line e = elim (short_hash e.hash) [ none ↦ none | some hash ↦ some (row_text e hash) ]

-- The rows, and whether all of them were printed: the program panics in one that is not.
unfoldable pub row_lines : List EventRecord → Text × Bool
unfolding row_line
row_lines [] = ([], true)
row_lines (e ∷ events) =
    let (rest, all) = row_lines events in
    elim (row_line e) [ none ↦ ([], false) | some s ↦ (line s ++ rest, all) ]

abbrev pub table_head : Text
table_head = codes "seq  dir  kind          method                                   bytes  hash"

-- The last line, if rows were left out.
unfoldable pub not_shown_line : ℕ → Text
unfolding decimal
not_shown_line n =
    if nat_beq n 0
    then []
    else line (codes "... (" ++ decimal n ++ codes " events not shown; use --full)")

-- `cmd_inspect` of a trace that opens: what it prints, and whether it comes to its end.
unfoldable pub inspect_text : (ℕ → ℕ → Text) → Text → TraceReader → Bool → Text × Bool
unfolding manifest_lines count_lines row_lines shown not_shown not_shown_line
inspect_text quotient trace_dir t full =
    let (rows, all) = row_lines (shown full t.events) in
    let end = if all then not_shown_line (not_shown full t.events) else [] in
    (
      manifest_lines trace_dir t.manifest (length t.events)
          ++ count_lines quotient t
          ++ line []
          ++ line table_head
          ++ rows
          ++ end,
      all,
    )
