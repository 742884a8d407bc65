-- ===== src/Cli/Main/Listing.antt =====
-- crates/acp-cli/src/main.rs: `acp inspect` comes to its end.
use acp_core.Base.{◌≡◌, refl, sym, subst, Text, Bool, true, List, [], ◌∷◌, ◌++◌, Option, none, some}
use acp_core.Base.Fallible.{ok}
use acp_core.Wire.Json.{External}
use acp_core.Trace.Event.{EventRecord}
use acp_core.Trace.Reader.{TraceReader, open_trace}
use acp_core.Diverge.Render.Hashes.{IsAscii, short_hash-take}
use acp_core.Diverge.Render.{short_hash}
use acp_core.Cli.{shown}
use acp_core.Cli.Inspect.{row_text, row_line, row_lines, inspect_text}
use acp_core.Cli.Inspect.Rows.{shown-IsWindow}
use acp_core.Cli.Main.{World, cmd_inspect}
use acp_core.Cli.Main.Exit.{AreAscii}

row_line-some : (e : EventRecord) → IsAscii e.hash → (s : Text) × (row_line e ≡ some s)
unfolding row_line
row_line-some e a = shown_by (short_hash e.hash) (_, short_hash-take e.hash a)
  where
    shown_by :
        (o : Option Text)
        → (h : Text) × (o ≡ some h)
        → (s : Text) × (elim o [ none ↦ none | some hash ↦ some (row_text e hash) ] ≡ some s)
    shown_by o (h, p) = (row_text e h, rw p refl)

row_lines-all : (events : List EventRecord) → AreAscii events → (row_lines events).1 ≡ true
unfolding row_lines
row_lines-all [] p = refl
row_lines-all (e ∷ events) (a, p) = let (s, h) = row_line-some e a in rw h (row_lines-all events p)

All-append-both :
    (front skipped back : List EventRecord)
    → AreAscii (front ++ skipped ++ back)
    → AreAscii (front ++ back)
All-append-both [] [] back p = p
All-append-both [] (e ∷ skipped) back p = All-append-both [] skipped back p.1
All-append-both (e ∷ front) skipped back p = (p.0, All-append-both front skipped back p.1)

module _ ⦃x : External⦄ where
  -- `acp inspect` of a trace that opens comes to its end and exits with 0, with or without `--full`, if
  -- the hashes of its rows are of ASCII characters.
  pub cmd_inspect-ends :
      (w : World) (trace : Text) (full : Bool) (t : TraceReader)
      → open_trace w.formats (w.directory trace) ≡ ok t
      → AreAscii t.events
      → (cmd_inspect w trace full).result ≡ ok 0
  unfolding cmd_inspect inspect_text
  cmd_inspect-ends w trace full t opens ascii =
      let (front, skipped, back, window) = shown-IsWindow full t.events in
      let all : AreAscii (shown full t.events) =
        subst AreAscii (sym window.listed)
          (All-append-both front skipped back (subst AreAscii window.whole ascii)) in
      rw (cmd_inspect, opens, row_lines-all (shown full t.events) all) refl
