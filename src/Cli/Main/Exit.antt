-- ===== src/Cli/Main/Exit.antt =====
-- crates/acp-cli/src/main.rs: the exit code of `acp diff`.
use acp_core.Base.{ℕ, suc, All, subst, [], sym, List, [], ◌∷◌}
use acp_core.Trace.Event.{EventRecord}
use acp_core.Wire.Json.{External}
use acp_core.Trace.Writer.{event_of}
use acp_core.Trace.Session.{Observed, rows_from}
use acp_core.Trace.Session.Blobs.{IsBlake3, hash_of-ascii}
use acp_core.Replay.Offline.{event_of-hash}
use acp_core.Diverge.Render.Hashes.{IsAscii}

-- Every row's hash is of ASCII characters.
abbrev pub AreAscii : List EventRecord → Type 0
AreAscii events = All (λ e. IsAscii e.hash) events

-- The rows of a recording have such hashes.
pub rows_from-AreAscii :
    ⦃x : External⦄ (seq : ℕ) (frames : List Observed) → IsBlake3 x → AreAscii (rows_from seq frames)
unfolding rows_from event_of
rows_from-AreAscii seq [] law = tt
rows_from-AreAscii seq ((now, dir, f) ∷ rest) law = (
  subst IsAscii (sym (event_of-hash seq now dir f)) (hash_of-ascii law f),
  rows_from-AreAscii (suc seq) rest law,
)
