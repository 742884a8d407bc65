-- ===== src/Examples/Replays.antt =====
-- The theorems on any trace and any client, at a trace without its blobs and at a client that repeats
-- what was recorded.
use acp_core.Base.{◌≡◌, List, [], ◌++◌, Option, length}
use acp_core.Wire.Frame.{Frame}
use acp_core.Wire.Reader.Stream.{wire_text}
use acp_core.Base.{refl, codes, arith}
use acp_core.Base.Fallible.{err}
use acp_core.Wire.Frame.{contains}
use acp_core.Trace.Session.Torn.{torn, line_error, open_trace-torn}
use acp_core.Examples.Codec.{toy_formats, toy_formats-IsFaithful}
use acp_core.Trace.Reader.{trim_end, open_trace, TraceError, TraceReader}
use acp_core.Trace.Session.{rows_from}
use acp_core.Replay.{replay_offline}
use acp_core.Replay.Emitted.{Emits, ended_with, replay_offline-Emits}
use acp_core.Examples.Frames.{toy}
use acp_core.Examples.Sessions.{made_version, made, empty_dir, session}

-- Its rows are there, its blobs are not.
abbrev without_blobs : TraceReader
without_blobs = record { disk = empty_dir; manifest = made; events = rows_from 0 session }

replay_offline-Emits_example :
    (fs : List Frame) × (e : Option TraceError) × Emits without_blobs.disk without_blobs.events fs e
    × (replay_offline without_blobs [] ≡ (ended_with e (length fs), [] ++ wire_text fs))
replay_offline-Emits_example = replay_offline-Emits without_blobs []

-- The first byte of a row behind the rows of the session.
open_trace-torn_example :
    open_trace toy_formats (torn toy_formats made empty_dir session (codes "{"))
    ≡ err (line_error toy_formats (codes "{"))
unfolding trim_end contains
open_trace-torn_example =
    open_trace-torn toy_formats made empty_dir session (codes "{") b'{' [] toy_formats-IsFaithful
      made_version (omega arith) refl refl refl
