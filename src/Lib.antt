-- ===== src/Lib.antt =====
-- acp-core records the JSON-RPC session of an ACP client and its agent, replays it, and compares two
-- recordings. The library models the parts of crates/ that decide what is recorded, replayed and
-- found to differ.
--
-- The parts, and where they are modelled:
-- - crates/acp-wire/src/canonical.rs, the canonical form of a JSON value: Wire/Canonical
--   (canonicalize, write_value, write_string, utf16_cmp; sort_entries is the call of sort_by). Its
--   Strings and Tree have a reader of the canonical form, which is not in crates/.
-- - crates/acp-wire/src/lib.rs: Wire/Frame (Frame::parse is parse, write_frame, write_line, Id, Kind),
--   Wire/Hash (payload_hash, hex_with_prefix) and Wire/Reader (FrameReader::read_frame is read_frame,
--   from the bytes that are left to the result and the bytes behind it).
-- - crates/acp-trace/src/lib.rs: Trace/Event (rows and manifest), Trace/Disk (the directory of a trace:
--   its two files and its blobs), Trace/Writer (TraceWriter::record is record_frame, finalize) and
--   Trace/Reader (TraceReader::open is open_trace, load_blob), Trace/Clock (the clocks,
--   RecordingEnv::capture). Trace/Session puts calls of the writer one after another.
-- - crates/acp-diverge/src/lib.rs: Diverge (lcs_diff with its table and its walk back,
--   diff_steps, diff_two) and Diverge/Render (render_unified, render_dot, short_hash).
-- - crates/acp-replay/src/lib.rs: Replay (replay_offline, find_next_c2a, emit_a2c_block's loop is
--   emit_rows), Replay/Interactive (replay_interactive_with; serve is its loop) and Replay/Report (the
--   text of a divergence). Replay/Walk has the same replay as one walk over the rows, Replay/Renumbered
--   what a client that numbers its requests otherwise sends and is sent.
-- - crates/acp-proxy/src/lib.rs: Proxy. make_manifest and run_result are run without its threads; the
--   two forwarding threads and the end of the trace are steps on what is still to be written, what was
--   forwarded and the shared writer, in any order, and so are the end of the agent's process and a
--   write to the agent that fails. Proxy/Forwarding and Proxy/Log follow one thread and the trace,
--   Proxy/Recorded both, Proxy/Finished and Proxy/Completion the end.
-- - crates/acp-cli/src/bin/echo_agent.rs: Echo, up to the bytes of its output; Echo/Frames reads them.
-- - crates/acp-cli/src/main.rs: Cli (what inspect and diff compute), Cli/Inspect (the text of inspect)
--   and Cli/Main (the commands, with their output and exit code).
-- Examples has small runs: libraries that know two frames, formats for the rows, and each theorem at
-- an input that meets its conditions.
--
-- The trace's rows carry the canonical hash of a frame, its blob the bytes; replay compares hashes and
-- emits blobs. So the reader's, the writer's and the canonical form's theorems meet in those of
-- Replay.
--
-- What the crates take from libraries is a parameter: External has the numbers, the parser and the
-- printer of serde_json and blake3::hash, Formats has serde's derived text of rows and manifests,
-- TimeCrate the calendar of the time crate; Host, Answers and World have what the operating system
-- says: variables, whether a process can be started and how it ends, directories and the standard
-- input.
-- What is used of them is a named hypothesis: IsFaithful, IsSerde, IsBlake3, IsNumberText, and that an empty
-- text is no JSON.
--
-- Bytes, characters and machine integers are native numbers; counters and indexes of 64 bits and cells
-- of 32 bits wrap as written, and a theorem that needs them not to says how much input there may be. What
-- panics in the source is none in Diverge, TraceError.panic in Trace and CliError.panic in Cli.
-- Loops over a stream are by recursion on its length, the others by recursion on a list or a count.
-- The printing of a number has fuel, its value and one, and a number has no more digits than that. The
-- reader of the canonical form has fuel too, and the value's size is enough of it.
--
-- Not modelled: the other errors of the operating system, the text of the errors, the parsing of
-- command lines (clap), what the agent's process computes, failures to write to the client, and
-- failures to write a trace while it is recorded.
pub mod Base
pub mod Wire
pub mod Trace
pub mod Diverge
pub mod Replay
pub mod Proxy
pub mod Echo
pub mod Cli
mod Examples
