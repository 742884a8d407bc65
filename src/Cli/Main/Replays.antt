-- ===== src/Cli/Main/Replays.antt =====
-- crates/acp-cli/src/main.rs: `acp emit` and `acp replay` of what `acp record` left.
use acp_core.Base.{
  ℕ, ◌^◌, ◌<◌, ◌≡◌, refl, ap, ◌∙◌, Text, Bytes, codes, Bool, List, [], ◌∷◌, ◌++◌, All, none, length,
  decimal,
}
use acp_core.Base.Fallible.{ok}
use acp_core.Wire.Json.{External}
use acp_core.Wire.Frame.{Frame}
use acp_core.Wire.Reader.Stream.{wire_text, IsPlain, read_frames}
use acp_core.Trace.Event.{Manifest, format_version_1}
use acp_core.Trace.Disk.{Disk}
use acp_core.Trace.Reader.{TraceReader, open_trace}
use acp_core.Trace.Session.{IsFaithful, Observed}
use acp_core.Trace.Session.Blobs.{IsBlake3, AreParsed}
use acp_core.Replay.{replay_offline}
use acp_core.Replay.Interactive.{replay_interactive_with}
use acp_core.Replay.Offline.{
  agent_frames, client_frames, AreUniform, recorded, opened, replay_offline-recorded,
}
use acp_core.Replay.Roundtrip.{replay_interactive_with-recorded}
use acp_core.Proxy.{Proxy, Reachable, start}
use acp_core.Proxy.Finished.{
  AreSpelledAlike, IsComplete, replay_offline-finished, replay_interactive_with-finished,
}
use acp_core.Cli.Main.{World, replay_note, cmd_emit, cmd_replay}

-- The line on the standard error.
abbrev pub note : Text → ℕ → Text
note said n = codes "acp: " ++ said ++ codes " " ++ decimal n ++ codes " a2c frames" ++ b'\n' ∷ []

module _ ⦃x : External⦄ where
  cmd_replay-opened :
      (w : World) (trace : Text) (t : TraceReader) (remap_ids : Bool)
      → open_trace w.formats (w.directory trace) ≡ ok t
      → cmd_replay w trace remap_ids
        ≡ replay_note
            (codes "replay emitted")
            (replay_interactive_with t w.stdin [] (record { remap_ids = remap_ids }))
  unfolding cmd_replay
  cmd_replay-opened w trace t remap_ids e = rw (cmd_replay, e) refl

module _ ⦃x : External⦄ (w : World) (trace : Text) where
  cmd_emit-opened :
      (t : TraceReader)
      → open_trace w.formats (w.directory trace) ≡ ok t
      → cmd_emit w trace ≡ replay_note (codes "emitted") (replay_offline t [])
  unfolding cmd_emit
  cmd_emit-opened t e = rw (cmd_emit, e) refl

  module _ (m : Manifest) (d : Disk) (parent_stdin child_stdout : Bytes) (s : Proxy) where
    abbrev from_both : List Frame
    from_both = (read_frames child_stdout).frames ++ (read_frames parent_stdin).frames

    -- `acp emit`, on the directory that a finished recording left, writes exactly the bytes that the
    -- client was sent while recording, counts the agent's frames and exits with 0, in whatever order
    -- the recorder's threads ran. The recording was made in a directory without blobs; frames of the
    -- two streams with one payload hash are spelled alike, and they are fewer than 2^64.
    pub cmd_emit-finished :
        Reachable w.formats (start w.formats m d parent_stdin child_stdout) s
        → s.slot ≡ none
        → w.directory trace ≡ s.disk
        → IsFaithful w.formats
        → IsBlake3 x
        → m.format_version ≡ format_version_1
        → d.blobs ≡ []
        → AreSpelledAlike from_both from_both
        → length from_both < 2 ^ 64
        → cmd_emit w trace ≡ record {
          result = ok 0;
          stdout = s.agent.sink;
          stderr = note (codes "emitted") (length (read_frames child_stdout).frames);
        }
    unfolding replay_note
    cmd_emit-finished reached taken at faithful law v fresh alike few =
        let (t, opens, replays) =
          replay_offline-finished w.formats m d parent_stdin child_stdout s reached taken faithful
            law v fresh alike few in
        cmd_emit-opened t (ap (open_trace w.formats) at ∙ opens)
        ∙ ap (replay_note (codes "emitted")) replays

    -- `acp replay`, on the directory that a finished recording left and for a client that writes the
    -- frames that the recorder has of the client, writes exactly the bytes that the client was sent
    -- while recording, counts the agent's frames and exits with 0, with either setting of
    -- `--remap-ids` and in whatever order the recorder's threads ran. Those frames are the first ones
    -- of the client's stream, and the recorder has all of the agent's. The recording was made in a
    -- directory without blobs; frames of the two streams with one payload hash are spelled alike, and
    -- they are fewer than 2^64; no frame of the client's stream ends in a carriage return, and an
    -- empty text is no JSON.
    pub cmd_replay-finished :
        (remap_ids : Bool)
        → Reachable w.formats (start w.formats m d parent_stdin child_stdout) s
        → s.slot ≡ none
        → w.directory trace ≡ s.disk
        → IsFaithful w.formats
        → IsBlake3 x
        → m.format_version ≡ format_version_1
        → d.blobs ≡ []
        → AreSpelledAlike from_both from_both
        → length from_both < 2 ^ 64
        → x.from_slice [] ≡ none
        → All IsPlain (read_frames parent_stdin).frames
        → (log : List Observed) × (now : Text) × (unrecorded : List Frame) × IsComplete w.formats m
            d parent_stdin child_stdout s log now unrecorded
          × (cmd_replay (record w { stdin = wire_text (client_frames log) }) trace remap_ids
              ≡ record {
                result = ok 0;
                stdout = s.agent.sink;
                stderr = note (codes "replay emitted") (length (read_frames child_stdout).frames);
              })
    unfolding replay_note
    cmd_replay-finished remap_ids reached taken at faithful law v fresh alike few blank plain =
        let (t, log, at_end, unrecorded, opens, all, replays) =
          replay_interactive_with-finished w.formats m d parent_stdin child_stdout s
            (record { remap_ids = remap_ids }) reached taken faithful law v fresh alike few blank
            plain in
        (
          log,
          at_end,
          unrecorded,
          all,
          cmd_replay-opened (record w { stdin = wire_text (client_frames log) }) trace t remap_ids
                (ap (open_trace w.formats) at ∙ opens)
              ∙ ap (replay_note (codes "replay emitted")) replays,
        )

  -- `acp replay`, on a finished recording and for a client that writes what the client wrote then,
  -- writes exactly the agent's frames, counts them and exits with 0, with either setting of
  -- `--remap-ids`. The session was recorded into a directory without blobs; its frames were parsed
  -- from their bytes, those with one payload hash are spelled alike, and there are fewer than 2^64;
  -- no frame of the client ends in a carriage return, and an empty text is no JSON.
  pub cmd_replay-recorded :
      (m : Manifest) (d : Disk) (frames : List Observed) (now : Text) (remap_ids : Bool)
      → w.directory trace ≡ recorded w.formats m d frames now
      → w.stdin ≡ wire_text (client_frames frames)
      → IsFaithful w.formats
      → IsBlake3 x
      → m.format_version ≡ format_version_1
      → d.blobs ≡ []
      → AreParsed frames
      → AreUniform frames
      → length frames < 2 ^ 64
      → x.from_slice [] ≡ none
      → All IsPlain (client_frames frames)
      → cmd_replay w trace remap_ids ≡ record {
        result = ok 0;
        stdout = wire_text (agent_frames frames);
        stderr = note (codes "replay emitted") (length (agent_frames frames));
      }
  unfolding replay_note
  cmd_replay-recorded m d frames now remap_ids at input faithful law v fresh parsed uniform small
        blank plain =
      let (opens, _) =
        replay_offline-recorded w.formats m d frames now [] faithful law v fresh parsed uniform
          small in
      let replays =
        replay_interactive_with-recorded w.formats m d frames now []
          (record { remap_ids = remap_ids }) faithful law v fresh parsed uniform small blank
          plain in
      cmd_replay-opened w trace (opened w.formats m d frames now) remap_ids
        (ap (open_trace w.formats) at ∙ opens)
      ∙ ap (replay_note (codes "replay emitted")) (
          ap
            (λ i.
              replay_interactive_with (opened w.formats m d frames now) i []
                (record { remap_ids = remap_ids }))
            input
          ∙ replays)
