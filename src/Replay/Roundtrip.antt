-- ===== src/Replay/Roundtrip.antt =====
-- A recorded session, replayed to a client that sends what the client sent then.
use acp_core.Base.{
  ℕ, suc, ◌^◌, ◌<◌, ◌≤◌, ◌≡◌, refl, ap₂, sym, ◌∙◌, Text, Bytes, List, [], ◌∷◌, ◌++◌, map, none, All,
  length, arith,
}
use acp_core.Base.Fallible.{ok}
use acp_core.Wire.Json.{External}
use acp_core.Wire.Frame.{payload_hash_str}
use acp_core.Wire.Reader.Stream.{wire_text, IsPlain, read_frames-wire_text}
use acp_core.Trace.Event.{c2a, a2c, Manifest, format_version_1}
use acp_core.Trace.Disk.{Disk, Formats}
use acp_core.Trace.Writer.{event_of}
use acp_core.Trace.Session.{IsFaithful, Observed, rows_from}
use acp_core.Trace.Session.Blobs.{IsBlake3, AreParsed, payload_hash_str-hash_of}
use acp_core.Replay.Interactive.{ReplayOptions, replay_interactive_with}
use acp_core.Replay.Offline.{
  agent_frames, client_frames, AreUniform, event_of-hash, opened, replay_offline-recorded,
}
use acp_core.Replay.Progress.{client_hashes}
use acp_core.Replay.Client.{replay_interactive_with-offline}

module _ ⦃x : External⦄ where
  pub client_hashes-rows_from :
      (seq : ℕ) (frames : List Observed)
      → map payload_hash_str (client_frames frames) ≡ client_hashes (rows_from seq frames)
  unfolding client_hashes rows_from client_frames event_of
  client_hashes-rows_from seq [] = refl
  client_hashes-rows_from seq ((now, a2c, f) ∷ rest) = client_hashes-rows_from (suc seq) rest
  client_hashes-rows_from seq ((now, c2a, f) ∷ rest) =
      ap₂ (λ h l. h ∷ l) (payload_hash_str-hash_of f ∙ sym (event_of-hash seq now c2a f))
        (client_hashes-rows_from (suc seq) rest)

  pub client_frames-length :
      (frames : List Observed) → length (client_frames frames) ≤ length frames
  unfolding client_frames
  client_frames-length [] = omega arith
  client_frames-length ((now, c2a, f) ∷ rest) = omega (arith, client_frames-length rest)
  client_frames-length ((now, a2c, f) ∷ rest) = omega (arith, client_frames-length rest)

  -- A client that writes again what the client wrote when the session was recorded gets again what
  -- the agent wrote, byte for byte, with either setting of `remap_ids`. The session was recorded into
  -- a directory without blobs and finished; its frames were parsed from their bytes, those with one
  -- payload hash are spelled alike, and there are fewer than 2^64; no frame of the client ends in a
  -- carriage return, and an empty text is no JSON.
  pub replay_interactive_with-recorded :
      (F : Formats) (m : Manifest) (d : Disk) (frames : List Observed) (now : Text) (out : Bytes)
      (opts : ReplayOptions)
      → IsFaithful F
      → IsBlake3 x
      → m.format_version ≡ format_version_1
      → d.blobs ≡ []
      → AreParsed frames
      → AreUniform frames
      → length frames < 2 ^ 64
      → x.from_slice [] ≡ none
      → All IsPlain (client_frames frames)
      → replay_interactive_with
          (opened F m d frames now)
          (wire_text (client_frames frames))
          out
          opts
        ≡ (ok (length (agent_frames frames)), out ++ wire_text (agent_frames frames))
  replay_interactive_with-recorded F m d frames now out opts faithful law v fresh parsed uniform
        small blank plain =
      let fewer = client_frames-length frames in
      replay_interactive_with-offline opts (opened F m d frames now)
        (wire_text (client_frames frames)) out (client_frames frames) _ _
        (read_frames-wire_text (client_frames frames) blank plain)
        (client_hashes-rows_from 0 frames) (omega arith)
        (replay_offline-recorded F m d frames now out faithful law v fresh parsed uniform small).1
