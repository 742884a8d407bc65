-- ===== src/Proxy/Finished.antt =====
-- The trace that a finished recording leaves, and its replay.
use acp_core.Base.{
  ◌+◌, ◌^◌, ◌<◌, ◌≡◌, refl, ap, sym, subst, ◌∙◌, Text, Bytes, List, [], ◌∷◌, ◌++◌, append_assoc,
  append-nil, none, All, All-map, length, length-append, arith,
}
use acp_core.Base.Fallible.{ok}
use acp_core.Wire.Json.{External}
use acp_core.Wire.Frame.{Frame, parse, payload_hash_str}
use acp_core.Wire.Reader.Split.{read_frames-All}
use acp_core.Wire.Reader.Stream.{IsPlain, read_frames, wire_text}
use acp_core.Trace.Event.{c2a, a2c, Manifest, format_version_1}
use acp_core.Trace.Disk.{Disk, Formats}
use acp_core.Trace.Reader.{TraceReader, open_trace}
use acp_core.Trace.Session.{IsFaithful, Observed}
use acp_core.Trace.Session.Blobs.{IsBlake3, AreParsed}
use acp_core.Replay.{replay_offline}
use acp_core.Replay.Offline.{
  agent_frames, client_frames, AreUniform, recorded, opened, replay_offline-recorded,
}
use acp_core.Replay.Interactive.{ReplayOptions, replay_interactive_with}
use acp_core.Replay.Roundtrip.{replay_interactive_with-recorded}
use acp_core.Proxy.{Proxy, Reachable, start}
use acp_core.Proxy.Forwarding.{in_flight}
use acp_core.Proxy.Recorded.{recording, finished, Reachable-IsTransparent}

All-append-left {ℓ κ} : {A : Type ℓ} (P : A → Type κ) (xs ys : List A) → All P (xs ++ ys) → All P xs
All-append-left P [] ys h = tt
All-append-left P (x ∷ xs) ys h = (h.0, All-append-left P xs ys h.1)

All-append-right {ℓ κ} :
    {A : Type ℓ} (P : A → Type κ) (xs ys : List A) → All P (xs ++ ys) → All P ys
All-append-right P [] ys h = h
All-append-right P (x ∷ xs) ys h = All-append-right P xs ys h.1

All-append {ℓ κ} :
    {A : Type ℓ} (P : A → Type κ) (xs ys : List A) → All P xs → All P ys → All P (xs ++ ys)
All-append P [] ys h k = k
All-append P (x ∷ xs) ys h k = (h.0, All-append P xs ys h.1 k)

append_assoc3 {ℓ} : {A : Type ℓ} (a b c d : List A) → a ++ b ++ c ++ d ≡ a ++ (b ++ c ++ d)
append_assoc3 a b c d = ap (λ l. l ++ d) (append_assoc a b c) ∙ append_assoc a (b ++ c) d

module _ ⦃x : External⦄ where
  length-log :
      (log : List Observed) → length log ≡ length (agent_frames log) + length (client_frames log)
  unfolding agent_frames client_frames
  length-log [] = omega arith
  length-log ((now, c2a, f) ∷ log) = omega (arith, length-log log)
  length-log ((now, a2c, f) ∷ log) = omega (arith, length-log log)

  -- What holds of the frames of both sides holds of the log.
  All-log :
      (P : Frame → Type 0) (log : List Observed)
      → All P (agent_frames log)
      → All P (client_frames log)
      → All (λ (o : Observed). P o.2) log
  unfolding agent_frames client_frames
  All-log P [] ha hc = tt
  All-log P ((now, c2a, f) ∷ log) ha hc = (hc.0, All-log P log ha hc.1)
  All-log P ((now, a2c, f) ∷ log) ha hc = (ha.0, All-log P log ha.1 hc)

  -- Frames of either list with the same payload hash are spelled alike.
  abbrev pub AreSpelledAlike : List Frame → List Frame → Type 0
  AreSpelledAlike fs gs =
      All (λ f. All (λ g. payload_hash_str g ≡ payload_hash_str f → g.raw ≡ f.raw) gs) fs

  module _ (F : Formats) (m : Manifest) (d : Disk) (parent_stdin child_stdout : Bytes)
      (s : Proxy) where
    abbrev pub from_client : List Frame
    from_client = (read_frames parent_stdin).frames

    abbrev pub from_agent : List Frame
    from_agent = (read_frames child_stdout).frames

    pub record IsComplete (log : List Observed) (now : Text) (unrecorded : List Frame)
        : Type 0 where
      pub disk : s.disk ≡ recorded F m d log now
      pub agent : agent_frames log ≡ from_agent
      pub client : client_frames log ++ unrecorded ≡ from_client
      pub sunk : s.agent.sink ≡ wire_text from_agent

    -- When the trace is finished, it has recorded all frames of the agent's stream, and the client was
    -- sent their text; of the client's frames it has the first ones.
    pub finished-IsComplete :
        Reachable F (start F m d parent_stdin child_stdout) s
        → s.slot ≡ none
        → (log : List Observed) × (now : Text) × (unrecorded : List Frame) × IsComplete log now
            unrecorded
    finished-IsComplete reached taken =
        elim (Reachable-IsTransparent F m d parent_stdin child_stdout s reached) [
          | recording log es _ _ _ ↦ absurd (cc)
          | finished log more now e es ed stop ha hc ↦
              let ended_here : agent_frames log ≡ agent_frames log ++ in_flight s.agent.position =
                sym (append-nil (agent_frames log))
                ∙ ap (λ q. agent_frames log ++ in_flight q) (sym stop) in
              let all_sent : agent_frames log ++ in_flight s.agent.position ≡ from_agent =
                sym (append-nil _)
                ∙ ap (λ l. (agent_frames log ++ in_flight s.agent.position) ++ l)
                    (sym (ha.drained refl e stop))
                ∙ ha.taken in
              (
                log,
                now,
                (more ++ in_flight s.client.position) ++ s.client.input,
                record {
                  disk = ed;
                  agent = ended_here ∙ all_sent;
                  client = sym (append_assoc3 (client_frames log) more _ _) ∙ hc.taken;
                  sunk = ha.sunk ∙ ap wire_text all_sent;
                },
              )
        ]

    -- The frames of both streams.
    abbrev pub all_frames : List Frame
    all_frames = from_agent ++ from_client

    log-All :
        (P : Frame → Type 0) (log : List Observed) (now : Text) (unrecorded : List Frame)
        → IsComplete log now unrecorded
        → All P all_frames
        → All (λ (o : Observed). P o.2) log
    log-All P log now unrecorded c h =
        All-log P log (subst (All P) (sym c.agent) (All-append-left P from_agent from_client h)) (
          All-append-left P (client_frames log) unrecorded
            (subst (All P) (sym c.client) (All-append-right P from_agent from_client h)))

    -- What replay asks of a recording's frames.
    finished-IsReplayable :
        (log : List Observed) (now : Text) (unrecorded : List Frame)
        → IsComplete log now unrecorded
        → AreSpelledAlike all_frames all_frames
        → length all_frames < 2 ^ 64
        → AreParsed log × AreUniform log × (length log < 2 ^ 64)
    finished-IsReplayable log now unrecorded c alike few = (
      log-All (λ f. parse f.raw ≡ ok f) log now unrecorded c
          (All-append _ from_agent from_client (read_frames-All child_stdout)
            (read_frames-All parent_stdin)),
      log-All
          (λ f.
            All (λ (q : Observed). payload_hash_str q.2 ≡ payload_hash_str f → (q.2).raw ≡ f.raw)
              log)
          log now unrecorded c
          (All-map all_frames
            (λ f h.
              log-All (λ g. payload_hash_str g ≡ payload_hash_str f → g.raw ≡ f.raw) log now
                unrecorded c h)
            alike),
      omega (
        arith,
        length-log log,
        ap length c.agent,
        ap length c.client,
        length-append (client_frames log) unrecorded,
        length-append from_agent from_client,
      ),
    )

    -- A finished recording can be opened, and offline replay of it writes the bytes that the client
    -- was sent, in whatever order the threads ran. It was made in a directory without blobs; frames
    -- of the two streams with one payload hash are spelled alike, and they are fewer than 2^64.
    pub replay_offline-finished :
        Reachable F (start F m d parent_stdin child_stdout) s
        → s.slot ≡ none
        → IsFaithful F
        → IsBlake3 x
        → m.format_version ≡ format_version_1
        → d.blobs ≡ []
        → AreSpelledAlike all_frames all_frames
        → length all_frames < 2 ^ 64
        → (t : TraceReader) × (open_trace F s.disk ≡ ok t)
          × (replay_offline t [] ≡ (ok (length from_agent), s.agent.sink))
    replay_offline-finished reached taken faithful law v fresh alike few =
        let (log, now, unrecorded, c) = finished-IsComplete reached taken in
        let (parsed, uniform, small) = finished-IsReplayable log now unrecorded c alike few in
        let (opens, replays) =
          replay_offline-recorded F m d log now [] faithful law v fresh parsed uniform small in
        (
          opened F m d log now,
          ap (open_trace F) c.disk ∙ opens,
          replays
              ∙ ap (λ fs. (ok (length fs), wire_text fs)) c.agent
              ∙ ap (λ b. (ok (length from_agent), b)) (sym c.sunk),
        )

    -- Interactive replay of it, to a client that writes what was recorded of the client, writes the
    -- bytes that the client was sent. That is all of the client's stream but for the frames that came
    -- too late to be recorded.
    pub replay_interactive_with-finished :
        (opts : ReplayOptions)
        → Reachable F (start F m d parent_stdin child_stdout) s
        → s.slot ≡ none
        → IsFaithful F
        → IsBlake3 x
        → m.format_version ≡ format_version_1
        → d.blobs ≡ []
        → AreSpelledAlike all_frames all_frames
        → length all_frames < 2 ^ 64
        → x.from_slice [] ≡ none
        → All IsPlain from_client
        → (t : TraceReader) × (log : List Observed) × (now : Text) × (unrecorded : List Frame)
          × (open_trace F s.disk ≡ ok t)
          × IsComplete log now unrecorded
          × (replay_interactive_with t (wire_text (client_frames log)) [] opts
              ≡ (ok (length from_agent), s.agent.sink))
    replay_interactive_with-finished opts reached taken faithful law v fresh alike few blank plain =
        let (log, now, unrecorded, c) = finished-IsComplete reached taken in
        let (parsed, uniform, small) = finished-IsReplayable log now unrecorded c alike few in
        let (opens, _) =
          replay_offline-recorded F m d log now [] faithful law v fresh parsed uniform small in
        let sent_plain =
          All-append-left IsPlain (client_frames log) unrecorded
            (subst (All IsPlain) (sym c.client) plain) in
        (
          opened F m d log now,
          log,
          now,
          unrecorded,
          ap (open_trace F) c.disk ∙ opens,
          c,
          replay_interactive_with-recorded F m d log now [] opts faithful law v fresh parsed uniform
                small blank sent_plain
              ∙ ap (λ fs. (ok (length fs), wire_text fs)) c.agent
              ∙ ap (λ b. (ok (length from_agent), b)) (sym c.sunk),
        )
