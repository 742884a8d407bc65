-- ===== src/Examples/Recordings.antt =====
-- A recording whose trace is finished, and what the commands make of it.
use acp_core.Base.{
  All, ◌<◌, ◌^◌, ◌≡◌, refl, ap, ap₂, sym, subst, Text, Bytes, codes, List, [], ◌∷◌, ◌++◌, none,
  true, length, arith,
}
use acp_core.Wire.Frame.{Frame, contains, write_frame}
use acp_core.Wire.Reader.Stream.{IsPlain, Stream, read_frames, wire_text, read_frames-wire_text}
use acp_core.Trace.Event.{a2c}
use acp_core.Base.{Option}
use acp_core.Trace.Disk.{Disk}
use acp_core.Trace.Writer.{TraceWriter}
use acp_core.Proxy.{
  Proxy, Pump, start, pump, forward, resume, record_locked, take_and_finalize, at_read, at_lock,
  ended, Reachable, here, later, agent_forwards, agent_records, agent_exits, finishes,
}
use acp_core.Proxy.Finished.{AreSpelledAlike, IsComplete, finished-IsComplete}
use acp_core.Trace.Session.{Observed}
use acp_core.Examples.Codec.{toy_formats}
use acp_core.Examples.Frames.{toy, request_frame, response_frame}
use acp_core.Examples.Sessions.{made, empty_dir, differ}
use acp_core.Examples.Witnesses.{request-IsPlain, response-IsPlain}

abbrev pub from_client_text : Bytes
from_client_text = wire_text (request_frame ∷ [])

abbrev pub from_agent_text : Bytes
from_agent_text = wire_text (response_frame ∷ [])

agent_stream :
    read_frames from_agent_text ≡ record { frames = response_frame ∷ []; ended_by = none }
agent_stream = read_frames-wire_text (response_frame ∷ []) refl (response-IsPlain, tt)

client_stream :
    read_frames from_client_text ≡ record { frames = request_frame ∷ []; ended_by = none }
client_stream = read_frames-wire_text (request_frame ∷ []) refl (request-IsPlain, tt)

pub client-IsPlain : All IsPlain (read_frames from_client_text).frames
client-IsPlain =
    subst (λ (st : Stream). All IsPlain st.frames) (sym client_stream) (request-IsPlain, tt)

-- The agent's thread forwards and records the response and ends; then the trace is finished. The
-- client's request is not read before.
abbrev pub at_start : Proxy
at_start = start toy_formats made empty_dir from_client_text from_agent_text

abbrev forwarded : Proxy
forwarded = record at_start { agent = forward at_start.agent }

abbrev locked : Option TraceWriter × Disk
locked = record_locked toy_formats 7 a2c response_frame forwarded.slot forwarded.disk

abbrev in_trace : Proxy
in_trace = record forwarded { agent = resume forwarded.agent; slot = locked.0; disk = locked.1 }

abbrev at_end_of_stream : Proxy
at_end_of_stream = record in_trace { agent = forward in_trace.agent }

abbrev exited_run : Proxy
exited_run = record at_end_of_stream { exited = true }

abbrev pub finished_run : Proxy
finished_run = record exited_run {
  slot = none;
  disk = take_and_finalize toy_formats (codes "now") exited_run.slot exited_run.disk;
}

abbrev pump_on : Stream → Pump
pump_on st = record { input = st.frames; ended_by = st.ended_by; sink = []; position = at_read }

has_locked : forwarded.agent.position ≡ at_lock response_frame
unfolding start pump forward write_frame contains
has_locked = ap (λ (st : Stream). (forward (pump_on st)).position) agent_stream

has_ended : at_end_of_stream.agent.position ≡ ended none
unfolding start pump forward write_frame contains resume
has_ended = ap (λ (st : Stream). (forward (resume (forward (pump_on st)))).position) agent_stream

pub run_reached : Reachable toy_formats at_start finished_run
unfolding start pump resume record_locked
run_reached =
    later
      (later
        (later
          (later (later here (agent_forwards refl)) (agent_records 7 response_frame has_locked))
          (agent_forwards refl))
        (agent_exits refl))
      (finishes (codes "now") none _ refl has_ended refl)

-- The frames of both streams.
abbrev both : List Frame
both = (read_frames from_agent_text).frames ++ (read_frames from_client_text).frames

both_frames : both ≡ response_frame ∷ request_frame ∷ []
both_frames = ap₂ (λ (a c : Stream). a.frames ++ c.frames) agent_stream client_stream

pub both_alike : AreSpelledAlike both both
both_alike =
    subst (λ fs. AreSpelledAlike fs fs) (sym both_frames)
      (
        ((λ e. refl), ((λ e. absurd (differ e)), tt)),
        (((λ e. absurd (differ (sym e))), ((λ e. refl), tt)), tt),
      )

pub both_few : length both < 2 ^ 64
both_few = let two = ap length both_frames in omega (arith, two)

finished-IsComplete_example :
    (log : List Observed) × (now : Text) × (unrecorded : List Frame) × IsComplete toy_formats made
      empty_dir from_client_text from_agent_text finished_run log now unrecorded
finished-IsComplete_example =
    finished-IsComplete toy_formats made empty_dir from_client_text from_agent_text finished_run
      run_reached refl
