-- ===== src/Examples/Commands.antt =====
-- The theorems on the proxy, the echo agent and the command line.
use acp_core.Base.{codes, some, arith, refl, [], ◌∷◌, none}
use acp_core.Wire.Reader.Stream.{read_frames}
use acp_core.Examples.Codec.{toy_formats}
use acp_core.Examples.Frames.{toy, request_frame}
use acp_core.Base.{nat_eq, list_eq}
use acp_core.Proxy.{Proxy, start, pump, forward, client_forwards, here, later}
use acp_core.Proxy.Recorded.{IsTransparent, Reachable-IsTransparent}
use acp_core.Examples.Frames.{request_text, response_text}
use acp_core.Echo.{echo, Counters}
use acp_core.Wire.Frame.{Frame}
use acp_core.Echo.Sessions.{AreDifferent, new_sessions, echo-AreDifferent}
use acp_core.Examples.Sessions.{made, empty_dir}

-- The proxy before its threads run.
abbrev proxy_start : Proxy
proxy_start = start toy_formats made empty_dir request_text response_text

Reachable-IsTransparent_example :
    IsTransparent toy_formats made empty_dir
      (read_frames request_text).frames
      (read_frames response_text).frames
      (record proxy_start { client = forward proxy_start.client })
unfolding start pump
Reachable-IsTransparent_example =
    Reachable-IsTransparent toy_formats made empty_dir request_text response_text
      (record proxy_start { client = forward proxy_start.client })
      (later here (client_forwards refl))

abbrev zeros : Counters
zeros = record { prompt_count = 0; session_count = 0 }

abbrev new_session_frame : Frame
new_session_frame = record request_frame { method = some (codes "session/new") }

echo-AreDifferent_example :
    AreDifferent (new_sessions (echo (new_session_frame ∷ new_session_frame ∷ []) none zeros).0)
echo-AreDifferent_example =
    echo-AreDifferent (new_session_frame ∷ new_session_frame ∷ []) none (omega arith)
