-- ===== src/Examples/Echoes.antt =====
-- The echo agent on a request with a method that it does not know.
use acp_core.Base.{Bytes, [], ◌∷◌}
use acp_core.Wire.Frame.{Frame}
use acp_core.Wire.Reader.Stream.{Stream, wire_text}
use acp_core.Examples.Renumbered.{second, first_request}

abbrev stdin : Bytes
stdin = wire_text (first_request ∷ [])
