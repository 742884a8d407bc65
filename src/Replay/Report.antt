-- ===== src/Replay/Report.antt =====
-- crates/acp-replay/src/lib.rs: the text of a divergence.
use acp_core.Base.{Text, codes, ◌++◌, Option, decimal}
use acp_core.Replay.{DivergenceDetail}

-- `Display` of `DivergenceDetail`; `debug` is `{:?}` of an optional string.
unfoldable pub divergence_text : (debug : Option Text → Text) → DivergenceDetail → Text
unfolding decimal
divergence_text debug d =
    codes "divergence at trace seq="
    ++ decimal d.expected_seq
    ++ codes " (client frame #"
    ++ decimal d.client_frames_consumed
    ++ codes "): expected method="
    ++ debug d.expected_method
    ++ codes " hash="
    ++ d.expected_hash
    ++ codes ", got method="
    ++ debug d.got_method
    ++ codes " id="
    ++ debug d.got_id
    ++ codes " hash="
    ++ d.got_hash
