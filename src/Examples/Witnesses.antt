-- ===== src/Examples/Witnesses.antt =====
-- Each theorem that has conditions, at an input that meets them.
use acp_core.Base.{
  ℕ, zero, ◌≤◌, ◌≡◌, ◌↔◌, refl, Bytes, codes, List, [], ◌∷◌, map, none, some, Returns, for, All,
  length, take, drop, arith,
}
use acp_core.Base.Fallible.{ok}
use acp_core.Wire.Hash.{hex_with_prefix}
use acp_core.Wire.Hash.Digest.{IsDigit, read_hex, hex_with_prefix_faithful}
use acp_core.Wire.Frame.{parse}
use acp_core.Wire.Frame.Classified.{IsJsonRpc, parse-IsJsonRpc}
use acp_core.Wire.Reader.Stream.{IsPlain, read_frames, wire_text, read_frames-wire_text}
use acp_core.Trace.Event.{c2a, a2c}
use acp_core.Diverge.{Step, DiffOp, lcs_diff, diff_steps, count_ops}
use acp_core.Diverge.Backtrack.{IsDiff, commons, lcs_diff-IsDiff}
use acp_core.Diverge.Longest.{key, done, skip, keep, lcs_diff_longest}
use acp_core.Diverge.Symmetric.{diff_steps_comm}
use acp_core.Diverge.Stats.{IsSummary, diff_steps-IsSummary, no_divergence_iff}
use acp_core.Examples.Frames.{
  toy, request_text, request_frame, response_frame, request_parsed, response_parsed,
}

-- Two traces that share a request.
abbrev step_go : Step
step_go = record { dir = c2a; hash = codes "h"; method = some (codes "go"); seq = 0 }

abbrev step_done : Step
step_done = record { dir = a2c; hash = codes "d"; method = none; seq = 1 }

abbrev run_a : List Step
run_a = step_go ∷ step_done ∷ []

abbrev run_b : List Step
run_b = step_go ∷ []

abbrev ops_ab : List DiffOp
ops_ab =
    DiffOp.common 0 0 c2a (codes "h") (some (codes "go"))
    ∷ DiffOp.only_a 1 a2c (codes "d") none
    ∷ []

lcs_ab : lcs_diff run_a run_b ≡ some ops_ab
unfolding lcs_diff for
lcs_ab = refl

lcs_diff_longest_example : 1 ≤ commons ops_ab
lcs_diff_longest_example =
    lcs_diff_longest run_a run_b {ks = key step_go ∷ []} ops_ab (omega arith) lcs_ab
      (keep (key step_go) step_go refl (skip step_done done)) (keep (key step_go) step_go refl done)

lcs_diff-IsDiff_example : Returns (IsDiff run_a run_b) (lcs_diff run_a run_b)
lcs_diff-IsDiff_example = lcs_diff-IsDiff run_a run_b (omega arith)

diff_steps-IsSummary_example :
    Returns (λ (ops, st). IsSummary run_a run_b ops st) (diff_steps run_a run_b)
diff_steps-IsSummary_example = diff_steps-IsSummary run_a run_b (omega arith)

abbrev one : ℕ
one = 1

no_divergence_iff_example : ((one ≡ 0) × (zero ≡ 0)) ↔ (map key run_a ≡ map key run_b)
unfolding diff_steps lcs_diff for count_ops
no_divergence_iff_example =
    no_divergence_iff run_a run_b ops_ab
      (record { common = 1; only_a = 1; only_b = 0; first_divergence = some 1 }) (omega arith) refl

abbrev ops_ba : List DiffOp
ops_ba =
    DiffOp.common 0 0 c2a (codes "h") (some (codes "go"))
    ∷ DiffOp.only_b 1 a2c (codes "d") none
    ∷ []

diff_steps_comm_example : (one ≡ 1) × (one ≡ 1) × (zero ≡ 0)
unfolding diff_steps lcs_diff for count_ops
diff_steps_comm_example =
    diff_steps_comm run_a run_b ops_ab ops_ba
      (record { common = 1; only_a = 1; only_b = 0; first_divergence = some 1 })
      (record { common = 1; only_a = 0; only_b = 1; first_divergence = some 1 }) (omega arith) refl
      refl

abbrev byte_a : Bytes
byte_a = 171 ∷ []

hex_with_prefix_faithful_example :
    (take 7 (hex_with_prefix byte_a) ≡ codes "blake3:")
    × (length (hex_with_prefix byte_a) ≡ 9)
    × All IsDigit (drop 7 (hex_with_prefix byte_a))
    × (read_hex (drop 7 (hex_with_prefix byte_a)) ≡ byte_a)
hex_with_prefix_faithful_example = hex_with_prefix_faithful byte_a (omega arith, tt)

parse-IsJsonRpc_example :
    (parse request_text ≡ ok request_frame) ↔ IsJsonRpc request_text request_frame
parse-IsJsonRpc_example = parse-IsJsonRpc request_text request_frame

pub request-IsPlain : IsPlain request_frame
request-IsPlain = record { parsed = request_parsed; no_cr = refl }

pub response-IsPlain : IsPlain response_frame
response-IsPlain = record { parsed = response_parsed; no_cr = refl }

read_frames-wire_text_example :
    read_frames (wire_text (request_frame ∷ response_frame ∷ []))
    ≡ record { frames = request_frame ∷ response_frame ∷ []; ended_by = none }
read_frames-wire_text_example =
    read_frames-wire_text (request_frame ∷ response_frame ∷ []) refl
      (request-IsPlain, (response-IsPlain, tt))
