-- ===== src/Wire/Reader.antt =====
-- crates/acp-wire/src/lib.rs: `FrameReader`. Its state is the bytes that are still to be read.
pub mod Lines
pub mod Stream
pub mod Split
pub mod TextLines
use mathlib.Core.WellFounded.{Acc}
use acp_core.Base.{
  ℕ, ◌-◌, Bytes, true, false, ◌&&◌, [], ◌∷◌, Option, none, some, nat_beq, ltb, if◌then◌else◌,
  length, get_elem?, take, unwrap_or, arith,
}
use acp_core.Base.Order.{Shorter, Shorter-wf}
use acp_core.Base.Fallible.{Result, ok, err}
use acp_core.Wire.Json.{External}
use acp_core.Wire.Frame.{Frame, WireError, parse}

-- `BufRead::read_until`: the bytes up to and with the delimiter, and those behind it.
unfoldable pub read_until : ℕ → Bytes → Bytes × Bytes
read_until delimiter [] = ([], [])
read_until delimiter (b ∷ s) =
    let rest = read_until delimiter s in
    if nat_beq b delimiter then (b ∷ [], s) else (b ∷ rest.0, rest.1)

pub read_until-Shorter : (d b : ℕ) (s : Bytes) → Shorter (read_until d (b ∷ s)).1 (b ∷ s)
unfolding read_until
read_until-Shorter d b [] = ground arith
read_until-Shorter d b (c ∷ s) = ground (arith, read_until-Shorter d c s)

-- An index that the code has tested to be in range.
abbrev byte_at : Bytes → ℕ → ℕ
byte_at buf i = unwrap_or (get_elem? buf i) 0

-- `end`: the length without a trailing newline and a carriage return before it.
unfoldable pub frame_end : Bytes → ℕ
frame_end buf =
    if ltb 0 (length buf) && nat_beq (byte_at buf (length buf - 1)) b'\n'
    then (if ltb 0 (length buf - 1) && nat_beq (byte_at buf (length buf - 1 - 1)) b'\r'
        then length buf - 1 - 1
        else length buf - 1)
    else length buf

abbrev pub some_frame : ⦃x : External⦄ → Result WireError Frame → Result WireError (Option Frame)
some_frame (ok f) = ok (some f)
some_frame (err e) = err e

module _ ⦃x : External⦄ where
  -- A blank line is skipped by a recursive call, on a shorter rest.
  pub read_frame_acc : (s : Bytes) → Acc Shorter s → Result WireError (Option Frame) × Bytes
  read_frame_acc [] w = (ok none, [])
  read_frame_acc (b ∷ s) (Acc.intro _ below) =
      let buf = (read_until b'\n' (b ∷ s)).0 in
      let rest = (read_until b'\n' (b ∷ s)).1 in
      elim (nat_beq (frame_end buf) 0) [
        | true ↦ read_frame_acc rest (below rest (read_until-Shorter b'\n' b s))
        | false ↦ (some_frame (parse (take (frame_end buf) buf)), rest)
      ]

  -- The result of `read_frame`, and the bytes that are left.
  unfoldable pub read_frame : Bytes → Result WireError (Option Frame) × Bytes
  unfolding read_frame_acc Shorter-wf
  read_frame s = read_frame_acc s (Shorter-wf.apply s)
