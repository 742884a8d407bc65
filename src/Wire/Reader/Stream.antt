-- ===== src/Wire/Reader/Stream.antt =====
-- The loop `while let Some(frame) = reader.read_frame()?` that each user of a `FrameReader` runs: the
-- frames that it sees, and the error that ends it, if one does.
use mathlib.Core.WellFounded.{Acc}
use acp_core.Base.{
  ◌≡◌, refl, ap, fun_ext, subst, sym, ◌∙◌, ◌≢◌, Bytes, List, [], ◌∷◌, ◌++◌, Option, none, some, All,
}
use acp_core.Base.Order.{Shorter, Shorter-wf}
use acp_core.Base.Fallible.{Result, ok, err}
use acp_core.Wire.Json.{External}
use acp_core.Wire.Frame.{Frame, WireError, parse, write_frame}
use acp_core.Wire.Frame.Parsed.{parse_iff}
use acp_core.Wire.Reader.{read_frame}
use acp_core.Wire.Reader.Lines.{strip_cr, read_frame-write_frame, read_frame_acc-Shorter}

module _ ⦃x : External⦄ where
  pub record Stream : Type 0 where
    pub frames : List Frame
    pub ended_by : Option WireError

  pub read_frame-Shorter :
      (s : Bytes) (f : Frame) (rest : Bytes) → read_frame s ≡ (ok (some f), rest) → Shorter rest s
  unfolding read_frame
  read_frame-Shorter s f rest e = read_frame_acc-Shorter s (Shorter-wf.apply s) _ rest f e refl

  -- One round, with the frames that follow in the shorter rest.
  unfoldable pub next_round :
      (s : Bytes) (r : Result WireError (Option Frame) × Bytes)
      → read_frame s ≡ r
      → ((t : Bytes) → Shorter t s → Stream)
      → Stream
  next_round s (err e, rest) eq more = record { frames = []; ended_by = some e }
  next_round s (ok none, rest) eq more = record { frames = []; ended_by = none }
  next_round s (ok (some f), rest) eq more =
      let later = more rest (read_frame-Shorter s f rest eq) in
      record { frames = f ∷ later.frames; ended_by = later.ended_by }

  unfoldable pub read_frames_acc : (s : Bytes) → Acc Shorter s → Stream
  unfolding next_round
  read_frames_acc s (Acc.intro _ below) =
      next_round s (read_frame s) refl (λ t shorter. read_frames_acc t (below t shorter))

  unfoldable pub read_frames : Bytes → Stream
  unfolding read_frames_acc Shorter-wf
  read_frames s = read_frames_acc s (Shorter-wf.apply s)

  read_frames_acc_irrel :
      (s : Bytes) (v w : Acc Shorter s) → read_frames_acc s v ≡ read_frames_acc s w
  unfolding read_frames_acc
  read_frames_acc_irrel s (Acc.intro _ p) (Acc.intro _ q) =
      ap (next_round s (read_frame s) refl)
        (fun_ext λ t. fun_ext λ shorter. read_frames_acc_irrel t (p t shorter) (q t shorter))

  read_frames_acc-round :
      (s : Bytes) (w : Acc Shorter s)
      → read_frames_acc s w ≡ next_round s (read_frame s) refl (λ t shorter. read_frames t)
  unfolding read_frames
  read_frames_acc-round s (Acc.intro _ p) =
      ap (next_round s (read_frame s) refl)
        (fun_ext λ t. fun_ext λ shorter. read_frames_acc_irrel t (p t shorter) (Shorter-wf.apply t))

  pub read_frames-round :
      (s : Bytes) → read_frames s ≡ next_round s (read_frame s) refl (λ t shorter. read_frames t)
  unfolding read_frames
  read_frames-round s = read_frames_acc-round s (Shorter-wf.apply s)

  -- `f`, and then what follows.
  abbrev pub before : Frame → Stream → Stream
  before f later = record { frames = f ∷ later.frames; ended_by = later.ended_by }

  pub read_frames-some :
      (s : Bytes) (f : Frame) (rest : Bytes)
      → read_frame s ≡ (ok (some f), rest)
      → read_frames s ≡ before f (read_frames rest)
  unfolding next_round
  read_frames-some s f rest e =
      read_frames-round s
      ∙ subst
          (λ r.
            (eq : read_frame s ≡ r)
            → next_round s r eq (λ t shorter. read_frames t) ≡ before f (read_frames rest))
          (sym e) (λ eq. refl) refl

  -- The text of some frames on the wire.
  abbrev pub wire_text : List Frame → Bytes
  wire_text [] = []
  wire_text (f ∷ fs) = (f.raw ++ b'\n' ∷ []) ++ wire_text fs

  -- A frame that a reader can have returned, and whose bytes do not end in a carriage return.
  pub record IsPlain (f : Frame) : Type 0 where
    pub parsed : parse f.raw ≡ ok f
    pub no_cr : strip_cr f.raw ≡ f.raw

  parse-ne : (f : Frame) → x.from_slice [] ≡ none → parse f.raw ≡ ok f → f.raw ≢ []
  parse-ne f blank p e =
      let d = (parse_iff f.raw f).0 p in
      let never = sym blank ∙ ap x.from_slice (sym e) ∙ d.parsed in cc

  write_frame-plain : (f : Frame) → parse f.raw ≡ ok f → write_frame [] f ≡ ok (f.raw ++ b'\n' ∷ [])
  unfolding write_frame
  write_frame-plain f p = rw ((parse_iff f.raw f).0 p).one_line

  -- Frames that were written one after another are read back, all of them, in order, with their
  -- bytes, and then the stream ends. An empty text is no JSON.
  pub read_frames-wire_text :
      (fs : List Frame)
      → x.from_slice [] ≡ none
      → All IsPlain fs
      → read_frames (wire_text fs) ≡ record { frames = fs; ended_by = none }
  unfolding read_frames read_frame
  read_frames-wire_text [] blank p = refl
  read_frames-wire_text (f ∷ fs) blank p =
      let plain = p.0 in
      let (line, rest) : Bytes × Bytes = (f.raw ++ b'\n' ∷ [], wire_text fs) in
      read_frames-some (line ++ rest) f rest (
        read_frame-write_frame f line rest plain.parsed plain.no_cr (parse-ne f blank plain.parsed)
          (write_frame-plain f plain.parsed))
      ∙ ap (before f) (read_frames-wire_text fs blank p.1)
