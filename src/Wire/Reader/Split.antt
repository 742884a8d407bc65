-- ===== src/Wire/Reader/Split.antt =====
-- The reader against a description of a whole stream: its lines, and the frames of the lines.
use mathlib.Core.WellFounded.{Acc}
use acp_core.Base.{
  ℕ, suc, ◌≡◌, refl, ap, sym, ◌∙◌, ◌⊎◌, inl, inr, Bytes, false, List, [], ◌∷◌, ◌++◌, append_assoc,
  append-nil, Option, none, some, nat_beq, if◌then◌else◌, All, subst, Bool-cases, length,
  length-append, arith,
}
use acp_core.Base.Order.{Shorter, Shorter-wf}
use acp_core.Base.Fallible.{Result, ok, err, Result-cases}
use acp_core.Wire.Json.{External}
use acp_core.Wire.Frame.{Frame, WireError, contains, parse}
use acp_core.Wire.Frame.Parsed.{parse_iff}
use acp_core.Wire.Reader.{read_frame, some_frame}
use acp_core.Wire.Reader.Lines.{strip_cr, read_frame-line, read_frame-last}
use acp_core.Wire.Reader.Stream.{Stream, next_round, read_frames, read_frames-round, before}

-- The text between the newlines, with `line` in front of the first: a line that ends in a newline
-- loses a carriage return, the last one keeps all of its bytes.
unfoldable pub split_lines : Bytes → Bytes → List Bytes
split_lines line [] = line ∷ []
split_lines line (b ∷ s) =
    let more = split_lines (line ++ b ∷ []) s in
    let rest = split_lines [] s in if nat_beq b b'\n' then strip_cr line ∷ rest else more

module _ ⦃x : External⦄ where
  -- Empty lines are passed over, and the first line that is no frame ends the stream.
  unfoldable pub frames_of : List Bytes → Stream
  frames_of [] = record { frames = []; ended_by = none }
  frames_of (l ∷ ls) =
      let later = frames_of ls in
      if nat_beq (length l) 0 then later else elim (parse l) [
        | ok f ↦ before f later
        | err e ↦ record { frames = []; ended_by = some e }
      ]

  abbrev stream_of : Result WireError (Option Frame) × Bytes → Stream
  stream_of (err e, rest) = record { frames = []; ended_by = some e }
  stream_of (ok none, rest) = record { frames = []; ended_by = none }
  stream_of (ok (some f), rest) = before f (read_frames rest)

  next_round-stream_of :
      (s : Bytes) (r : Result WireError (Option Frame) × Bytes) (e : read_frame s ≡ r)
      → next_round s r e (λ t shorter. read_frames t) ≡ stream_of r
  unfolding next_round
  next_round-stream_of s (err e, rest) eq = refl
  next_round-stream_of s (ok none, rest) eq = refl
  next_round-stream_of s (ok (some f), rest) eq = refl

  pub read_frames-stream_of : (s : Bytes) → read_frames s ≡ stream_of (read_frame s)
  read_frames-stream_of s = read_frames-round s ∙ next_round-stream_of s (read_frame s) refl

  -- What a line that is not empty adds to the rest.
  abbrev parsed_line : Result WireError Frame → Stream → Stream
  parsed_line (ok f) later = before f later
  parsed_line (err e) later = record { frames = []; ended_by = some e }

  stream_of-some_frame :
      (r : Result WireError Frame) (rest : Bytes)
      → stream_of (some_frame r, rest) ≡ parsed_line r (read_frames rest)
  stream_of-some_frame (ok f) rest = refl
  stream_of-some_frame (err e) rest = refl

  frames_of-cons :
      (l : Bytes) (ls : List Bytes)
      → frames_of (l ∷ ls)
        ≡ (if nat_beq (length l) 0 then frames_of ls else parsed_line (parse l) (frames_of ls))
  unfolding frames_of
  frames_of-cons l ls = ground arith

  frames_of-last :
      (b : ℕ) (l : Bytes)
      → frames_of ((b ∷ l) ∷ [])
        ≡ parsed_line (parse (b ∷ l)) (record { frames = []; ended_by = none })
  unfolding frames_of
  frames_of-last b l =
      let not_empty : nat_beq (suc (length l)) 0 ≡ false = ground arith in
      frames_of-cons (b ∷ l) [] ∙ rw not_empty refl

  read_frames-line :
      (l rest : Bytes)
      → contains l b'\n' ≡ false
      → read_frames (l ++ b'\n' ∷ rest) ≡ (
          if nat_beq (length (strip_cr l)) 0
          then read_frames rest
          else parsed_line (parse (strip_cr l)) (read_frames rest))
  read_frames-line l rest h =
      read_frames-stream_of (l ++ b'\n' ∷ rest)
      ∙ ap stream_of (read_frame-line l rest h)
      ∙ elim (Bool-cases (nat_beq (length (strip_cr l)) 0)) [
        | inl blank ↦ rw blank (sym (read_frames-stream_of rest))
        | inr more ↦ rw more (stream_of-some_frame (parse (strip_cr l)) rest)
      ]

  read_frames-nil : read_frames [] ≡ record { frames = []; ended_by = none }
  unfolding read_frame
  read_frames-nil = read_frames-stream_of []

  read_frames-last :
      (b : ℕ) (l : Bytes)
      → contains (b ∷ l) b'\n' ≡ false
      → read_frames (b ∷ l) ≡ parsed_line (parse (b ∷ l)) (record { frames = []; ended_by = none })
  read_frames-last b l h =
      read_frames-stream_of (b ∷ l)
      ∙ ap stream_of (read_frame-last b l h)
      ∙ stream_of-some_frame (parse (b ∷ l)) []
      ∙ ap (parsed_line (parse (b ∷ l))) read_frames-nil

split_lines-line :
    (line l rest : Bytes)
    → contains l b'\n' ≡ false
    → split_lines line (l ++ b'\n' ∷ rest) ≡ strip_cr (line ++ l) ∷ split_lines [] rest
unfolding split_lines contains
split_lines-line line [] rest h = ap (λ l. strip_cr l ∷ split_lines [] rest) (sym (append-nil line))
split_lines-line line (b ∷ l) rest h =
    ground (arith, split_lines-line (line ++ b ∷ []) l rest, append_assoc line (b ∷ []) l)

split_lines-last :
    (line l : Bytes) → contains l b'\n' ≡ false → split_lines line l ≡ (line ++ l) ∷ []
unfolding split_lines contains
split_lines-last line [] h = ap (λ l. l ∷ []) (sym (append-nil line))
split_lines-last line (b ∷ l) h =
    ground (arith, split_lines-last (line ++ b ∷ []) l, append_assoc line (b ∷ []) l)

-- A stream has a first newline or none.
pub first_newline :
    (s : Bytes)
    → (contains s b'\n' ≡ false)
      ⊎ ((l : Bytes) × (rest : Bytes) × (s ≡ l ++ b'\n' ∷ rest) × (contains l b'\n' ≡ false))
unfolding contains
first_newline [] = inl refl
first_newline (b ∷ s) = elim (Bool-cases (nat_beq b b'\n')) [
  | inl newline ↦ inr ([], s, ap (λ c. c ∷ s) (ground (arith, newline)), refl)
  | inr other ↦ elim (first_newline s) [
    | inl none_left ↦ inl (rw (other, none_left))
    | inr (l, rest, e, h) ↦ inr (b ∷ l, rest, ap (λ t. b ∷ t) e, rw (other, h))
  ]
]

module _ ⦃x : External⦄ where
  split_acc : (s : Bytes) → Acc Shorter s → read_frames s ≡ frames_of (split_lines [] s)
  unfolding split_lines frames_of
  split_acc [] w = read_frames-nil
  split_acc (b ∷ s) (Acc.intro _ below) = elim (first_newline (b ∷ s)) [
    | inl last ↦
        read_frames-last b s last
        ∙ sym (ap frames_of (split_lines-last [] (b ∷ s) last) ∙ frames_of-last b s)
    | inr (l, rest, e, h) ↦
        let shorter : Shorter rest (b ∷ s) =
          omega (arith, length-append l (b'\n' ∷ rest), ap length e) in
        ap read_frames e
        ∙ read_frames-line l rest h
        ∙ ap
            (λ later.
              if nat_beq (length (strip_cr l)) 0
              then later
              else parsed_line (parse (strip_cr l)) later)
            (split_acc rest (below rest shorter))
        ∙ sym (
            ap (λ t. frames_of (split_lines [] t)) e
            ∙ ap frames_of (split_lines-line [] l rest h)
            ∙ frames_of-cons (strip_cr l) (split_lines [] rest))
  ]

  -- The frames that a reader returns for any stream, and how the stream ends, are those of its lines:
  -- each line is parsed by itself, empty ones are passed over, and the first that is no frame ends the
  -- stream with its error.
  pub read_frames-split_lines : (s : Bytes) → read_frames s ≡ frames_of (split_lines [] s)
  unfolding Shorter-wf
  read_frames-split_lines s = split_acc s (Shorter-wf.apply s)

  parse-raw : (l : Bytes) (f : Frame) → parse l ≡ ok f → parse f.raw ≡ ok f
  parse-raw l f p =
      let d = (parse_iff l f).0 p in
      subst (λ r. parse r ≡ ok f) (sym (ap (λ (g : Frame). g.raw) d.frame)) p

  frames_of-All : (ls : List Bytes) → All (λ f. parse f.raw ≡ ok f) (frames_of ls).frames
  unfolding frames_of
  frames_of-All [] = tt
  frames_of-All (l ∷ ls) = elim (Bool-cases (nat_beq (length l) 0)) [
    | inl blank ↦ rw blank (frames_of-All ls)
    | inr more ↦ elim (Result-cases (parse l)) [
      | inl (f, p) ↦ rw (more, p) (parse-raw l f p, frames_of-All ls)
      | inr (e, p) ↦ rw (more, p) tt
    ]
  ]

  -- Each frame of a stream was parsed from its bytes.
  pub read_frames-All : (s : Bytes) → All (λ f. parse f.raw ≡ ok f) (read_frames s).frames
  read_frames-All s =
      subst (λ (t : Stream). All (λ f. parse f.raw ≡ ok f) t.frames)
        (sym (read_frames-split_lines s)) (frames_of-All (split_lines [] s))
