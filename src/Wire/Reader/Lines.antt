-- ===== src/Wire/Reader/Lines.antt =====
-- What `FrameReader::read_frame` does with each line of the stream.
use mathlib.Core.WellFounded.{Acc}
use acp_core.Base.{
  subst, ℕ, zero, suc, ◌+◌, ◌-◌, ◌≡◌, refl, ap, sym, ◌∙◌, ◌≢◌, inl, inr, Bytes, false, ◌||◌, Option,
  [], ◌∷◌, ◌++◌, append_assoc, some, nat_beq, if◌then◌else◌, Bool-cases, length, length-append,
  get_elem?, get_elem?-append, take, take-append, take-length, snoc-cases, arith,
}
use acp_core.Base.Order.{Shorter, Shorter-wf}
use acp_core.Base.Fallible.{Result, ok, ok-injective}
use acp_core.Wire.Json.{External}
use acp_core.Wire.Frame.{Frame, WireError, contains, parse, write_frame}
use acp_core.Wire.Frame.Parsed.{parse_iff}
use acp_core.Wire.Reader.{
  read_until, read_until-Shorter, frame_end, some_frame, read_frame_acc, read_frame, byte_at,
}

-- A line without the carriage return at its end, if there is one.
abbrev pub strip_cr : Bytes → Bytes
strip_cr [] = []
strip_cr (c ∷ []) = if nat_beq c b'\r' then [] else c ∷ []
strip_cr (c ∷ d ∷ s) = c ∷ strip_cr (d ∷ s)

strip_cr-snoc :
    (l : Bytes) (c : ℕ) → strip_cr (l ++ c ∷ []) ≡ (if nat_beq c b'\r' then l else l ++ c ∷ [])
strip_cr-snoc [] c = refl
strip_cr-snoc (b ∷ []) c = ground arith
strip_cr-snoc (b ∷ d ∷ l) c = ground (arith, strip_cr-snoc (d ∷ l) c)

pub contains-append : (l m : Bytes) (b : ℕ) → contains (l ++ m) b ≡ (contains l b || contains m b)
unfolding contains
contains-append [] m b = refl
contains-append (c ∷ l) m b = ground (arith, contains-append l m b)

pub read_until-line :
    (l rest : Bytes)
    → contains l b'\n' ≡ false
    → read_until b'\n' (l ++ b'\n' ∷ rest) ≡ (l ++ b'\n' ∷ [], rest)
unfolding contains read_until
read_until-line [] rest h = refl
read_until-line (c ∷ l) rest h = ground (arith, read_until-line l rest)

pub read_until-rest : (l : Bytes) → contains l b'\n' ≡ false → read_until b'\n' l ≡ (l, [])
unfolding contains read_until
read_until-rest [] h = refl
read_until-rest (c ∷ l) h = ground (arith, read_until-rest l)

frame_end_lem :
    (buf : Bytes) (n c : ℕ)
    → length buf ≡ n + 2
    → get_elem? buf (n + 1) ≡ some b'\n'
    → get_elem? buf n ≡ some c
    → frame_end buf ≡ (if nat_beq c b'\r' then n else n + 1)
unfolding frame_end
frame_end_lem buf n c size last before =
    let e : n + 2 - 1 ≡ n + 1 = omega arith in
    let e' : n + 1 - 1 ≡ n = omega arith in rw (size, e, last, e', before) (ground arith)

frame_end-snoc :
    (l : Bytes) (c : ℕ)
    → frame_end ((l ++ c ∷ []) ++ b'\n' ∷ []) ≡ (if nat_beq c b'\r' then length l else length l + 1)
frame_end-snoc l c =
    frame_end_lem ((l ++ c ∷ []) ++ b'\n' ∷ []) (length l) c
      (omega (arith, length-append {0} (l ++ c ∷ []) (b'\n' ∷ []), length-append {0} l (c ∷ [])))
      (subst (λ n. get_elem? ((l ++ c ∷ []) ++ b'\n' ∷ []) n ≡ some b'\n')
        (length-append l (c ∷ []) ∙ omega arith) (get_elem?-append (l ++ c ∷ []) b'\n' []))
      (rw (append_assoc l (c ∷ []) (b'\n' ∷ [])) (get_elem?-append l c (b'\n' ∷ [])))

byte_at-other :
    (l : Bytes) (b i : ℕ) → contains l b ≡ false → b ≢ 0 → nat_beq (byte_at l i) b ≡ false
unfolding contains
byte_at-other [] b i h p = ground arith
byte_at-other (c ∷ l) b zero h p = ground arith
byte_at-other (c ∷ l) b (suc i) h p = byte_at-other l b i (ground arith) p

frame_end-last : (l : Bytes) → contains l b'\n' ≡ false → frame_end l ≡ length l
unfolding frame_end
frame_end-last l h = ground (arith, byte_at-other l b'\n' (length l - 1) h)

length_ne : (l : Bytes) → l ≢ [] → nat_beq (length l) 0 ≡ false
length_ne [] h = absurd (h refl)
length_ne (c ∷ l) h = ground arith

abbrev snoc : Bytes → ℕ → Bytes
snoc m c = (m ++ c ∷ []) ++ b'\n' ∷ []

size : (m : Bytes) (c : ℕ) → length m + 1 ≡ length (m ++ c ∷ [])
size m c = omega (arith, length-append {0} m (c ∷ []))

-- The slice that is parsed is the line without its end.
take-frame_end :
    (l : Bytes)
    → (frame_end (l ++ b'\n' ∷ []) ≡ length (strip_cr l))
      × (take (frame_end (l ++ b'\n' ∷ [])) (l ++ b'\n' ∷ []) ≡ strip_cr l)
take-frame_end l = elim (snoc-cases l) [
  | inl e ↦ rw e (unfold frame_end in (refl, refl))
  | inr (m, c, e) ↦
      rw (e, frame_end-snoc m c, strip_cr-snoc m c)
        (elim (Bool-cases (nat_beq c b'\r')) [
          | inl cr ↦ rw cr (refl, rw (append_assoc m (c ∷ []) (b'\n' ∷ [])) (take-append m _))
          | inr other ↦
              rw other
                (size m c, ap (λ n. take n (snoc m c)) (size m c) ∙ take-append (m ++ c ∷ []) _)
        ])
]

module _ ⦃x : External⦄ where
  -- A round of the reader on a stream that is not at its end, before `skipped` is read.
  abbrev pub round :
      Bytes → Result WireError (Option Frame) × Bytes → Result WireError (Option Frame) × Bytes
  round s skipped =
      let buf = (read_until b'\n' s).0 in
      if nat_beq (frame_end buf) 0
      then skipped
      else (some_frame (parse (take (frame_end buf) buf)), (read_until b'\n' s).1)

  read_frame_acc-cons :
      (b : ℕ) (s : Bytes) (p : (t : Bytes) → Shorter t (b ∷ s) → Acc Shorter t)
      → read_frame_acc (b ∷ s) (Acc.intro _ p)
        ≡ round (b ∷ s) (
            read_frame_acc
              (read_until b'\n' (b ∷ s)).1
              (p (read_until b'\n' (b ∷ s)).1 (read_until-Shorter b'\n' b s)))
  unfolding read_frame_acc
  read_frame_acc-cons b s p = ground arith

  read_frame_acc_irrel : (s : Bytes) (v w : Acc Shorter s) → read_frame_acc s v ≡ read_frame_acc s w
  unfolding read_frame_acc
  read_frame_acc_irrel [] v w = refl
  read_frame_acc_irrel (b ∷ s) (Acc.intro _ p) (Acc.intro _ q) =
      let rest = (read_until b'\n' (b ∷ s)).1 in
      let shorter = read_until-Shorter b'\n' b s in
      read_frame_acc-cons b s p
      ∙ ap (round (b ∷ s)) (read_frame_acc_irrel rest (p rest shorter) (q rest shorter))
      ∙ sym (read_frame_acc-cons b s q)

  read_frame_acc-round :
      (b : ℕ) (s : Bytes) (w : Acc Shorter (b ∷ s))
      → read_frame_acc (b ∷ s) w ≡ round (b ∷ s) (read_frame (read_until b'\n' (b ∷ s)).1)
  unfolding read_frame
  read_frame_acc-round b s (Acc.intro _ p) =
      let rest = (read_until b'\n' (b ∷ s)).1 in
      read_frame_acc-cons b s p
      ∙ ap (round (b ∷ s)) (
          read_frame_acc_irrel rest (p rest (read_until-Shorter b'\n' b s)) (Shorter-wf.apply rest))

  pub read_frame-cons :
      (b : ℕ) (s : Bytes)
      → read_frame (b ∷ s) ≡ round (b ∷ s) (read_frame (read_until b'\n' (b ∷ s)).1)
  unfolding read_frame
  read_frame-cons b s = read_frame_acc-round b s (Shorter-wf.apply (b ∷ s))

  round-line :
      (s l rest : Bytes)
      → s ≡ l ++ b'\n' ∷ rest
      → contains l b'\n' ≡ false
      → round s (read_frame (read_until b'\n' s).1) ≡ (
          if nat_beq (length (strip_cr l)) 0
          then read_frame rest
          else (some_frame (parse (strip_cr l)), rest))
  round-line s l rest e h =
      rw (e, read_until-line l rest h, (take-frame_end l).1, (take-frame_end l).0)

  -- A line of the stream, without its newline and a carriage return before it, is parsed as the
  -- next frame; if nothing is left of it, it is skipped.
  pub read_frame-line :
      (l rest : Bytes)
      → contains l b'\n' ≡ false
      → read_frame (l ++ b'\n' ∷ rest) ≡ (
          if nat_beq (length (strip_cr l)) 0
          then read_frame rest
          else (some_frame (parse (strip_cr l)), rest))
  read_frame-line [] rest h = read_frame-cons b'\n' rest ∙ round-line _ [] rest refl h
  read_frame-line (b ∷ l) rest h =
      read_frame-cons b (l ++ b'\n' ∷ rest) ∙ round-line _ (b ∷ l) rest refl h

  -- The last line of a stream may lack the newline; all of its bytes are parsed.
  pub read_frame-last :
      (b : ℕ) (l : Bytes)
      → contains (b ∷ l) b'\n' ≡ false
      → read_frame (b ∷ l) ≡ (some_frame (parse (b ∷ l)), [])
  read_frame-last b l h =
      rw (read_frame-cons b l, read_until-rest (b ∷ l) h, frame_end-last (b ∷ l) h, take-length l)
        (ground arith)

  -- A frame that was written is read back with all its bytes, if they are a frame's and do not
  -- end in a carriage return; the reader then stands behind it.
  pub read_frame-write_frame :
      (f : Frame) (w rest : Bytes)
      → parse f.raw ≡ ok f
      → strip_cr f.raw ≡ f.raw
      → f.raw ≢ []
      → write_frame [] f ≡ ok w
      → read_frame (w ++ rest) ≡ (ok (some f), rest)
  unfolding write_frame
  read_frame-write_frame f w rest p q r e =
      let one_line = ((parse_iff f.raw f).0 p).one_line in
      let written = ok-injective (rw one_line at e) in
      rw (
        ← written,
        append_assoc f.raw (b'\n' ∷ []) rest,
        read_frame-line f.raw rest one_line,
        q,
        length_ne f.raw r,
        p,
      )

  -- A frame is read from bytes that are then gone.
  pub read_frame_acc-Shorter :
      (s : Bytes) (w : Acc Shorter s) (r : Result WireError (Option Frame)) (rest : Bytes)
      (f : Frame)
      → read_frame_acc s w ≡ (r, rest)
      → r ≡ ok (some f)
      → Shorter rest s
  unfolding read_frame_acc
  read_frame_acc-Shorter [] w r rest f e g =
      absurd (ground (arith, ap (λ (p : Result WireError (Option Frame) × Bytes). p.0) e))
  read_frame_acc-Shorter (b ∷ s) (Acc.intro _ p) r rest f e g =
      let next = (read_until b'\n' (b ∷ s)).1 in
      let shorter = read_until-Shorter b'\n' b s in
      let e' = sym (read_frame_acc-cons b s p) ∙ e in
      elim (Bool-cases (nat_beq (frame_end (read_until b'\n' (b ∷ s)).0) 0)) [
        | inl blank ↦
            let h = read_frame_acc-Shorter next (p next shorter) r rest f (rw blank at e') g in
            omega arith
        | inr line ↦
            let same : next ≡ rest =
              ap (λ (q : Result WireError (Option Frame) × Bytes). q.1) (rw line at e') in
            subst (λ t. Shorter t (b ∷ s)) same shorter
      ]
