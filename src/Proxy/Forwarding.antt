-- ===== src/Proxy/Forwarding.antt =====
-- One forwarding thread of the proxy: what it has taken from its reader and given to its sink.
use acp_core.Base.{
  ◌≡◌, refl, ap, sym, subst, ◌∙◌, ◌⊎◌, inl, inr, Bytes, Bool, true, false, List, [], ◌∷◌, ◌++◌,
  append_assoc, append-nil, Option, some, All,
}
use acp_core.Base.Fallible.{Result, ok, err}
use acp_core.Wire.Json.{External}
use acp_core.Wire.Frame.{WireError, Frame, write_frame, contains}
use acp_core.Wire.Reader.Stream.{wire_text}
use acp_core.Proxy.{Position, at_read, at_lock, ended, Pump, forward, resume}

module _ ⦃x : External⦄ where
  -- The frame that is forwarded but has not come to the lock.
  abbrev pub in_flight : Position → List Frame
  in_flight (at_lock f) = f ∷ []
  in_flight _ = []

  wire_text-append : (fs gs : List Frame) → wire_text (fs ++ gs) ≡ wire_text fs ++ wire_text gs
  wire_text-append [] gs = refl
  wire_text-append (f ∷ fs) gs =
      ap (λ s. (f.raw ++ b'\n' ∷ []) ++ s) (wire_text-append fs gs)
      ∙ sym (append_assoc (f.raw ++ b'\n' ∷ []) (wire_text fs) (wire_text gs))

  wire_text-snoc :
      (fs : List Frame) (f : Frame) → wire_text (fs ++ f ∷ []) ≡ wire_text fs ++ f.raw ++ b'\n' ∷ []
  wire_text-snoc fs f =
      wire_text-append fs (f ∷ [])
      ∙ ap (λ s. wire_text fs ++ s) (append-nil (f.raw ++ b'\n' ∷ []))
      ∙ sym (append_assoc (wire_text fs) f.raw (b'\n' ∷ []))

  abbrev pub IsOneLine : Frame → Type 0
  IsOneLine f = contains f.raw b'\n' ≡ false

  -- `fs` are settled: they and the one in flight are what the pump has taken from the frames
  -- `from` of its reader, and their text is what its sink has. If no write to the sink fails the loop
  -- ends with the last of them.
  pub record Forwarded (steady : Bool) (from : List Frame) (p : Pump) (fs : List Frame)
      : Type 0 where
    pub sunk : p.sink ≡ wire_text (fs ++ in_flight p.position)
    pub taken : (fs ++ in_flight p.position) ++ p.input ≡ from
    pub drained : steady ≡ true → (e : Option WireError) → p.position ≡ ended e → p.input ≡ []
    pub one_line : All IsOneLine p.input

  pub forward-nil : (p : Pump) → p.input ≡ [] → forward p ≡ record p { position = ended p.ended_by }
  unfolding forward
  forward-nil p e =
      ap (λ l. forward (record p { input = l })) e
      ∙ ap (λ l. record p { input = l; position = ended p.ended_by }) (sym e)

  write_frame-one_line :
      (sink : Bytes) (f : Frame)
      → IsOneLine f
      → write_frame sink f ≡ ok (sink ++ f.raw ++ b'\n' ∷ [])
  unfolding write_frame
  write_frame-one_line sink f one_line = rw one_line

  -- The pump after a write.
  abbrev written : Pump → Frame → List Frame → Result WireError Bytes → Pump
  written p f rest (err e) = record p { input = rest; position = ended (some e) }
  written p f rest (ok sink) = record p { input = rest; sink = sink; position = at_lock f }

  pub forward-cons :
      (p : Pump) (f : Frame) (rest : List Frame)
      → p.input ≡ f ∷ rest
      → IsOneLine f
      → forward p
        ≡ record p { input = rest; sink = p.sink ++ f.raw ++ b'\n' ∷ []; position = at_lock f }
  unfolding forward
  forward-cons p f rest e one_line =
      ap (λ l. forward (record p { input = l })) e
      ∙ ap (written p f rest) (write_frame-one_line p.sink f one_line)

  pub input-cases :
      (p : Pump) → (p.input ≡ []) ⊎ ((f : Frame) × (rest : List Frame) × (p.input ≡ f ∷ rest))
  input-cases p = cases p.input
    where
      cases : (fs : List Frame) → (fs ≡ []) ⊎ ((f : Frame) × (rest : List Frame) × (fs ≡ f ∷ rest))
      cases [] = inl refl
      cases (f ∷ rest) = inr (f, rest, refl)

  -- A round of the loop keeps the frames that are settled.
  pub forward-Forwarded :
      (steady : Bool) (from : List Frame) (p : Pump) (fs : List Frame)
      → p.position ≡ at_read
      → Forwarded steady from p fs
      → Forwarded steady from (forward p) fs
  forward-Forwarded steady from p fs reading h = elim (input-cases p) [
    | inl e ↦
        subst (λ q. Forwarded steady from q fs) (sym (forward-nil p e))
          (record {
            sunk = h.sunk ∙ ap (λ q. wire_text (fs ++ in_flight q)) reading;
            taken = ap (λ q. (fs ++ in_flight q) ++ p.input) (sym reading) ∙ h.taken;
            drained = λ _ _ _. e;
            one_line = h.one_line;
          })
    | inr (f, rest, e) ↦
        let lines : All IsOneLine (f ∷ rest) = subst (All IsOneLine) e h.one_line in
        subst (λ q. Forwarded steady from q fs) (sym (forward-cons p f rest e lines.0))
          (record {
            sunk =
                ap (λ t. t ++ f.raw ++ b'\n' ∷ [])
                  (h.sunk
                    ∙ ap (λ q. wire_text (fs ++ in_flight q)) reading
                    ∙ ap wire_text (append-nil fs))
                ∙ sym (wire_text-snoc fs f);
            taken =
                append_assoc fs (f ∷ []) rest
                ∙ ap (λ l. fs ++ l) (sym e)
                ∙ ap (λ l. l ++ p.input) (sym (append-nil fs))
                ∙ ap (λ q. (fs ++ in_flight q) ++ p.input) (sym reading)
                ∙ h.taken;
            drained = λ _ _ stuck. absurd (cc);
            one_line = lines.1;
          })
  ]

  -- Behind the lock the frame is settled.
  pub resume-Forwarded :
      (steady : Bool) (from : List Frame) (p : Pump) (fs : List Frame) (f : Frame)
      → p.position ≡ at_lock f
      → Forwarded steady from p fs
      → Forwarded steady from (resume p) (fs ++ f ∷ [])
  unfolding resume
  resume-Forwarded steady from p fs f locked h = record {
    sunk =
        h.sunk
        ∙ ap (λ q. wire_text (fs ++ in_flight q)) locked
        ∙ ap wire_text (sym (append-nil (fs ++ f ∷ [])));
    taken =
        ap (λ l. l ++ p.input) (append-nil (fs ++ f ∷ []))
        ∙ ap (λ q. (fs ++ in_flight q) ++ p.input) (sym locked)
        ∙ h.taken;
    drained = λ _ _ stuck. absurd (cc);
    one_line = h.one_line;
  }

  -- A write that fails leaves what is settled.
  pub fail-Forwarded :
      (from : List Frame) (p : Pump) (fs : List Frame) (e : Option WireError)
      → p.position ≡ at_read
      → Forwarded false from p fs
      → Forwarded false from (record p { position = ended e }) fs
  fail-Forwarded from p fs e reading h = record {
    sunk = h.sunk ∙ ap (λ q. wire_text (fs ++ in_flight q)) reading;
    taken = ap (λ q. (fs ++ in_flight q) ++ p.input) (sym reading) ∙ h.taken;
    drained = λ steady. absurd (cc);
    one_line = h.one_line;
  }
