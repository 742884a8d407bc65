-- ===== src/Echo/Sessions.antt =====
-- The session ids of the echo agent.
use acp_core.Base.{
  ℕ, suc, ◌+◌, ◌%◌, ◌^◌, ◌<◌, ◌≤◌, ◌≡◌, ◌≢◌, refl, ap, sym, subst, ◌∙◌, Text, codes, List, [], ◌∷◌,
  ◌++◌, append-nil, Option, none, some, All, length, drop, decimal, parse_unsigned,
  parse_unsigned-decimal, Option-cases, Bool-cases, inl, inr, arith,
}
use mathlib.Core.Option.{some-injective}
use acp_core.Wire.Json.{External, Json, get, as_str}
use acp_core.Wire.Frame.{FrameId, WireError, Frame, and_then}
use acp_core.Echo.{
  Counters, Method, initialize, session_new, session_prompt, shutdown, unknown, answer, field,
  is_shutdown, frame_method, echo, result_envelope, error_envelope, notification_envelope,
}

abbrev session_name : ℕ → Text
session_name k = codes "sess-" ++ decimal k

session_name-injective : (j k : ℕ) → session_name j ≡ session_name k → j ≡ k
session_name-injective j k e =
    let bound = suc (j + k) in
    let same : decimal j ≡ decimal k = ap (drop 5) e in
    some-injective _ _ (
      sym (parse_unsigned-decimal bound j (omega arith))
      ∙ ap (parse_unsigned bound) same
      ∙ parse_unsigned-decimal bound k (omega arith))

-- The names of sessions, with numbers that ascend from above `n`.
abbrev AreNumbered : ℕ → List Text → Type 0
AreNumbered n [] = Unit
AreNumbered n (t ∷ ts) = (k : ℕ) × (n < k) × (t ≡ session_name k) × AreNumbered k ts

abbrev pub AreDifferent : List Text → Type 0
AreDifferent [] = Unit
AreDifferent (t ∷ ts) = All (λ u. t ≢ u) ts × AreDifferent ts

AreNumbered-All :
    (j n : ℕ) (t : Text) (ts : List Text)
    → t ≡ session_name j
    → j ≤ n
    → AreNumbered n ts
    → All (λ u. t ≢ u) ts
AreNumbered-All j n t [] e h p = tt
AreNumbered-All j n t (u ∷ ts) e h (k, lt, f, p) = (
  λ same. let number = session_name-injective j k (sym e ∙ same ∙ f) in absurd (omega arith),
  AreNumbered-All j k t ts e (omega arith) p,
)

AreNumbered-AreDifferent : (n : ℕ) (ts : List Text) → AreNumbered n ts → AreDifferent ts
AreNumbered-AreDifferent n [] p = tt
AreNumbered-AreDifferent n (t ∷ ts) (k, lt, e, p) =
    (AreNumbered-All k k t ts e (omega arith) p, AreNumbered-AreDifferent k ts p)

module _ ⦃x : External⦄ where
  -- The session that a reply makes, if its result names one.
  abbrev new_session : Json → Option Text
  new_session env =
      and_then (and_then (field env (codes "result")) (λ r. field r (codes "sessionId"))) as_str

  unfoldable pub new_sessions : List Json → List Text
  unfolding get
  new_sessions [] = []
  new_sessions (env ∷ envs) =
      let rest = new_sessions envs in elim (new_session env) [ none ↦ rest | some t ↦ t ∷ rest ]

  answer-AreNumbered :
      (id : FrameId) (frame : Frame) (arm : Method) (s : Counters) (later : List Json)
      → s.session_count + 1 < 2 ^ 64
      → AreNumbered (answer id frame arm s).1.session_count (new_sessions later)
      → AreNumbered s.session_count (new_sessions ((answer id frame arm s).0 ++ later))
  unfolding answer new_sessions result_envelope error_envelope notification_envelope get
  answer-AreNumbered id frame initialize s later h p = p
  answer-AreNumbered id frame session_new s later h p =
      ((s.session_count + 1) % 2 ^ 64, omega arith, refl, p)
  answer-AreNumbered id frame session_prompt s later h p = p
  answer-AreNumbered id frame shutdown s later h p = p
  answer-AreNumbered id frame (unknown method) s later h p = p

  answer-session_count :
      (id : FrameId) (frame : Frame) (arm : Method) (s : Counters)
      → s.session_count + 1 < 2 ^ 64
      → (answer id frame arm s).1.session_count ≤ s.session_count + 1
  unfolding answer
  answer-session_count id frame initialize s h = omega arith
  answer-session_count id frame session_new s h = omega arith
  answer-session_count id frame session_prompt s h = omega arith
  answer-session_count id frame shutdown s h = omega arith
  answer-session_count id frame (unknown method) s h = omega arith

  echo-AreNumbered :
      (frames : List Frame) (ended_by : Option WireError) (s : Counters)
      → s.session_count + length frames < 2 ^ 64
      → AreNumbered s.session_count (new_sessions (echo frames ended_by s).0)
  unfolding echo new_sessions
  echo-AreNumbered [] ended_by s h = tt
  echo-AreNumbered (frame ∷ frames) ended_by s h = elim (Option-cases frame.id) [
    | inl notification ↦ rw notification (echo-AreNumbered frames ended_by s (omega arith))
    | inr (id, request) ↦
        let arm = frame_method frame in
        let s' = (answer id frame arm s).1 in
        let envs = (answer id frame arm s).0 in
        let few = answer-session_count id frame arm s (omega arith) in
        elim (Bool-cases (is_shutdown arm)) [
          | inl stop ↦
              rw (request, stop)
                (subst (λ l. AreNumbered s.session_count (new_sessions l)) (append-nil envs)
                  (answer-AreNumbered id frame arm s [] (omega arith) tt))
          | inr more ↦
              rw (request, more)
                (answer-AreNumbered id frame arm s (echo frames ended_by s').0 (omega arith)
                  (echo-AreNumbered frames ended_by s' (omega arith)))
        ]
  ]

  -- The sessions that one run of the agent makes, for fewer than 2^64 frames, have different ids.
  pub echo-AreDifferent :
      (frames : List Frame) (ended_by : Option WireError)
      → length frames < 2 ^ 64
      → AreDifferent
          (new_sessions (echo frames ended_by (record { prompt_count = 0; session_count = 0 })).0)
  echo-AreDifferent frames ended_by h = AreNumbered-AreDifferent 0 _ (
      echo-AreNumbered frames ended_by (record { prompt_count = 0; session_count = 0 })
        (omega arith))
