-- ===== src/Cli/Inspect/Rows.antt =====
-- crates/acp-cli/src/main.rs: which rows `acp inspect` lists.
use acp_core.Base.{
  ℕ, zero, suc, ◌+◌, ◌-◌, ◌<◌, ◌≤◌, ◌≡◌, refl, ap, sym, ◌∙◌, Bool, true, false, ◌||◌, List, [], ◌∷◌,
  ◌++◌, reverse, reverse-append, take-append, take-append-drop, append_assoc, append-nil,
  Bool-cases, inl, inr, leb, nat_eq, list_eq, length, take, drop, arith,
}
use mathlib.Core.List.{reverse_aux, reverse-reverse}
use acp_core.Trace.Event.{EventRecord}
use acp_core.Cli.{shown, not_shown}

-- The rows that are listed, between which `skipped` is left out.
pub record IsWindow (full : Bool) (events front skipped back : List EventRecord) : Type 0 where
  pub whole : events ≡ front ++ skipped ++ back
  pub listed : shown full events ≡ front ++ back
  pub counted : not_shown full events ≡ length skipped
  pub all_if_asked : full ≡ true → skipped ≡ []
  pub all_if_few : length events ≤ 20 → skipped ≡ []
  pub ten_each : full ≡ false → 20 < length events → (length front ≡ 10) × (length back ≡ 10)

length-reverse_aux {ℓ} :
    {A : Type ℓ} (xs ys : List A) → length (reverse_aux xs ys) ≡ length xs + length ys
length-reverse_aux [] ys = omega arith
length-reverse_aux (x ∷ xs) ys = omega (arith, length-reverse_aux xs (x ∷ ys))

length-reverse {ℓ} : {A : Type ℓ} (xs : List A) → length (reverse xs) ≡ length xs
length-reverse xs = omega (arith, length-reverse_aux xs [])

length-take {ℓ} : {A : Type ℓ} (n : ℕ) (xs : List A) → n ≤ length xs → length (take n xs) ≡ n
length-take zero xs h = refl
length-take (suc n) [] h = absurd (omega arith)
length-take (suc n) (x ∷ xs) h = ap suc (length-take n xs (omega arith))

length-drop {ℓ} : {A : Type ℓ} (n : ℕ) (xs : List A) → length (drop n xs) ≡ length xs - n
length-drop zero xs = omega arith
length-drop (suc n) [] = omega arith
length-drop (suc n) (x ∷ xs) = omega (arith, length-drop n xs)

-- The last items of a list, taken from its end.
last-reverse {ℓ} :
    {A : Type ℓ} (xs ys : List A) → reverse (take (length ys) (reverse (xs ++ ys))) ≡ ys
last-reverse xs ys =
    ap (λ l. reverse (take (length ys) l)) (reverse-append xs ys)
    ∙ ap (λ n. reverse (take n (reverse ys ++ reverse xs))) (sym (length-reverse ys))
    ∙ ap reverse (take-append (reverse ys) (reverse xs))
    ∙ reverse-reverse ys

shown_all :
    (full : Bool) (events : List EventRecord)
    → (full || leb (length events) 20) ≡ true
    → IsWindow full events events [] []
unfolding shown not_shown
shown_all full events h = record {
  whole = sym (append-nil (events ++ []) ∙ append-nil events);
  listed = rw h (sym (append-nil events));
  counted = rw h refl;
  all_if_asked = λ _. refl;
  all_if_few = λ _. refl;
  ten_each = λ asked many. absurd (ground (arith, h, asked));
}

shown_ends :
    (events : List EventRecord)
    → leb (length events) 20 ≡ false
    → (front : List EventRecord) × (skipped : List EventRecord) × (back : List EventRecord)
      × IsWindow false events front skipped back
unfolding shown not_shown
shown_ends events h =
    let many : 20 < length events = ground arith in
    let front = take 10 events in
    let behind = drop 10 events in
    let skipped = take (length events - 20) behind in
    let back = drop (length events - 20) behind in
    let few_behind = length-drop 10 events in
    let skipped_count : length skipped ≡ length events - 20 =
      length-take (length events - 20) behind (omega arith) in
    let back_count : length back ≡ 10 = omega (arith, length-drop (length events - 20) behind) in
    let split : events ≡ front ++ skipped ++ back = sym (
      append_assoc front skipped back
      ∙ ap (λ l. front ++ l) (take-append-drop (length events - 20) behind)
      ∙ take-append-drop 10 events) in
    let last : reverse (take 10 (reverse events)) ≡ back =
      ap (λ l. reverse (take 10 (reverse l))) split
      ∙ ap (λ n. reverse (take n (reverse (front ++ skipped ++ back)))) (sym back_count)
      ∙ last-reverse (front ++ skipped) back in
    (
      front,
      skipped,
      back,
      record {
        whole = split;
        listed = rw h (ap (λ l. front ++ l) last);
        counted = rw h (sym skipped_count);
        all_if_asked = λ e. absurd (cc);
        all_if_few = λ few. absurd (omega arith);
        ten_each = λ _ _. (length-take 10 events (omega arith), back_count);
      },
    )

-- `acp inspect` lists all rows, with `--full` or if there are at most 20, and else the first ten and
-- the last ten, in order; it counts the rows between them that it left out.
pub shown-IsWindow :
    (full : Bool) (events : List EventRecord)
    → (front : List EventRecord) × (skipped : List EventRecord) × (back : List EventRecord)
      × IsWindow full events front skipped back
shown-IsWindow full events = elim (Bool-cases (full || leb (length events) 20)) [
  | inl all ↦ (events, [], [], shown_all full events all)
  | inr ends ↦ some_left full events ends
]
  where
    some_left :
        (full : Bool) (events : List EventRecord)
        → (full || leb (length events) 20) ≡ false
        → (front : List EventRecord) × (skipped : List EventRecord) × (back : List EventRecord)
          × IsWindow full events front skipped back
    some_left true events h = absurd (cc)
    some_left false events h = shown_ends events h
