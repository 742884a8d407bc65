-- ===== src/Examples/Codec.antt =====
-- Formats for the tests: a row and a manifest as lists of numbers, none of them a line break.
use acp_core.Base.{
  ℕ, zero, suc, ◌+◌, ◌≡◌, refl, ap₂, pos, negsuc, Text, Bytes, false, List, [], ◌∷◌, Option, none,
  some, length, nat_beq, All, All-map, is_utf8, true, is_utf8-ascii, ap, ◌≢◌, ◌<◌, ◌∙◌,
  if◌then◌else◌, arith,
}
use acp_core.Base.Loops.{◌>>=◌}
use acp_core.Wire.Frame.{contains}
use acp_core.Trace.Event.{
  Direction, c2a, a2c, RecordKind, RecordId, EventRecord, RecordingEnv, Manifest,
}
use acp_core.Trace.Disk.{Formats}
use acp_core.Trace.Reader.{trim_end}
use acp_core.Trace.Session.{IsFaithful}

pub record Codec (A : Type 0) : Type 0 where
  pub enc : A → Bytes → Bytes
  pub dec : Bytes → Option (A × Bytes)
  pub round : (a : A) (s : Bytes) → dec (enc a s) ≡ some (a, s)

abbrev nat : Codec ℕ
nat = record { enc = λ n s. n ∷ s; dec = dec; round = λ a s. refl }
  where
    dec : Bytes → Option (ℕ × Bytes)
    dec [] = none
    dec (n ∷ s) = some (n, s)

abbrev pair : {A B : Type 0} → Codec A → Codec B → Codec (A × B)
pair {A} {B} c d = record {
  enc = λ p s. c.enc p.0 (d.enc p.1 s);
  dec = λ s. c.dec s >>= λ (a, t). d.dec t >>= λ (b, u). some ((a, b), u);
  round = λ p s. rw (c.round p.0 (d.enc p.1 s), d.round p.1 s);
}

abbrev via : {A B : Type 0} → Codec A → (f : A → B) (g : B → A) → ((b : B) → f (g b) ≡ b) → Codec B
via c f g e = record {
  enc = λ b s. c.enc (g b) s;
  dec = λ s. c.dec s >>= λ (a, t). some (f a, t);
  round = λ b s. rw (c.round (g b) s, e b);
}

module _ {A : Type 0} (c : Codec A) where
  abbrev enc_all : List A → Bytes → Bytes
  enc_all [] s = s
  enc_all (a ∷ as') s = c.enc a (enc_all as' s)

  abbrev dec_all : ℕ → Bytes → Option (List A × Bytes)
  dec_all zero s = some ([], s)
  dec_all (suc n) s = c.dec s >>= λ (a, t). dec_all n t >>= λ (l, u). some (a ∷ l, u)

  pub dec_all-enc_all : (l : List A) (s : Bytes) → dec_all (length l) (enc_all l s) ≡ some (l, s)
  dec_all-enc_all [] s = refl
  dec_all-enc_all (a ∷ l) s = rw (c.round a (enc_all l s), dec_all-enc_all l s)

  abbrev list_dec : Bytes → Option (List A × Bytes)
  list_dec [] = none
  list_dec (n ∷ s) = dec_all n s

  abbrev list : Codec (List A)
  list = record { enc = λ l s. length l ∷ enc_all l s; dec = list_dec; round = dec_all-enc_all }

  abbrev option_enc : Option A → Bytes → Bytes
  option_enc none s = 0 ∷ s
  option_enc (some a) s = 1 ∷ c.enc a s

  abbrev option_dec : Bytes → Option (Option A × Bytes)
  option_dec [] = none
  option_dec (n ∷ s) =
      if nat_beq n 0 then some (none, s) else c.dec s >>= λ (a, t). some (some a, t)

  pub option_round : (a : Option A) (s : Bytes) → option_dec (option_enc a s) ≡ some (a, s)
  option_round none s = refl
  option_round (some a) s = rw (c.round a s)

  abbrev option : Codec (Option A)
  option = record { enc = option_enc; dec = option_dec; round = option_round }

abbrev text : Codec Text
text = list nat

abbrev direction : Codec Direction
direction = via nat f g e
  where
    f : ℕ → Direction
    f n = if nat_beq n 0 then c2a else a2c

    g : Direction → ℕ
    g c2a = 0
    g a2c = 1

    e : (d : Direction) → f (g d) ≡ d
    e c2a = refl
    e a2c = refl

abbrev kind : Codec RecordKind
kind = via nat f g e
  where
    f : ℕ → RecordKind
    f n =
        if nat_beq n 0
        then RecordKind.request
        else if nat_beq n 1
        then RecordKind.response
        else RecordKind.notification

    g : RecordKind → ℕ
    g RecordKind.request = 0
    g RecordKind.response = 1
    g RecordKind.notification = 2

    e : (k : RecordKind) → f (g k) ≡ k
    e RecordKind.request = refl
    e RecordKind.response = refl
    e RecordKind.notification = refl

abbrev id : Codec RecordId
id = via (pair nat text) f g e
  where
    f : ℕ × Text → RecordId
    f (zero, s) = RecordId.str s
    f (suc zero, n ∷ s) = RecordId.num (pos n)
    f (suc (suc zero), n ∷ s) = RecordId.num (negsuc n)
    f _ = RecordId.null_id

    g : RecordId → ℕ × Text
    g (RecordId.str s) = (0, s)
    g (RecordId.num (pos n)) = (1, n ∷ [])
    g (RecordId.num (negsuc n)) = (2, n ∷ [])
    g RecordId.null_id = (3, [])

    e : (k : RecordId) → f (g k) ≡ k
    e (RecordId.str s) = refl
    e (RecordId.num (pos n)) = refl
    e (RecordId.num (negsuc n)) = refl
    e RecordId.null_id = refl

abbrev event : Codec EventRecord
event =
    via
      (pair nat (
        pair nat
          (pair direction (pair kind (pair (option text) (pair (option id) (pair text nat)))))))
      (λ (a, (b, (c, (d, (e, (f, (g, h))))))). record {
        seq = a;
        t_wall_ns = b;
        dir = c;
        kind = d;
        method = e;
        id = f;
        hash = g;
        bytes = h;
      })
      (λ r. (r.seq, (r.t_wall_ns, (r.dir, (r.kind, (r.method, (r.id, (r.hash, r.bytes))))))))
      λ r. refl

abbrev env : Codec RecordingEnv
env =
    via
      (pair (option text)
        (pair (option text) (pair (option text) (pair (option nat) (list (pair text text))))))
      (λ (a, (b, (c, (d, e)))). record {
        cwd = a;
        host_os = b;
        host_arch = c;
        recorder_pid = d;
        env = e;
      })
      (λ r. (r.cwd, (r.host_os, (r.host_arch, (r.recorder_pid, r.env))))) λ r. refl

abbrev manifest : Codec Manifest
manifest =
    via
      (pair nat (
        pair text (
          pair text (
            pair (list text) (
              pair text
                (pair (option text) (pair (option nat) (pair (option text) (option env)))))))))
      (λ (a, (b, (c, (d, (e, (f, (g, (h, i)))))))). record {
        format_version = a;
        recorder = b;
        recorder_version = c;
        agent_argv = d;
        started_at = e;
        ended_at = f;
        event_count = g;
        events_hash = h;
        recording_env = i;
      })
      (λ r. (
        r.format_version,
        (
          r.recorder,
          (
            r.recorder_version,
            (
              r.agent_argv,
              (r.started_at, (r.ended_at, (r.event_count, (r.events_hash, r.recording_env)))),
            ),
          ),
        ),
      ))
      λ r. refl

-- Numbers above those of the line breaks.
-- A number as so many `a`, and a `b`.
abbrev unary : ℕ → Bytes → Bytes
unary zero s = b'b' ∷ s
unary (suc n) s = b'a' ∷ unary n s

abbrev raise : Bytes → Bytes
raise [] = []
raise (n ∷ s) = unary n (raise s)

abbrev count : ℕ → Bytes → Bytes
count k [] = []
count k (b ∷ s) =
    let more = count (suc k) s in let rest = count 0 s in if nat_beq b b'a' then more else k ∷ rest

abbrev lower : Bytes → Bytes
lower s = count 0 s

count-unary : (n k : ℕ) (s : Bytes) → count k (unary n s) ≡ (k + n) ∷ count 0 s
count-unary zero k s = ap (λ m. m ∷ count 0 s) (omega arith)
count-unary (suc n) k s = count-unary n (suc k) s ∙ ap (λ m. m ∷ count 0 s) (omega arith)

lower-raise : (s : Bytes) → lower (raise s) ≡ s
lower-raise [] = refl
lower-raise (n ∷ s) = count-unary n 0 (raise s) ∙ ap₂ (λ m t. m ∷ t) (omega arith) (lower-raise s)

-- A letter.
abbrev IsLetter : ℕ → Type 0
IsLetter b = (0x60 < b) × (b < 0x80)

unary-letters : (n : ℕ) (s : Bytes) → All IsLetter s → All IsLetter (unary n s)
unary-letters zero s h = ((omega arith, omega arith), h)
unary-letters (suc n) s h = ((omega arith, omega arith), unary-letters n s h)

raise-letters : (s : Bytes) → All IsLetter (raise s)
raise-letters [] = tt
raise-letters (n ∷ s) = unary-letters n (raise s) (raise-letters s)

letters-one_line : (s : Bytes) → All IsLetter s → contains s b'\n' ≡ false
unfolding contains
letters-one_line [] h = refl
letters-one_line (b ∷ s) h = ground (arith, h.0, letters-one_line s h.1)

letters-trim_end : (s : Bytes) → All IsLetter s → trim_end s ≡ s
unfolding trim_end
letters-trim_end [] h = refl
letters-trim_end (b ∷ s) h = ground (arith, h.0, letters-trim_end s h.1)

letters-is_utf8 : (s : Bytes) → All IsLetter s → is_utf8 s ≡ true
letters-is_utf8 s h = is_utf8-ascii s (All-map s (λ b p. p.1) h)

unary-ne : (n : ℕ) (s : Bytes) → unary n s ≢ []
unary-ne zero s e = cc
unary-ne (suc n) s e = cc

abbrev whole : {A : Type 0} → Codec A → Bytes → Option A
whole c s = c.dec (lower s) >>= λ (a, t). some a

whole-raise : {A : Type 0} (c : Codec A) (a : A) → whole c (raise (c.enc a [])) ≡ some a
whole-raise c a = rw (lower-raise (c.enc a []), c.round a [])

abbrev pub toy_formats : Formats
toy_formats = record {
  event_to_vec = λ row. raise (event.enc row []);
  event_from_str = whole event;
  manifest_to_vec = λ m. raise (manifest.enc m []);
  manifest_from_slice = whole manifest;
}

pub toy_formats-IsFaithful : IsFaithful toy_formats
toy_formats-IsFaithful = record {
  event_round = whole-raise event;
  event_line = λ row. letters-one_line _ (raise-letters (event.enc row []));
  event_end = λ row. letters-trim_end _ (raise-letters (event.enc row []));
  event_utf8 = λ row. letters-is_utf8 _ (raise-letters (event.enc row []));
  event_ne = λ row e. unary-ne row.seq _ e;
  manifest_round = whole-raise manifest;
}
