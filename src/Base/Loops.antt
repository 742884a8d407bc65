-- ===== src/Base/Loops.antt =====
-- Code that may panic, as a value of `Option`, and counted loops over it.
use Prim.Native.Nat.{ℕ, zero, suc, ◌+◌, ◌≤◌, ◌<◌}
use mathlib.Core.Path.{◌≡◌, refl, sym, subst}
use mathlib.Core.Option.{Option, none, some, some-injective}
use native.Mathlib.Omega.{arith}

infixl 5 ◌>>=◌ ◌>>◌
abbrev pub ◌>>=◌ {ℓ κ} : {A : Type ℓ} {B : Type κ} → Option A → (A → Option B) → Option B
none >>= f = none
some a >>= f = f a

abbrev pub ◌>>◌ {ℓ κ} : {A : Type ℓ} {B : Type κ} → Option A → Option B → Option B
m >> k = m >>= λ _. k

-- `for i in start..start + count { s = body(i, s) }`
unfoldable pub for {ℓ} : {S : Type ℓ} (count start : ℕ) → (ℕ → S → Option S) → S → Option S
for zero i body s = some s
for (suc n) i body s = body i s >>= for n (suc i) body

-- The code returns, with a value that satisfies `P`.
pub data Returns {ℓ κ} {A : Type ℓ} (P : A → Type κ) : Option A → Type (ℓ ⊔ κ) where
  returns : {a : A} → P a → Returns P (some a)

module _ {ℓ κ} {A : Type ℓ} {P : A → Type κ} where
  pub Returns-bind {ℓ' κ'} :
      {B : Type ℓ'} {Q : B → Type κ'} {m : Option A} {f : A → Option B}
      → Returns P m
      → ((a : A) → P a → Returns Q (f a))
      → Returns Q (m >>= f)
  Returns-bind (returns p) k = k _ p

  pub Returns-map {κ'} :
      {Q : A → Type κ'} {m : Option A} → Returns P m → ((a : A) → P a → Q a) → Returns Q m
  Returns-map (returns p) k = returns (k _ p)

  pub Returns-some : {m : Option A} {a : A} → Returns P m → m ≡ some a → P a
  Returns-some (returns p) e = subst P (some-injective _ _ e) p

-- An invariant that each round keeps holds after the last one.
pub for-Returns {ℓ κ} :
    {S : Type ℓ} (P : ℕ → S → Type κ) (stop : ℕ) (body : ℕ → S → Option S) (n i : ℕ) (s : S)
    → i + n ≡ stop
    → ((k : ℕ) (t : S) → i ≤ k → k < stop → P k t → Returns (P (suc k)) (body k t))
    → P i s
    → Returns (P stop) (for n i body s)
unfolding for
for-Returns P stop body zero i s e round p = returns (subst (λ k. P k s) (omega arith) p)
for-Returns P stop body (suc n) i s e round p =
    Returns-bind (round i s (omega arith) (omega arith) p)
      λ t. for-Returns P stop body n (suc i) t (omega arith) (λ k u lo. round k u (omega arith))

pub Returns-refl {ℓ} :
    {A : Type ℓ} (m : Option A) {a : A} → m ≡ some a → Returns (λ b. m ≡ some b) m
Returns-refl m {a} e = subst (Returns (λ b. m ≡ some b)) (sym e) (returns e)

pub Returns-eq {ℓ} : {A : Type ℓ} (m : Option A) {a : A} → m ≡ some a → Returns (λ b. b ≡ a) m
Returns-eq m {a} e = subst (Returns (λ b. b ≡ a)) (sym e) (returns refl)
