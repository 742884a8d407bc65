-- ===== src/Base/Order.antt =====
-- "Is shorter than" on lists is well founded.
use Prim.Native.Nat.{ℕ, zero, suc, ◌<◌}
use mathlib.Core.List.{List}
use mathlib.Core.WellFounded.{Acc, WellFounded}
use native.Mathlib.Omega.{arith}
use acp_core.Base.Lists.{length}

module _ {ℓ} {A : Type ℓ} where
  abbrev pub Shorter : List A → List A → Type 0
  Shorter xs ys = length xs < length ys

  Acc-below : (k : ℕ) (xs : List A) → length xs < k → Acc Shorter xs
  Acc-below zero xs h = elim h [ ]
  Acc-below (suc k) xs h = Acc.intro xs (λ ys shorter. Acc-below k ys (omega arith))

  unfoldable pub Shorter-wf : WellFounded Shorter
  unfolding Acc-below
  Shorter-wf = record { apply = λ xs. Acc-below (suc (length xs)) xs (omega arith) }
