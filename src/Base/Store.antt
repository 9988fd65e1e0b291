-- ===== src/Base/Store.antt =====
-- What stands under a handle, or at a place in an array, as a function.
use Prim.Native.Nat.{ℕ}
use mathlib.Core.Path.{◌≡◌}
use mathlib.Core.Logic.{◌≢◌, ◌⊎◌, inl, inr}
use mathlib.Core.Bool.{true, false}
use native.Mathlib.Omega.{arith}
use salgo.Base.Tests.{◌==◌, if◌then◌else◌, Bool-cases}

-- After a write.
unfoldable pub put : {A : Type 0} → ℕ → A → (ℕ → A) → ℕ → A
put h a f = λ i. if i == h then a else f i

pub put_self : {A : Type 0} (h : ℕ) (a : A) (f : ℕ → A) → put h a f h ≡ a
unfolding put
put_self h a f = let same : (h == h) ≡ true = ground arith in rw same

pub put_other : {A : Type 0} (h : ℕ) (a : A) (f : ℕ → A) (i : ℕ) → i ≢ h → put h a f i ≡ f i
unfolding put
put_other h a f i differ = let miss : (i == h) ≡ false = ground arith in rw miss

pub number_cases : (a b : ℕ) → (a ≡ b) ⊎ (a ≢ b)
number_cases a b = elim (Bool-cases (a == b)) [
  | inl t ↦ inl (ground arith)
  | inr f ↦ inr (λ p. ground arith)
]
