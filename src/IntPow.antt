-- ===== src/IntPow.antt =====
-- include/salgo/_/int-pow.hpp: powers by repeated squaring, for any operation.
pub mod Repeat
use mathlib.Core.Logic.{dite}
use mathlib.Core.WellFounded.{Acc}
use native.Mathlib.Decide.{dec_lt}
use salgo.Base.{ℕ, ◌-◌, ◌/◌, ◌%◌, ◌<◌, ◌==◌, if◌then◌else◌, lt_wf, arith}

module _ {ℓ} {A : Type ℓ} (op : A → A → A) where
  -- The loop over the base `a`, the exponent `e` and the result `r`; `op(r, a)` stores into `r`.
  unfoldable pub int_pow_loop : (a : A) (e : ℕ) (r : A) → Acc ◌<◌ e → A
  unfolding dec_lt
  int_pow_loop a e r (Acc.intro _ smaller) =
      dite (dec_lt 0 e)
        (λ h.
          let odd = int_pow_loop a (e - 1) (op r a) (smaller (e - 1) (omega arith)) in
          let even = int_pow_loop (op a a) (e / 2) r (smaller (e / 2) (omega arith)) in
          if e % 2 == 1 then odd else even)
        (λ _. r)

  -- `int_pow(a, exp, op, neutral)`
  unfoldable pub int_pow : A → ℕ → A → A
  unfolding int_pow_loop lt_wf
  int_pow a exp neutral = int_pow_loop a exp neutral (lt_wf.apply exp)
