-- ===== src/IntPow/Repeat.antt =====
-- Repeated squaring applies the operation as often as the exponent says.
use mathlib.Core.WellFounded.{Acc}
use mathlib.Core.Logic.{dif_pos, dif_neg}
use native.Mathlib.Bridge.{le_prop}
use native.Mathlib.Decide.{dec_lt}
use salgo.Base.{
  ℕ, zero, suc, ◌+◌, ◌-◌, ◌/◌, ◌%◌, ◌<◌, ◌≡◌, refl, ap, ◌∙◌, false, inl, inr, ◌==◌, Bool-cases,
  lt_wf, arith,
}
use salgo.IntPow.{int_pow_loop, int_pow}

module _ {ℓ} {A : Type ℓ} (op : A → A → A) where
  -- `op` by `a` on the right of `r`, `n` times.
  unfoldable pub repeat : A → ℕ → A → A
  repeat a zero r = r
  repeat a (suc n) r = repeat a n (op r a)

  -- The operation is associative on the values that satisfy `P`, and stays among them.
  module _ {κ} (P : A → Type κ) (closed : (a b : A) → P a → P b → P (op a b))
      (assoc : (a b c : A) → P a → P b → P c → op (op a b) c ≡ op a (op b c)) where
    repeat_square : (a : A) (n : ℕ) (r : A) → P a → P r → repeat (op a a) n r ≡ repeat a (n + n) r
    unfolding repeat
    repeat_square a zero r pa pr = refl
    repeat_square a (suc n) r pa pr =
        let e : suc n + suc n ≡ suc (suc (n + n)) = omega arith in
        rw (e, ← assoc r a a pr pa pa)
          (repeat_square a n (op (op r a) a) pa (closed (op r a) a (closed r a pr pa) pa))

    repeat_odd : (a : A) (e : ℕ) (r : A) → 0 < e → repeat a (e - 1) (op r a) ≡ repeat a e r
    unfolding repeat
    repeat_odd a zero r h = absurd (omega arith)
    repeat_odd a (suc n) r h = let e : suc n - 1 ≡ n = omega arith in rw e

    repeat_even :
        (a : A) (e : ℕ) (r : A)
        → P a
        → P r
        → (e % 2 == 1) ≡ false
        → repeat (op a a) (e / 2) r ≡ repeat a e r
    repeat_even a e r pa pr h =
        repeat_square a (e / 2) r pa pr ∙ ap (λ n. repeat a n r) (ground arith)

    loop-repeat :
        (a : A) (e : ℕ) (r : A) (w : Acc ◌<◌ e) → P a → P r → int_pow_loop op a e r w ≡ repeat a e r
    unfolding int_pow_loop
    loop-repeat a e r (Acc.intro _ smaller) pa pr =
        let odd = λ (p : e - 1 < e).
          loop-repeat a (e - 1) (op r a) (smaller (e - 1) p) pa (closed r a pr pa) in
        let even = λ (p : e / 2 < e).
          loop-repeat (op a a) (e / 2) r (smaller (e / 2) p) (closed a a pa pa) pr in
        elim (dec_lt 0 e) [
          | no p ↦ let z : e ≡ 0 = omega arith in rw (dif_neg _ p) (rw z (unfold repeat in refl))
          | yes p ↦ rw (dif_pos _ le_prop p) (elim (Bool-cases (e % 2 == 1)) [
            | inl o ↦ rw o (odd (omega arith) ∙ repeat_odd a e r p)
            | inr o ↦ rw o (even (omega arith) ∙ repeat_even a e r pa pr o)
          ])
        ]

    -- For an operation that is associative on the values that satisfy `P` and keeps them, the
    -- result is the start value with the base applied on the right as often as the exponent says,
    -- for every exponent.
    pub int_pow-repeat : (a : A) (e : ℕ) (r : A) → P a → P r → int_pow op a e r ≡ repeat a e r
    unfolding int_pow
    int_pow-repeat a e r pa pr = loop-repeat a e r (lt_wf.apply e) pa pr
