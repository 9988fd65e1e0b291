-- ===== src/Discr/Binomial.antt =====
-- include/salgo/_/discr/binomial.hpp: a walk over Pascal's triangle, one entry at a time. `VAL` is a
-- type with its own operations, such as `int` or `Modulo`; `n` and `k` never become negative.
pub mod Choose
pub mod Walk
pub mod Residues
use salgo.Base.{ℕ, zero, suc, ◌+◌, ◌-◌, Bool, ◌||◌, ltb, if◌then◌else◌}
use salgo.Base.Int.{ℤ, pos, pos_part, ltb_ℤ}

-- What the walk uses of `VAL`: the conversion from `int`, and `*=` and `/=` with an `int`.
pub record Value {ℓ} (W : Type ℓ) : Type ℓ where
  pub of : ℕ → W
  pub times : W → ℕ → W
  pub over : W → ℕ → W

pub record Binomial {ℓ} (W : Type ℓ) : Type ℓ where
  pub n : ℕ
  pub k : ℕ
  pub val : W

abbrev pub initial {ℓ} : {W : Type ℓ} → ⦃value : Value W⦄ → Binomial W
initial ⦃value⦄ = record { n = 0; k = 0; val = value.of 1 }

unfoldable pub outside : ℤ → ℤ → Bool
outside nn kk = ltb_ℤ nn (pos 0) || ltb_ℤ kk (pos 0) || ltb_ℤ nn kk

module _ {ℓ} {W : Type ℓ} ⦃value : Value W⦄ where
  unfoldable pub move_l : Binomial W → Binomial W
  move_l s =
      let k = s.k - 1 in record s { k = k; val = value.over (value.times s.val (k + 1)) (s.n - k) }

  unfoldable pub move_r : Binomial W → Binomial W
  move_r s =
      let k = s.k + 1 in record s { k = k; val = value.over (value.times s.val (s.n + 1 - k)) k }

  unfoldable pub move_d : Binomial W → Binomial W
  move_d s = let n = s.n + 1 in record s { n = n; val = value.over (value.times s.val n) (n - s.k) }

  unfoldable pub move_u : Binomial W → Binomial W
  move_u s =
      let n = s.n - 1 in
      record s { n = n; val = value.over (value.times s.val (n + 1 - s.k)) (n + 1) }

  -- `while (test) move()`, with a bound on its rounds
  unfoldable pub walk :
      (Binomial W → Bool) → (Binomial W → Binomial W) → ℕ → Binomial W → Binomial W
  walk test move zero s = s
  walk test move (suc rounds) s =
      let rest = walk test move rounds (move s) in if test s then rest else s

  -- The four loops in the order of the source.
  unfoldable pub walk_to : ℕ → ℕ → Binomial W → Binomial W
  unfolding walk move_l move_r move_d move_u
  walk_to nn kk s₀ =
      let s₁ = walk (λ s. ltb kk s.k) move_l s₀.k s₀ in
      let s₂ = walk (λ s. ltb nn s.n) move_u s₁.n s₁ in
      let s₃ = walk (λ s. ltb s.n nn) move_d nn s₂ in walk (λ s. ltb s.k kk) move_r kk s₃

  -- `operator()`: the new state and the result
  unfoldable pub eval : ℤ → ℤ → Binomial W → Binomial W × W
  eval nn kk s =
      if outside nn kk
      then (s, value.of 0)
      else (let s' = walk_to (pos_part nn) (pos_part kk) s in (s', s'.val))
