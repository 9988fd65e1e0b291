-- ===== src/Discr/Primes/Power.antt =====
-- The power that the test computes.
use native.Mathlib.Nat.{mod-eq_of_lt, mod-lt, mul_assoc, pow-zero, pow-succ'}
use salgo.Base.{ℕ, zero, suc, ◌*◌, ◌%◌, ◌^◌, ◌<◌, ◌≡◌, ap, sym, ◌∙◌, arith}
use salgo.Base.Congruence.{mul-mod_first, mul-mod_last}
use salgo.Discr.ModuloUtils.{mult_and_mod}
use salgo.Discr.ModuloUtils.Portable.{wide-mod}
use salgo.Discr.Primes.{mr_pow}
use salgo.IntPow.Repeat.{repeat, int_pow-repeat}

module _ (m : ℕ) where
  -- Products modulo `m` may be grouped in any way.
  pub mul_mod_assoc : (a b c : ℕ) → a * b % m * c % m ≡ a * (b * c % m) % m
  mul_mod_assoc a b c =
      sym (mul-mod_first (a * b) c m) ∙ ap (λ t. t % m) (mul_assoc a b c) ∙ mul-mod_last a (b * c) m

  -- Multiplying by `a`, `n` times, modulo `m`.
  pub repeat-pow :
      (op : ℕ → ℕ → ℕ) (a : ℕ)
      → ((x : ℕ) → x < m → op x a ≡ x * a % m)
      → (n r : ℕ) → r < m
      → 0 < m
      → repeat op a n r ≡ r * a ^ n % m
  unfolding repeat
  repeat-pow op a h zero r hr pos =
      rw (pow-zero a) (sym (ap (λ t. t % m) (omega arith) ∙ mod-eq_of_lt hr))
  repeat-pow op a h (suc n) r hr pos = rw (h r hr) (
      repeat-pow op a h n (r * a % m) (mod-lt (r * a) pos) pos
      ∙ sym (mul-mod_first (r * a) (a ^ n) m)
      ∙ ap (λ t. t % m) (mul_assoc r a (a ^ n) ∙ ap (λ t. r * t) (sym (pow-succ' a n))))

module _ (p : ℕ) (one : 1 < p) (fits : p < 2 ^ 64) where
  abbrev times : ℕ → ℕ → ℕ
  times x y = mult_and_mod x y p

  times-mod : (x y : ℕ) → x < 2 ^ 64 → y < 2 ^ 64 → times x y ≡ x * y % p
  times-mod x y hx hy = wide-mod x y p hx hy (omega arith) fits

  pub times-lt : (x y : ℕ) → x < 2 ^ 64 → y < 2 ^ 64 → times x y < p
  times-lt x y hx hy = rw (times-mod x y hx hy) (mod-lt (x * y) (omega arith))

  times_assoc :
      (x y z : ℕ) → x < 2 ^ 64 → y < 2 ^ 64 → z < 2 ^ 64 → times (times x y) z ≡ times x (times y z)
  times_assoc x y z hx hy hz =
      let xy = times-lt x y hx hy in
      let yz = times-lt y z hy hz in
      times-mod (times x y) z (omega arith) hz
      ∙ ap (λ t. t * z % p) (times-mod x y hx hy)
      ∙ mul_mod_assoc p x y z
      ∙ sym (times-mod x (times y z) hx (omega arith) ∙ ap (λ t. x * t % p) (times-mod y z hy hz))

  -- For a modulus from 2 below 2 ^ 64 the result is the power modulo `p`; the loop ends at every
  -- exponent.
  pub mr_pow-pow : (a d : ℕ) → a < 2 ^ 64 → mr_pow a d p ≡ a ^ d % p
  unfolding mr_pow
  mr_pow-pow a d ha =
      int_pow-repeat times (λ x. x < 2 ^ 64) (λ x y hx hy. omega (arith, times-lt x y hx hy))
        times_assoc a d 1 ha (omega arith)
      ∙ repeat-pow p times a (λ x hx. times-mod x a (omega arith) ha) d 1 one (omega arith)
      ∙ ap (λ t. t % p) (omega arith)

  -- One squaring of `_mr_check`.
  pub square-mod : (x : ℕ) → x < p → mult_and_mod x x p ≡ x * x % p
  square-mod x h = times-mod x x (omega arith) (omega arith)
