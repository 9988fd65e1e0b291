-- ===== src/Discr/Binomial/Choose.antt =====
-- The binomial coefficients by Pascal's rule, and their neighbours.
use salgo.Base.{ℕ, zero, suc, ◌+◌, ◌-◌, ◌*◌, ◌≤◌, ◌≡◌, ap, arith}

unfoldable pub choose : ℕ → ℕ → ℕ
choose n zero = 1
choose zero (suc k) = 0
choose (suc n) (suc k) = choose n k + choose n (suc k)

row : (n k : ℕ) → choose n (suc k) * suc k + choose n k * k ≡ choose n k * n
unfolding choose
row zero zero = omega arith
row zero (suc k) = omega arith
row (suc n) zero = omega (arith, row n 0)
row (suc n) (suc k) = omega (arith, row n k, row n (suc k))

pub choose-suc_right : (n k : ℕ) → k ≤ n → choose n (suc k) * suc k ≡ choose n k * (n - k)
choose-suc_right n k h =
    let e : k + (n - k) ≡ n = omega arith in
    omega (arith, row n k, ap (λ (t : ℕ). choose n k * t) e)

pub choose-suc_left : (n k : ℕ) → k ≤ n → choose (suc n) k * (suc n - k) ≡ choose n k * suc n
unfolding choose
choose-suc_left n zero h = omega arith
choose-suc_left n (suc k) h =
    let e : suc n - suc k ≡ n - k = omega arith in
    let f : suc k + (n - k) ≡ suc n = omega arith in
    rw e (omega (arith, choose-suc_right n k (omega arith), ap (λ (t : ℕ). choose n (suc k) * t) f))
