-- ===== src/Base/Congruence.antt =====
-- Numbers that leave the same remainder, and powers.
use Prim.Native.Nat.{ℕ, zero, suc, ◌+◌, ◌*◌, ◌/◌, ◌%◌, ◌^◌}
use mathlib.Core.Path.{◌≡◌, sym, ap, ◌∙◌}
use native.Mathlib.Nat.{
  add-mod, div-add-mod, add-mul-mod_self_left, mul_comm, pow-suc, pow-zero, zero-add, suc-add,
  mul-zero, mul-suc,
}
use native.Mathlib.Omega.{arith}

pub mul-mod_first : (a b m : ℕ) → a * b % m ≡ a % m * b % m
mul-mod_first a b m =
    let e : a * b ≡ a % m * b + m * (a / m * b) =
      omega (arith, ap (λ (t : ℕ). t * b) (div-add-mod a m)) in
    ap (λ t. t % m) e ∙ add-mul-mod_self_left (a % m * b) m (a / m * b)

pub mul-mod_both : (a b m : ℕ) → a * b % m ≡ (a % m) * (b % m) % m
mul-mod_both a b m =
    mul-mod_first a b m
    ∙ ap (λ t. t % m) (mul_comm (a % m) b)
    ∙ mul-mod_first b (a % m) m
    ∙ ap (λ t. t % m) (mul_comm (b % m) (a % m))

pub mul-mod_last : (a b m : ℕ) → a * b % m ≡ a * (b % m) % m
mul-mod_last a b m =
    ap (λ t. t % m) (mul_comm a b) ∙ mul-mod_first b a m ∙ ap (λ t. t % m) (mul_comm (b % m) a)

-- `a` and `b` leave the same remainder by `m`.
abbrev pub Congruent : ℕ → ℕ → ℕ → Type 0
Congruent m a b = a % m ≡ b % m

pub Congruent-add :
    (m a b c d : ℕ) → Congruent m a b → Congruent m c d → Congruent m (a + c) (b + d)
Congruent-add m a b c d p q = rw (add-mod a c m, add-mod b d m, p, q)

pub Congruent-mul :
    (m a b c d : ℕ) → Congruent m a b → Congruent m c d → Congruent m (a * c) (b * d)
Congruent-mul m a b c d p q = rw (mul-mod_both a c m, mul-mod_both b d m, p, q)

pub Congruent-pow : (m a b n : ℕ) → Congruent m a b → Congruent m (a ^ n) (b ^ n)
Congruent-pow m a b zero p = rw (pow-zero a, pow-zero b)
Congruent-pow m a b (suc n) p =
    rw (pow-suc a n, pow-suc b n) (Congruent-mul m (a ^ n) (b ^ n) a b (Congruent-pow m a b n p) p)

pub mul-pow : (a b n : ℕ) → (a * b) ^ n ≡ a ^ n * b ^ n
mul-pow a b zero = rw (pow-zero (a * b), pow-zero a, pow-zero b) (omega arith)
mul-pow a b (suc n) = rw (pow-suc (a * b) n, pow-suc a n, pow-suc b n, mul-pow a b n) (omega arith)

pub pow-add : (a i j : ℕ) → a ^ (i + j) ≡ a ^ i * a ^ j
pow-add a zero j = rw (pow-zero a, zero-add j) (omega arith)
pow-add a (suc i) j = rw (suc-add i j, pow-suc a (i + j), pow-suc a i, pow-add a i j) (omega arith)

pub one-pow : (n : ℕ) → 1 ^ n ≡ 1
one-pow zero = pow-zero 1
one-pow (suc n) = rw (pow-suc 1 n, one-pow n) (omega arith)

pub pow-pow : (a m n : ℕ) → (a ^ m) ^ n ≡ a ^ (m * n)
pow-pow a m zero = rw (mul-zero m, pow-zero (a ^ m), pow-zero a)
pow-pow a m (suc n) = rw (pow-suc (a ^ m) n, pow-pow a m n, mul-suc m n) (sym (pow-add a (m * n) m))
