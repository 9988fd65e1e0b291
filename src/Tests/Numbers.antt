-- ===== src/Tests/Numbers.antt =====
-- include/salgo/_/int-pow.hpp and include/salgo/_/discr on small numbers.
use native.Mathlib.Nat.{mul_assoc, mul-div_cancel, mul-le-mul_left, mul-le-mul_right, pow-suc}
use salgo.Base.{
  ℕ, zero, suc, ◌<◌, ◌≤◌, ◌-◌, ◌/◌, ◌+◌, ◌*◌, ◌%◌, ◌^◌, ◌≡◌, ◌≢◌, ◌↔◌, refl, true, some, List, [],
  ◌∷◌, arith,
}
use salgo.Base.Int.{pos}
use salgo.Discr.Binomial.{Value, initial, eval}
use salgo.Discr.Binomial.Choose.{choose}
use salgo.Discr.Binomial.Walk.{IsExact, IsValid, choose_int, eval-choose}
use salgo.Discr.Modulo.{add}
use salgo.Discr.Modulo.Arithmetic.{add_wraps}
use salgo.Discr.ModuloUtils.{mult_and_mod, mult_and_mod_portable}
use salgo.Discr.ModuloUtils.Portable.{mult_and_mod_portable-wide}
use salgo.Discr.Primes.{miller_rabin, bases_32}
use salgo.Discr.Primes.Strong.{AllStrong, miller_rabin-AllStrong}
use salgo.IntPow.{int_pow}
use salgo.IntPow.Repeat.{repeat, int_pow-repeat}

int_pow-repeat_example : int_pow ◌*◌ 3 13 1 ≡ repeat ◌*◌ 3 13 1
int_pow-repeat_example =
    int_pow-repeat {0, 0} ◌*◌ (λ x. Unit) (λ a b p q. tt) (λ a b c p q r. mul_assoc a b c) 3 13 1 tt
      tt

mult_and_mod_portable-wide_example :
    (mult_and_mod_portable 12345678901 98765432109 18446744073709551557
      ≡ some (mult_and_mod 12345678901 98765432109 18446744073709551557))
    × (mult_and_mod 12345678901 98765432109 18446744073709551557
        ≡ 12345678901 * 98765432109 % 18446744073709551557)
mult_and_mod_portable-wide_example =
    mult_and_mod_portable-wide 12345678901 98765432109 18446744073709551557 (omega arith)
      (omega arith) (omega arith) (omega arith)

miller_rabin-AllStrong_example :
    (d : ℕ) × (r : ℕ) × (d * 2 ^ r ≡ 65536)
    × (d % 2 ≡ 1)
    × ((miller_rabin 65537 bases_32 ≡ true) ↔ AllStrong 65537 d r bases_32)
miller_rabin-AllStrong_example =
    miller_rabin-AllStrong 65537 bases_32 refl (omega arith) (omega arith)

-- `int`: the numbers of 31 bits, to which a product that overflows is cut.
instance int_value : Value ℕ
int_value = record { of = λ n. n; times = λ a b. a * b % 2 ^ 31; over = ◌/◌ }

two-pow_pos : (n : ℕ) → 0 < 2 ^ n
two-pow_pos zero = omega arith
two-pow_pos (suc n) = omega (arith, pow-suc 2 n, two-pow_pos n)

choose-le_pow : (n d k : ℕ) → choose n k ≤ 2 ^ (n + d)
unfolding choose
choose-le_pow n d zero = omega (arith, two-pow_pos (n + d))
choose-le_pow zero d (suc k) = omega arith
choose-le_pow (suc n) d (suc k) =
    let e : suc n + d ≡ suc (n + d) = omega arith in
    rw e (omega (arith, pow-suc 2 (n + d), choose-le_pow n d k, choose-le_pow n d (suc k)))

int_rows : IsExact ℕ (λ n. n < 2 ^ 31) 20
unfolding int_value
int_rows = record {
  times_of = λ a b fa fab. omega arith;
  over_of = λ a b fa fab h le. mul-div_cancel a h;
  fits = λ n k h le. omega (arith, small n k le);
  fits_times = λ n k m h le lm.
      let first = mul-le-mul_right m (small n k le) in
      let second = mul-le-mul_left (2 ^ 20) lm in omega (arith, first, second);
}
  where
    small : (n k : ℕ) → n ≤ 20 → choose n k ≤ 2 ^ 20
    small n k le = let e : n + (20 - n) ≡ 20 = omega arith in rw e at (choose-le_pow n (20 - n) k)

initial-IsValid : IsValid {W = ℕ} (λ n. n < 2 ^ 31) 20 int_rows initial
unfolding choose int_value
initial-IsValid = record { inside = omega arith; low = omega arith; entry = refl }

eval-choose_example :
    IsValid {W = ℕ} (λ n. n < 2 ^ 31) 20 int_rows (eval (pos 20) (pos 9) initial).0
    × ((eval (pos 20) (pos 9) initial).1 ≡ int_value.of (choose_int (pos 20) (pos 9)))
eval-choose_example =
    eval-choose {W = ℕ} (λ n. n < 2 ^ 31) 20 int_rows (pos 20) (pos 9) initial initial-IsValid
      (omega arith)

abbrev two_moduli : List ℕ
two_moduli = 101 ∷ 103 ∷ []

add_wraps_example : add 4294967291 4294967290 4294967290 ≢ (4294967290 + 4294967290) % 4294967291
add_wraps_example = add_wraps 4294967291 (omega arith) (omega arith)
