-- ===== src/Discr/Primes.antt =====
-- include/salgo/_/discr/primes.hpp and totient.hpp: the Miller-Rabin test over given bases. A
-- number is of `w` bits, 32 or 64; products are taken modulo `p` in 64 bits.
pub mod Power
pub mod Strong
use Prim.Native.Nat.{bit_and}
use salgo.Base.{
  ℕ, zero, suc, ◌+◌, ◌-◌, ◌*◌, ◌/◌, ◌%◌, ◌^◌, Bool, true, false, ◌||◌, List, [], ◌∷◌, ltb, leb,
  ◌==◌, if◌then◌else◌,
}
use salgo.Base.Int.{ℤ, pos, negsuc}
use salgo.Discr.ModuloUtils.{mult_and_mod}
use salgo.IntPow.{int_pow}

-- `_mr_pow`: the loop of `int_pow`, inlined, with the product modulo `p`
unfoldable pub mr_pow : ℕ → ℕ → ℕ → ℕ
mr_pow test_prime d p = int_pow (λ x y. mult_and_mod x y p) test_prime d 1

-- The loop of `_mr_check`, with the rounds left: whether it met `p - 1` before 1.
unfoldable pub mr_loop : ℕ → ℕ → ℕ → Bool
mr_loop zero x p = false
mr_loop (suc rounds) x p =
    let y = mult_and_mod x x p in
    let rest = mr_loop rounds y p in if y == 1 then false else if y == p - 1 then true else rest

unfoldable pub mr_check : ℕ → ℕ → ℕ → Bool
mr_check x r p = mr_loop (r - 1) x p

-- `__builtin_ctz`, which reads the low 32 bits of its argument; 32 where they are all 0, which
-- the built-in leaves undefined.
unfoldable pub count_zeros : ℕ → ℕ → ℕ
count_zeros zero n = 0
count_zeros (suc bits) n = let rest = count_zeros bits (n / 2) in if n % 2 == 1 then 0 else suc rest

unfoldable pub builtin_ctz : ℕ → ℕ
builtin_ctz n = count_zeros 32 (n % 2 ^ 32)

-- One base of the loop of `miller_rabin`.
unfoldable pub passes : ℕ → ℕ → ℕ → ℕ → Bool
passes p d r base =
    let x = mr_pow base d p in leb p base || (x == 1 || (x == p - 1 || mr_check x r p))

unfoldable pub all_pass : ℕ → ℕ → ℕ → List ℕ → Bool
all_pass p d r [] = true
all_pass p d r (base ∷ bases) = if passes p d r base then all_pass p d r bases else false

unfoldable pub miller_rabin : ℕ → List ℕ → Bool
miller_rabin p test_primes =
    if p % 2 == 0
    then false
    else if ltb p 2
    then false
    else (let r = builtin_ctz (p - 1) in all_pass p ((p - 1) / 2 ^ r) r test_primes)

abbrev pub bases_32 : List ℕ
bases_32 = 2 ∷ 7 ∷ 61 ∷ []

abbrev pub bases_64 : List ℕ
bases_64 = 2 ∷ 3 ∷ 5 ∷ 7 ∷ 11 ∷ 13 ∷ 17 ∷ 19 ∷ 23 ∷ 29 ∷ 31 ∷ 37 ∷ []

-- `is_prime` of an `unsigned int`
unfoldable pub is_prime : ℕ → Bool
is_prime p = miller_rabin p bases_32

-- `is_prime` of an `int`
unfoldable pub is_prime_int : ℤ → Bool
is_prime_int (pos p) = is_prime p
is_prime_int (negsuc p) = false

-- `is_prime` of an `unsigned long long` and of a `long long`
unfoldable pub is_prime_long : ℕ → Bool
is_prime_long p = miller_rabin p bases_64

unfoldable pub is_prime_signed_long : ℤ → Bool
is_prime_signed_long (pos p) = is_prime_long p
is_prime_signed_long (negsuc p) = false

-- `totient` of an `unsigned int`
unfoldable pub totient : ℕ → ℕ
totient t = if is_prime t then t - 1 else 0
