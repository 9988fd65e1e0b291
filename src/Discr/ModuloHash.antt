-- ===== src/Discr/ModuloHash.antt =====
-- include/salgo/_/discr/modulo-hash.inl: hashes that are residues modulo several primes. A
-- `Modulo_Hash<N>` is the list of its `N` residues, that of `N` first; `ms` is the list of moduli.
pub mod Homomorphism
use salgo.Base.{
  ℕ, zero, suc, ◌-◌, ◌^◌, Bool, true, false, ◌&&◌, Option, none, some, List, [], ◌∷◌, map, ◌==◌,
  if◌then◌else◌, ◌>>=◌,
}
use salgo.Discr.Modulo
use salgo.Discr.Modulo.{fix_range}
use salgo.Discr.Primes.{is_prime}

-- `prev_big_prime`; `none` means that the fuel ran out.
unfoldable pub prev_big_prime : ℕ → ℕ → Option ℕ
prev_big_prime zero x = none
prev_big_prime (suc fuel) x =
    let y = x - 1 in let rest = prev_big_prime fuel y in if is_prime y then some y else rest

-- The moduli of `Modulo_Hash<n>`, its own first; that of `Modulo_Hash<0>` is not used as one.
unfoldable pub next_modulus : List ℕ → Option ℕ
next_modulus [] = prev_big_prime 1000 (2 ^ 31 - 1)
next_modulus (m ∷ ms) = prev_big_prime 1000 m

unfoldable pub moduli : ℕ → Option (List ℕ)
moduli zero = some []
moduli (suc n) = moduli n >>= λ ms. next_modulus ms >>= λ m. some (m ∷ ms)

-- The constructor from a number of 32 bits.
unfoldable pub of_number : List ℕ → ℕ → List ℕ
of_number [] t = []
of_number (m ∷ ms) t = fix_range m t ∷ of_number ms t

-- An operation on every component: the base class first, then the own residue.
unfoldable pub pointwise : (ℕ → ℕ → ℕ → ℕ) → List ℕ → List ℕ → List ℕ → List ℕ
pointwise op [] xs ys = []
pointwise op (m ∷ ms) [] ys = []
pointwise op (m ∷ ms) (x ∷ xs) [] = []
pointwise op (m ∷ ms) (x ∷ xs) (y ∷ ys) = op m x y ∷ pointwise op ms xs ys

-- `operator+`, `operator-` and `operator*`, and their assignments
unfoldable pub add : List ℕ → List ℕ → List ℕ → List ℕ
unfolding pointwise
add = pointwise Modulo.add

unfoldable pub sub : List ℕ → List ℕ → List ℕ → List ℕ
unfolding pointwise
sub = pointwise Modulo.sub

unfoldable pub mul : List ℕ → List ℕ → List ℕ → List ℕ
unfolding pointwise
mul = pointwise Modulo.mul

-- `operator==`
unfoldable pub equal : List ℕ → List ℕ → Bool
equal [] ys = true
equal (x ∷ xs) [] = true
equal (x ∷ xs) (y ∷ ys) = x == y && equal xs ys
