-- ===== src/Discr/Binomial/Residues.antt =====
-- The walk with `VAL` a `Modulo` of a static prime.
use salgo.Base.{ℕ, ◌%◌, ◌^◌, ◌<◌, ◌≤◌, ◌≡◌}
use salgo.Discr.Binomial.{Value}
use salgo.Discr.Modulo.{mul, div}

-- `Modulo` with the modulus `m` and the totient `t`: the conversion of a number, which leaves its
-- residue, and `*=` and `/=` by a converted number.
unfoldable pub modulo_value : (m t : ℕ) → Value ℕ
modulo_value m t = record {
  of = λ n. n % m;
  times = λ h o. mul m h (o % m);
  over = λ h o. div m t h (o % m);
}

module _ (m t top : ℕ) (one : 1 < m) (fits : m < 2 ^ 32) (positive : 0 < t) (narrow : t < 2 ^ 32)
    (below : top < m) (euler : (o : ℕ) → 0 < o → o ≤ top → o ^ t % m ≡ 1) where
  abbrev AnyFits : ℕ → Type 0
  AnyFits n = Unit {0}
