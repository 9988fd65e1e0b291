-- ===== src/Discr/Modulo/Arithmetic.antt =====
-- The operations against arithmetic modulo `m`, and where 32 bits are too few.
use native.Mathlib.Nat.{mod-eq_of_lt, mod-eq-sub-mod}
use salgo.Base.{ℕ, ◌+◌, ◌-◌, ◌*◌, ◌%◌, ◌^◌, ◌<◌, ◌≤◌, ◌≡◌, ◌≢◌, ap, ◌∙◌, arith}
use salgo.Discr.ModuloUtils.Portable.{mul-lt}
use salgo.Discr.Modulo.{add, sub, mul, dec, inc}

once_mod : (n s : ℕ) → n ≤ s → s < n + n → s % n ≡ s - n
once_mod n s h k = mod-eq-sub-mod h ∙ mod-eq_of_lt (omega arith)

-- For residues modulo at most 2 ^ 31 the operators `+=` and `-=` are addition and subtraction
-- modulo `m`.
pub add-mod_lem :
    (m h o : ℕ)
    → m ≤ 2 ^ 31
    → h < m
    → o < m
    → (add m h o ≡ (h + o) % m) × (sub m h o ≡ (h + (m - o)) % m)
unfolding add sub
add-mod_lem m h o fits hh ho = (
  ground (arith, once_mod m (h + o), mod-eq_of_lt {n = h + o} {m = m}),
  ground (arith, once_mod m (h + (m - o)), mod-eq_of_lt {n = h + (m - o)} {m = m}),
)

-- Modulo a number above 2 ^ 31 the sum of the largest residue with itself is wrong.
pub add_wraps : (m : ℕ) → 2 ^ 31 < m → m < 2 ^ 32 → add m (m - 1) (m - 1) ≢ (m - 1 + (m - 1)) % m
unfolding add
add_wraps m lo hi e = ground (arith, once_mod m (m - 1 + (m - 1)))

-- For residues modulo any 32-bit number `*=` is the product, `++` and `--` add and subtract 1.
pub mul-mod_lem :
    (m h o : ℕ)
    → m < 2 ^ 32
    → h < m
    → o < m
    → (mul m h o ≡ h * o % m) × (inc m h ≡ (h + 1) % m) × (dec m h ≡ (h + (m - 1)) % m)
unfolding mul inc dec
mul-mod_lem m h o fits hh ho = (
  ap (λ t. t % m)
      (mod-eq_of_lt {n = h * o} {m = 2 ^ 64}
        (mul-lt h o (2 ^ 32) (2 ^ 32) (omega arith) (omega arith))),
  ground (arith, once_mod m (h + 1), mod-eq_of_lt {n = h + 1} {m = m}),
  ground (arith, once_mod m (h + (m - 1)), mod-eq_of_lt {n = h + (m - 1)} {m = m}),
)
