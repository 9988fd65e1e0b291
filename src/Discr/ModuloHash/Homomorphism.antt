-- ===== src/Discr/ModuloHash/Homomorphism.antt =====
-- The hash of a sum, a difference or a product is that of the hashes.
use native.Mathlib.Nat.{mod-lt, add-mod}
use salgo.Base.{
  ℕ, ◌+◌, ◌*◌, ◌%◌, ◌^◌, ◌<◌, ◌≤◌, ◌≡◌, ◌↔◌, refl, ap₂, sym, ◌∙◌, true, List, [], ◌∷◌, ◌==◌,
  Bool-cases, inl, inr, arith,
}
use salgo.Base.Congruence.{Congruent, mul-mod_both}
use salgo.Discr.Modulo
use salgo.Discr.Modulo.Arithmetic.{add-mod_lem, mul-mod_lem}
use salgo.Discr.Modulo.Range.{fix_range-mod}
use salgo.Discr.ModuloHash.{of_number, add, mul, equal}

-- Moduli at which 32 bits are enough for a sum of two residues.
abbrev pub AreModuli : List ℕ → Type 0
AreModuli [] = Unit
AreModuli (m ∷ ms) = (0 < m) × (m ≤ 2 ^ 31) × AreModuli ms

residue : (m t : ℕ) → 0 < m → t < 2 ^ 32 → Modulo.fix_range m t ≡ t % m
residue = fix_range-mod

add_one : (m t u : ℕ) → 0 < m → m ≤ 2 ^ 31 → Modulo.add m (t % m) (u % m) ≡ (t + u) % m
add_one m t u h k =
    (add-mod_lem m (t % m) (u % m) k (mod-lt t h) (mod-lt u h)).0 ∙ sym (add-mod t u m)

mul_one : (m t u : ℕ) → 0 < m → m ≤ 2 ^ 31 → Modulo.mul m (t % m) (u % m) ≡ t * u % m
mul_one m t u h k =
    (mul-mod_lem m (t % m) (u % m) (omega arith) (mod-lt t h) (mod-lt u h)).0
    ∙ sym (mul-mod_both t u m)

-- Where neither the sum nor the product wraps at 32 bits, the hash of the sum is the sum of the
-- hashes, and the hash of the product their product.
pub of_number-add :
    (ms : List ℕ) (t u : ℕ)
    → AreModuli ms
    → t < 2 ^ 32
    → u < 2 ^ 32
    → (t + u < 2 ^ 32 → add ms (of_number ms t) (of_number ms u) ≡ of_number ms (t + u))
      × (t * u < 2 ^ 32 → mul ms (of_number ms t) (of_number ms u) ≡ of_number ms (t * u))
unfolding add mul of_number
of_number-add [] t u a ht hu = (λ _. refl, λ _. refl)
of_number-add (m ∷ ms) t u a ht hu =
    let rest = of_number-add ms t u a.2 ht hu in
    (
      λ fits.
          ap₂ ◌∷◌
            (ap₂ (Modulo.add m) (residue m t a.0 ht) (residue m u a.0 hu)
              ∙ add_one m t u a.0 a.1
              ∙ sym (residue m (t + u) a.0 fits))
            (rest.0 fits),
      λ fits.
          ap₂ ◌∷◌
            (ap₂ (Modulo.mul m) (residue m t a.0 ht) (residue m u a.0 hu)
              ∙ mul_one m t u a.0 a.1
              ∙ sym (residue m (t * u) a.0 fits))
            (rest.1 fits),
    )

-- The numbers agree modulo every modulus.
abbrev pub Agree : List ℕ → ℕ → ℕ → Type 0
Agree [] t u = Unit
Agree (m ∷ ms) t u = Congruent m t u × Agree ms t u

-- Two 32-bit numbers have equal hashes if and only if they agree modulo every modulus.
pub equal_iff :
    (ms : List ℕ) (t u : ℕ)
    → AreModuli ms
    → t < 2 ^ 32
    → u < 2 ^ 32
    → (equal (of_number ms t) (of_number ms u) ≡ true) ↔ Agree ms t u
unfolding equal of_number
equal_iff [] t u a ht hu = (λ _. tt, λ _. refl)
equal_iff (m ∷ ms) t u a ht hu =
    let rest = equal_iff ms t u a.2 ht hu in
    rw (residue m t a.0 ht, residue m u a.0 hu)
      (elim (Bool-cases (t % m == u % m)) [
        | inl e ↦ rw e (λ f. (ground arith, rest.0 f), λ f. rest.1 f.1)
        | inr e ↦ rw e (λ f. cc, λ f. ground arith)
      ])
