-- ===== src/Discr/ModuloUtils/Signed.antt =====
-- What `mod` of a signed number returns.
use salgo.Base.{ℕ, suc, ◌+◌, ◌-◌, ◌*◌, ◌/◌, ◌%◌, ◌<◌, ◌≡◌, ap, ◌∙◌, arith}
use salgo.Base.Int.{ℤ, pos, negsuc, pos_part, neg_part}
use salgo.Discr.ModuloUtils.{mod_signed}
use native.Mathlib.Nat.{div-add-mod, mod-lt, add-mul-mod_self_left, mod-mod}

pub complement_mod : (x b : ℕ) → 0 < b → (b - x % b + x) % b ≡ 0 % b
complement_mod x b h =
    let e : b - x % b + x ≡ 0 + b * (1 + x / b) = omega (arith, div-add-mod x b, mod-lt x h) in
    ap (λ t. t % b) e ∙ add-mul-mod_self_left 0 b (1 + x / b)

-- For a positive modulus the result is the residue: it is not negative, it is below the modulus
-- and it differs from the argument by a multiple of the modulus.
pub mod_signed-residue :
    (a : ℤ) (b : ℕ)
    → 0 < b
    → (neg_part (mod_signed a b) ≡ 0)
      × (pos_part (mod_signed a b) < b)
      × ((pos_part (mod_signed a b) + neg_part a) % b ≡ pos_part a % b)
unfolding mod_signed
mod_signed-residue (pos n) b h = ground (arith, mod-lt n h, mod-mod n b)
mod_signed-residue (negsuc n) b h = ground (arith, complement_mod (suc n) b, mod-lt (suc n) h)
