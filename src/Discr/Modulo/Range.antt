-- ===== src/Discr/Modulo/Range.antt =====
-- `_fix_range` returns the residue.
use native.Mathlib.Nat.{mod-eq_of_lt, mod-eq-sub-mod, mod-lt, mod-mod, mod_self, zero-mod, zero-add}
use salgo.Base.{
  ℕ, suc, ◌+◌, ◌-◌, ◌%◌, ◌^◌, ◌<◌, ◌≤◌, ◌≡◌, refl, ap, sym, ◌∙◌, leb, ◌==◌, Bool-cases, inl, inr,
  if◌then◌else◌, arith,
}
use salgo.Base.Int.{ℤ, pos, negsuc, pos_part, neg_part, ◌+ℤ◌, ◌-ℤ◌}
use salgo.Discr.Modulo.{fix_range, fix_range_signed}
use salgo.Discr.ModuloUtils.{rem}
use salgo.Discr.ModuloUtils.Signed.{complement_mod}

-- For a 32-bit argument and a positive modulus the result is the remainder.
pub fix_range-mod : (m x : ℕ) → 0 < m → x < 2 ^ 32 → fix_range m x ≡ x % m
unfolding fix_range
fix_range-mod m x h fits = ground (
  arith,
  mod-eq_of_lt {n = x} {m = m},
  mod-eq-sub-mod {n = x} {m = m},
  mod-eq_of_lt {n = x - m} {m = m},
)

back_to_zero : (m a : ℕ) → a ≤ m → (m - a + a) % m ≡ 0
back_to_zero m a h = let e : m - a + a ≡ m = omega arith in ap (λ t. t % m) e ∙ mod_self m

positive :
    (m n : ℕ)
    → 0 < m
    → (fix_range_signed m (pos n) < m) × ((fix_range_signed m (pos n) + 0) % m ≡ n % m)
unfolding fix_range_signed ◌+ℤ◌ ◌-ℤ◌ rem
positive m n h = ground (arith, mod-lt (n - m) h, mod-eq-sub-mod {n = n} {m = m}, mod-mod (n - m) m)

-- An argument from `- m` up to -1.
near : (m n : ℕ) → suc n ≤ m → fix_range_signed m (negsuc n) ≡ m - suc n
unfolding fix_range_signed ◌+ℤ◌ ◌-ℤ◌ rem
near m n h = ground arith

below : (m n : ℕ) → m < suc n → negsuc n +ℤ pos m ≡ negsuc (n - m)
unfolding ◌+ℤ◌
below m n h = ground arith

rem_parts :
    (m j : ℕ) → (pos_part (rem (negsuc j) m) ≡ 0) × (neg_part (rem (negsuc j) m) ≡ suc j % m)
unfolding rem
rem_parts m j = ground arith

-- An argument below `- m`.
far :
    (m n s : ℕ)
    → 0 < m
    → m < suc n
    → m < 2 ^ 31
    → (suc n - m) % m ≡ s
    → fix_range_signed m (negsuc n) ≡ (if s == 0 then 0 else m - s)
unfolding fix_range_signed
far m n s h lt k e =
    let shift = below m n lt in
    let (p, q) = rem_parts m (n - m) in
    let w : suc (n - m) ≡ suc n - m = omega arith in
    let bound = mod-lt (suc n - m) h in rw (shift, p, q, w, e) (ground arith)

last :
    (m a s : ℕ)
    → 0 < m
    → s < m
    → a % m ≡ s
    → (m - s + a) % m ≡ 0 % m
    → ((if s == 0 then 0 else m - s) < m) × (((if s == 0 then 0 else m - s) + a) % m ≡ 0 % m)
last m a s h b e w = elim (Bool-cases (s == 0)) [
  | inl t ↦
      let z : s ≡ 0 = ground arith in
      rw t (h, ap (λ x. x % m) (zero-add a) ∙ e ∙ z ∙ sym (zero-mod m))
  | inr t ↦ rw t (ground arith, w)
]

-- For a 32-bit signed argument and a positive modulus below 2 ^ 31 the result is the residue: it
-- is below the modulus and differs from the argument by a multiple of the modulus.
pub fix_range_signed-residue :
    (m : ℕ) (x : ℤ)
    → 0 < m
    → m < 2 ^ 31
    → pos_part x < 2 ^ 31
    → neg_part x ≤ 2 ^ 31
    → (fix_range_signed m x < m) × ((fix_range_signed m x + neg_part x) % m ≡ pos_part x % m)
fix_range_signed-residue m (pos n) h k hp hn = positive m n h
fix_range_signed-residue m (negsuc n) h k hp hn = elim (Bool-cases (leb (suc n) m)) [
  | inl t ↦
      let le : suc n ≤ m = ground arith in
      rw (near m n le) (omega arith, back_to_zero m (suc n) le ∙ sym (zero-mod m))
  | inr t ↦
      let lt : m < suc n = ground arith in
      let s = (suc n - m) % m in
      let same : suc n % m ≡ s = mod-eq-sub-mod (omega arith) in
      let bound = mod-lt (suc n - m) h in
      let whole = complement_mod (suc n) m h in
      rw (far m n s h lt k refl) (last m (suc n) s h bound same (rw same at whole))
]
