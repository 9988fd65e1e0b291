-- ===== src/Discr/Modulo/Division.antt =====
-- Division, by a power of the divisor.
use native.Mathlib.Nat.{mod-eq_of_lt, mod-lt, mul_comm, pow-suc}
use salgo.Base.{ℕ, zero, suc, ◌-◌, ◌*◌, ◌%◌, ◌^◌, ◌<◌, ◌≡◌, ap, sym, ◌∙◌, arith}
use salgo.Base.Congruence.{mul-mod_first}
use salgo.Discr.Modulo.{mul, div, fix_range, sub32}
use salgo.Discr.Modulo.Arithmetic.{mul-mod_lem}
use salgo.Discr.Modulo.Range.{fix_range-mod}
use salgo.Discr.Primes.Power.{mul_mod_assoc, repeat-pow}
use salgo.IntPow.{int_pow}
use salgo.IntPow.Repeat.{int_pow-repeat}

module _ (m : ℕ) (one : 1 < m) (fits : m < 2 ^ 32) where
  pub product : (h o : ℕ) → h < m → o < m → mul m h o ≡ h * o % m
  product h o hh ho = (mul-mod_lem m h o fits hh ho).0

  product-lt : (h o : ℕ) → h < m → o < m → mul m h o < m
  product-lt h o hh ho = rw (product h o hh ho) (mod-lt (h * o) (omega arith))

  product_assoc : (a b c : ℕ) → a < m → b < m → c < m → mul m (mul m a b) c ≡ mul m a (mul m b c)
  product_assoc a b c ha hb hc =
      product (mul m a b) c (product-lt a b ha hb) hc
      ∙ ap (λ t. t * c % m) (product a b ha hb)
      ∙ mul_mod_assoc m a b c
      ∙ sym (
          product a (mul m b c) ha (product-lt b c hb hc) ∙ ap (λ t. a * t % m) (product b c hb hc))

  -- The power of a residue, for every exponent.
  pub power-mod : (o e : ℕ) → o < m → int_pow (mul m) o e (fix_range m 1) ≡ o ^ e % m
  power-mod o e ho =
      let unit : fix_range m 1 ≡ 1 =
        fix_range-mod m 1 (omega arith) (omega arith) ∙ mod-eq_of_lt one in
      rw unit (
        int_pow-repeat (mul m) (λ x. x < m) product-lt product_assoc o e 1 ho one
        ∙ repeat-pow m (mul m) o (λ x hx. product x o hx ho) e 1 one (omega arith)
        ∙ ap (λ t. t % m) (omega arith))

  inverse : (t o : ℕ) → 0 < t → o ^ t % m ≡ 1 → o ^ (t - 1) % m * o % m ≡ 1
  inverse zero o h e = absurd (omega arith)
  inverse (suc t) o h e =
      let same : suc t - 1 ≡ t = omega arith in
      rw same (sym (mul-mod_first (o ^ t) o m) ∙ ap (λ s. s % m) (sym (pow-suc o t)) ∙ e)

  -- If the totient `t` is such that `o ^ t` is 1 modulo `m`, as it is for a divisor prime to the
  -- modulus, then `/=` divides: its result is a residue, and times `o` it is the dividend.
  pub div-mul :
      (t h o : ℕ)
      → 0 < t
      → t < 2 ^ 32
      → h < m
      → o < m
      → o ^ t % m ≡ 1
      → (div m t h o < m) × (mul m (div m t h o) o ≡ h)
  unfolding div
  div-mul t h o ht fit hh ho euler =
      let e : sub32 t 1 ≡ t - 1 = ground arith in
      let x = o ^ (t - 1) % m in
      let hx : x < m = mod-lt (o ^ (t - 1)) (omega arith) in
      rw (e, power-mod o (t - 1) ho)
        (
          product-lt h x hh hx,
          product_assoc h x o hh hx ho
              ∙ ap (mul m h) (product x o hx ho ∙ inverse t o ht euler)
              ∙ product h 1 hh one
              ∙ ap (λ s. s % m) (omega arith)
              ∙ mod-eq_of_lt hh,
        )

  -- `/=` of the residue of a product by one of the factors, of which `o ^ t` is 1, is the other factor.
  pub div-mod :
      (t h o : ℕ) → 0 < t → t < 2 ^ 32 → h < m → o < m → o ^ t % m ≡ 1 → div m t (h * o % m) o ≡ h
  unfolding div
  div-mod t h o ht fit hh ho euler =
      let e : sub32 t 1 ≡ t - 1 = ground arith in
      let x = o ^ (t - 1) % m in
      let hx : x < m = mod-lt (o ^ (t - 1)) (omega arith) in
      rw (e, power-mod o (t - 1) ho)
        (ap (λ s. mul m s x) (sym (product h o hh ho))
          ∙ product_assoc h o x hh ho hx
          ∙ ap (mul m h) (product o x ho hx ∙ ap (λ s. s % m) (mul_comm o x) ∙ inverse t o ht euler)
          ∙ product h 1 hh one
          ∙ ap (λ s. s % m) (omega arith)
          ∙ mod-eq_of_lt hh)
