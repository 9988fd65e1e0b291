-- ===== src/Discr/ModuloUtils/Portable.antt =====
-- The product modulo a number: the routine without a 128-bit type against the one with it.
use native.Mathlib.Nat.{
  mod-eq_of_lt, mod-eq-sub-mod, mod-lt, mod-mod, mul-zero, pow-zero, pow-suc, zero-add, mul_comm,
}
use salgo.Base.{
  ℕ, zero, suc, ◌+◌, ◌-◌, ◌*◌, ◌/◌, ◌%◌, ◌^◌, ◌<◌, ◌≤◌, ◌≡◌, refl, ap, sym, ◌∙◌, bit_or, true,
  false, Option, some, inl, inr, ltb, leb, ◌==◌, Bool-cases, if◌then◌else◌, arith,
}
use salgo.Base.Bits.{le-bit_or_left, le-bit_or_right}
use salgo.Base.Congruence.{Congruent, Congruent-add, Congruent-mul, mul-mod_both}
use salgo.Discr.ModuloUtils.{
  add_small, add_large, product_loop, mult_and_mod, mult_and_mod_portable,
}

once_mod : (n s : ℕ) → n ≤ s → s < n + n → s % n ≡ s - n
once_mod n s h k = mod-eq-sub-mod h ∙ mod-eq_of_lt (omega arith)

add_small-mod : (n r a : ℕ) → n ≤ 2 ^ 63 → r < n → a < n → add_small n r a ≡ (r + a) % n
unfolding add_small
add_small-mod n r a h hr ha = ground (arith, once_mod n (r + a), mod-eq_of_lt {n = r + a} {m = n})

add_large-mod : (n r a : ℕ) → n < 2 ^ 64 → r < n → a < n → add_large n r a ≡ (r + a) % n
unfolding add_large
add_large-mod n r a h hr ha = ground (arith, once_mod n (r + a), mod-eq_of_lt {n = r + a} {m = n})

module _ (add : ℕ → ℕ → ℕ) (n : ℕ) (pos : 0 < n)
    (adds : (r a : ℕ) → r < n → a < n → add r a ≡ (r + a) % n) where
  -- One round keeps `r + a * b` modulo `n`.
  round :
      (a b r r' a' : ℕ)
      → Congruent n r' (r + b % 2 * a)
      → Congruent n (a' * (b / 2)) ((a + a) * (b / 2))
      → Congruent n (r' + a' * (b / 2)) (r + a * b)
  round a b r r' a' p q =
      let e : r + b % 2 * a + (a + a) * (b / 2) ≡ r + a * b =
        omega (arith, ap (λ (t : ℕ). a * t) (div_two b)) in
      Congruent-add n r' (r + b % 2 * a) (a' * (b / 2)) ((a + a) * (b / 2)) p q ∙ ap (λ t. t % n) e
    where
      div_two : (x : ℕ) → x / 2 + x / 2 + x % 2 ≡ x
      div_two x = omega arith

  next_r : ℕ → ℕ → ℕ → ℕ
  next_r a b r = if b % 2 == 1 then add r a else r

  next_a : ℕ → ℕ → ℕ
  next_a a b = if b / 2 == 0 then a else add a a

  next_r-lt : (a b r : ℕ) → a < n → r < n → next_r a b r < n
  unfolding next_r
  next_r-lt a b r ha hr = ground (arith, adds r a, mod-lt (r + a) pos)

  next_r-Congruent : (a b r : ℕ) → a < n → r < n → Congruent n (next_r a b r) (r + b % 2 * a)
  unfolding next_r
  next_r-Congruent a b r ha hr = elim (Bool-cases (b % 2 == 1)) [
    | inl e ↦
        let one : r + b % 2 * a ≡ r + a = ground (arith, ap (λ (t : ℕ). t * a) (odd e)) in
        rw (e, one, adds r a hr ha) (mod-mod (r + a) n)
    | inr e ↦
        let none : r + b % 2 * a ≡ r = ground (arith, ap (λ (t : ℕ). t * a) (even e)) in
        rw (e, none)
  ]
    where
      odd : (b % 2 == 1) ≡ true → b % 2 ≡ 1
      odd e = ground arith

      even : (b % 2 == 1) ≡ false → b % 2 ≡ 0
      even e = ground arith

  next_a-lt : (a b : ℕ) → a < n → next_a a b < n
  unfolding next_a
  next_a-lt a b ha = ground (arith, adds a a, mod-lt (a + a) pos)

  next_a-Congruent : (a b : ℕ) → a < n → Congruent n (next_a a b * (b / 2)) ((a + a) * (b / 2))
  unfolding next_a
  next_a-Congruent a b ha = elim (Bool-cases (b / 2 == 0)) [
    | inl e ↦ let z : b / 2 ≡ 0 = ground arith in rw (z, mul-zero, mul-zero)
    | inr e ↦
        rw (e, adds a a ha ha)
          (Congruent-mul n ((a + a) % n) (a + a) (b / 2) (b / 2) (mod-mod (a + a) n) refl)
  ]

  loop-product :
      (f a b r : ℕ)
      → b < 2 ^ f
      → a < n
      → r < n
      → product_loop add (suc f) a b r ≡ some ((r + a * b) % n)
  unfolding product_loop next_a next_r
  loop-product zero a b r hb ha hr =
      let z : b ≡ 0 = omega (arith, pow-zero 2) in
      rw (z, mul-zero, mod-eq_of_lt {n = r + 0} {m = n} (omega arith)) (ground arith)
  loop-product (suc f) a b r hb ha hr = elim (Bool-cases (b == 0)) [
    | inl e ↦
        let z : b ≡ 0 = ground arith in
        rw (z, mul-zero, mod-eq_of_lt {n = r + 0} {m = n} (omega arith)) (ground arith)
    | inr e ↦ rw e (
        loop-product f (next_a a b) (b / 2) (next_r a b r) (omega (arith, pow-suc 2 f))
          (next_a-lt a b ha) (next_r-lt a b r ha hr)
        ∙ ap some (
            round a b r (next_r a b r) (next_a a b) (next_r-Congruent a b r ha hr)
              (next_a-Congruent a b ha)))
  ]

  -- The loop ends within 65 rounds at every 64-bit multiplier.
  loop-product_zero : (a b : ℕ) → b < 2 ^ 64 → a < n → product_loop add 65 a b 0 ≡ some (a * b % n)
  loop-product_zero a b hb ha =
      loop-product 64 a b 0 hb ha pos ∙ ap (λ t. some (t % n)) (zero-add (a * b))

reduce-mod : (n a : ℕ) → (if leb n a then a % n else a) ≡ a % n
reduce-mod n a = ground (arith, mod-eq_of_lt {n = a} {m = n})

pub mul-lt : (a b c d : ℕ) → a < c → b < d → a * b < c * d
mul-lt a b c d p q = grind arith

pub wide-mod :
    (a b n : ℕ) → a < 2 ^ 64 → b < 2 ^ 64 → 0 < n → n < 2 ^ 64 → mult_and_mod a b n ≡ a * b % n
unfolding mult_and_mod
wide-mod a b n ha hb hn h = rw (
  mod-eq_of_lt {n = a * b} {m = 2 ^ 128} (mul-lt a b (2 ^ 64) (2 ^ 64) ha hb),
  mod-eq_of_lt {n = a * b % n} {m = 2 ^ 64} (omega (arith, mod-lt (a * b) hn)),
)

module _ (n : ℕ) (pos : 0 < n) (fits : n < 2 ^ 64) (a b : ℕ) (ha : a < n) (hb : b < n) where
  -- What follows the two reductions.
  reduced : ℕ → ℕ → Option ℕ
  reduced x y =
      if ltb (bit_or a b) (2 ^ 32)
      then some (a * b % 2 ^ 64 % n)
      else if leb n (2 ^ 63)
      then product_loop (add_small n) 65 x y 0
      else product_loop (add_large n) 65 x y 0

  reduced-product : (x y : ℕ) → x < n → y < n → x * y ≡ a * b → reduced x y ≡ some (a * b % n)
  unfolding reduced
  reduced-product x y hx hy e = elim (Bool-cases (ltb (bit_or a b) (2 ^ 32))) [
    | inl t ↦
        let small : bit_or a b < 2 ^ 32 = ground arith in
        let fit : a * b < 2 ^ 64 =
          mul-lt a b (2 ^ 32) (2 ^ 32) (omega (arith, le-bit_or_left a b))
            (omega (arith, le-bit_or_right a b)) in
        rw (t, mod-eq_of_lt {n = a * b} {m = 2 ^ 64} fit)
    | inr t ↦ rw t (elim (Bool-cases (leb n (2 ^ 63))) [
      | inl s ↦
          rw (s, ← e)
            (loop-product_zero (add_small n) n pos
              (λ r c hr hc. add_small-mod n r c (ground arith) hr hc) x y (omega arith) hx)
      | inr s ↦
          rw (s, ← e)
            (loop-product_zero (add_large n) n pos (λ r c hr hc. add_large-mod n r c fits hr hc) x y
              (omega arith) hx)
    ])
  ]

portable-mod :
    (n : ℕ) (pos : 0 < n)
    → n < 2 ^ 64
    → (a b : ℕ) → mult_and_mod_portable a b n ≡ some (a % n * (b % n) % n)
unfolding mult_and_mod_portable reduced
portable-mod n pos fits a b =
    let A = a % n in
    let B = b % n in
    let ha : A < n = mod-lt a pos in
    let hb : B < n = mod-lt b pos in
    let step = reduced-product n pos fits A B ha hb in
    rw (reduce-mod n a, reduce-mod n b)
      (elim (Bool-cases (ltb A B)) [
        | inl t ↦ rw t (step B A hb ha (mul_comm B A))
        | inr t ↦ rw t (step A B ha hb refl)
      ])

-- For 64-bit arguments and a modulus that is not 0 the routine without a 128-bit type ends, and
-- returns what the routine with it returns, which is the product modulo `n`.
pub mult_and_mod_portable-wide :
    (a b n : ℕ)
    → a < 2 ^ 64
    → b < 2 ^ 64
    → 0 < n
    → n < 2 ^ 64
    → (mult_and_mod_portable a b n ≡ some (mult_and_mod a b n)) × (mult_and_mod a b n ≡ a * b % n)
mult_and_mod_portable-wide a b n ha hb pos fits = (
  portable-mod n pos fits a b
      ∙ ap some (sym (mul-mod_both a b n) ∙ sym (wide-mod a b n ha hb pos fits)),
  wide-mod a b n ha hb pos fits,
)
