-- ===== src/Discr/Binomial/Walk.antt =====
-- The walk ends at the entry that was asked for.
use mathlib.Core.Path.{subst}
use salgo.Base.{
  ℕ, zero, suc, ◌+◌, ◌-◌, ◌*◌, ◌≤◌, ◌<◌, ◌≡◌, refl, ap, sym, ◌∙◌, Bool, true, false, inl, inr, ltb,
  Bool-cases, arith,
}
use salgo.Base.Int.{ℤ, pos, negsuc, pos_part}
use salgo.Discr.Binomial.{
  Value, Binomial, move_l, move_r, move_d, move_u, walk, walk_to, outside, eval,
}
use salgo.Discr.Binomial.Choose.{choose, choose-suc_right, choose-suc_left}

choose-eq-zero : (n k : ℕ) → n < k → choose n k ≡ 0
unfolding choose
choose-eq-zero n zero h = absurd (omega arith)
choose-eq-zero zero (suc k) h = refl
choose-eq-zero (suc n) (suc k) h =
    omega (arith, choose-eq-zero n k (omega arith), choose-eq-zero n (suc k) (omega arith))

-- The coefficient of two integers: 0 off the triangle.
abbrev pub choose_int : ℤ → ℤ → ℕ
choose_int (pos n) (pos k) = choose n k
choose_int (pos n) (negsuc k) = 0
choose_int (negsuc n) k = 0

-- On numbers that fit, `VAL` multiplies, and divides by what is not above `top`, where the quotient
-- is a whole number; the entries of the triangle down to the row `top`, and what they are multiplied
-- by there, fit. For `int` the numbers below 2^31 fit; for `Modulo` all do where `top` is below the
-- prime.
pub record IsExact {ℓ} (W : Type ℓ) ⦃value : Value W⦄ (Fits : ℕ → Type 0) (top : ℕ) : Type ℓ where
  pub times_of : (a b : ℕ) → Fits a → Fits (a * b) → value.times (value.of a) b ≡ value.of (a * b)
  pub over_of :
      (a b : ℕ)
      → Fits a
      → Fits (a * b)
      → 0 < b
      → b ≤ top
      → value.over (value.of (a * b)) b ≡ value.of a
  pub fits : (n k : ℕ) → k ≤ n → n ≤ top → Fits (choose n k)
  pub fits_times : (n k m : ℕ) → k ≤ n → n ≤ top → m ≤ top → Fits (choose n k * m)

module _ {ℓ} {W : Type ℓ} ⦃value : Value W⦄ (Fits : ℕ → Type 0) (top : ℕ)
    (exact : IsExact W Fits top) where
  -- The state names an entry of the triangle, not below the row `top`, and holds its value.
  pub record IsValid (s : Binomial W) : Type ℓ where
    pub inside : s.k ≤ s.n
    pub low : s.n ≤ top
    pub entry : s.val ≡ value.of (choose s.n s.k)

  quotient :
      (a b c d : ℕ) (v : W)
      → v ≡ value.of a
      → a * b ≡ c * d
      → Fits a
      → Fits (a * b)
      → Fits c
      → 0 < d
      → d ≤ top
      → value.over (value.times v b) d ≡ value.of c
  quotient a b c d v e same fa fab fc h le =
      ap (λ t. value.over (value.times t b) d) e
      ∙ ap (λ t. value.over t d) (exact.times_of a b fa fab)
      ∙ ap (λ t. value.over (value.of t) d) same
      ∙ exact.over_of c d fc (subst Fits same fab) h le

  left :
      (n k : ℕ) (v : W)
      → k ≤ n
      → 0 < k
      → n ≤ top
      → v ≡ value.of (choose n k)
      → value.over (value.times v (k - 1 + 1)) (n - (k - 1)) ≡ value.of (choose n (k - 1))
  left n zero v h p le e = absurd (omega arith)
  left n (suc k) v h p le e =
      let k' : suc k - 1 ≡ k = omega arith in
      let q : k + 1 ≡ suc k = omega arith in
      rw (k', q)
        (quotient (choose n (suc k)) (suc k) (choose n k) (n - k) v e
          (choose-suc_right n k (omega arith)) (exact.fits n (suc k) h le)
          (exact.fits_times n (suc k) (suc k) h le (omega arith)) (exact.fits n k (omega arith) le)
          (omega arith) (omega arith))

  right :
      (n k : ℕ) (v : W)
      → k < n
      → n ≤ top
      → v ≡ value.of (choose n k)
      → value.over (value.times v (n + 1 - (k + 1))) (k + 1) ≡ value.of (choose n (k + 1))
  right n k v h le e =
      let q : k + 1 ≡ suc k = omega arith in
      let d : n + 1 - suc k ≡ n - k = omega arith in
      rw (q, d)
        (quotient (choose n k) (n - k) (choose n (suc k)) (suc k) v e
          (sym (choose-suc_right n k (omega arith))) (exact.fits n k (omega arith) le)
          (exact.fits_times n k (n - k) (omega arith) le (omega arith))
          (exact.fits n (suc k) (omega arith) le) (omega arith) (omega arith))

  down :
      (n k : ℕ) (v : W)
      → k ≤ n
      → n < top
      → v ≡ value.of (choose n k)
      → value.over (value.times v (n + 1)) (n + 1 - k) ≡ value.of (choose (n + 1) k)
  down n k v h le e =
      let q : n + 1 ≡ suc n = omega arith in
      rw q (
        quotient (choose n k) (suc n) (choose (suc n) k) (suc n - k) v e
          (sym (choose-suc_left n k h)) (exact.fits n k h (omega arith))
          (exact.fits_times n k (suc n) h (omega arith) (omega arith))
          (exact.fits (suc n) k (omega arith) (omega arith)) (omega arith) (omega arith))

  up :
      (n k : ℕ) (v : W)
      → k < n
      → n ≤ top
      → v ≡ value.of (choose n k)
      → value.over (value.times v (n - 1 + 1 - k)) (n - 1 + 1) ≡ value.of (choose (n - 1) k)
  up zero k v h le e = absurd (omega arith)
  up (suc n) k v h le e =
      let n' : suc n - 1 ≡ n = omega arith in
      let q : n + 1 ≡ suc n = omega arith in
      rw (n', q)
        (quotient (choose (suc n) k) (suc n - k) (choose n k) (suc n) v e
          (choose-suc_left n k (omega arith)) (exact.fits (suc n) k (omega arith) le)
          (exact.fits_times (suc n) k (suc n - k) (omega arith) le (omega arith))
          (exact.fits n k (omega arith) (omega arith)) (omega arith) (omega arith))

  -- Each move steps to a neighbouring entry and keeps the state valid, inside the triangle.
  move_l-IsValid : (s : Binomial W) → IsValid s → 0 < s.k → IsValid (move_l s)
  unfolding move_l
  move_l-IsValid s v h =
      let below = v.inside in
      record {
        inside = omega arith;
        low = v.low;
        entry = left s.n s.k s.val v.inside h v.low v.entry;
      }

  move_r-IsValid : (s : Binomial W) → IsValid s → s.k < s.n → IsValid (move_r s)
  unfolding move_r
  move_r-IsValid s v h = record {
    inside = omega arith;
    low = v.low;
    entry = right s.n s.k s.val h v.low v.entry;
  }

  move_d-IsValid : (s : Binomial W) → IsValid s → s.n < top → IsValid (move_d s)
  unfolding move_d
  move_d-IsValid s v h =
      let below = v.inside in
      record {
        inside = omega arith;
        low = omega arith;
        entry = down s.n s.k s.val v.inside h v.entry;
      }

  move_u-IsValid : (s : Binomial W) → IsValid s → s.k < s.n → IsValid (move_u s)
  unfolding move_u
  move_u-IsValid s v h =
      let low = v.low in
      record { inside = omega arith; low = omega arith; entry = up s.n s.k s.val h v.low v.entry }

  -- A loop whose moves keep `P` and lower a measure ends by its test.
  module _ (P : Binomial W → Type ℓ) (measure : Binomial W → ℕ) (test : Binomial W → Bool)
      (move : Binomial W → Binomial W)
      (keep : (s : Binomial W)
        → P s
        → test s ≡ true
        → P (move s) × (measure (move s) < measure s)) where
    walk_inv :
        (rounds : ℕ) (s : Binomial W)
        → measure s ≤ rounds
        → P s
        → P (walk test move rounds s) × (test (walk test move rounds s) ≡ false)
    unfolding walk
    walk_inv zero s m p = elim (Bool-cases (test s)) [
      | inl e ↦ absurd (omega (arith, (keep s p e).1))
      | inr e ↦ (p, e)
    ]
    walk_inv (suc rounds) s m p = elim (Bool-cases (test s)) [
      | inl e ↦ rw e (walk_inv rounds (move s) (omega (arith, (keep s p e).1)) (keep s p e).0)
      | inr e ↦ (rw e p, rw e e)
    ]

  module _ (nn kk : ℕ) (h : kk ≤ nn) (bound : nn ≤ top) where
    record Reached (s : Binomial W) : Type ℓ where
      valid : IsValid s
      n_is : s.n ≡ nn
      k_is : s.k ≡ kk

    walk_to-Reached : (s : Binomial W) → IsValid s → Reached (walk_to nn kk s)
    unfolding walk_to
    walk_to-Reached s v =
        let a =
          walk_inv IsValid (λ s. s.k) (λ s. ltb kk s.k) move_l
            (λ s p t. (move_l-IsValid s p (ground arith), ground arith)) s.k s (omega arith) v in
        let b =
          walk_inv (λ s. IsValid s × (s.k ≤ kk)) (λ s. s.n) (λ s. ltb nn s.n) move_u
            (λ s p t. ((move_u-IsValid s p.0 (ground arith), ground arith), ground arith)) _ _
            (omega arith) (a.0, ground arith) in
        let c =
          walk_inv (λ s. IsValid s × (s.k ≤ kk) × (s.n ≤ nn)) (λ s. nn - s.n) (λ s. ltb s.n nn)
            move_d
            (λ s p t.
              ((move_d-IsValid s p.0 (ground arith), ground arith, ground arith), ground arith))
            nn _ (omega arith) (b.0.0, b.0.1, ground arith) in
        let d =
          walk_inv (λ s. IsValid s × (s.k ≤ kk) × (s.n ≡ nn)) (λ s. kk - s.k) (λ s. ltb s.k kk)
            move_r
            (λ s p t.
              ((move_r-IsValid s p.0 (ground arith), ground arith, ground arith), ground arith))
            kk _ (omega arith) (c.0.0, c.0.1, ground arith) in
        record { valid = d.0.0; n_is = d.0.2; k_is = ground arith }

  eval_inside :
      (n k : ℕ) (s : Binomial W)
      → IsValid s
      → k ≤ n
      → n ≤ top
      → IsValid (walk_to n k s) × ((walk_to n k s).val ≡ value.of (choose n k))
  eval_inside n k s v h le =
      let r = walk_to-Reached n k h le s v in (r.valid, r.valid.entry ∙ (rw (r.n_is, r.k_is)))

  -- Where `VAL` computes without loss on the rows down to `top`, from a valid state, at an integer
  -- that is at most `top` and any integer, the result is the binomial coefficient in `VAL`, 0 for a
  -- pair outside the triangle, and the state stays valid.
  pub eval-choose :
      (nn kk : ℤ) (s : Binomial W)
      → IsValid s
      → pos_part nn ≤ top
      → IsValid (eval nn kk s).0 × ((eval nn kk s).1 ≡ value.of (choose_int nn kk))
  unfolding eval
  eval-choose (negsuc n) kk s v le =
      let out : outside (negsuc n) kk ≡ true = unfold outside in ground arith in rw out (v, refl)
  eval-choose (pos n) (negsuc k) s v le =
      let out : outside (pos n) (negsuc k) ≡ true = unfold outside in ground arith in
      rw out (v, refl)
  eval-choose (pos n) (pos k) s v le = elim (Bool-cases (ltb n k)) [
    | inl t ↦
        let out : outside (pos n) (pos k) ≡ true = unfold outside in ground arith in
        rw out (v, ap value.of (sym (choose-eq-zero n k (ground arith))))
    | inr t ↦
        let within : outside (pos n) (pos k) ≡ false = unfold outside in ground arith in
        rw within (eval_inside n k s v (ground arith) le)
  ]
