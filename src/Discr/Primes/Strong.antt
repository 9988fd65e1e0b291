-- ===== src/Discr/Primes/Strong.antt =====
-- What the Miller-Rabin test decides.
use native.Mathlib.Nat.{
  mod-eq_of_lt, mod-lt, mod-mod, pow-zero, pow-suc, mul_comm, div-div-eq-div-mul,
}
use salgo.Base.{
  ℕ, zero, suc, ◌+◌, ◌-◌, ◌*◌, ◌/◌, ◌%◌, ◌^◌, ◌<◌, ◌≤◌, ◌≡◌, ◌≢◌, refl, ap, sym, ◌∙◌, ◌⊎◌, inl, inr,
  ◌↔◌, true, false, List, [], ◌∷◌, ltb, leb, ◌==◌, Bool-cases, arith,
}
use salgo.Base.Congruence.{Congruent-pow, pow-add, mul-pow, one-pow, pow-pow}
use salgo.Discr.Primes.{mr_loop, mr_check, count_zeros, builtin_ctz, passes, all_pass, miller_rabin}
use salgo.Discr.Primes.Power.{mr_pow-pow, square-mod}

-- The low bits that are 0, and the odd rest: `n` is `2 ^ r` times an odd number.
count_zeros_odd :
    (bits n : ℕ)
    → 0 < n
    → n < 2 ^ bits
    → (n / 2 ^ count_zeros bits n * 2 ^ count_zeros bits n ≡ n)
      × (n / 2 ^ count_zeros bits n % 2 ≡ 1)
unfolding count_zeros
count_zeros_odd zero n h k = absurd (omega (arith, pow-zero 2))
count_zeros_odd (suc bits) n h k = elim (Bool-cases (n % 2 == 1)) [
  | inl odd ↦ rw odd (omega (arith, pow-zero 2), ground (arith, pow-zero 2))
  | inr even ↦
      let c = count_zeros bits (n / 2) in
      let whole : n / 2 + n / 2 ≡ n = ground arith in
      let (p, q) = count_zeros_odd bits (n / 2) (omega arith) (omega (arith, pow-suc 2 bits)) in
      let step : n / 2 ^ suc c ≡ n / 2 / 2 ^ c =
        ap (λ t. n / t) (pow-suc 2 c ∙ mul_comm (2 ^ c) 2) ∙ sym (div-div-eq-div-mul n 2 (2 ^ c)) in
      rw (even, step)
        (omega (arith, p, pow-suc 2 c, ap (λ (t : ℕ). n / 2 / 2 ^ c * t) (pow-suc 2 c)), q)
]

module _ (p : ℕ) (big : 2 < p) (fits : p < 2 ^ 64) where
  square_pow : (x j : ℕ) → x ^ (2 ^ suc j) % p ≡ (x * x % p) ^ (2 ^ j) % p
  square_pow x j =
      let twice : 2 ^ suc j ≡ 2 ^ j + 2 ^ j = omega (arith, pow-suc 2 j) in
      rw (twice, pow-add x (2 ^ j) (2 ^ j), ← mul-pow x x (2 ^ j))
        (sym (Congruent-pow p (x * x % p) (x * x) (2 ^ j) (mod-mod (x * x) p)))

  -- Among the first `n` squares, from the first on, one is -1.
  abbrev Meets : ℕ → ℕ → Type 0
  Meets n x = (j : ℕ) × (0 < j) × (j ≤ n) × (x ^ (2 ^ j) % p ≡ p - 1)

  one-Meets_not : (n x : ℕ) → x * x % p ≡ 1 → ¬ Meets n x
  one-Meets_not n x e (zero, h, k, m) = absurd (omega arith)
  one-Meets_not n x e (suc j, h, k, m) =
      let one : x ^ (2 ^ suc j) % p ≡ 1 =
        square_pow x j
        ∙ ap (λ t. t ^ (2 ^ j) % p) e
        ∙ ap (λ t. t % p) (one-pow (2 ^ j))
        ∙ mod-eq_of_lt {n = 1} {m = p} (omega arith) in
      omega arith

  first_square : (x : ℕ) → x ^ (2 ^ 1) % p ≡ x * x % p
  first_square x =
      ap (λ t. t % p)
        (pow-suc x 1 ∙ ap (λ t. t * x) (pow-suc x 0 ∙ (rw (pow-zero x) (omega arith))))

  Meets-suc : (n x : ℕ) → Meets n (x * x % p) → Meets (suc n) x
  Meets-suc n x (j, h, k, m) = (suc j, omega arith, omega arith, square_pow x j ∙ m)

  Meets-later : (n x : ℕ) → x * x % p ≢ p - 1 → Meets (suc n) x → Meets n (x * x % p)
  Meets-later n x e (zero, h, k, m) = absurd (omega arith)
  Meets-later n x e (suc zero, h, k, m) = absurd (e (sym (first_square x) ∙ m))
  Meets-later n x e (suc (suc j), h, k, m) =
      (suc j, omega arith, omega arith, sym (square_pow x (suc j)) ∙ m)

  -- The loop finds -1 among the squares.
  loop_iff : (n x : ℕ) → x < p → (mr_loop n x p ≡ true) ↔ Meets n x
  unfolding mr_loop
  loop_iff zero x h = (λ e. cc, λ m. absurd (omega (arith, m.1, m.2)))
  loop_iff (suc n) x h =
      let sq = square-mod p (omega arith) fits x h in
      rw sq (elim (Bool-cases (x * x % p == 1)) [
        | inl a ↦ rw a (λ e. cc, λ m. absurd (one-Meets_not (suc n) x (ground arith) m))
        | inr a ↦ rw a (elim (Bool-cases (x * x % p == p - 1)) [
          | inl b ↦
              rw b (λ e. (1, omega arith, omega arith, first_square x ∙ ground arith), λ m. refl)
          | inr b ↦
              let rest = loop_iff n (x * x % p) (mod-lt (x * x) (omega arith)) in
              let ne : x * x % p ≢ p - 1 = ground arith in
              rw b (λ e. Meets-suc n x (rest.0 e), λ m. rest.1 (Meets-later n x ne m))
        ])
      ])

-- `p` passes the test to the base `a`, where `p - 1` is `d * 2 ^ r`: `a ^ d` is 1, or one of its
-- first `r` squarings, itself included, is -1.
abbrev pub IsStrong : ℕ → ℕ → ℕ → ℕ → Type 0
IsStrong p d r a = (a ^ d % p ≡ 1) ⊎ ((j : ℕ) × (j < r) × (a ^ (d * 2 ^ j) % p ≡ p - 1))

-- The bases below `p` are tested, the others skipped.
abbrev pub AllStrong : ℕ → ℕ → ℕ → List ℕ → Type 0
AllStrong p d r [] = Unit
AllStrong p d r (a ∷ rest) = (a < p → IsStrong p d r a) × AllStrong p d r rest

module _ (p : ℕ) (big : 2 < p) (fits : p < 2 ^ 64) (d r : ℕ) (even : 0 < r) where
  power_at : (a j : ℕ) → (a ^ d % p) ^ (2 ^ j) % p ≡ a ^ (d * 2 ^ j) % p
  power_at a j =
      Congruent-pow p (a ^ d % p) (a ^ d) (2 ^ j) (mod-mod (a ^ d) p)
      ∙ ap (λ t. t % p) (pow-pow a d (2 ^ j))

  check_iff :
      (a : ℕ)
      → (mr_check (a ^ d % p) r p ≡ true)
        ↔ ((j : ℕ) × (0 < j) × (j < r) × (a ^ (d * 2 ^ j) % p ≡ p - 1))
  unfolding mr_check
  check_iff a =
      let l = loop_iff p big fits (r - 1) (a ^ d % p) (mod-lt (a ^ d) (omega arith)) in
      (
        (λ e. let (j, h, k, m) = l.0 e in (j, h, omega arith, sym (power_at a j) ∙ m)),
        (λ (j, h, k, m). l.1 (j, h, omega arith, power_at a j ∙ m)),
      )

  itself : (a : ℕ) → a ^ (d * 2 ^ 0) % p ≡ a ^ d % p
  itself a = let e : d * 2 ^ 0 ≡ d = omega (arith, pow-zero 2) in ap (λ t. a ^ t % p) e

  later :
      (a : ℕ)
      → (a ^ d % p == 1) ≡ false
      → (a ^ d % p == p - 1) ≡ false
      → IsStrong p d r a
      → (j : ℕ) × (0 < j) × (j < r) × (a ^ (d * 2 ^ j) % p ≡ p - 1)
  later a other neither (inl one) = absurd (let ne : a ^ d % p ≢ 1 = ground arith in ne one)
  later a other neither (inr (zero, k, m)) =
      absurd (let ne : a ^ d % p ≢ p - 1 = ground arith in ne (sym (itself a) ∙ m))
  later a other neither (inr (suc j, k, m)) = (suc j, omega arith, k, m)

  passes_iff : (a : ℕ) → (passes p d r a ≡ true) ↔ (a < p → IsStrong p d r a)
  unfolding passes
  passes_iff a = elim (Bool-cases (leb p a)) [
    | inl out ↦ rw out (λ e lt. absurd (let le : p ≤ a = ground arith in omega arith), λ f. refl)
    | inr inside ↦
        let lt : a < p = ground arith in
        let x = mr_pow-pow p (omega arith) fits a d (omega arith) in
        let c = check_iff a in
        rw (inside, x)
          (elim (Bool-cases (a ^ d % p == 1)) [
            | inl one ↦ rw one (λ e _. inl (ground arith), λ f. refl)
            | inr other ↦ rw other (elim (Bool-cases (a ^ d % p == p - 1)) [
              | inl minus ↦ rw minus (λ e _. inr (0, even, itself a ∙ ground arith), λ f. refl)
              | inr neither ↦ rw neither (
                λ e _. let (j, h, k, m) = c.0 e in inr (j, k, m),
                λ f. c.1 (later a other neither (f lt)),
              )
            ])
          ])
  ]

  all_pass_iff : (bases : List ℕ) → (all_pass p d r bases ≡ true) ↔ AllStrong p d r bases
  unfolding all_pass
  all_pass_iff [] = (λ e. tt, λ u. refl)
  all_pass_iff (a ∷ rest) =
      let here = passes_iff a in
      let there = all_pass_iff rest in
      elim (Bool-cases (passes p d r a)) [
        | inl e ↦ rw e (λ f. (here.0 e, there.0 f), λ s. there.1 s.1)
        | inr e ↦ rw e (λ f. cc, λ s. let g = here.1 s.0 in cc)
      ]

has_factor : (n r : ℕ) → n / 2 ^ r % 2 ≡ 1 → n % 2 ≡ 0 → 0 < r
has_factor n zero odd even = absurd (omega (arith, pow-zero 2))
has_factor n (suc r) odd even = omega arith

-- For an odd number `p` from 3 below 2 ^ 32, `p - 1` is an odd number `d` times `2 ^ r`, and the
-- test over any bases succeeds if and only if `p` is a strong probable prime to every base below
-- it.
pub miller_rabin-AllStrong :
    (p : ℕ) (bases : List ℕ)
    → p % 2 ≡ 1
    → 1 < p
    → p < 2 ^ 32
    → (d : ℕ) × (r : ℕ) × (d * 2 ^ r ≡ p - 1)
      × (d % 2 ≡ 1)
      × ((miller_rabin p bases ≡ true) ↔ AllStrong p d r bases)
unfolding miller_rabin builtin_ctz
miller_rabin-AllStrong p bases odd one fits =
    let n = p - 1 in
    let r = count_zeros 32 n in
    let (whole, rest) = count_zeros_odd 32 n (omega arith) (omega arith) in
    let low : n % 2 ^ 32 ≡ n = mod-eq_of_lt (omega arith) in
    let odd' : (p % 2 == 0) ≡ false = ground arith in
    let small : ltb p 2 ≡ false = ground arith in
    let pos : 0 < r = has_factor n r rest (omega arith) in
    (
      n / 2 ^ r,
      r,
      whole,
      rest,
      rw (odd', small, low) (all_pass_iff p (omega arith) (omega arith) (n / 2 ^ r) r pos bases),
    )
