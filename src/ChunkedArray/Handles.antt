-- ===== src/ChunkedArray/Handles.antt =====
-- A handle stands for an index: the handles, in the order of `operator++`, are those of 0, 1, 2, ...
use native.Mathlib.Nat.{pow-zero, pow-suc, mod-eq_of_lt}
use salgo.Base.{
  ℕ, zero, suc, ◌+◌, ◌-◌, ◌*◌, ◌/◌, ◌^◌, ◌≤◌, ◌<◌, ◌≡◌, refl, ap, sym, ◌∙◌, bit_xor, Bool, true,
  false, some, ltb, ◌==◌, if◌then◌else◌, inl, inr, Bool-cases, arith,
}
use salgo.Base.Masks.{bit_or-fields, bit_xor-highest, pow-two_pos}
use salgo.ChunkedArray.{
  LeadingZeros, Handle, bit_scan_reverse, of_small, of_index, to_small, to_index, increment,
  decrement,
}

-- `31u ^ c` is `31 - c`.
unfoldable agrees : ℕ → Bool
agrees zero = true
agrees (suc n) = if bit_xor 31 n + n == 31 then agrees n else false

agrees-xor : (n c : ℕ) → agrees n ≡ true → c < n → bit_xor 31 c + c ≡ 31
unfolding agrees
agrees-xor zero c h lt = absurd (omega arith)
agrees-xor (suc n) c h lt = elim (Bool-cases (bit_xor 31 n + n == 31)) [
  | inl e ↦ elim (Bool-cases (c == n)) [
    | inl same ↦ let eq : c ≡ n = ground arith in rw eq (ground arith)
    | inr other ↦ agrees-xor n c (rw e at h) (ground arith)
  ]
  | inr e ↦ (let bad = rw e at h in cc)
]

all_agree : agrees 32 ≡ true
unfolding agrees
all_agree = refl

xor_31 : (k c : ℕ) → k + c ≡ 31 → bit_xor 31 c ≡ k
xor_31 k c e = let sum = agrees-xor 32 c all_agree (omega arith) in omega arith

same_power_le : (j k v : ℕ) → 2 ^ j ≤ v → v < 2 ^ k + 2 ^ k → j ≤ k
same_power_le zero k v h h' = omega arith
same_power_le (suc j) zero v h h' = absurd (omega (arith, pow-zero 2, pow-suc 2 j, pow-two_pos j))
same_power_le (suc j) (suc k) v h h' =
    let rest =
      same_power_le j k (v / 2) (omega (arith, pow-suc 2 j)) (omega (arith, pow-suc 2 k)) in
    omega arith

same_power : (j k v : ℕ) → 2 ^ j ≤ v → v < 2 ^ j + 2 ^ j → 2 ^ k ≤ v → v < 2 ^ k + 2 ^ k → j ≡ k
same_power j k v lo hi lo' hi' =
    let le = same_power_le j k v lo hi' in let ge = same_power_le k j v lo' hi in omega arith

pub power_bound : (k m : ℕ) → 2 ^ k < 2 ^ m → k < m
power_bound zero zero lt = absurd (omega arith)
power_bound zero (suc m) lt = omega arith
power_bound (suc k) zero lt = absurd (omega (arith, pow-zero 2, pow-two_pos (suc k)))
power_bound (suc k) (suc m) lt =
    let rest = power_bound k m (omega (arith, pow-suc 2 k, pow-suc 2 m)) in omega arith

bound_power : (k b m : ℕ) → k < m → b < 2 ^ k → 2 ^ k + b < 2 ^ m
bound_power k b zero lt h = absurd (omega arith)
bound_power k b (suc m) lt h = elim (Bool-cases (ltb k m)) [
  | inl e ↦ let rest = bound_power k b m (ground arith) h in omega (arith, pow-suc 2 m)
  | inr e ↦ let same : k ≡ m = ground arith in rw same (omega (arith, pow-suc 2 m, rw same at h))
]

-- A handle of the index `i`: its block is that of the highest bit of `i + 1`.
pub record IsHandle (i : ℕ) (h : Handle) : Type 0 where
  pub number : 2 ^ h.a + h.b ≡ i + 1
  pub inside : h.b < 2 ^ h.a

module _ ⦃zeros : LeadingZeros⦄ where
  -- The only handle whose number is `v`.
  pub of_small_unique :
      (k r : ℕ) → r < 2 ^ k → 2 ^ k + r < 2 ^ 32 → of_small (2 ^ k + r) ≡ record { a = k; b = r }
  unfolding of_small bit_scan_reverse
  of_small_unique k r lt small =
      let pos = pow-two_pos k in
      let (j, sum, lo, hi) = zeros.builtin_clz_lem (2 ^ k + r) (omega arith) small in
      let same : j ≡ k = same_power j k (2 ^ k + r) lo hi (omega arith) (omega arith) in
      let top : bit_xor 31 (zeros.builtin_clz (2 ^ k + r)) ≡ k =
        xor_31 j (zeros.builtin_clz (2 ^ k + r)) sum ∙ same in
      let low : bit_xor (2 ^ k) (2 ^ k + r) ≡ r =
        (let whole = bit_xor-highest k (2 ^ k + r) (omega arith) (omega arith) in omega arith) in
      rw (top, low) refl

  pub of_index_unique : (i : ℕ) (h : Handle) → i + 1 < 2 ^ 32 → IsHandle i h → of_index i ≡ h
  unfolding of_index
  of_index_unique i h small p =
      rw (mod-eq_of_lt small, ← p.number) (of_small_unique h.a h.b p.inside (rw p.number small))

  pub of_index-IsHandle : (i : ℕ) → i + 1 < 2 ^ 32 → IsHandle i (of_index i)
  of_index-IsHandle i small =
      let (j, sum, lo, hi) = zeros.builtin_clz_lem (i + 1) (omega arith) small in
      let h : Handle = record { a = j; b = i + 1 - 2 ^ j } in
      let p : IsHandle i h = record { number = omega arith; inside = omega arith } in
      rw (of_index_unique i h small p) p

  increment-IsHandle : (i : ℕ) (h : Handle) → IsHandle i h → IsHandle (i + 1) (increment h)
  unfolding increment
  increment-IsHandle i h p = elim (Bool-cases (h.b + 1 == 2 ^ h.a)) [
    | inl e ↦
        let full : h.b + 1 ≡ 2 ^ h.a = ground arith in
        let next_index : h.a + 1 ≡ suc h.a = omega arith in
        let up : 2 ^ (h.a + 1) ≡ 2 * 2 ^ h.a =
          ap (λ k. 2 ^ k) next_index ∙ pow-suc 2 h.a ∙ omega arith in
        let next : IsHandle (i + 1) (record { a = h.a + 1; b = 0 }) = record {
          number = omega (arith, p.number, up);
          inside = pow-two_pos (h.a + 1);
        } in
        rw e next
    | inr e ↦
        let more : h.b + 1 < 2 ^ h.a = (let inside = p.inside in ground arith) in
        let next : IsHandle (i + 1) (record h { b = h.b + 1 }) = record {
          number = omega (arith, p.number);
          inside = more;
        } in
        rw e next
  ]

  power_split : (k b i : ℕ) → 2 ^ k + b ≡ i + 2 → b < 2 ^ k → b ≡ 0 → (j : ℕ) × (k ≡ suc j)
  power_split zero b i e lt first = absurd (omega (arith, pow-zero 2))
  power_split (suc j) b i e lt first = (j, refl)

  decrement-IsHandle :
      (i : ℕ) (h : Handle)
      → IsHandle (i + 1) h
      → (g : Handle) × (decrement h ≡ some g) × IsHandle i g
  unfolding decrement
  decrement-IsHandle i h p = elim (Bool-cases (h.b == 0)) [
    | inl e ↦
        let (j, above) = power_split h.a h.b i (omega (arith, p.number)) p.inside (ground arith) in
        let none : (h.a == 0) ≡ false = ground arith in
        let half : h.a - 1 ≡ j = omega arith in
        let up : 2 ^ h.a ≡ 2 ^ suc j = ap (λ k. 2 ^ k) above in
        let up' = pow-suc 2 j in
        let pos = pow-two_pos j in
        let first : h.b ≡ 0 = ground arith in
        let last : IsHandle i (record { a = h.a - 1; b = 2 ^ (h.a - 1) - 1 }) =
          rw half (record { number = omega (arith, p.number); inside = omega arith }) in
        (record { a = h.a - 1; b = 2 ^ (h.a - 1) - 1 }, rw (e, none), last)
    | inr e ↦
        let back : 0 < h.b = ground arith in
        (
          record h { b = h.b - 1 },
          rw e,
          record { number = omega (arith, p.number); inside = omega (arith, p.inside) },
        )
  ]

  -- `++` on the handle of an index gives the handle of the next index, and `--` leads back.
  pub increment-of_index :
      (i : ℕ)
      → i + 2 < 2 ^ 32
      → (increment (of_index i) ≡ of_index (i + 1))
        × (decrement (of_index (i + 1)) ≡ some (of_index i))
  increment-of_index i small =
      let (g, run, q) =
        decrement-IsHandle i (of_index (i + 1)) (of_index-IsHandle (i + 1) (omega arith)) in
      (
        sym (
            of_index_unique (i + 1) (increment (of_index i)) (omega arith)
              (increment-IsHandle i (of_index i) (of_index-IsHandle i (omega arith)))),
        run ∙ ap some (sym (of_index_unique i g (omega arith) q)),
      )

  to_small-number : (h : Handle) → h.a < 32 → h.b < 2 ^ h.a → to_small h ≡ some (2 ^ h.a + h.b)
  unfolding to_small
  to_small-number h lt inside =
      let low : ltb h.a 32 ≡ true = ground arith in
      let high : ltb h.b (2 ^ h.a) ≡ true = ground arith in
      let one : 1 * 2 ^ h.a ≡ 2 ^ h.a = omega arith in
      let sum = rw one at (bit_or-fields h.a 1 h.b inside) in rw (low, high, sum)

  -- An index made a handle and read back is the same index; and a handle of a slot, stored as a
  -- small handle and read back, is the same handle.
  pub to_index-of_index :
      (i : ℕ) (h : Handle)
      → i + 1 < 2 ^ 32
      → h.a < 32
      → h.b < 2 ^ h.a
      → (to_index (of_index i) ≡ some i)
        × ((small : ℕ) × (to_small h ≡ some small) × (of_small small ≡ h))
  unfolding to_index
  to_index-of_index i h small lt inside =
      let p = of_index-IsHandle i small in
      let fits = power_bound (of_index i).a 32 (omega (arith, p.number)) in
      let number : 2 ^ (of_index i).a + (of_index i).b - 1 ≡ i = omega (arith, p.number) in
      (
        rw (to_small-number (of_index i) fits p.inside) (ap some number),
        (
          2 ^ h.a + h.b,
          to_small-number h lt inside,
          of_small_unique h.a h.b inside (bound_power h.a h.b 32 lt inside),
        ),
      )
