-- ===== src/Rand/Nonzero.antt =====
-- The state is never zero, where the generator would stay.
use native.Mathlib.Nat.{mod-lt, div-le_self}
use salgo.Base.{
  ℕ, zero, suc, ◌+◌, ◌-◌, ◌*◌, ◌/◌, ◌%◌, ◌^◌, ◌<◌, ◌≡◌, refl, ap, sym, ◌∙◌, bit_xor, inl, inr,
  Bool-cases, ltb, arith,
}
use salgo.Base.Bits.{le-bit_or_left, le-bit_or_right}
use salgo.Base.Masks.{bit_xor-zero, bit_xor-lt, bit_or-lt, bit_and-mask}
use salgo.Rand.{State, shift_left, rotl, next, after, rand_32, rand_64}

-- The words have 64 bits, and one of them is not zero.
pub record IsValid (s : State) : Type 0 where
  pub left : s.s₀ < 2 ^ 64
  pub right : s.s₁ < 2 ^ 64
  pub alive : 0 < s.s₀ + s.s₁

rotl_parts : (x k : ℕ) → rotl x k ≡ 0 → (x * 2 ^ k % 2 ^ 64 ≡ 0) × (x / 2 ^ (64 - k) ≡ 0)
unfolding rotl shift_left
rotl_parts x k e =
    let low = le-bit_or_left (x * 2 ^ k % 2 ^ 64) (x / 2 ^ (64 - k)) in
    let high = le-bit_or_right (x * 2 ^ k % 2 ^ 64) (x / 2 ^ (64 - k)) in (omega arith, omega arith)

rotl_zero_36 : (x : ℕ) → rotl x 36 ≡ 0 → x ≡ 0
rotl_zero_36 x e = let (low, high) = rotl_parts x 36 e in omega arith

rotl_zero_55 : (x : ℕ) → rotl x 55 ≡ 0 → x ≡ 0
rotl_zero_55 x e = let (low, high) = rotl_parts x 55 e in omega arith

shift_left-lt : (x k : ℕ) → shift_left x k < 2 ^ 64
unfolding shift_left
shift_left-lt x k = mod-lt (x * 2 ^ k) (omega arith)

rotl-lt : (x k : ℕ) → x < 2 ^ 64 → rotl x k < 2 ^ 64
unfolding rotl
rotl-lt x k h =
    bit_or-lt 64 (shift_left x k) (x / 2 ^ (64 - k)) (shift_left-lt x k)
      (let le = div-le_self x (2 ^ (64 - k)) in omega arith)

zero_before : (s : State) → (next s).1.s₀ ≡ 0 → (next s).1.s₁ ≡ 0 → (s.s₀ ≡ 0) × (s.s₁ ≡ 0)
unfolding next
zero_before s e f =
    let mixed : bit_xor s.s₁ s.s₀ ≡ 0 = rotl_zero_36 (bit_xor s.s₁ s.s₀) f in
    let e' = rw mixed at e in
    let turned = bit_xor-zero (bit_xor (rotl s.s₀ 55) 0) (shift_left 0 14) e' in
    let turned' : bit_xor (rotl s.s₀ 55) 0 ≡ 0 = turned ∙ unfold shift_left in refl in
    let left = rotl_zero_55 s.s₀ (bit_xor-zero (rotl s.s₀ 55) 0 turned') in
    (left, bit_xor-zero s.s₁ s.s₀ mixed ∙ left)

next-IsValid : (s : State) → IsValid s → IsValid (next s).1
unfolding next
next-IsValid s v =
    let mixed = bit_xor-lt 64 s.s₁ s.s₀ v.right v.left in
    record {
      left =
          bit_xor-lt 64 _ _ (bit_xor-lt 64 _ _ (rotl-lt s.s₀ 55 v.left) mixed) (shift_left-lt _ 14);
      right = rotl-lt _ 36 mixed;
      alive = elim (Bool-cases (ltb 0 ((next s).1.s₀ + (next s).1.s₁))) [
        | inl e ↦ ground arith
        | inr e ↦
            let (a, b) = zero_before s (ground arith) (ground arith) in
            absurd (let alive = v.alive in omega arith)
      ];
    }

-- However often the generator is called, its state is never zero, and its words stay in 64 bits; the
-- next draw of `rand_32` stays in 32 bits.
pub after-IsValid :
    (n : ℕ) (s : State) → IsValid s → IsValid (after n s) × ((rand_32 (after n s)).0 < 2 ^ 32)
unfolding after rand_32
after-IsValid zero s v = (v, rw (bit_and-mask 32 (next s).0) (mod-lt (next s).0 (omega arith)))
after-IsValid (suc n) s v = after-IsValid n (next s).1 (next-IsValid s v)

-- `rand_64` draws no more than `rand_32` does: the two return the same number.
pub rand_64-rand_32 : (s : State) → rand_64 s ≡ rand_32 s
unfolding rand_32 rand_64
rand_64-rand_32 s = ap (λ x. (x, (next s).1)) (sym (bit_and-mask 32 (next s).0))
