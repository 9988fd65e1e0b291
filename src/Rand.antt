-- ===== src/Rand.antt =====
-- include/salgo/_/rand.hpp: the generator `xoroshiro128x`. Its two words are the state, numbers of
-- 64 bits.
pub mod Nonzero
use Prim.Native.Nat.{bit_and}
use salgo.Base.{ℕ, zero, suc, ◌+◌, ◌-◌, ◌*◌, ◌/◌, ◌%◌, ◌^◌, bit_or, bit_xor, List, [], ◌∷◌}

pub record State : Type 0 where
  pub s₀ : ℕ
  pub s₁ : ℕ

abbrev pub initial : State
initial = record { s₀ = 1; s₁ = 1 }

unfoldable pub shift_left : ℕ → ℕ → ℕ
shift_left x k = x * 2 ^ k % 2 ^ 64

unfoldable pub rotl : ℕ → ℕ → ℕ
rotl x k = bit_or (shift_left x k) (x / 2 ^ (64 - k))

-- `next`: the result and the new state
unfoldable pub next : State → ℕ × State
next s =
    let s₁ = bit_xor s.s₁ s.s₀ in
    (
      (s.s₀ + s.s₁) % 2 ^ 64,
      record { s₀ = bit_xor (bit_xor (rotl s.s₀ 55) s₁) (shift_left s₁ 14); s₁ = rotl s₁ 36 },
    )

unfoldable pub rand_32 : State → ℕ × State
rand_32 s = let (x, s') = next s in (bit_and x 4294967295, s')

-- The result has the type `uint32_t`.
unfoldable pub rand_64 : State → ℕ × State
rand_64 s = let (x, s') = next s in (x % 2 ^ 32, s')

-- The state after a number of draws.
unfoldable pub after : ℕ → State → State
after zero s = s
after (suc n) s = after n (next s).1
