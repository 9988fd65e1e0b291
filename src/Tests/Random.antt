-- ===== src/Tests/Random.antt =====
-- include/salgo/_/rand.hpp and alloc/random-allocator.hpp on a few values.
use salgo.Alloc.Random.{RandomAllocator, construct}
use salgo.Alloc.Random.Construct.{Constructed, construct-Constructed}
use salgo.Base.{ℕ, ◌^◌, ◌<◌, ◌≡◌, refl, none, some, [], ◌∷◌, flatten, arith}
use salgo.ChunkedArray.{Handle}
use salgo.ChunkedArray.Grow.{Holds}
use salgo.Rand.{initial, next, after, rand_32, rand_64}
use salgo.Rand.Nonzero.{IsValid, after-IsValid, rand_64-rand_32}
use salgo.Tests.Chunks.{counted_zeros}

draws : (rand_32 initial).0 ≡ 2
unfolding rand_32 next
draws = refl

initial-IsValid : IsValid initial
initial-IsValid = record { left = omega arith; right = omega arith; alive = omega arith }

after-IsValid_example : IsValid (after 5 initial) × ((rand_32 (after 5 initial)).0 < 2 ^ 32)
after-IsValid_example = after-IsValid 5 initial initial-IsValid

rand_64-rand_32_example : rand_64 initial ≡ rand_32 initial
rand_64-rand_32_example = rand_64-rand_32 initial

-- One slot, which is a hole.
abbrev hollow : RandomAllocator ℕ
hollow = record {
  v = record { blocks = (none ∷ []) ∷ []; size = 1; num_existing = 0 };
  generator = initial;
}

hollow-Holds : Holds (none ∷ []) hollow.v
hollow-Holds = record {
  doubling = (refl, tt);
  size_is = refl;
  needed = omega arith;
  fits = omega arith;
  gap = 0;
  slots = unfold flatten in refl;
  counted = refl;
}

construct-Constructed_example :
    (h : Handle) × (r : RandomAllocator ℕ) × (construct 1 5 hollow ≡ some (h, r))
    × Constructed (none ∷ []) 5 h r
unfolding after
construct-Constructed_example =
    construct-Constructed (none ∷ []) 5 hollow 0 hollow-Holds (omega arith)
      (λ j lt. (0, omega arith, omega (arith, draws), omega (arith, draws)))
