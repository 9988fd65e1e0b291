-- ===== src/Tests/Chunks.antt =====
-- include/salgo/_/chunked-array.hpp on a few values.
use native.Mathlib.Nat.{pow-zero, pow-suc}
use salgo.Base.{
  ℕ, zero, suc, ◌+◌, ◌-◌, ◌/◌, ◌^◌, ◌≤◌, ◌<◌, ◌≡◌, refl, none, some, [], ◌∷◌, flatten, ◌==◌,
  if◌then◌else◌, inl, inr, Bool-cases, arith,
}
use salgo.ChunkedArray.{
  LeadingZeros, ChunkedArray, of_index, of_small, to_small, to_index, emplace_back, pop_back,
}
use salgo.ChunkedArray.Emplace.{emplace_back-Appended}
use salgo.ChunkedArray.Grow.{Holds}
use salgo.ChunkedArray.Pop.{pop_back-Popped}
use salgo.ChunkedArray.Handles.{to_index-of_index}

-- The index of the highest bit, for a number of at most `fuel` bits.
unfoldable highest : ℕ → ℕ → ℕ
highest zero x = 0
highest (suc fuel) x = let rest = highest fuel (x / 2) in if x / 2 == 0 then 0 else rest + 1

highest_lem :
    (fuel x : ℕ)
    → 0 < x
    → x < 2 ^ fuel
    → (highest fuel x < fuel)
      × (2 ^ highest fuel x ≤ x)
      × (x < 2 ^ highest fuel x + 2 ^ highest fuel x)
unfolding highest
highest_lem zero x h lt = absurd (omega (arith, pow-zero 2))
highest_lem (suc fuel) x h lt = elim (Bool-cases (x / 2 == 0)) [
  | inl e ↦
      let small : x / 2 ≡ 0 = ground arith in
      let one : 2 ^ 0 ≡ 1 = refl in rw e (omega arith, omega arith, omega arith)
  | inr e ↦
      let positive : 0 < x / 2 = ground arith in
      let (below, lo, hi) = highest_lem fuel (x / 2) positive (omega (arith, pow-suc 2 fuel)) in
      let next : 2 ^ (highest fuel (x / 2) + 1)
          ≡ 2 ^ highest fuel (x / 2) + 2 ^ highest fuel (x / 2) =
        (let up : highest fuel (x / 2) + 1 ≡ suc (highest fuel (x / 2)) = omega arith in
          let double = pow-suc 2 (highest fuel (x / 2)) in rw up (omega (arith, double))) in
      rw e (omega arith, omega (arith, next), omega (arith, next))
]

instance pub counted_zeros : LeadingZeros
counted_zeros = record {
  builtin_clz = λ x. 31 - highest 32 x;
  builtin_clz_lem =
      λ x h lt. let (below, lo, hi) = highest_lem 32 x h lt in (highest 32 x, omega arith, lo, hi);
}

to_index-of_index_example :
    (to_index (of_index 9) ≡ some 9)
    × ((small : ℕ) × (to_small (record { a = 3; b = 2 }) ≡ some small)
        × (of_small small ≡ record { a = 3; b = 2 }))
to_index-of_index_example =
    to_index-of_index 9 (record { a = 3; b = 2 }) (omega arith) (omega arith) (omega arith)

abbrev one_chunk : ChunkedArray ℕ
one_chunk = record { blocks = (some 5 ∷ []) ∷ []; size = 1; num_existing = 1 }

one_chunk-Holds : Holds (some 5 ∷ []) one_chunk
one_chunk-Holds = record {
  doubling = (refl, tt);
  size_is = refl;
  needed = omega arith;
  fits = omega arith;
  gap = 0;
  slots = unfold flatten in refl;
  counted = refl;
}

emplace_back-Appended_example :
    (c : ChunkedArray ℕ) × (emplace_back 6 one_chunk ≡ some (of_index 1, c))
    × Holds (some 5 ∷ some 6 ∷ []) c
emplace_back-Appended_example =
    emplace_back-Appended (some 5 ∷ []) 6 one_chunk one_chunk-Holds (omega arith)

-- A value before two holes, the second in a block of its own.
abbrev holed : ChunkedArray ℕ
holed = record {
  blocks = (some 5 ∷ []) ∷ (some 6 ∷ none ∷ []) ∷ (none ∷ none ∷ none ∷ none ∷ []) ∷ [];
  size = 4;
  num_existing = 2;
}

holed-Holds : Holds (some 5 ∷ some 6 ∷ none ∷ none ∷ []) holed
holed-Holds = record {
  doubling = (refl, (refl, (refl, tt)));
  size_is = refl;
  needed = omega arith;
  fits = omega arith;
  gap = 3;
  slots = unfold flatten in refl;
  counted = refl;
}

pop_back-Popped_example :
    (c : ChunkedArray ℕ) × (pop_back holed ≡ some (6, c)) × Holds (some 5 ∷ []) c
pop_back-Popped_example = pop_back-Popped (some 5 ∷ []) 6 2 holed holed-Holds
