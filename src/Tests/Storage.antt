-- ===== src/Tests/Storage.antt =====
-- include/salgo/_/memory-block.inl, dynamic-array.inl and list.hpp on a few values.
use salgo.Base.{ℕ, ◌≤◌, ◌≡◌, refl, Option, none, some, List, [], ◌∷◌, length, ◌>>=◌, inr, arith}
use salgo.Alloc.Array.{ArrayAllocator}
use salgo.Alloc.Array
use salgo.Alloc.Array.Construct.{IsValid, Fresh, construct-Fresh}
use salgo.Alloc.Array.Emptied.{destruct_all, construct_faults}
use salgo.DynamicArray.{DynamicArray, get, emplace_back, pop_back}
use salgo.DynamicArray
use salgo.DynamicArray.Dense.{Holds, emplace_back-Holds}
use salgo.DynamicArray.Overwrite.{compact_overwrites}
use salgo.LinkedList.{LinkedList}
use salgo.LinkedList
use salgo.MemoryBlock
use salgo.MemoryBlock.{Block, read, compact}
use salgo.MemoryBlock.Compact.{values, filled, compact-values}

abbrev holes : Block ℕ
holes = none ∷ some 1 ∷ none ∷ some 2 ∷ some 3 ∷ []

compact-values_example :
    (calls : List (ℕ × ℕ)) × (compact 0 holes
      ≡ some (length (values holes), filled (values holes), calls))
compact-values_example = compact-values 0 holes (omega arith)

abbrev two : DynamicArray ℕ
two = record { block = some 4 ∷ some 5 ∷ none ∷ []; size = 2 }

two-Holds : Holds (4 ∷ 5 ∷ []) two
unfolding filled
two-Holds = record { gap = 1; layout = refl; size_is = refl }

emplace_back-Holds_example :
    (d : DynamicArray ℕ) × (emplace_back 0 6 two ≡ some (2, d))
    × Holds (4 ∷ 5 ∷ 6 ∷ []) d
    × (3 ≤ length d.block)
emplace_back-Holds_example = emplace_back-Holds 0 6 (4 ∷ 5 ∷ []) two two-Holds

compact_overwrites_example :
    DynamicArray.compact {V = ℕ} 0 (record { block = some 1 ∷ some 2 ∷ none ∷ []; size = 3 }) ≡ none
compact_overwrites_example = compact_overwrites 0 3 1 2 (none ∷ [])

abbrev no_nodes : LinkedList ℕ
no_nodes = record { cells = λ i. none; front = none; back = none; num_existing = 0 }

-- Two values, a third before the first one, and the middle one erased.
abbrev links : Option (Option ℕ × Option ℕ × ℕ)
links = do
  l₁ ← LinkedList.emplace_back 7 0 no_nodes
  l₂ ← LinkedList.emplace_back 8 1 l₁
  l₃ ← LinkedList.emplace_front 9 2 l₂
  (r, l₄) ← LinkedList.erase (LinkedList.reference 0) l₃
  some (l₄.front, r.next, l₄.num_existing)

links_run : links ≡ some (some 2, some 1, 2)
unfolding LinkedList.emplace_back LinkedList.emplace_front LinkedList.erase
    LinkedList.emplace_into_empty LinkedList.emplace_after LinkedList.store LinkedList.set_prev
    LinkedList.set_next LinkedList.emplace_before LinkedList.on_erase LinkedList.unlink
links_run = refl

abbrev slots : ArrayAllocator ℕ
slots = record {
  v = some 5 ∷ none ∷ some 6 ∷ none ∷ some 7 ∷ [];
  num_existing = 3;
  lookup_index = 4;
}

slots-IsValid : IsValid slots
unfolding values
slots-IsValid = record { counted = refl; bounded = inr (omega arith) }

construct-Fresh_example :
    (h : ℕ) × (s : ArrayAllocator ℕ) × (Array.construct 9 slots ≡ some (h, s)) × Fresh 9 slots h s
construct-Fresh_example = construct-Fresh 9 slots slots-IsValid

-- Three elements from the constructor, of which two are destructed.
abbrev made : ArrayAllocator ℕ
made = record { v = some 6 ∷ some 6 ∷ some 6 ∷ []; num_existing = 3; lookup_index = 3 }

abbrev emptied : ArrayAllocator ℕ
emptied = record { v = none ∷ none ∷ some 6 ∷ []; num_existing = 1; lookup_index = 3 }

starting_run : Array.starting 3 6 ≡ some made
unfolding Array.starting DynamicArray.construct_from MemoryBlock.construct
starting_run = refl

destruct_all_run : destruct_all (0 ∷ 1 ∷ []) made ≡ some emptied
unfolding destruct_all Array.destruct MemoryBlock.destruct read
destruct_all_run = refl

construct_faults_example : Array.construct 9 emptied ≡ none
construct_faults_example =
    construct_faults 3 6 9 (0 ∷ 1 ∷ []) made emptied starting_run destruct_all_run (omega arith)
      (omega arith)
