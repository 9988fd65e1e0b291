-- ===== src/DynamicArray/Overwrite.antt =====
-- `compact` of an array whose first two slots are constructed.
use salgo.Base.{ℕ, ◌≡◌, refl, none, some, ◌∷◌}
use salgo.DynamicArray.{compact, compact_loop}
use salgo.MemoryBlock
use salgo.MemoryBlock.{Block}

module _ {ℓ} {V : Type ℓ} where
  -- `compact` of an array whose first two slots hold values constructs the second value over the
  -- first, a fault, for any number of slots after them.
  pub compact_overwrites :
      (stack_buffer size : ℕ) (x y : V) (s : Block V)
      → compact stack_buffer (record { block = some x ∷ some y ∷ s; size = size }) ≡ none
  unfolding compact compact_loop MemoryBlock.construct
  compact_overwrites stack_buffer size x y s = refl
