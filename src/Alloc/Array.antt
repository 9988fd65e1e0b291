-- ===== src/Alloc/Array.antt =====
-- include/salgo/_/alloc/array-allocator.inl: `Array_Allocator`, over one `Memory_Block` with flags
-- and count and no in-place buffer. A handle is an index; `none` in a result is a fault, and so is
-- fuel that runs out.
pub mod Construct
pub mod Emptied
use salgo.Base.{
  ℕ, zero, suc, ◌+◌, ◌-◌, ◌*◌, Option, none, some, List, [], ◌∷◌, length, get_elem?, leb, ltb, ◌==◌,
  replicate, if◌then◌else◌, ◌>>=◌,
}
use salgo.MemoryBlock
use salgo.MemoryBlock.{Block}
use salgo.DynamicArray.{construct_from}

pub record ArrayAllocator {ℓ} (V : Type ℓ) : Type ℓ where
  pub v : Block V
  pub num_existing : ℕ
  pub lookup_index : ℕ

-- `++lookup_index`, back to 0 at the end
unfoldable pub advance : ℕ → ℕ → ℕ
advance domain i = if i + 1 == domain then 0 else i + 1

module _ {ℓ} {V : Type ℓ} where
  -- the constructor with a number of elements
  unfoldable pub starting : ℕ → V → Option (ArrayAllocator V)
  starting n x = construct_from n 0 x (replicate n none) >>= λ s.
      some (record { v = s; num_existing = n; lookup_index = n })

  -- grow if needed
  unfoldable pub grow : ArrayAllocator V → Option (ArrayAllocator V)
  grow s =
      if leb (length s.v) (s.num_existing * 2)
      then (MemoryBlock.resize 0 (length s.v * 2 + 1) s.v >>= λ t. some (record s { v = t }))
      else some s

  -- `while( v(lookup_index).is_constructed() )`
  unfoldable pub probe : ℕ → Block V → ℕ → Option ℕ
  probe zero s i = none
  probe (suc fuel) s i = do
    slot ← get_elem? s i
    elim slot [ none ↦ some i | some x ↦ probe fuel s (advance (length s) i) ]

  -- `construct`: the handle of the new element and the allocator
  unfoldable pub construct : V → ArrayAllocator V → Option (ℕ × ArrayAllocator V)
  construct x s₀ = do
    s ← grow s₀
    index ← probe (length s.v) s.v s.lookup_index
    t ← MemoryBlock.construct index x s.v
    some (
      index,
      record {
        v = t;
        num_existing = s.num_existing + 1;
        lookup_index = advance (length s.v) index;
      },
    )

  -- `destruct` of an element, through its accessor
  unfoldable pub destruct : ℕ → ArrayAllocator V → Option (ArrayAllocator V)
  destruct h s = MemoryBlock.destruct h s.v >>= λ t.
      some (record s { v = t; num_existing = s.num_existing - 1 })

  -- `reserve`
  unfoldable pub reserve : ℕ → ArrayAllocator V → Option (ArrayAllocator V)
  reserve size s =
      if leb size (length s.v)
      then some s
      else MemoryBlock.resize 0 size s.v >>= λ t. some (record s { v = t })

  -- `resize`, of which the new elements are constructed
  unfoldable pub resize : ℕ → V → ArrayAllocator V → Option (ArrayAllocator V)
  resize new_size x s = do
    t ← MemoryBlock.resize 0 new_size s.v
    u ← construct_from (new_size - length s.v) (length s.v) x t
    some (record s { v = u; num_existing = s.num_existing + (new_size - length s.v) })

  -- `compact`: the new indices
  unfoldable pub compact : ArrayAllocator V → Option (ArrayAllocator V × List (ℕ × ℕ))
  compact s = do (n, t, calls) ← MemoryBlock.compact 0 s.v; some (record s { v = t }, calls)
