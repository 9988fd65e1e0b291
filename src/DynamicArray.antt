-- ===== src/DynamicArray.antt =====
-- include/salgo/_/dynamic-array.inl: `Dynamic_Array` over a `Memory_Block`. Of the DENSE kind the
-- values are the first `_size` slots; `compact` and the iterator are those of the SPARSE kind, with
-- CONSTRUCTED_FLAGS. `none` in a result is a fault, also where a value would be constructed over
-- another. `stack_buffer` is `Stack_Buffer` of the block.
pub mod Dense
pub mod Overwrite
use salgo.Base.{
  ℕ, zero, suc, ◌+◌, ◌-◌, ◌*◌, ◌/◌, Bool, true, false, not, ◌&&◌, Option, none, some, List, [], ◌∷◌,
  length, get_elem?, replicate, ltb, ◌==◌, max, if◌then◌else◌, ◌>>=◌,
}
use salgo.MemoryBlock
use salgo.MemoryBlock.{Block}

pub record DynamicArray {ℓ} (V : Type ℓ) : Type ℓ where
  pub block : Block V
  pub size : ℕ

module _ {ℓ} {V : Type ℓ} where
  -- `for(int i=from; ...; ++i) _mb(i).construct(x)`, for `rounds` indices
  unfoldable pub construct_from : (rounds from : ℕ) → V → Block V → Option (Block V)
  construct_from zero i x s = some s
  construct_from (suc rounds) i x s =
      MemoryBlock.construct i x s >>= λ t. construct_from rounds (i + 1) x t

  -- the constructor from a size
  unfoldable pub of_size : ℕ → ℕ → V → Option (DynamicArray V)
  of_size stack_buffer size x =
      construct_from size 0 x (replicate (max size stack_buffer) none) >>= λ s.
      some (record { block = s; size = size })

  -- `operator[]`
  unfoldable pub get : ℕ → DynamicArray V → Option V
  get i d = if ltb i d.size then MemoryBlock.read d.block i else none

  unfoldable pub get_last : DynamicArray V → Option V
  get_last d = if d.size == 0 then none else get (d.size - 1) d

  -- `emplace_back`: the handle of the new value and the array
  unfoldable pub emplace_back : ℕ → V → DynamicArray V → Option (ℕ × DynamicArray V)
  emplace_back stack_buffer x d = do
    let domain : ℕ = length d.block
    s ←
        if d.size == domain
        then MemoryBlock.resize stack_buffer ((domain + 1) * 3 / 2) d.block
        else some d.block
    t ← MemoryBlock.construct d.size x s
    some (d.size, record { block = t; size = d.size + 1 })

  unfoldable pub pop_back : DynamicArray V → Option (V × DynamicArray V)
  pop_back d = if ltb d.size 1 then none else do
    x ← MemoryBlock.read d.block (d.size - 1)
    s ← MemoryBlock.destruct (d.size - 1) d.block
    some (x, record { block = s; size = d.size - 1 })

  -- `resize` with the arguments of the new values, and `clear`
  unfoldable pub resize : ℕ → ℕ → V → DynamicArray V → Option (DynamicArray V)
  resize stack_buffer new_size x d = do
    s ← MemoryBlock.resize stack_buffer new_size d.block
    t ← construct_from (length s - d.size) d.size x s
    some (record { block = t; size = new_size })

  unfoldable pub clear : ℕ → V → DynamicArray V → Option (DynamicArray V)
  clear stack_buffer x d = resize stack_buffer 0 x d

  -- `reserve`
  unfoldable pub reserve : ℕ → ℕ → DynamicArray V → Option (DynamicArray V)
  reserve stack_buffer capacity d =
      MemoryBlock.resize stack_buffer capacity d.block >>= λ s. some (record d { block = s })

  -- The loop of `compact` at the index `i`, with the rounds left.
  unfoldable pub compact_loop : ℕ → (i target : ℕ) → Block V → Option (ℕ × Block V)
  compact_loop zero i target s = some (target, s)
  compact_loop (suc rounds) i target s = do
    slot ← get_elem? s i
    elim slot [
      | none ↦ compact_loop rounds (i + 1) target s
      | some x ↦
          let stay = compact_loop rounds (i + 1) target s in
          let move : Option (ℕ × Block V) = do
            t ← MemoryBlock.construct target x s
            u ← MemoryBlock.destruct i t
            compact_loop rounds (i + 1) (target + 1) u
          in if target == i then stay else move
    ]

  unfoldable pub compact : ℕ → DynamicArray V → Option (DynamicArray V)
  compact stack_buffer d = do
    (target, s) ← compact_loop (length d.block) 0 0 d.block
    t ← MemoryBlock.resize stack_buffer target s
    some (record { block = t; size = target })

  -- `_increment`: the next constructed index, or the domain
  unfoldable pub skip : ℕ → Block V → ℕ → ℕ → ℕ
  skip zero s size h = h
  skip (suc rounds) s size h =
      let rest = skip rounds s size (h + 1) in
      if h == size then h else elim (MemoryBlock.read s h) [ none ↦ rest | some x ↦ h ]

  unfoldable pub increment : DynamicArray V → ℕ → ℕ
  increment d h = skip (d.size - h) d.block d.size (h + 1)

  -- `begin`
  unfoldable pub begin : DynamicArray V → ℕ
  begin d =
      if d.size == 0
      then 0
      else elim (MemoryBlock.read d.block 0) [ none ↦ increment d 0 | some x ↦ 0 ]
