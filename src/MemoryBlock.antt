-- ===== src/MemoryBlock.antt =====
-- include/salgo/_/memory-block.inl: `Memory_Block` with CONSTRUCTED_FLAGS, for values with their own
-- destructor and move constructor. A block is the list of its slots; a slot in which no value lives
-- is `none`. `none` in a result is a failed DCHECK. `stack_buffer` is `Stack_Buffer`.
pub mod Compact
pub mod Resize
use salgo.Base.{
  ℕ, zero, suc, ◌+◌, ◌-◌, Bool, true, false, ◌||◌, ◌&&◌, Option, none, some, List, [], ◌∷◌, ◌++◌,
  length, get_elem?, set, take, drop, replicate, ltb, min, if◌then◌else◌, ◌>>=◌,
}

abbrev pub Block {ℓ} : Type ℓ → Type ℓ
Block V = List (Option V)

module _ {ℓ} {V : Type ℓ} where
  -- `operator[]`
  unfoldable pub read : Block V → ℕ → Option V
  read s i = get_elem? s i >>= λ slot. slot

  -- `(*this)(i).construct(x)` and `(*this)(i).destruct()`
  unfoldable pub construct : ℕ → V → Block V → Option (Block V)
  construct i x s =
      get_elem? s i >>= λ slot. elim slot [ none ↦ some (set s i (some x)) | some _ ↦ none ]

  unfoldable pub destruct : ℕ → Block V → Option (Block V)
  destruct i s = read s i >>= λ x. some (set s i none)

  -- `_destruct_block`, whose loop destructs the values at the indices below `size`
  unfoldable pub destruct_block : ℕ → Block V → Block V
  destruct_block zero s = s
  destruct_block (suc size) [] = []
  destruct_block (suc size) (x ∷ s) = none ∷ destruct_block size s

  unfoldable pub is_vacant : Block V → Bool
  is_vacant [] = true
  is_vacant (none ∷ s) = is_vacant s
  is_vacant (some x ∷ s) = false

  -- `_destruct_block(_data + n, _size - n)`, of which the first loop counts from the start of the
  -- block and the second one from `_data + n`. A node of the second loop that still holds a value
  -- fails a DCHECK. A slot below `n` that lost its value keeps its flag, which is no block here.
  unfoldable pub destruct_end : (n : ℕ) → Block V → Option (Block V)
  destruct_end n s =
      let destructed = destruct_block (length s - n) s in
      if is_vacant (take n (take (length s - n) s)) && is_vacant (drop n destructed)
      then some (take n destructed)
      else none

  -- `_resize`. The memory stays the same where both sizes fit the buffer.
  unfoldable pub resize : ℕ → ℕ → Block V → Option (Block V)
  resize stack_buffer new_size s =
      let n = min (length s) new_size in
      let moved = ltb stack_buffer new_size || ltb stack_buffer (length s) in
      (if moved then some (take n s) else destruct_end n s) >>= λ t.
      some (t ++ replicate (new_size - n) none)

  -- `construct_all`
  unfoldable pub construct_all : ℕ → V → Block V → Option (Block V)
  construct_all i x [] = some []
  construct_all i x (none ∷ s) = construct_all (i + 1) x s >>= λ t. some (some x ∷ t)
  construct_all i x (some _ ∷ s) = none

  -- `operator()(FIRST)` and `operator()(LAST)`: the handle of the first and of the last value
  unfoldable pub first : ℕ → Block V → Option ℕ
  first h [] = none
  first h (none ∷ s) = first (h + 1) s
  first h (some x ∷ s) = some h

  unfoldable pub last : ℕ → Block V → Option ℕ
  last zero s = none
  last (suc h) s =
      let before = last h s in
      get_elem? s h >>= λ slot. elim slot [ none ↦ before | some x ↦ some h ]

  -- The loop of `compact` at the index `i`, with the rounds left: the next free index, the block
  -- and the calls of the callback.
  unfoldable pub compact_loop :
      ℕ → (i idx : ℕ) → Block V → List (ℕ × ℕ) → Option (ℕ × Block V × List (ℕ × ℕ))
  compact_loop zero i idx s calls = some (idx, s, calls)
  compact_loop (suc rounds) i idx s calls = do
    slot ← get_elem? s i
    elim slot [
      | none ↦ compact_loop rounds (i + 1) idx s calls
      | some x ↦ (if ltb idx i then (construct idx x s >>= λ t. destruct i t) else some s) >>= λ t.
          compact_loop rounds (i + 1) (idx + 1) t (calls ++ (i, idx) ∷ [])
    ]

  -- `compact`: the number of values, the block and the calls of the callback
  unfoldable pub compact : ℕ → Block V → Option (ℕ × Block V × List (ℕ × ℕ))
  compact stack_buffer s = do
    (idx, t, calls) ← compact_loop (length s) 0 0 s []
    u ← resize stack_buffer idx t
    some (idx, u, calls)
