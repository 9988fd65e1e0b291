-- ===== src/ChunkedArray.antt =====
-- include/salgo/_/chunked-array.hpp: `Chunked_Array` with SPARSE, COUNT and CONSTRUCTED_FLAGS. Block
-- `i` has room for `2 ^ i` elements and never moves. The compiler's `__builtin_clz` is an instance
-- argument. `none` in a result is a failed DCHECK.
pub mod Handles
pub mod Blocks
pub mod Grow
pub mod Emplace
pub mod Access
pub mod Slots
pub mod Shrink
pub mod Skip
pub mod Pop
use Prim.Native.Nat.{bit_and}
use salgo.Base.{
  ℕ, zero, suc, ◌+◌, ◌-◌, ◌*◌, ◌/◌, ◌%◌, ◌^◌, ◌≤◌, ◌<◌, ◌≡◌, bit_or, bit_xor, Bool, true, false,
  ◌&&◌, not, Option, none, some, List, [], ◌∷◌, ◌++◌, length, get_elem?, set, take, replicate, ltb,
  leb, ◌==◌, if◌then◌else◌, ◌>>=◌,
}
use salgo.MemoryBlock.{Block}
use salgo.MemoryBlock

-- The builtin counts the zeros above the highest bit of a 32-bit number that is not 0.
pub record LeadingZeros : Type 0 where
  pub builtin_clz : ℕ → ℕ
  pub builtin_clz_lem :
      (x : ℕ)
      → 0 < x
      → x < 2 ^ 32
      → (k : ℕ) × (k + builtin_clz x ≡ 31) × (2 ^ k ≤ x) × (x < 2 ^ k + 2 ^ k)

pub record Handle : Type 0 where
  pub a : ℕ
  pub b : ℕ

module _ ⦃zeros : LeadingZeros⦄ where
  unfoldable pub bit_scan_reverse : ℕ → ℕ
  bit_scan_reverse x = bit_xor 31 (zeros.builtin_clz x)

  -- `Handle(const Handle_Small<X>& small)` of a small handle that is valid, so not 0
  unfoldable pub of_small : ℕ → Handle
  of_small small = let a = bit_scan_reverse small in record { a = a; b = bit_xor (2 ^ a) small }

  -- `Handle(unsigned int index)`, through `Handle_Small(unsigned int x)`
  unfoldable pub of_index : ℕ → Handle
  of_index index = of_small ((index + 1) % 2 ^ 32)

-- `is_power_of_2`
unfoldable pub is_power_of_2 : ℕ → Bool
is_power_of_2 n = bit_and n (n - 1) == 0

-- `Handle_Small(const Handle<X>& big)`
unfoldable pub to_small : Handle → Option ℕ
to_small big =
    if ltb big.a 32 && ltb big.b (2 ^ big.a) then some (bit_or (2 ^ big.a) big.b) else none

-- the conversion of a `Handle_Small` to `unsigned int`
unfoldable pub to_index : Handle → Option ℕ
to_index h = to_small h >>= λ small. some (small - 1)

-- `operator++` and `operator--`, which has no handle before the first
unfoldable pub increment : Handle → Handle
increment h = if h.b + 1 == 2 ^ h.a then record { a = h.a + 1; b = 0 } else record h { b = h.b + 1 }

unfoldable pub decrement : Handle → Option Handle
decrement h =
    if h.b == 0
    then (if h.a == 0 then none else some (record { a = h.a - 1; b = 2 ^ (h.a - 1) - 1 }))
    else some (record h { b = h.b - 1 })

pub record ChunkedArray {ℓ} (V : Type ℓ) : Type ℓ where
  pub blocks : List (Block V)
  pub size : ℕ
  pub num_existing : ℕ

module _ {ℓ} {V : Type ℓ} where
  abbrev pub empty : ChunkedArray V
  empty = record { blocks = []; size = 0; num_existing = 0 }

  -- `_blocks[LAST]`, and the array of blocks without it
  abbrev pub last_block : ChunkedArray V → Option (Block V)
  last_block c = get_elem? c.blocks (length c.blocks - 1)

  abbrev pub without_last : ChunkedArray V → List (Block V)
  without_last c = take (length c.blocks - 1) c.blocks

  -- `_check_bounds` and the block of the handle
  unfoldable pub block_of : ChunkedArray V → Handle → Option (Block V)
  block_of c h =
      get_elem? c.blocks h.a >>= λ block. if ltb h.b (length block) then some block else none

  -- `operator[]`
  unfoldable pub read : ChunkedArray V → Handle → Option V
  read c h = block_of c h >>= λ block. MemoryBlock.read block h.b

  -- `Accessor::constructed`, `construct` and `destruct`
  unfoldable pub constructed : ChunkedArray V → Handle → Option Bool
  constructed c h = do
    block ← block_of c h
    slot ← get_elem? block h.b
    some (elim slot [ none ↦ false | some _ ↦ true ])

  unfoldable pub construct : Handle → V → ChunkedArray V → Option (ChunkedArray V)
  construct h x c = do
    block ← block_of c h
    block' ← MemoryBlock.construct h.b x block
    some (record c { blocks = set c.blocks h.a block'; num_existing = c.num_existing + 1 })

  unfoldable pub destruct : Handle → ChunkedArray V → Option (ChunkedArray V)
  destruct h c = do
    block ← block_of c h
    block' ← MemoryBlock.destruct h.b block
    some (record c { blocks = set c.blocks h.a block'; num_existing = c.num_existing - 1 })

  -- the first two statements of `emplace_back`
  unfoldable pub add_block : ChunkedArray V → ChunkedArray V
  add_block c =
      let size = c.size + 1 in
      if is_power_of_2 size
      then record c { blocks = c.blocks ++ replicate size none ∷ []; size = size }
      else record c { size = size }

  unfoldable pub emplace_back : V → ChunkedArray V → Option (Handle × ChunkedArray V)
  emplace_back x c₀ = do
    let c : ChunkedArray V = add_block c₀
    block ← last_block c
    let idx : ℕ = c.size - length block
    block' ← MemoryBlock.construct idx x block
    some (
      record { a = length c.blocks - 1; b = idx },
      record c {
        blocks = set c.blocks (length c.blocks - 1) block';
        num_existing = c.num_existing + 1;
      },
    )

  -- The loop of `_pop_back` over the slots without a value, from the last slot down.
  unfoldable pub skip_holes : ℕ → ℕ → ChunkedArray V → Option (ℕ × ChunkedArray V)
  skip_holes zero idx c = none
  skip_holes (suc fuel) idx c = do
    block ← last_block c
    slot ← get_elem? block idx
    let size : ℕ = c.size - 1
    let (idx', blocks) : ℕ × List (Block V) =
        if idx == 0 then (c.size / 2 - 1, without_last c) else (idx - 1, c.blocks)
    elim slot [
      | some _ ↦ some (idx, c)
      | none ↦
          if size == 0
          then none
          else if length blocks == 0
          then none
          else skip_holes fuel idx' (record c { blocks = blocks; size = size })
    ]

  -- `pop_back`
  unfoldable pub pop_back : ChunkedArray V → Option (V × ChunkedArray V)
  pop_back c₀ = if c₀.size == 0 then none else do
    first ← last_block c₀
    (idx, c) ← skip_holes c₀.size (c₀.size - length first) c₀
    block ← last_block c
    result ← MemoryBlock.read block idx
    block' ← MemoryBlock.destruct idx block
    some (
      result,
      record {
        blocks = if idx == 0 then without_last c else set c.blocks (length c.blocks - 1) block';
        size = c.size - 1;
        num_existing = c.num_existing - 1;
      },
    )

  -- `capacity`
  unfoldable pub capacity : ChunkedArray V → ℕ
  capacity c = 2 ^ length c.blocks - 1

  module _ ⦃zeros : LeadingZeros⦄ where
    -- The three loops of `resize`: destruct the elements from `i` on, append blocks, construct
    -- elements.
    unfoldable pub destruct_from : ℕ → ℕ → ChunkedArray V → Option (ChunkedArray V)
    destruct_from zero i c = some c
    destruct_from (suc rounds) i c = do
      let h : Handle = of_index i
      b ← constructed c h
      c' ← if b then destruct h c else some c
      destruct_from rounds (i + 1) c'

    unfoldable pub append_blocks : ℕ → ℕ → List (Block V) → List (Block V)
    append_blocks zero curr_size blocks = blocks
    append_blocks (suc rounds) curr_size blocks =
        append_blocks rounds (curr_size * 2) (blocks ++ replicate curr_size none ∷ [])

    unfoldable pub construct_from : ℕ → ℕ → V → ChunkedArray V → Option (ChunkedArray V)
    construct_from zero i x c = some c
    construct_from (suc rounds) i x c =
        construct (of_index i) x c >>= λ c'. construct_from rounds (i + 1) x c'

    -- `curr_size`
    unfoldable pub next_size : ChunkedArray V → ℕ
    next_size c = elim (last_block c) [ none ↦ 1 | some block ↦ length block * 2 ]

    unfoldable pub resize : ℕ → V → ChunkedArray V → Option (ChunkedArray V)
    resize new_size x c₀ = if new_size == 0 then some empty else do
      c ← destruct_from (c₀.size - new_size) new_size c₀
      let num_blocks : ℕ = bit_scan_reverse new_size + 1
      let blocks : List (Block V) =
          if ltb (length c.blocks) num_blocks
          then append_blocks (num_blocks - length c.blocks) (next_size c) c.blocks
          else take num_blocks c.blocks
      c' ← construct_from (new_size - c₀.size) c₀.size x (record c { blocks = blocks })
      some (record c' { size = new_size })

    -- `_increment` of the iterator, with the rounds of its loop as fuel
    unfoldable pub next_existing : ℕ → Handle → ChunkedArray V → Option Handle
    next_existing zero h c = none
    next_existing (suc fuel) h c = do
      let h' : Handle = increment h
      let rest : Option Handle = next_existing fuel h' c
      i ← to_index h'
      if i == c.size then some h' else (constructed c h' >>= λ b. if b then some h' else rest)
