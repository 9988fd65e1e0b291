-- ===== src/Alloc/Crude.antt =====
-- include/salgo/_/alloc/crude-allocator.hpp: `Crude_Allocator`, which hands out the slots of
-- blocks that grow, and never a slot twice. A block is the list of its slots; a slot that holds
-- no constructed value is `none`. `none` in a result is a fault.
pub mod Handles
pub mod Construct
use salgo.Base.{
  ℕ, ◌+◌, ◌-◌, ◌*◌, ◌/◌, ◌%◌, ◌^◌, bit_or, Option, none, some, List, [], ◌∷◌, ◌++◌, length,
  get_elem?, get_or, set, replicate, leb, ltb, ◌&&◌, if◌then◌else◌, ◌>>=◌,
}
use Prim.Native.Nat.{bit_and}

pub record Handle : Type 0 where
  pub a : ℕ
  pub b : ℕ

-- the number of bits of the index in a block
abbrev pub div_bits : ℕ
div_bits = 27

-- the constructor of `Handle`, which checks its parts
unfoldable pub make_handle : (aa bb : ℕ) → Option Handle
make_handle aa bb =
    if ltb aa (2 ^ (32 - div_bits)) && ltb bb (2 ^ div_bits)
    then some (record { a = aa; b = bb })
    else none

-- `Handle_Small& operator=(const Handle<X>&)`, which packs a handle in 32 bits
unfoldable pub pack : Handle → ℕ
pack h = bit_or (h.a * 2 ^ div_bits % 2 ^ 32) h.b

-- `operator Handle<X>()`
unfoldable pub unpack : ℕ → Handle
unpack v = record { a = v / 2 ^ div_bits; b = bit_and v (2 ^ div_bits - 1) }

pub record CrudeAllocator {ℓ} (V : Type ℓ) : Type ℓ where
  pub blocks : List (List (Option V))
  pub current_filled : ℕ
  pub current_max_size : ℕ

abbrev pub empty {ℓ} : {V : Type ℓ} → CrudeAllocator V
empty = record { blocks = []; current_filled = 0; current_max_size = 0 }

module _ {ℓ} {V : Type ℓ} where
  -- the first statement of `construct`: a new block where the last is full
  unfoldable pub grow : CrudeAllocator V → CrudeAllocator V
  grow s =
      if leb s.current_max_size s.current_filled
      then (let size = (s.current_max_size + 1) * 2 in
          record {
            blocks = s.blocks ++ replicate size none ∷ [];
            current_filled = 0;
            current_max_size = size;
          })
      else s

  unfoldable pub construct : V → CrudeAllocator V → Option (Handle × CrudeAllocator V)
  construct x s₀ =
      let s = grow s₀ in
      let a = length s.blocks - 1 in
      let block = set (get_or s.blocks a []) s.current_filled (some x) in
      make_handle a s.current_filled >>= λ handle.
      some
        (handle, record s { blocks = set s.blocks a block; current_filled = s.current_filled + 1 })

  -- `operator[]`
  unfoldable pub read : CrudeAllocator V → Handle → Option V
  read s h = get_elem? (get_or s.blocks h.a []) h.b >>= λ slot. slot

  unfoldable pub destruct : Handle → CrudeAllocator V → Option (CrudeAllocator V)
  destruct h s = read s h >>= λ x.
      some (record s { blocks = set s.blocks h.a (set (get_or s.blocks h.a []) h.b none) })
