-- ===== src/Alloc/Random.antt =====
-- include/salgo/_/alloc/random-allocator.hpp: `Random_Allocator`, a chunked array with holes whose
-- free slots are found by random draws. The state of the generator is part of the state; `none` in
-- a result is a failed DCHECK or fuel that runs out.
pub mod Construct
use Prim.Native.Nat.{bit_and}
use salgo.Base.{
  ℕ, zero, suc, ◌+◌, ◌*◌, Bool, true, false, ◌||◌, Option, none, some, ltb, leb, ◌==◌,
  if◌then◌else◌, ◌>>=◌,
}
use salgo.ChunkedArray.{
  LeadingZeros, Handle, ChunkedArray, of_index, constructed, emplace_back, capacity,
}
use salgo.ChunkedArray
use salgo.Rand.{State, rand_32}

pub record RandomAllocator {ℓ} (V : Type ℓ) : Type ℓ where
  pub v : ChunkedArray V
  pub generator : State

module _ {ℓ} {V : Type ℓ} ⦃zeros : LeadingZeros⦄ where
  -- The loop over at most 10 elements from a random index on: the free index that it finds, or `none`
  -- inside where it finds none.
  unfoldable pub scan : (rounds new_idx : ℕ) → ChunkedArray V → Option (Option ℕ)
  scan zero new_idx v = some none
  scan (suc rounds) new_idx v =
      let rest = scan rounds (new_idx + 1) v in
      if leb v.size new_idx
      then some none
      else (constructed v (of_index new_idx) >>= λ b. if b then rest else some (some new_idx))

  -- The loop that draws indices.
  unfoldable pub search : ℕ → V → RandomAllocator V → Option (Handle × RandomAllocator V)
  search zero x r = none
  search (suc fuel) x r =
      if bit_and r.v.size (r.v.size + 1) == 0
      then (let (draw, generator) = rand_32 r.generator in
          let idx = bit_and draw r.v.size in
          let again = search fuel x (record r { generator = generator }) in
          scan 10 idx r.v >>= λ found. elim found [
            | none ↦ again
            | some i ↦ ChunkedArray.construct (of_index i) x r.v >>= λ v.
                some (of_index i, record { v = v; generator = generator })
          ])
      else none

  -- `construct`
  unfoldable pub construct : ℕ → V → RandomAllocator V → Option (Handle × RandomAllocator V)
  construct fuel x r =
      if ltb r.v.size (capacity r.v) || leb r.v.size (r.v.num_existing * 2)
      then (emplace_back x r.v >>= λ e. some (e.0, record r { v = e.1 }))
      else search fuel x r

  -- `operator[]` and `Accessor::destruct`
  unfoldable pub read : RandomAllocator V → Handle → Option V
  read r h = ChunkedArray.read r.v h

  unfoldable pub destruct : Handle → RandomAllocator V → Option (RandomAllocator V)
  destruct h r = ChunkedArray.destruct h r.v >>= λ v. some (record r { v = v })
