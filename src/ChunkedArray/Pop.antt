-- ===== src/ChunkedArray/Pop.antt =====
-- `pop_back`.
use salgo.Base.{
  ℕ, ◌-◌, ◌≡◌, refl, ap, ◌∙◌, false, Option, none, some, List, [], ◌∷◌, ◌++◌, length, get_elem?,
  set, replicate, ◌==◌, if◌then◌else◌, length-append, length-replicate, inl, inr, Bool-cases, arith,
}
use salgo.ChunkedArray.{ChunkedArray, last_block, without_last, skip_holes, pop_back}
use salgo.ChunkedArray.Grow.{Holds, existing, existing-append_one}
use salgo.MemoryBlock.{Block}
use salgo.MemoryBlock
use salgo.ChunkedArray.Shrink.{Ends, Holds-Ends, slot_at, dropped_block, dropped_slot}
use salgo.ChunkedArray.Skip.{
  last_is, position_is, without_is, set_last, skip_holes-Holds, last-Holds,
}

module _ {ℓ} {V : Type ℓ} where
  -- The statements of `pop_back` after the loop, at the last slot.
  pop_step :
      (x : V) (c₀ c : ChunkedArray V) (idx : ℕ) (first block : Block V)
      → (c₀.size == 0) ≡ false
      → last_block c₀ ≡ some first
      → skip_holes c₀.size (c₀.size - length first) c₀ ≡ some (idx, c)
      → last_block c ≡ some block
      → get_elem? block idx ≡ some (some x)
      → pop_back c₀
        ≡ some (
          x,
          record {
            blocks =
                if idx == 0
                then without_last c
                else set c.blocks (length c.blocks - 1) (set block idx none);
            size = c.size - 1;
            num_existing = c.num_existing - 1;
          },
        )
  unfolding pop_back MemoryBlock.read MemoryBlock.destruct
  pop_step x c₀ c idx first block some_left e run f at = rw (some_left, e, run, f, at) refl

  left-Holds :
      (vs : List (Option V)) (x : V) (c : ChunkedArray V) (r : Ends vs (some x) c)
      → Holds (vs ++ some x ∷ []) c
      → Holds vs (record {
        blocks =
            if r.idx == 0
            then without_last c
            else set c.blocks (length c.blocks - 1) (set r.block r.idx none);
        size = c.size - 1;
        num_existing = c.num_existing - 1;
      })
  left-Holds vs x c r p =
      let num : c.num_existing - 1 ≡ existing vs =
        (let n = p.counted in omega (arith, existing-append_one vs x)) in
      elim (Bool-cases (r.idx == 0)) [
        | inl e ↦
            rw (e, without_is vs (some x) c r)
              (dropped_block vs (some x) c r (c.num_existing - 1) num (ground arith))
        | inr e ↦
            rw (e, set_last vs (some x) c r (set r.block r.idx none))
              (dropped_slot vs (some x) c r (c.num_existing - 1) num (ground arith))
      ]

  -- `pop_back` on an array with a value does not fault, and its loop ends: it returns the last
  -- value, and leaves the slots before it, without the holes after it and their blocks.
  pub pop_back-Popped :
      (vs : List (Option V)) (x : V) (m : ℕ) (c : ChunkedArray V)
      → Holds (vs ++ some x ∷ replicate m none) c
      → (c' : ChunkedArray V) × (pop_back c ≡ some (x, c')) × Holds vs c'
  pop_back-Popped vs x m c p =
      let ws = vs ++ some x ∷ replicate m none in
      let long = length-append vs (some x ∷ replicate m none) in
      let size = p.size_is in
      let (first, last, at) = last-Holds ws c p (omega arith) in
      let some_left : (c.size == 0) ≡ false = ground arith in
      let (c', run, q) =
        skip_holes-Holds vs x m c.size c p
          (omega (arith, length-replicate {A = Option V} m none)) in
      let r = Holds-Ends vs (some x) c' q in
      let end = position_is vs (some x) c' r in
      let loop = ap (λ i. skip_holes c.size i c) at ∙ run ∙ ap (λ i. some (i, c')) end in
      (
        _,
        pop_step x c c' r.idx first r.block some_left last loop (last_is vs (some x) c' r)
            (slot_at vs (some x) c' r),
        left-Holds vs x c' r q,
      )
