-- ===== src/ChunkedArray/Skip.antt =====
-- The loop of `pop_back` over the holes.
use mathlib.Core.List.{append_assoc}
use native.Mathlib.Nat.{pow-suc}
use salgo.Base.{
  ℕ, zero, suc, ◌-◌, ◌*◌, ◌/◌, ◌^◌, ◌<◌, ◌≡◌, refl, ap, ap₂, sym, ◌∙◌, true, false, Option, none,
  some, List, [], ◌∷◌, ◌++◌, length, get_elem?, set, take, replicate, ◌==◌, length-append, inl, inr,
  Bool-cases, arith,
}
use salgo.ChunkedArray.{ChunkedArray, last_block, without_last, skip_holes}
use salgo.ChunkedArray.Grow.{Holds, existing, positive_of, pred_lem}
use salgo.MemoryBlock.{Block}
use salgo.UnorderedArray.Erase.{snoc, set_split, get_split}
use salgo.ChunkedArray.Shrink.{Ends, Holds-Ends, slot_at, dropped_block, dropped_slot, take_front}

set_same {ℓ} :
    {A : Type ℓ} (xs : List A) (i : ℕ) (x : A) → get_elem? xs i ≡ some x → set xs i x ≡ xs
set_same [] i x e = refl
set_same (y ∷ xs) zero x e = (let f : y ≡ x = cc in ap (λ z. z ∷ xs) (sym f))
set_same (y ∷ xs) (suc i) x e = ap (λ z. y ∷ z) (set_same xs i x e)

replicate_last {ℓ} : {A : Type ℓ} (m : ℕ) (x : A) → replicate (suc m) x ≡ replicate m x ++ x ∷ []
replicate_last zero x = refl
replicate_last (suc m) x = ap (λ z. x ∷ z) (replicate_last m x)

module _ {ℓ} {V : Type ℓ} where
  existing-append_hole : (vs : List (Option V)) → existing (vs ++ none ∷ []) ≡ existing vs
  existing-append_hole [] = refl
  existing-append_hole (none ∷ vs) = existing-append_hole vs
  existing-append_hole (some y ∷ vs) = ap suc (existing-append_hole vs)

  -- The place of the last slot in the last block.
  pub position : ChunkedArray V → ℕ
  position c = c.size - 2 ^ (length c.blocks - 1)

  module _ (us : List (Option V)) (slot : Option V) (c : ChunkedArray V) (r : Ends us slot c) where
    length-blocks : length c.blocks ≡ suc (length r.front)
    length-blocks = ap length r.blocks_are ∙ length-append r.front (r.block ∷ []) ∙ omega arith

    pub last_is : last_block c ≡ some r.block
    last_is =
        let at : length c.blocks - 1 ≡ length r.front = (let n = length-blocks in omega arith) in
        ap₂ get_elem? r.blocks_are at ∙ get_split r.front r.block []

    pub position_is : position c ≡ r.idx
    unfolding position
    position_is =
        let at : length c.blocks - 1 ≡ length r.front = (let n = length-blocks in omega arith) in
        rw at (let idx = r.idx_is in omega arith)

    pub without_is : without_last c ≡ r.front
    without_is =
        let at : length c.blocks - 1 ≡ length r.front = (let n = length-blocks in omega arith) in
        ap₂ take at r.blocks_are ∙ take_front r.front r.block

    pub set_last : (b : Block V) → set c.blocks (length c.blocks - 1) b ≡ r.front ++ b ∷ []
    set_last b =
        let at : length c.blocks - 1 ≡ length r.front = (let n = length-blocks in omega arith) in
        ap₂ (λ z i. set z i b) r.blocks_are at ∙ set_split r.front r.block [] b

  skip_first :
      (fuel idx : ℕ) (c : ChunkedArray V) (block : Block V)
      → last_block c ≡ some block
      → get_elem? block idx ≡ some none
      → (c.size - 1 == 0) ≡ false
      → (idx == 0) ≡ true
      → (length (without_last c) == 0) ≡ false
      → skip_holes (suc fuel) idx c
        ≡ skip_holes fuel (c.size / 2 - 1) (record c { blocks = without_last c; size = c.size - 1 })
  unfolding skip_holes
  skip_first fuel idx c block e f left first present = rw (e, f, left, first, present) refl

  skip_later :
      (fuel idx : ℕ) (c : ChunkedArray V) (block : Block V)
      → last_block c ≡ some block
      → get_elem? block idx ≡ some none
      → (c.size - 1 == 0) ≡ false
      → (idx == 0) ≡ false
      → (length c.blocks == 0) ≡ false
      → skip_holes (suc fuel) idx c ≡ skip_holes fuel (idx - 1) (record c { size = c.size - 1 })
  unfolding skip_holes
  skip_later fuel idx c block e f left first present = rw (e, f, left, first, present) refl

  skip_stop :
      (fuel idx : ℕ) (c : ChunkedArray V) (block : Block V) (x : V)
      → last_block c ≡ some block
      → get_elem? block idx ≡ some (some x)
      → skip_holes (suc fuel) idx c ≡ some (idx, c)
  unfolding skip_holes
  skip_stop fuel idx c block x e f = rw (e, f) refl

  pub last-Holds :
      (ws : List (Option V)) (c : ChunkedArray V)
      → Holds ws c
      → 0 < length ws
      → (first : Block V) × (last_block c ≡ some first) × (c.size - length first ≡ position c)
  unfolding position
  last-Holds ws c p more =
      let (b, ys, parts) = snoc ws more in
      let r = Holds-Ends ys b c (rw parts at p) in
      let at : length c.blocks - 1 ≡ length r.front =
        (let n = length-blocks ys b c r in omega arith) in
      (r.block, last_is ys b c r, rw (r.width, at) refl)

  -- One round of the loop, at a hole.
  record Skipped (us : List (Option V)) (c c' : ChunkedArray V) : Type ℓ where
    valid : Holds us c'
    round : (fuel : ℕ) → skip_holes (suc fuel) (position c) c ≡ skip_holes fuel (position c') c'

  skip_one :
      (us : List (Option V)) (c : ChunkedArray V)
      → Holds (us ++ none ∷ []) c
      → 0 < length us
      → (c' : ChunkedArray V) × Skipped us c c'
  skip_one us c p more =
      let r = Holds-Ends us none c p in
      let num : c.num_existing ≡ existing us = p.counted ∙ existing-append_hole us in
      let left : (c.size - 1 == 0) ≡ false = (let n = r.size_is in ground arith) in
      let at = position_is us none c r in
      elim (Bool-cases (r.idx == 0)) [
        | inl e ↦
            let first : r.idx ≡ 0 = ground arith in
            let c' : ChunkedArray V = record c { blocks = r.front; size = c.size - 1 } in
            let valid = dropped_block us none c r c.num_existing num first in
            let fits = valid.fits in
            let size = r.size_is in
            let (j, some_block) =
              pred_lem (length r.front) (positive_of (length r.front) (omega arith)) in
            let present : (length r.front == 0) ≡ false = ground arith in
            let present' : (length (without_last c) == 0) ≡ false =
              ap (λ bs. length bs == 0) (without_is us none c r) ∙ present in
            let power : 2 ^ length r.front ≡ 2 ^ j * 2 = ap (λ k. 2 ^ k) some_block ∙ pow-suc 2 j in
            let below : length r.front - 1 ≡ j = omega arith in
            let idx = r.idx_is in
            let half : c.size / 2 - 1 ≡ position c' = unfold position in rw below (omega arith) in
            (
              c',
              record {
                valid = valid;
                round = λ fuel.
                    ap (λ i. skip_holes (suc fuel) i c) at
                    ∙ skip_first fuel r.idx c r.block (last_is us none c r) (slot_at us none c r)
                        left e present'
                    ∙ ap₂
                        (λ i bs. skip_holes fuel i (record {
                          blocks = bs;
                          size = c.size - 1;
                          num_existing = c.num_existing;
                        }))
                        half (without_is us none c r);
              },
            )
        | inr e ↦
            let later : 0 < r.idx = ground arith in
            let c' : ChunkedArray V = record c { size = c.size - 1 } in
            let present : (length c.blocks == 0) ≡ false =
              (let n = length-blocks us none c r in ground arith) in
            let same : r.front ++ set r.block r.idx none ∷ [] ≡ c.blocks =
              ap (λ b. r.front ++ b ∷ []) (set_same r.block r.idx none (slot_at us none c r))
              ∙ sym r.blocks_are in
            let valid = dropped_slot us none c r c.num_existing num later in
            let back : r.idx - 1 ≡ position c' =
              unfold position in
              rw
                (let n = length-blocks us none c r in
                  (let f : length c.blocks - 1 ≡ length r.front = omega arith in f))
                (let idx = r.idx_is in omega arith) in
            (
              c',
              record {
                valid = rw same at valid;
                round = λ fuel.
                    ap (λ i. skip_holes (suc fuel) i c) at
                    ∙ skip_later fuel r.idx c r.block (last_is us none c r) (slot_at us none c r)
                        left e present
                    ∙ ap (λ i. skip_holes fuel i c') back;
              },
            )
      ]

  -- The loop ends at the last value.
  pub skip_holes-Holds :
      (vs : List (Option V)) (x : V) (m fuel : ℕ) (c : ChunkedArray V)
      → Holds (vs ++ some x ∷ replicate m none) c
      → m < fuel
      → (c' : ChunkedArray V) × (skip_holes fuel (position c) c ≡ some (position c', c'))
        × Holds (vs ++ some x ∷ []) c'
  skip_holes-Holds vs x m zero c p h = absurd (omega arith)
  skip_holes-Holds vs x zero (suc fuel) c p h =
      let r = Holds-Ends vs (some x) c p in
      let at = position_is vs (some x) c r in
      (
        c,
        (ap (λ i. skip_holes (suc fuel) i c) at
            ∙ skip_stop fuel r.idx c r.block x (last_is vs (some x) c r) (slot_at vs (some x) c r)
            ∙ ap (λ i. some (i, c)) (sym at)),
        p,
      )
  skip_holes-Holds vs x (suc m) (suc fuel) c p h =
      let us = vs ++ some x ∷ replicate m none in
      let regroup : vs ++ some x ∷ replicate (suc m) none ≡ us ++ none ∷ [] =
        ap (λ z. vs ++ some x ∷ z) (replicate_last m none)
        ∙ sym (append_assoc vs (some x ∷ replicate m none) (none ∷ [])) in
      let (c₁, s) =
        skip_one us c (rw regroup at p)
          (omega (arith, length-append vs (some x ∷ replicate m none))) in
      let (c', run, q) = skip_holes-Holds vs x m fuel c₁ s.valid (omega arith) in
      (c', s.round fuel ∙ run, q)
