-- ===== src/ChunkedArray/Shrink.antt =====
-- An array without its last slot.
use mathlib.Core.List.{append_assoc, append-nil}
use native.Mathlib.Nat.{pow-zero, pow-suc}
use salgo.Base.{
  ℕ, suc, ◌+◌, ◌-◌, ◌*◌, ◌^◌, ◌<◌, ◌≡◌, refl, ap, ap₂, sym, ◌∙◌, Option, none, some, List, [], ◌∷◌,
  ◌++◌, flatten, length, get_elem?, set, take, replicate, length-append, length-set, arith,
}
use salgo.ChunkedArray.{ChunkedArray}
use salgo.ChunkedArray.Blocks.{
  Doubling, Doubling-append, Doubling-split, length-flatten-Doubling, flatten-append_one,
  get_elem?-append_right, set-append_right,
}
use salgo.ChunkedArray.Grow.{Holds, existing, positive_of}
use salgo.MemoryBlock.{Block}
use salgo.UnorderedArray.Erase.{snoc, set_split, get_split}

module _ {ℓ} {A : Type ℓ} where
  -- Lists of the same length that begin the same list are the same.
  prefix_lem : (us vs xs ys : List A) → length us ≡ length vs → us ++ xs ≡ vs ++ ys → us ≡ vs
  prefix_lem [] [] xs ys n e = refl
  prefix_lem [] (v ∷ vs) xs ys n e = absurd (omega arith)
  prefix_lem (u ∷ us) [] xs ys n e = absurd (omega arith)
  prefix_lem (u ∷ us) (v ∷ vs) xs ys n e =
      let head : u ≡ v = cc in
      let tails : us ++ xs ≡ vs ++ ys = cc in
      let rest = prefix_lem us vs xs ys (omega arith) tails in cc

  pub take_front : (xs : List A) (x : A) → take (length xs) (xs ++ x ∷ []) ≡ xs
  take_front [] x = refl
  take_front (y ∷ xs) x = ap (λ z. y ∷ z) (take_front xs x)

module _ {ℓ} {V : Type ℓ} where
  -- The last slot `slot` after `us` is the slot `idx` of the block after `front`.
  pub record Ends (us : List (Option V)) (slot : Option V) (c : ChunkedArray V) : Type ℓ where
    pub front : List (Block V)
    pub block : Block V
    pub idx : ℕ
    pub gap : ℕ
    pub blocks_are : c.blocks ≡ front ++ block ∷ []
    pub doubling : Doubling 0 front
    pub width : length block ≡ 2 ^ length front
    pub size_is : c.size ≡ length us + 1
    pub idx_is : c.size ≡ idx + 2 ^ length front
    pub inside : idx < 2 ^ length front
    pub before : length (flatten front) + 1 ≡ 2 ^ length front
    pub slots : flatten front ++ block ≡ us ++ slot ∷ replicate gap none

  pub Holds-Ends :
      (us : List (Option V)) (slot : Option V) (c : ChunkedArray V)
      → Holds (us ++ slot ∷ []) c
      → Ends us slot c
  Holds-Ends us slot c p =
      let size : c.size ≡ length us + 1 = p.size_is ∙ length-append us (slot ∷ []) in
      let fits = p.fits in
      let inhabited : 0 < length c.blocks = positive_of (length c.blocks) (omega arith) in
      let (block, front, parts) = snoc c.blocks inhabited in
      let (doubling, width) = Doubling-split 0 front block (rw parts at p.doubling) in
      let zeroth : 0 + length front ≡ length front = omega arith in
      let count : length c.blocks ≡ suc (length front) =
        ap length parts ∙ length-append front (block ∷ []) ∙ omega arith in
      let power : 2 ^ length c.blocks ≡ 2 * 2 ^ length front =
        ap (λ k. 2 ^ k) count ∙ pow-suc 2 (length front) ∙ omega arith in
      let needed = p.needed in
      let total = rw zeroth at (length-flatten-Doubling 0 front doubling) in
      record {
        front = front;
        block = block;
        idx = c.size - 2 ^ length front;
        gap = p.gap;
        blocks_are = parts;
        doubling = doubling;
        width = rw zeroth at width;
        size_is = size;
        idx_is = omega arith;
        inside = omega arith;
        before = omega (arith, total, pow-zero 2);
        slots =
            sym (flatten-append_one front block)
            ∙ ap flatten (sym parts)
            ∙ p.slots
            ∙ append_assoc us (slot ∷ []) (replicate p.gap none);
      }

  -- What is left without the last slot: its block is dropped with its first slot.
  module _ (us : List (Option V)) (slot : Option V) (c : ChunkedArray V) (r : Ends us slot c) where
    pub slot_at : get_elem? r.block r.idx ≡ some slot
    slot_at =
        let at : length (flatten r.front) + r.idx ≡ length us =
          omega (arith, r.before, r.idx_is, r.size_is) in
        sym (get_elem?-append_right (flatten r.front) r.block r.idx)
        ∙ ap₂ get_elem? r.slots at
        ∙ get_split us slot (replicate r.gap none)

    pub dropped_block :
        (n : ℕ)
        → n ≡ existing us
        → r.idx ≡ 0
        → Holds us (record { blocks = r.front; size = c.size - 1; num_existing = n })
    dropped_block n num first =
        let size = r.size_is in
        let idx = r.idx_is in
        let before = r.before in
        record {
          doubling = r.doubling;
          size_is = omega arith;
          needed = omega arith;
          fits = omega arith;
          gap = 0;
          slots =
              prefix_lem (flatten r.front) us r.block (slot ∷ replicate r.gap none) (omega arith)
                r.slots
              ∙ sym (append-nil us);
          counted = num;
        }

    pub dropped_slot :
        (n : ℕ)
        → n ≡ existing us
        → 0 < r.idx
        → Holds us (record {
          blocks = r.front ++ set r.block r.idx none ∷ [];
          size = c.size - 1;
          num_existing = n;
        })
    dropped_slot n num later =
        let size = r.size_is in
        let idx = r.idx_is in
        let inside = r.inside in
        let at : length (flatten r.front) + r.idx ≡ length us = omega (arith, r.before) in
        let zeroth : 0 + length r.front ≡ length r.front = omega arith in
        let count : length (r.front ++ set r.block r.idx none ∷ []) ≡ suc (length r.front) =
          length-append r.front (set r.block r.idx none ∷ []) ∙ omega arith in
        let power : 2 ^ length (r.front ++ set r.block r.idx none ∷ []) ≡ 2 * 2 ^ length r.front =
          ap (λ k. 2 ^ k) count ∙ pow-suc 2 (length r.front) ∙ omega arith in
        record {
          doubling =
              Doubling-append 0 r.front (set r.block r.idx none) r.doubling
                (length-set r.block r.idx none ∙ r.width ∙ ap (λ k. 2 ^ k) (sym zeroth));
          size_is = omega arith;
          needed = omega arith;
          fits = omega arith;
          gap = suc r.gap;
          slots =
              flatten-append_one r.front (set r.block r.idx none)
              ∙ sym (set-append_right (flatten r.front) r.block r.idx none)
              ∙ ap₂ (λ z i. set z i none) r.slots at
              ∙ set_split us slot (replicate r.gap none) none;
          counted = num;
        }
