-- ===== src/ChunkedArray/Emplace.antt =====
-- `emplace_back` appends, and access by index reads.
use mathlib.Core.List.{append_assoc}
use native.Mathlib.Nat.{pow-zero, pow-suc}
use salgo.Base.{
  ℕ, suc, ◌+◌, ◌-◌, ◌^◌, ◌<◌, ◌≡◌, refl, ap, ap₂, sym, ◌∙◌, Option, none, some, List, [], ◌∷◌, ◌++◌,
  flatten, length, get_elem?, set, replicate, length-append, length-set, arith,
}
use salgo.ChunkedArray.{LeadingZeros, ChunkedArray, of_index, add_block, emplace_back}
use salgo.ChunkedArray.Blocks.{
  Doubling-append, length-flatten-Doubling, flatten-append_one, get_elem?-append_right,
  set-append_right,
}
use salgo.ChunkedArray.Handles.{IsHandle, of_index_unique}
use salgo.MemoryBlock.{Block}
use salgo.MemoryBlock
use salgo.UnorderedArray.Erase.{set_split, get_split}
use salgo.ChunkedArray.Grow.{Holds, Roomy, add_block-Roomy, existing-append_one}

module _ {ℓ} {V : Type ℓ} where
  length-last :
      (front : List (Block V)) (block : Block V) → length (front ++ block ∷ []) - 1 ≡ length front
  length-last front block = omega (arith, length-append front (block ∷ []))

  -- The slot after those of `vs` in the last block, read and written.
  module _ (vs rest : List (Option V)) (front : List (Block V)) (block : Block V) (idx : ℕ)
      (at : length (flatten front) + idx ≡ length vs)
      (slots : flatten front ++ block ≡ vs ++ none ∷ rest) where
    next-free : get_elem? block idx ≡ some none
    next-free =
        sym (get_elem?-append_right (flatten front) block idx)
        ∙ ap₂ get_elem? slots at
        ∙ get_split vs none rest

    next_filled :
        (x : V) → flatten (front ++ set block idx (some x) ∷ []) ≡ (vs ++ some x ∷ []) ++ rest
    next_filled x =
        flatten-append_one front (set block idx (some x))
        ∙ sym (set-append_right (flatten front) block idx (some x))
        ∙ ap₂ (λ z i. set z i (some x)) slots at
        ∙ set_split vs none rest (some x)
        ∙ sym (append_assoc vs (some x ∷ []) rest)

  construct_free :
      (block : Block V) (i : ℕ) (x : V)
      → get_elem? block i ≡ some none
      → MemoryBlock.construct i x block ≡ some (set block i (some x))
  unfolding MemoryBlock.construct
  construct_free block i x e = rw e

  module _ (vs : List (Option V)) (x : V) (g : ChunkedArray V) (r : Roomy vs g) where
    spot : ℕ
    spot = g.size - length r.block

    filled_in : ChunkedArray V
    filled_in = record {
      blocks = r.front ++ set r.block spot (some x) ∷ [];
      size = g.size;
      num_existing = g.num_existing + 1;
    }

    length-front : length (flatten r.front) + 1 ≡ 2 ^ length r.front
    length-front =
        let total = length-flatten-Doubling 0 r.front r.doubling in
        let zeroth : 0 + length r.front ≡ length r.front = omega arith in
        let all = rw zeroth at total in omega (arith, all, pow-zero 2)

    spot_at : length (flatten r.front) + spot ≡ length vs
    unfolding spot
    spot_at = omega (arith, length-front, r.width, r.from, r.size_is)

    filled_in-Holds : Holds (vs ++ some x ∷ []) filled_in
    unfolding filled_in
    filled_in-Holds =
        let count : length (r.front ++ set r.block spot (some x) ∷ []) ≡ suc (length r.front) =
          length-append r.front (set r.block spot (some x) ∷ []) ∙ omega arith in
        let power : 2 ^ length (r.front ++ set r.block spot (some x) ∷ [])
            ≡ 2 ^ length r.front + 2 ^ length r.front =
          ap (λ k. 2 ^ k) count ∙ pow-suc 2 (length r.front) ∙ omega arith in
        let zeroth : 0 + length r.front ≡ length r.front = omega arith in
        record {
          doubling =
              Doubling-append 0 r.front (set r.block spot (some x)) r.doubling
                (length-set r.block spot (some x) ∙ r.width ∙ ap (λ k. 2 ^ k) (sym zeroth));
          size_is = r.size_is ∙ sym (length-append vs (some x ∷ []));
          needed = (let from = r.from in omega arith);
          fits = (let below = r.below in omega arith);
          gap = r.gap;
          slots = next_filled vs (replicate r.gap none) r.front r.block spot spot_at r.slots x;
          counted = (let n = r.counted in omega (arith, existing-append_one vs x));
        }

    -- The handle that `emplace_back` returns.
    filled_in-IsHandle : IsHandle (length vs) (record { a = length r.front; b = spot })
    unfolding spot
    filled_in-IsHandle = record {
      number = omega (arith, r.width, r.from, r.size_is);
      inside = omega (arith, r.width, r.from, r.below);
    }

  module _ ⦃zeros : LeadingZeros⦄ where
    -- `emplace_back` on an array of fewer than `2 ^ 32 - 1` slots does not fault: it appends the
    -- value, also when it is the first of a block, and returns the handle of its index.
    pub emplace_back-Appended :
        (vs : List (Option V)) (x : V) (c : ChunkedArray V)
        → Holds vs c
        → length vs + 1 < 2 ^ 32
        → (c' : ChunkedArray V) × (emplace_back x c ≡ some (of_index (length vs), c'))
          × Holds (vs ++ some x ∷ []) c'
    unfolding emplace_back filled_in spot
    emplace_back-Appended vs x c p small =
        let r = add_block-Roomy vs c p in
        let at = spot_at vs x (add_block c) r in
        let free =
          next-free vs (replicate r.gap none) r.front r.block (spot vs x (add_block c) r) at
            r.slots in
        let handle =
          of_index_unique (length vs) _ small (filled_in-IsHandle vs x (add_block c) r) in
        (
          filled_in vs x (add_block c) r,
          rw
              (
                r.blocks_are,
                length-last r.front r.block,
                get_split r.front r.block [],
                construct_free r.block ((add_block c).size - length r.block) x free,
                set_split r.front r.block []
                    (set r.block ((add_block c).size - length r.block) (some x)),
                handle,
              )
              refl,
          filled_in-Holds vs x (add_block c) r,
        )
