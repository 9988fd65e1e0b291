-- ===== src/ChunkedArray/Slots.antt =====
-- Elements constructed and destructed at the handle of an index.
use salgo.Base.{
  ℕ, zero, suc, ◌+◌, ◌-◌, ◌^◌, ◌<◌, ◌≡◌, refl, Bool, true, false, Option, none, some, List, [], ◌∷◌,
  length, get_elem?, set, arith,
}
use salgo.ChunkedArray.{LeadingZeros, ChunkedArray, of_index, constructed, construct, destruct}
use salgo.ChunkedArray.Access.{of_index-Located}
use salgo.ChunkedArray.Grow.{Holds, existing}
use salgo.MemoryBlock

module _ {ℓ} {V : Type ℓ} where
  existing-set-some :
      (vs : List (Option V)) (i : ℕ) (x : V)
      → get_elem? vs i ≡ some none
      → existing (set vs i (some x)) ≡ existing vs + 1
  existing-set-some [] i x e = cc
  existing-set-some (none ∷ vs) zero x e = omega arith
  existing-set-some (some y ∷ vs) zero x e = cc
  existing-set-some (none ∷ vs) (suc i) x e = existing-set-some vs i x e
  existing-set-some (some y ∷ vs) (suc i) x e =
      let rest = existing-set-some vs i x e in omega (arith, rest)

  existing-set-none :
      (vs : List (Option V)) (i : ℕ) {x : V}
      → get_elem? vs i ≡ some (some x)
      → existing (set vs i none) + 1 ≡ existing vs
  existing-set-none [] i e = cc
  existing-set-none (none ∷ vs) zero e = cc
  existing-set-none (some y ∷ vs) zero e = omega arith
  existing-set-none (none ∷ vs) (suc i) e = existing-set-none vs i e
  existing-set-none (some y ∷ vs) (suc i) e =
      let rest = existing-set-none vs i e in omega (arith, rest)

  abbrev pub is_some : Option V → Bool
  is_some none = false
  is_some (some x) = true

  module _ ⦃zeros : LeadingZeros⦄ where
    -- `constructed` tells whether a slot holds a value.
    pub constructed-of_index :
        (vs : List (Option V)) (c : ChunkedArray V) (i : ℕ) (slot : Option V)
        → Holds vs c
        → get_elem? vs i ≡ some slot
        → i < length vs
        → i + 1 < 2 ^ 32
        → constructed c (of_index i) ≡ some (is_some slot)
    unfolding constructed
    constructed-of_index vs c i none p e lt small =
        let at = of_index-Located vs c i p lt small in rw (at.found, at.slot, e) refl
    constructed-of_index vs c i (some x) p e lt small =
        let at = of_index-Located vs c i p lt small in rw (at.found, at.slot, e) refl

    -- `construct` in a hole puts the value there.
    pub construct-of_index :
        (vs : List (Option V)) (c : ChunkedArray V) (i : ℕ) (x : V)
        → Holds vs c
        → get_elem? vs i ≡ some none
        → i < length vs
        → i + 1 < 2 ^ 32
        → (c' : ChunkedArray V) × (construct (of_index i) x c ≡ some c')
          × Holds (set vs i (some x)) c'
    unfolding construct MemoryBlock.construct
    construct-of_index vs c i x p e lt small =
        let at = of_index-Located vs c i p lt small in
        let num = p.counted in
        (
          _,
          rw (at.found, at.slot, e) refl,
          at.written (some x) (c.num_existing + 1) (omega (arith, existing-set-some vs i x e, num)),
        )

    -- `destruct` of a value leaves a hole.
    pub destruct-of_index :
        (vs : List (Option V)) (c : ChunkedArray V) (i : ℕ) (x : V)
        → Holds vs c
        → get_elem? vs i ≡ some (some x)
        → i < length vs
        → i + 1 < 2 ^ 32
        → (c' : ChunkedArray V) × (destruct (of_index i) c ≡ some c') × Holds (set vs i none) c'
    unfolding destruct MemoryBlock.destruct MemoryBlock.read
    destruct-of_index vs c i x p e lt small =
        let at = of_index-Located vs c i p lt small in
        let num = p.counted in
        (
          _,
          rw (at.found, at.slot, e) refl,
          at.written none (c.num_existing - 1) (omega (arith, existing-set-none vs i e, num)),
        )
