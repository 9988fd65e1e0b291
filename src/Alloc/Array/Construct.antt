-- ===== src/Alloc/Array/Construct.antt =====
-- `construct` finds a free slot.
use salgo.Base.{
  ℕ, zero, suc, ◌+◌, ◌-◌, ◌*◌, ◌≤◌, ◌<◌, ◌≡◌, ◌≢◌, refl, ap, sym, ◌∙◌, Option, none, some, ◌⊎◌,
  Option-cases, List, [], ◌∷◌, ◌++◌, if◌then◌else◌, length, get_elem?, set, replicate, leb, inl,
  inr, Bool-cases, arith, length-append, length-replicate, length-set, get_elem?-set_self,
  get_elem?-set_ne,
}
use salgo.Alloc.Array.{ArrayAllocator, grow, advance, probe, construct}
use salgo.MemoryBlock
use salgo.MemoryBlock.{Block}
use salgo.MemoryBlock.Compact.{values}
use salgo.MemoryBlock.Resize.{resize-grow}

module _ {ℓ} {A : Type ℓ} where
  get_elem?-lt : (s : List A) (i : ℕ) {x : A} → get_elem? s i ≡ some x → i < length s
  get_elem?-lt [] i e = cc
  get_elem?-lt (y ∷ s) zero e = omega arith
  get_elem?-lt (y ∷ s) (suc i) e = omega (arith, get_elem?-lt s i e)

  get_elem?-some : (s : List A) (i : ℕ) → i < length s → (x : A) × (get_elem? s i ≡ some x)
  get_elem?-some [] i h = absurd (omega arith)
  get_elem?-some (y ∷ s) zero h = (y, refl)
  get_elem?-some (y ∷ s) (suc i) h = get_elem?-some s i (omega arith)

-- How far the probe at `i` is from the index `j`.
abbrev distance : ℕ → ℕ → ℕ → ℕ
distance n i j = if leb i j then j - i else n - i + j

module _ {ℓ} {V : Type ℓ} where
  -- `num_existing` counts the values, and `lookup_index` is 0 or in bounds.
  pub record IsValid (s : ArrayAllocator V) : Type ℓ where
    pub counted : s.num_existing ≡ length (values s.v)
    pub bounded : (s.lookup_index ≡ 0) ⊎ (s.lookup_index < length s.v)

  free_slot : (s : Block V) → length (values s) < length s → (j : ℕ) × (get_elem? s j ≡ some none)
  unfolding values
  free_slot [] h = absurd (omega arith)
  free_slot (none ∷ s) h = (0, refl)
  free_slot (some x ∷ s) h = let (j, e) = free_slot s (omega arith) in (suc j, e)

  probe-free :
      (s : Block V) (j : ℕ)
      → get_elem? s j ≡ some none
      → (fuel i : ℕ) → i < length s
      → distance (length s) i j < fuel
      → (r : ℕ) × (probe fuel s i ≡ some r) × (get_elem? s r ≡ some none)
  unfolding probe advance
  probe-free s j e zero i h near = absurd (omega arith)
  probe-free s j e (suc fuel) i h near =
      let (slot, at) = get_elem?-some s i h in
      elim (Option-cases slot) [
        | inl free ↦ (i, rw (at, free) refl, at ∙ ap some free)
        | inr (x, taken) ↦
            let apart : i ≢ j = λ same.
              (let bad : some none ≡ some (some x) =
                  sym e ∙ ap (get_elem? s) (sym same) ∙ at ∙ ap some taken in
                cc) in
            let lt = get_elem?-lt s j e in
            let next = advance (length s) i in
            let inside : next < length s = ground arith in
            let nearer : distance (length s) next j < fuel = ground (arith, apart) in
            let (r, run, free) = probe-free s j e fuel next inside nearer in
            (r, rw (at, taken) run, free)
      ]

  count-set :
      (s : Block V) (i : ℕ) (x : V)
      → get_elem? s i ≡ some none
      → length (values (set s i (some x))) ≡ length (values s) + 1
  unfolding values
  count-set [] i x e = cc
  count-set (none ∷ s) zero x e = omega arith
  count-set (some y ∷ s) zero x e = cc
  count-set (none ∷ s) (suc i) x e = count-set s i x e
  count-set (some y ∷ s) (suc i) x e = omega (arith, count-set s i x e)

  values-le : (s : Block V) → length (values s) ≤ length s
  unfolding values
  values-le [] = omega arith
  values-le (none ∷ s) = omega (arith, values-le s)
  values-le (some x ∷ s) = omega (arith, values-le s)

  construct_free :
      (s : Block V) (i : ℕ) (x : V)
      → get_elem? s i ≡ some none
      → MemoryBlock.construct i x s ≡ some (set s i (some x))
  unfolding MemoryBlock.construct
  construct_free s i x e = rw e

  values-gap : (s : Block V) (n : ℕ) → values (s ++ replicate n none) ≡ values s
  unfolding values
  values-gap [] zero = refl
  values-gap [] (suc n) = values-gap [] n
  values-gap (none ∷ s) n = values-gap s n
  values-gap (some x ∷ s) n = ap (λ t. x ∷ t) (values-gap s n)

  read-gap :
      (s : Block V) (n i : ℕ) → MemoryBlock.read (s ++ replicate n none) i ≡ MemoryBlock.read s i
  unfolding MemoryBlock.read
  read-gap [] zero i = refl
  read-gap [] (suc n) zero = refl
  read-gap [] (suc n) (suc i) = read-gap [] n i
  read-gap (x ∷ s) n zero = refl
  read-gap (x ∷ s) n (suc i) = read-gap s n i

  -- After `grow` there is a free slot, and the values are where they were.
  record Grown (s g : ArrayAllocator V) : Type ℓ where
    same_count : g.num_existing ≡ s.num_existing
    counted : g.num_existing ≡ length (values g.v)
    free : g.num_existing < length g.v
    inside : g.lookup_index < length g.v
    reads : (i : ℕ) → MemoryBlock.read g.v i ≡ MemoryBlock.read s.v i

  grow-Grown :
      (s : ArrayAllocator V) → IsValid s → (g : ArrayAllocator V) × (grow s ≡ some g) × Grown s g
  unfolding grow
  grow-Grown s v = elim (Bool-cases (leb (length s.v) (s.num_existing * 2))) [
    | inl full ↦
        let n = length s.v * 2 + 1 in
        let e = resize-grow 0 n s.v (omega arith) in
        let more = length-append s.v (replicate {A = Option V} (n - length s.v) none) in
        let size = length-replicate {A = Option V} (n - length s.v) none in
        let t = s.v ++ replicate (n - length s.v) none in
        (
          record s { v = t },
          rw (full, e),
          record {
            same_count = refl;
            counted = v.counted ∙ ap length (sym (values-gap s.v (n - length s.v)));
            free = omega (arith, values-le s.v, v.counted, more, size);
            inside = elim v.bounded [
              | inl z ↦ omega (arith, z, more, size)
              | inr lt ↦ omega (arith, lt, more, size)
            ];
            reads = read-gap s.v (n - length s.v);
          },
        )
    | inr room ↦ (
      s,
      rw room,
      record {
        same_count = refl;
        counted = v.counted;
        free = ground arith;
        inside = elim v.bounded [ inl z ↦ ground (arith, z) | inr lt ↦ lt ];
        reads = λ i. refl;
      },
    )
  ]

  -- The outcome of `construct` of `x` in `s`.
  pub record Fresh (x : V) (s : ArrayAllocator V) (h : ℕ) (s' : ArrayAllocator V) : Type ℓ where
    pub valid : IsValid s'
    pub free : MemoryBlock.read s.v h ≡ none
    pub reads : MemoryBlock.read s'.v h ≡ some x
    pub others : (i : ℕ) → i ≢ h → MemoryBlock.read s'.v i ≡ MemoryBlock.read s.v i
    pub counted : s'.num_existing ≡ s.num_existing + 1

  -- In a valid state `construct` ends and does not fault: the search for a free slot succeeds. The
  -- handle read no value before and reads the new one, every other handle reads what it read, and
  -- the new state is valid.
  pub construct-Fresh :
      (x : V) (s : ArrayAllocator V)
      → IsValid s
      → (h : ℕ) × (s' : ArrayAllocator V) × (construct x s ≡ some (h, s')) × Fresh x s h s'
  unfolding construct
  construct-Fresh x s v =
      let (g, grown, w) = grow-Grown s v in
      let (j, free) = free_slot g.v (omega (arith, w.counted, w.free)) in
      let lt = get_elem?-lt g.v j free in
      let inside = w.inside in
      let near : distance (length g.v) g.lookup_index j < length g.v = ground arith in
      let (r, run, at) = probe-free g.v j free (length g.v) g.lookup_index w.inside near in
      let here = get_elem?-lt g.v r at in
      let t = set g.v r (some x) in
      let next = advance (length g.v) r in
      let empty : MemoryBlock.read g.v r ≡ none = unfold MemoryBlock.read in rw at in
      let kept : (i : ℕ) → i ≢ r → MemoryBlock.read t i ≡ MemoryBlock.read g.v i = λ i ne.
        unfold MemoryBlock.read in
        rw (get_elem?-set_ne g.v {i = r} {j = i} (some x) (λ e. ne (sym e))) in
      (
        r,
        record { v = t; num_existing = g.num_existing + 1; lookup_index = next },
        rw (grown, run, construct_free g.v r x at),
        record {
          valid = record {
            counted = omega (arith, count-set g.v r x at, w.counted);
            bounded = inr (rw (length-set g.v r (some x)) (unfold advance in ground arith));
          };
          free = sym (w.reads r) ∙ empty;
          reads = unfold MemoryBlock.read in rw (get_elem?-set_self g.v r (some x) here);
          others = λ i ne. kept i ne ∙ w.reads i;
          counted = omega (arith, w.same_count);
        },
      )
