-- ===== src/DynamicArray/Dense.antt =====
-- The dense array against the list of its values.
use mathlib.Core.List.{append_assoc, append-nil}
use salgo.Base.{
  ℕ, zero, suc, ◌+◌, ◌-◌, ◌*◌, ◌/◌, ◌≤◌, ◌<◌, ◌≡◌, ◌≢◌, refl, ap, ap₂, sym, ◌∙◌, none, some, List,
  [], ◌∷◌, ◌++◌, if◌then◌else◌, length, get_elem?, replicate, ltb, ◌==◌, inl, inr, false,
  Bool-cases, arith, length-append, length-replicate, get_elem?-outside,
}
use salgo.DynamicArray.{DynamicArray, get, emplace_back, pop_back}
use salgo.MemoryBlock
use salgo.MemoryBlock.{Block}
use salgo.MemoryBlock.Compact.{filled, length-filled, filled-append, get_at, set_at}
use salgo.MemoryBlock.Resize.{resize-grow}

module _ {ℓ} {V : Type ℓ} where
  -- The array holds the values `xs`, in slots before a gap.
  pub record Holds (xs : List V) (d : DynamicArray V) : Type ℓ where
    pub gap : ℕ
    pub layout : d.block ≡ filled xs ++ replicate gap none
    pub size_is : d.size ≡ length xs

  width : (xs : List V) (gap : ℕ) → length (filled xs ++ replicate gap none) ≡ length xs + gap
  width xs gap =
      length-append (filled xs) (replicate gap none)
      ∙ ap₂ ◌+◌ (length-filled xs) (length-replicate gap none)

  -- After the first statement of `emplace_back` there is room.
  roomy :
      (stack_buffer : ℕ) (xs : List V) (d : DynamicArray V)
      → Holds xs d
      → (gap : ℕ) × ((if d.size == length d.block
            then MemoryBlock.resize stack_buffer ((length d.block + 1) * 3 / 2) d.block
            else some d.block)
          ≡ some (filled xs ++ (none ∷ replicate gap none)))
        × (length d.block ≤ length xs + suc gap)
  roomy stack_buffer xs d h =
      let whole : length d.block ≡ length xs + h.gap = ap length h.layout ∙ width xs h.gap in
      elim (Bool-cases (d.size == length d.block)) [
        | inl full ↦
            let n = (length d.block + 1) * 3 / 2 in
            let k = n - length d.block - 1 in
            let full' : d.size ≡ length d.block = ground arith in
            let none_left : h.gap ≡ 0 = omega (arith, h.size_is) in
            let more : n - length d.block ≡ suc k = omega arith in
            (
              k,
              rw full (
                  resize-grow stack_buffer n d.block (omega arith)
                  ∙ ap₂ (λ (b : Block V) (m : ℕ). some (b ++ replicate m none))
                      (h.layout
                        ∙ ap (λ g. filled xs ++ replicate g none) none_left
                        ∙ append-nil (filled xs))
                      more),
              omega (arith, h.size_is),
            )
        | inr room ↦
            let room' : d.size ≢ length d.block = ground arith in
            let some_left : h.gap ≡ suc (h.gap - 1) = omega (arith, h.size_is, room') in
            (
              h.gap - 1,
              rw room (ap some (h.layout ∙ ap (λ g. filled xs ++ replicate g none) some_left)),
              omega arith,
            )
      ]

  construct_at :
      (xs : List V) (x : V) (rest : Block V)
      → MemoryBlock.construct (length xs) x (filled xs ++ (none ∷ rest))
        ≡ some (filled xs ++ (some x ∷ rest))
  unfolding MemoryBlock.construct
  construct_at xs x rest = rw (
    get_at (filled xs) none rest (length xs) (length-filled xs),
    set_at (filled xs) none (some x) rest (length xs) (length-filled xs),
  )

  -- `emplace_back` does not fault; the handle is the old size, and the array holds one value more
  -- at the end. The capacity does not fall.
  pub emplace_back-Holds :
      (stack_buffer : ℕ) (x : V) (xs : List V) (d : DynamicArray V)
      → Holds xs d
      → (d' : DynamicArray V) × (emplace_back stack_buffer x d ≡ some (length xs, d'))
        × Holds (xs ++ x ∷ []) d'
        × (length d.block ≤ length d'.block)
  unfolding emplace_back filled
  emplace_back-Holds stack_buffer x xs d h =
      let (gap, room, wide) = roomy stack_buffer xs d h in
      let made = construct_at xs x (replicate gap none) in
      let t = filled (xs ++ x ∷ []) ++ replicate gap none in
      let same : filled xs ++ (some x ∷ replicate gap none) ≡ t =
        sym (append_assoc (filled xs) (filled (x ∷ [])) (replicate gap none))
        ∙ ap (λ s. s ++ replicate gap none) (sym (filled-append xs (x ∷ []))) in
      let longer = length-append xs (x ∷ []) in
      (
        record { block = t; size = length xs + 1 },
        rw (room, h.size_is, made, same),
        record { gap = gap; layout = refl; size_is = sym longer },
        omega (arith, wide, width (xs ++ x ∷ []) gap, longer),
      )

  -- `pop_back` of an array that is not empty does not fault, returns the last value and leaves the
  -- others.
  pub pop_back-Holds :
      (x : V) (xs : List V) (d : DynamicArray V)
      → Holds (xs ++ x ∷ []) d
      → (d' : DynamicArray V) × (pop_back d ≡ some (x, d')) × Holds xs d'
  unfolding pop_back MemoryBlock.read MemoryBlock.destruct filled
  pop_back-Holds x xs d h =
      let rest = replicate h.gap none in
      let longer = length-append xs (x ∷ []) in
      let split : d.block ≡ filled xs ++ (some x ∷ rest) =
        h.layout
        ∙ ap (λ s. s ++ rest) (filled-append xs (x ∷ []))
        ∙ append_assoc (filled xs) (filled (x ∷ [])) rest in
      let last : d.size - 1 ≡ length xs = omega (arith, h.size_is, longer) in
      let some_there : ltb d.size 1 ≡ false = ground (arith, h.size_is, longer) in
      let here = get_at (filled xs) (some x) rest (length xs) (length-filled xs) in
      let made = set_at (filled xs) (some x) none rest (length xs) (length-filled xs) in
      (
        record { block = filled xs ++ (none ∷ rest); size = length xs },
        rw (some_there, last, split, here, made),
        record { gap = suc h.gap; layout = refl; size_is = refl },
      )

  get-filled :
      (xs : List V) (s : Block V) (i : ℕ)
      → i < length xs
      → MemoryBlock.read (filled xs ++ s) i ≡ get_elem? xs i
  unfolding MemoryBlock.read filled
  get-filled [] s i h = absurd (omega arith)
  get-filled (x ∷ xs) s zero h = refl
  get-filled (x ∷ xs) s (suc i) h = get-filled xs s i (omega arith)

  -- `operator[]` reads the value at the index, and faults exactly out of bounds.
  pub get-Holds : (i : ℕ) (xs : List V) (d : DynamicArray V) → Holds xs d → get i d ≡ get_elem? xs i
  unfolding get
  get-Holds i xs d h = elim (Bool-cases (ltb i d.size)) [
    | inl t ↦
        let lt : i < length xs = ground (arith, h.size_is) in
        rw (t, h.layout) (get-filled xs (replicate h.gap none) i lt)
    | inr f ↦
        let ge : length xs ≤ i = ground (arith, h.size_is) in rw f (sym (get_elem?-outside xs i ge))
  ]
