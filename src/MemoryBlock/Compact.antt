-- ===== src/MemoryBlock/Compact.antt =====
-- `compact` moves the values to the front of the block, in order.
use mathlib.Core.List.{append_assoc, append-nil}
use salgo.Base.{
  ℕ, zero, suc, ◌+◌, ◌<◌, ◌≡◌, refl, ap, ap₂, sym, ◌∙◌, Option, none, some, List, [], ◌∷◌, ◌++◌,
  ◌>>=◌, if◌then◌else◌, length, get_elem?, set, take, replicate, ltb, true, false, arith,
  length-append, length-replicate,
}
use salgo.MemoryBlock.{Block, read, construct, destruct, compact_loop, compact}
use salgo.MemoryBlock.Resize.{resize-shrink}
use salgo.UnorderedArray.Erase.{get_split, set_split}

module _ {ℓ} {V : Type ℓ} where
  -- The values of a block in order, and a block full of values.
  unfoldable pub values : Block V → List V
  values [] = []
  values (none ∷ s) = values s
  values (some x ∷ s) = x ∷ values s

  unfoldable pub filled : List V → Block V
  filled [] = []
  filled (x ∷ xs) = some x ∷ filled xs

  -- The values at the front, a gap, and the slots that the loop has not reached.
  abbrev layout : List V → ℕ → Block V → Block V
  layout xs gap s = filled xs ++ (replicate gap none ++ s)

  pub length-filled : (xs : List V) → length (filled xs) ≡ length xs
  unfolding filled
  length-filled [] = refl
  length-filled (x ∷ xs) = ap suc (length-filled xs)

  pub filled-append : (xs ys : List V) → filled (xs ++ ys) ≡ filled xs ++ filled ys
  unfolding filled
  filled-append [] ys = refl
  filled-append (x ∷ xs) ys = ap (λ t. some x ∷ t) (filled-append xs ys)

  shift_gap :
      (gap : ℕ) (s : Block V) → replicate gap none ++ (none ∷ s) ≡ none ∷ (replicate gap none ++ s)
  shift_gap zero s = refl
  shift_gap (suc gap) s = ap (λ t. none ∷ t) (shift_gap gap s)

  pub get_at :
      (front : Block V) (slot : Option V) (s : Block V) (i : ℕ)
      → length front ≡ i
      → get_elem? (front ++ slot ∷ s) i ≡ some slot
  get_at front slot s i e = rw (← e) (get_split front slot s)

  pub set_at :
      (front : Block V) (slot new : Option V) (s : Block V) (i : ℕ)
      → length front ≡ i
      → set (front ++ slot ∷ s) i new ≡ front ++ new ∷ s
  set_at front slot new s i e = rw (← e) (set_split front slot s new)

  -- The slot that the loop looks at.
  next_slot :
      (xs : List V) (gap : ℕ) (slot : Option V) (s : Block V)
      → get_elem? (layout xs gap (slot ∷ s)) (length xs + gap) ≡ some slot
  next_slot xs gap slot s =
      let front = filled xs ++ replicate gap none in
      rw (← append_assoc (filled xs) (replicate gap none) (slot ∷ s)) (
        get_at front slot s (length xs + gap) (
          length-append (filled xs) (replicate gap none)
          ∙ ap₂ ◌+◌ (length-filled xs) (length-replicate gap none)))

  -- One value moves over the gap.
  move_value :
      (xs : List V) (gap : ℕ) (x : V) (s : Block V)
      → (construct (length xs) x (layout xs (suc gap) (some x ∷ s)) >>= λ t.
          destruct (length xs + suc gap) t)
        ≡ some (layout (xs ++ x ∷ []) (suc gap) s)
  unfolding construct destruct read
  move_value xs gap x s =
      let rest = replicate gap none ++ (some x ∷ s) in
      let front = filled xs ++ (some x ∷ replicate gap none) in
      let size : length front ≡ length xs + suc gap =
        length-append (filled xs) (some x ∷ replicate gap none)
        ∙ ap₂ ◌+◌ (length-filled xs) (ap suc (length-replicate gap none)) in
      let whole : filled xs ++ (some x ∷ rest) ≡ front ++ (some x ∷ s) =
        sym (append_assoc (filled xs) (some x ∷ replicate gap none) (some x ∷ s)) in
      rw
        (
          get_at (filled xs) none rest (length xs) (length-filled xs),
          set_at (filled xs) none (some x) rest (length xs) (length-filled xs),
          whole,
          get_at front (some x) s (length xs + suc gap) size,
          set_at front (some x) none s (length xs + suc gap) size,
          append_assoc (filled xs) (some x ∷ replicate gap none) (none ∷ s),
          shift_gap gap s,
          filled-append xs (x ∷ []),
          append_assoc (filled xs) (filled (x ∷ [])) (none ∷ (replicate gap none ++ s)),
        )
        (unfold filled in refl)

  -- One round of the loop at a value.
  step_over :
      (xs : List V) (gap : ℕ) (x : V) (s : Block V)
      → (if ltb (length xs) (length xs + gap)
          then (construct (length xs) x (layout xs gap (some x ∷ s)) >>= λ t.
              destruct (length xs + gap) t)
          else some (layout xs gap (some x ∷ s)))
        ≡ some (layout (xs ++ x ∷ []) gap s)
  step_over xs zero x s =
      let stay : ltb (length xs) (length xs + 0) ≡ false = ground arith in
      rw (stay, filled-append xs (x ∷ []), append_assoc (filled xs) (filled (x ∷ [])) s)
        (unfold filled in refl)
  step_over xs (suc gap) x s =
      let go : ltb (length xs) (length xs + suc gap) ≡ true = ground arith in
      rw go (move_value xs gap x s)

  loop-layout :
      (s : Block V) (xs : List V) (gap : ℕ) (calls : List (ℕ × ℕ))
      → (calls' : List (ℕ × ℕ)) × (gap' : ℕ) × (compact_loop
            (length s)
            (length xs + gap)
            (length xs)
            (layout xs gap s)
            calls
          ≡ some (length (xs ++ values s), layout (xs ++ values s) gap' [], calls'))
        × (length xs + gap + length s ≡ length (xs ++ values s) + gap')
  unfolding compact_loop values
  loop-layout [] xs gap calls =
      (calls, gap, rw (append-nil xs) refl, omega (arith, ap length (append-nil xs)))
  loop-layout (none ∷ s) xs gap calls =
      let (calls', gap', run, size) = loop-layout s xs (suc gap) calls in
      let i : length xs + gap + 1 ≡ length xs + suc gap = omega arith in
      (calls', gap', rw (next_slot xs gap none s, i, shift_gap gap s) run, omega (arith, size))
  loop-layout (some x ∷ s) xs gap calls =
      let ys = xs ++ x ∷ [] in
      let (calls', gap', run, size) =
        loop-layout s ys gap (calls ++ (length xs + gap, length xs) ∷ []) in
      let all : ys ++ values s ≡ xs ++ x ∷ values s = append_assoc xs (x ∷ []) (values s) in
      let longer : length ys ≡ length xs + 1 = length-append xs (x ∷ []) in
      let i : length xs + gap + 1 ≡ length ys + gap = omega (arith, longer) in
      (
        calls',
        gap',
        rw (next_slot xs gap (some x) s, step_over xs gap x s, i, ← longer) (rw all at run),
        omega (arith, size, longer, ap length all),
      )

  take-filled : (xs : List V) (s : Block V) → take (length xs) (filled xs ++ s) ≡ filled xs
  unfolding filled
  take-filled [] s = refl
  take-filled (x ∷ xs) s = ap (λ t. some x ∷ t) (take-filled xs s)

  -- `compact` of a block on the heap does not fault, and returns the number of its values and a
  -- block that holds these values in their order and nothing else.
  pub compact-values :
      (stack_buffer : ℕ) (s : Block V)
      → stack_buffer < length s
      → (calls : List (ℕ × ℕ)) × (compact stack_buffer s
          ≡ some (length (values s), filled (values s), calls))
  unfolding compact
  compact-values stack_buffer s heap =
      let (calls, gap, run, size) = loop-layout s [] 0 [] in
      let xs = values s in
      let t = layout xs gap [] in
      let width : length t ≡ length s = omega (
        arith,
        size,
        length-append (filled xs) (replicate gap none ++ []),
        length-filled xs,
        length-append (replicate {A = Option V} gap none) [],
        length-replicate {A = Option V} gap none,
      ) in
      let run' : compact_loop (length s) 0 0 s [] ≡ some (length xs, t, calls) =
        unfold filled in run in
      (
        calls,
        rw (
          run',
          resize-shrink stack_buffer (length xs) t (omega arith) (omega arith),
          take-filled xs (replicate gap none ++ []),
        ),
      )
