-- ===== src/MemoryBlock/Resize.antt =====
-- What `_resize` keeps.
use mathlib.Core.List.{append-nil}
use salgo.Base.{
  Bool, ◌||◌, if◌then◌else◌, ℕ, zero, suc, ◌-◌, ◌≤◌, ◌<◌, ◌≡◌, refl, ap, Option, none, some, ◌>>=◌,
  drop, [], ◌∷◌, ◌++◌, length, take, replicate, ltb, min, true, false, arith,
}
use salgo.MemoryBlock.{Block, destruct_block, destruct_end, is_vacant, resize}

either_way {ℓ} : {A : Type ℓ} (b : Bool) (x y : A) → y ≡ x → (if b then x else y) ≡ x
either_way true x y e = refl
either_way false x y e = e

or_true : (b : Bool) → (b || true) ≡ true
or_true true = refl
or_true false = refl

module _ {ℓ} {V : Type ℓ} where
  take_all : (s : Block V) → take (length s) s ≡ s
  take_all [] = refl
  take_all (x ∷ s) = ap (λ t. x ∷ t) (take_all s)

  drop_all : (s : Block V) → drop (length s) s ≡ []
  drop_all [] = refl
  drop_all (x ∷ s) = drop_all s

  take-nil : (n : ℕ) → take {A = Option V} n [] ≡ []
  take-nil zero = refl
  take-nil (suc n) = refl

  -- Nothing is destructed where no slot is dropped.
  destruct_end-all : (s : Block V) → destruct_end (length s) s ≡ some s
  unfolding destruct_end destruct_block is_vacant
  destruct_end-all s =
      let over : length s - length s ≡ 0 = omega arith in
      rw (over, take-nil (length s), drop_all s, take_all s) refl

  -- A block that grows keeps its slots, wherever the memory is, and gets slots without values.
  pub resize-grow :
      (stack_buffer n : ℕ) (s : Block V)
      → length s ≤ n
      → resize stack_buffer n s ≡ some (s ++ replicate (n - length s) none)
  unfolding resize
  resize-grow stack_buffer n s h =
      let low : min (length s) n ≡ length s = omega arith in
      rw (low, take_all s)
        (ap (λ t. t >>= λ u. some (u ++ replicate (n - length s) none))
          (either_way (ltb stack_buffer n || ltb stack_buffer (length s)) (some s) _
            (destruct_end-all s)))

  -- A block on the heap that shrinks keeps the slots before the new size.
  pub resize-shrink :
      (stack_buffer n : ℕ) (s : Block V)
      → stack_buffer < length s
      → n ≤ length s
      → resize stack_buffer n s ≡ some (take n s)
  unfolding resize
  resize-shrink stack_buffer n s big h =
      let low : min (length s) n ≡ n = omega arith in
      let over : n - n ≡ 0 = omega arith in
      let heap : ltb stack_buffer (length s) ≡ true = ground arith in
      rw (low, over, heap, or_true (ltb stack_buffer n)) (ap some (append-nil (take n s)))
