-- ===== src/UnorderedArray.antt =====
-- include/salgo/_/unordered-array.inl: `Unordered_Array`, as the list of its values. A handle is
-- an index; `none` is a fault, such as an index out of bounds. Values are such that the bytes of
-- a destroyed value can still be moved from, as `erase` of the last value does.
pub mod Erase
pub mod Sweep
use salgo.Base.{
  ℕ, zero, suc, ◌+◌, ◌-◌, Bool, true, false, Option, none, some, List, [], ◌∷◌, ◌++◌, length,
  get_elem?, ◌>>=◌, set, if◌then◌else◌, ltb,
}

module _ {ℓ} {A : Type ℓ} where
  -- `add`: the handle of the new value and the new array
  unfoldable pub add : A → List A → ℕ × List A
  add x xs = (length xs, xs ++ x ∷ [])

  -- `pop_back`: the last value and the rest
  unfoldable pub pop_back : List A → Option (A × List A)
  pop_back [] = none
  pop_back (x ∷ []) = some (x, [])
  pop_back (x ∷ y ∷ xs) = pop_back (y ∷ xs) >>= λ r. some (r.0, x ∷ r.1)

  -- `Accessor::erase`: the last value moves into the hole
  unfoldable pub erase : List A → ℕ → Option (List A)
  erase xs i = do x ← get_elem? xs i; b ← pop_back xs; r ← pop_back (set xs i b.0); some r.1

  -- `for(auto& e : array) if(p(e())) e.erase()`: the iterator stays where it is after `erase`
  unfoldable pub sweep : ℕ → (A → Bool) → List A → ℕ → Option (List A)
  sweep zero p xs handle = none
  sweep (suc fuel) p xs handle =
      let body : Option (List A) = do
        x ← get_elem? xs handle
        if p x
            then (erase xs handle >>= λ ys. sweep fuel p ys handle)
            else sweep fuel p xs (handle + 1)
      in if ltb handle (length xs) then body else some xs

  -- The same loop over `reversed()`, at the handle `left - 1`.
  unfoldable pub sweep_back : (A → Bool) → List A → ℕ → Option (List A)
  sweep_back p xs zero = some xs
  sweep_back p xs (suc handle) = do
    x ← get_elem? xs handle
    ys ← if p x then erase xs handle else some xs
    sweep_back p ys handle
