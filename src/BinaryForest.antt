-- ===== src/BinaryForest.antt =====
-- include/salgo/_/graph/n-ary-forest/n-ary-forest-accessor.hpp with two children, a parent and no
-- caching of erased links, and include/salgo/_/graph/bst.hpp. The cells of the allocator are a
-- function from handles; `none` in a result is a failed DCHECK, a handle that names no node, or fuel
-- that runs out. Child 0 is the left one.
pub mod Links
pub mod Inorder
use salgo.Base.{ℕ, zero, suc, Bool, true, false, Option, none, some, ◌==◌, if◌then◌else◌, ◌>>=◌}

pub record Node {ℓ} (V : Type ℓ) : Type ℓ where
  pub val : V
  pub parent : Option ℕ
  pub left : Option ℕ
  pub right : Option ℕ

abbrev pub Cells {ℓ} : Type ℓ → Type ℓ
Cells V = ℕ → Option (Node V)

abbrev pub is_handle : Option ℕ → ℕ → Bool
is_handle none h = false
is_handle (some x) h = x == h

abbrev pub is_valid : Option ℕ → Bool
is_valid none = false
is_valid (some x) = true

module _ {ℓ} {V : Type ℓ} where
  unfoldable pub store : Cells V → ℕ → Option (Node V) → Cells V
  store cells h n = λ i. if i == h then n else cells i

  -- `NODE.children[ith]`, read and written
  unfoldable pub link_of : Node V → ℕ → Option (Option ℕ)
  link_of n zero = some n.left
  link_of n (suc zero) = some n.right
  link_of n (suc (suc i)) = none

  unfoldable pub with_link : Node V → ℕ → Option ℕ → Node V
  with_link n zero c = record n { left = c }
  with_link n (suc i) c = record n { right = c }

  unfoldable pub child : Cells V → ℕ → ℕ → Option (Option ℕ)
  child cells h ith = cells h >>= λ n. link_of n ith

  unfoldable pub parent : Cells V → ℕ → Option (Option ℕ)
  parent cells h = cells h >>= λ n. some n.parent

  unfoldable pub is_ith_child : Cells V → ℕ → ℕ → Option Bool
  is_ith_child cells h ith = do
    p ← parent cells h
    par ← p
    c ← child cells par ith
    some (is_handle c h)

  unfoldable pub is_left : Cells V → ℕ → Option Bool
  is_left cells h = is_ith_child cells h 0

  -- The index 0 is that of the source.
  unfoldable pub is_right : Cells V → ℕ → Option Bool
  is_right cells h = is_ith_child cells h 0

  unfoldable pub link_child : ℕ → (h new_child : ℕ) → Cells V → Option (Cells V)
  link_child ith h new_child cells = do
    n ← cells h
    c ← link_of n ith
    if is_valid c then none else do
      let linked : Cells V = store cells h (some (with_link n ith (some new_child)))
      m ← linked new_child
      if is_valid m.parent
          then none
          else some (store linked new_child (some (record m { parent = some h })))

  -- `_unlink_child_1way`
  unfoldable pub reset_parent : ℕ → Cells V → Option (Cells V)
  reset_parent c cells = cells c >>= λ m. some (store cells c (some (record m { parent = none })))

  -- `_unlink_parent_1way`: the first child link of the parent that names the node
  unfoldable pub reset_link : ℕ → Cells V → Option (Cells V)
  reset_link h cells = do
    p ← parent cells h
    q ← p
    n ← cells q
    if is_handle n.left h
        then some (store cells q (some (with_link n 0 none)))
        else if is_handle n.right h
        then some (store cells q (some (with_link n 1 none)))
        else none

  -- `erase` of a node without links
  unfoldable pub erase : ℕ → Cells V → Option (Cells V)
  erase h cells = do
    n ← cells h
    if is_valid n.parent
        then none
        else if is_valid n.left
        then none
        else if is_valid n.right
        then none
        else some (store cells h none)

  unfoldable pub unlink_and_erase : ℕ → Cells V → Option (Cells V)
  unlink_and_erase h c₀ = do
    n ← c₀ h
    c₁ ← if is_valid n.parent then reset_link h c₀ else some c₀
    c₂ ← elim n.left [ none ↦ some c₁ | some l ↦ reset_parent l c₁ ]
    c₃ ← elim n.right [ none ↦ some c₂ | some r ↦ reset_parent r c₂ ]
    some (store c₃ h none)

  -- `while(curr.has_left()) curr = curr.left()` and the same to the other side
  unfoldable pub descend : ℕ → ℕ → Cells V → ℕ → Option ℕ
  descend ith zero cells h = none
  descend ith (suc fuel) cells h =
      child cells h ith >>= λ c. elim c [ none ↦ some h | some d ↦ descend ith fuel cells d ]

  -- The loop up from a node, to the parent of the first node that is a root or satisfies `stop`.
  unfoldable pub ascend : (Cells V → ℕ → Option Bool) → ℕ → Cells V → ℕ → Option (Option ℕ)
  ascend stop zero cells h = none
  ascend stop (suc fuel) cells h = do
    p ← parent cells h
    elim p [
      | none ↦ some none
      | some q ↦ stop cells h >>= λ b. if b then some (some q) else ascend stop fuel cells q
    ]

  -- `bst_next` and `bst_prev`
  unfoldable pub bst_next : ℕ → Cells V → ℕ → Option (Option ℕ)
  bst_next fuel cells h = do
    r ← child cells h 1
    elim r [
      | none ↦ ascend is_left fuel cells h
      | some d ↦ descend 0 fuel cells d >>= λ e. some (some e)
    ]

  unfoldable pub bst_prev : ℕ → Cells V → ℕ → Option (Option ℕ)
  bst_prev fuel cells h = do
    l ← child cells h 0
    elim l [
      | none ↦ ascend is_right fuel cells h
      | some d ↦ descend 1 fuel cells d >>= λ e. some (some e)
    ]
