-- ===== src/UnionFind.antt =====
-- include/salgo/_/union-find.inl: `Union_Find` with DATA and COUNTABLE. A handle is the index of
-- a node; an invalid handle is `none`. A fault (an index out of range) and fuel that runs out are
-- `none` as well.
pub mod Paths
pub mod Find
pub mod Link
pub mod Merge
use mathlib.Core.Option
use salgo.Base.{
  ℕ, zero, suc, ◌+◌, ◌-◌, Option, none, some, List, [], ◌∷◌, ◌++◌, ◌==◌, if◌then◌else◌, length,
  get_elem?, ◌>>=◌,
}

-- `storage` is the in-place storage of the data: empty after `destruct`.
pub record Node {ℓ} (D : Type ℓ) : Type ℓ where
  pub storage : Option D
  pub parent : Option ℕ

pub record UnionFind {ℓ} (D : Type ℓ) : Type ℓ where
  pub nodes : List (Node D)
  pub count : ℕ

module _ {ℓ} {D : Type ℓ} where
  -- `_alloc()[i].parent`
  unfoldable pub parent_at : List (Node D) → ℕ → Option (Option ℕ)
  parent_at [] i = none
  parent_at (n ∷ ns) zero = some n.parent
  parent_at (n ∷ ns) (suc i) = parent_at ns i

  -- `_alloc()[i].parent = q`
  unfoldable pub set_parent : List (Node D) → ℕ → ℕ → List (Node D)
  set_parent [] i q = []
  set_parent (n ∷ ns) zero q = record n { parent = some q } ∷ ns
  set_parent (n ∷ ns) (suc i) q = n ∷ set_parent ns i q

  -- the first loop of `_find`
  unfoldable pub root_loop : ℕ → List (Node D) → ℕ → Option ℕ
  root_loop zero nodes root = none
  root_loop (suc fuel) nodes root = elim (parent_at nodes root) [
    | none ↦ none
    | some p ↦ elim p [ none ↦ some root | some q ↦ root_loop fuel nodes q ]
  ]

  -- the second loop of `_find`: path compression
  unfoldable pub compress_loop : ℕ → List (Node D) → (handle root : ℕ) → Option (List (Node D))
  compress_loop zero nodes handle root = none
  compress_loop (suc fuel) nodes handle root =
      let rest : Option (List (Node D)) = elim (parent_at nodes handle) [
        | none ↦ none
        | some p ↦ elim p [
          | none ↦ none
          | some q ↦ compress_loop fuel (set_parent nodes handle root) q root
        ]
      ] in
      if handle == root then some nodes else rest

  -- `_find`: the root and the nodes after compression
  unfoldable pub find : List (Node D) → ℕ → Option (ℕ × List (Node D))
  find nodes handle = do
    root ← root_loop (suc (length nodes)) nodes handle
    nodes' ← compress_loop (suc (length nodes)) nodes handle root
    some (root, nodes')

  -- `add`: the handle of the new node and the new state
  unfoldable pub add : D → UnionFind D → ℕ × UnionFind D
  add d u = (
    length u.nodes,
    record {
      nodes = u.nodes ++ record { storage = some d; parent = none } ∷ [];
      count = u.count + 1;
    },
  )

  -- `_alloc()[i].data`
  abbrev pub storage_at : List (Node D) → ℕ → Option (Option D)
  storage_at nodes i = Option.map (λ n. n.storage) (get_elem? nodes i)

  -- `_alloc()[i].data.get()`
  abbrev pub data_at : List (Node D) → ℕ → Option D
  data_at nodes i = storage_at nodes i >>= λ s. s

  -- `operator[]`: the data of the set and the new state
  unfoldable pub lookup : UnionFind D → ℕ → Option (D × UnionFind D)
  lookup u handle = do
    (root, nodes) ← find u.nodes handle
    d ← data_at nodes root
    some (d, record u { nodes = nodes })

  unfoldable pub set_storage : List (Node D) → ℕ → Option D → List (Node D)
  set_storage [] i s = []
  set_storage (n ∷ ns) zero s = record n { storage = s } ∷ ns
  set_storage (n ∷ ns) (suc i) s = n ∷ set_storage ns i s

  module _ (absorb : D → D → D) where
    -- `Node::merge_with` of the node `a` into the node `b`: `absorb x y` is the data of `b` after
    -- `x.merge_with(y)`, or after `y += x`. The data of `a` is destructed.
    unfoldable pub merge_nodes : List (Node D) → (a b : ℕ) → Option (List (Node D))
    merge_nodes nodes a b = do
      x ← data_at nodes a
      y ← data_at nodes b
      some (set_storage (set_storage nodes b (some (absorb x y))) a none)

    -- `Accessor::merge_with`, called by `merge`. Each comparison of accessors updates both.
    unfoldable pub merge : UnionFind D → (a b : ℕ) → Option (UnionFind D)
    merge u a b = do
      (a₁, s₁) ← find u.nodes a
      (a₂, s₂) ← find s₁ a₁
      (b₁, s₃) ← find s₂ b
      (a₃, s₄) ← find s₃ a₂
      (b₂, s₅) ← find s₄ b₁
      if a₃ == b₂ then some (record u { nodes = s₅ }) else do
        s₆ ← merge_nodes (set_parent s₅ a₃ b₂) a₃ b₂
        some (record { nodes = s₆; count = u.count - 1 })
