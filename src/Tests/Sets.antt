-- ===== src/Tests/Sets.antt =====
-- include/salgo/_/union-find.inl on three nodes.
use salgo.Base.{
  ℕ, zero, suc, ◌+◌, ◌<◌, ◌≤◌, ◌≡◌, refl, none, some, List, [], ◌∷◌, ◌++◌, length, arith,
}
use salgo.UnionFind.{
  Node, UnionFind, parent_at, set_parent, root_loop, compress_loop, find, merge, merge_nodes,
  set_storage, storage_at,
}
use salgo.UnionFind.Find.{find-SameSets, SameSets}
use salgo.UnionFind.Merge.{IsValid, Joined, merge-Joined}
use salgo.UnionFind.Paths.{IsRanked, Leads, children}

abbrev chain : List (Node ℕ)
chain =
    record { storage = none; parent = some 1 }
    ∷ record { storage = none; parent = some 2 }
    ∷ record { storage = some 7; parent = none }
    ∷ []

abbrev flat : List (Node ℕ)
flat =
    record { storage = none; parent = some 2 }
    ∷ record { storage = none; parent = some 2 }
    ∷ record { storage = some 7; parent = none }
    ∷ []

find_compresses : find chain 0 ≡ some (2, flat)
unfolding find root_loop parent_at compress_loop set_parent
find_compresses = refl

abbrev depth : ℕ → ℕ
depth zero = 0
depth (suc zero) = 1
depth (suc (suc i)) = 2

chain_up : (i p : ℕ) → parent_at chain i ≡ some (some p) → (p < length chain) × (depth i < depth p)
unfolding parent_at
chain_up zero p e = let same : p ≡ 1 = cc in rw same (omega arith, omega arith)
chain_up (suc zero) p e = let same : p ≡ 2 = cc in rw same (omega arith, omega arith)
chain_up (suc (suc zero)) p e = cc
chain_up (suc (suc (suc i))) p e = cc

chain_bound : (i : ℕ) → depth i ≤ children chain
unfolding children
chain_bound zero = omega arith
chain_bound (suc zero) = omega arith
chain_bound (suc (suc i)) = omega arith

chain-IsRanked : IsRanked chain depth
chain-IsRanked = record { up = chain_up; bound = chain_bound }

find-SameSets_example :
    (r : ℕ) × (after : List (Node ℕ)) × (find chain 0 ≡ some (r, after))
    × Leads chain r 0
    × SameSets depth chain after
find-SameSets_example = find-SameSets depth chain 0 chain-IsRanked (omega arith)

-- `add` after the three nodes of one set.
abbrev forest : UnionFind ℕ
forest = record { nodes = chain ++ record { storage = some 5; parent = none } ∷ []; count = 2 }

forest_up :
    (i p : ℕ)
    → parent_at forest.nodes i ≡ some (some p)
    → (p < length forest.nodes) × (depth i < depth p)
unfolding parent_at
forest_up zero p e = let same : p ≡ 1 = cc in rw same (omega arith, omega arith)
forest_up (suc zero) p e = let same : p ≡ 2 = cc in rw same (omega arith, omega arith)
forest_up (suc (suc zero)) p e = cc
forest_up (suc (suc (suc zero))) p e = cc
forest_up (suc (suc (suc (suc i)))) p e = cc

forest_bound : (i : ℕ) → depth i ≤ children forest.nodes
unfolding children
forest_bound zero = omega arith
forest_bound (suc zero) = omega arith
forest_bound (suc (suc i)) = omega arith

forest_stored :
    (i : ℕ)
    → parent_at forest.nodes i ≡ some none
    → (d : ℕ) × (storage_at forest.nodes i ≡ some (some d))
unfolding parent_at
forest_stored zero e = cc
forest_stored (suc zero) e = cc
forest_stored (suc (suc zero)) e = (7, refl)
forest_stored (suc (suc (suc zero))) e = (5, refl)
forest_stored (suc (suc (suc (suc i)))) e = cc

forest-IsValid : IsValid forest
unfolding children
forest-IsValid = record {
  rank = depth;
  ranked = record { up = forest_up; bound = forest_bound };
  stored = forest_stored;
  counted = refl;
}

merge-Joined_example :
    (u' : UnionFind ℕ) × (merge ◌+◌ forest 3 0 ≡ some u') × Joined ◌+◌ forest 3 0 u'
merge-Joined_example = merge-Joined ◌+◌ forest forest-IsValid 3 0 (omega arith) (omega arith)

abbrev joined : List (Node ℕ)
joined =
    record { storage = none; parent = some 2 }
    ∷ record { storage = none; parent = some 2 }
    ∷ record { storage = some 12; parent = none }
    ∷ record { storage = none; parent = some 2 }
    ∷ []

merge_runs : merge ◌+◌ forest 3 0 ≡ some (record { nodes = joined; count = 1 })
unfolding merge find root_loop parent_at compress_loop set_parent merge_nodes set_storage
merge_runs = refl
