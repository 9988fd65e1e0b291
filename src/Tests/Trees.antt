-- ===== src/Tests/Trees.antt =====
-- include/salgo/_/graph/bst.hpp on a tree of three nodes.
use salgo.BinaryForest.Inorder.{Tree, leaf, node, IsTree, bst_next-first}
use salgo.Base.{
  if◌then◌else◌, ◌==◌, [], ◌∷◌, ℕ, zero, suc, ◌≡◌, refl, Option, none, some, ◌>>=◌, arith,
}
use salgo.BinaryForest
use salgo.BinaryForest.{Node, Cells, bst_next}

abbrev lone : ℕ → Node ℕ
lone x = record { val = x; parent = none; left = none; right = none }

abbrev three : Cells ℕ
three zero = some (lone 20)
three (suc zero) = some (lone 10)
three (suc (suc zero)) = some (lone 30)
three (suc (suc (suc i))) = none

-- The node 0 over the nodes 1 and 2.
abbrev tree : Option (Cells ℕ)
tree = BinaryForest.link_child 0 0 1 three >>= BinaryForest.link_child 1 0 2

next_runs : (tree >>= λ t. BinaryForest.bst_next 4 t 1) ≡ some (some 0)
unfolding BinaryForest.bst_next BinaryForest.link_child BinaryForest.link_of BinaryForest.store
    BinaryForest.with_link BinaryForest.child BinaryForest.parent BinaryForest.is_left
    BinaryForest.is_ith_child BinaryForest.ascend BinaryForest.descend
next_runs = refl

-- The node before the right one should be 0: `is_right` asks for the left child.
prev_runs : (tree >>= λ t. BinaryForest.bst_prev 4 t 2) ≡ some none
unfolding BinaryForest.bst_prev BinaryForest.link_child BinaryForest.link_of BinaryForest.store
    BinaryForest.with_link BinaryForest.child BinaryForest.parent BinaryForest.is_right
    BinaryForest.is_ith_child BinaryForest.ascend BinaryForest.descend
prev_runs = refl

-- A node 1 with the children 0 and 2.
abbrev linked_three : Cells ℕ
linked_three = λ i.
    if i == 0
    then some (record { val = 10; parent = some 1; left = none; right = none })
    else if i == 1
    then some (record { val = 20; parent = none; left = some 0; right = some 2 })
    else if i == 2
    then some (record { val = 30; parent = some 1; left = none; right = none })
    else none

abbrev shape : Tree
shape = node (node leaf 0 leaf) 1 (node leaf 2 leaf)

linked_three-IsTree : IsTree linked_three none shape
linked_three-IsTree = (20, refl, (10, refl, tt, tt), (30, refl, tt, tt))

bst_next-first_example : bst_next 4 linked_three 0 ≡ some (some 1)
bst_next-first_example =
    bst_next-first linked_three shape [] (1 ∷ 2 ∷ []) 0 4 linked_three-IsTree
      (refl, (tt, tt, tt), (tt, tt, tt)) refl (omega arith)
