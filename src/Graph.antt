-- ===== src/Graph.antt =====
-- include/salgo/_/graph/graph.inl: an undirected `Graph` whose vertices and edges are not erased. A
-- vertex is the array of its `outs`; a link is the handle of the entry at the other end. `none` in
-- a result is an index out of range.
pub mod Links
pub mod Erasable
use salgo.Base.{
  ℕ, ◌+◌, Option, none, some, List, [], ◌∷◌, ◌++◌, length, get_elem?, set, replicate, ◌>>=◌,
}

-- `H_Vert_Edge_Base`: a vertex and an index among its `outs`
pub record Link : Type 0 where
  pub a : ℕ
  pub b : ℕ

abbrev pub Graph : Type 0
Graph = List (List Link)

-- `Graph(int verts_size)`
abbrev pub of_size : ℕ → Graph
of_size verts_size = replicate verts_size []

-- `raw_vs[v].outs()[i]`
unfoldable pub edge : Graph → ℕ → ℕ → Option Link
edge g v i = get_elem? g v >>= λ outs. get_elem? outs i

-- `raw_vs[v].outs().add()`: the index of the new entry, whose link is not set yet
unfoldable pub add_out : ℕ → Link → Graph → Option (ℕ × Graph)
add_out v unset g = get_elem? g v >>= λ outs. some (length outs, set g v (outs ++ unset ∷ []))

-- `out().link = link`
unfoldable pub set_link : ℕ → ℕ → Link → Graph → Option Graph
set_link v i link g = do
  outs ← get_elem? g v
  old ← get_elem? outs i
  some (set g v (set outs i link))

-- `A_Edges::add` of an undirected graph
unfoldable pub add : (fr to : ℕ) → Link → Graph → Option Graph
add fr to unset g = do
  (fr_out, g₁) ← add_out fr unset g
  (to_out, g₂) ← add_out to unset g₁
  g₃ ← set_link fr fr_out (record { a = to; b = to_out }) g₂
  set_link to to_out (record { a = fr; b = fr_out }) g₃

-- `A_Vert_Edges::count` and `domain`, the same where no edge is erased
unfoldable pub count : Graph → ℕ → Option ℕ
count g v = get_elem? g v >>= λ outs. some (length outs)
