-- ===== src/Tests/Graphs.antt =====
-- include/salgo/_/graph/graph.inl on a few vertices.
use salgo.Base.{ℕ, zero, suc, ◌>>=◌, ◌≡◌, refl, some, [], ◌∷◌}
use salgo.Graph.{Link, Graph, edge, add, add_out, set_link}
use salgo.Graph.Links.{IsLinked}

abbrev link : (a b : ℕ) → Link
link a b = record { a = a; b = b }

abbrev apart : Graph
apart = [] ∷ [] ∷ []

apart-IsLinked : IsLinked apart
unfolding edge
apart-IsLinked zero i l e = cc
apart-IsLinked (suc zero) i l e = cc
apart-IsLinked (suc (suc v)) i l e = cc

-- An edge from vertex 0 to itself, and one to vertex 1.
looped :
    (add 0 0 (link 9 9) apart >>= λ g. add 0 1 (link 9 9) g)
    ≡ some ((link 0 1 ∷ link 0 0 ∷ link 1 0 ∷ []) ∷ (link 0 2 ∷ []) ∷ [])
unfolding add add_out set_link
looped = refl
