-- ===== src/Tests/FullMeshes.antt =====
-- include/salgo/_/geom/g3d/mesh/mesh-accessors.inl on two triangles that share two vertices.
use salgo.Base.Store.{put, number_cases}
use salgo.Base.{
  inl, inr, ◌∷◌, ◌+◌, ◌⊎◌, ◌%◌, ltb, ap, ◌∙◌, ◌≢◌, ℕ, ◌≡◌, refl, true, Option, none, some, [],
  arith,
}
use salgo.HashTable.{emplace}
use salgo.Mesh
use salgo.Mesh.Full.Commands.{HasVert}
use salgo.Mesh.Full.Add.{IsConsistent}
use salgo.Mesh.Full.Erase.{erase_poly-IsConsistent}
use salgo.Mesh.Full.Ends.{verts_of, if_none}
use salgo.Mesh.Utils.{erase_poly_if_degenerate, erase_isolated_verts}
use salgo.Mesh.Utils.Degenerate.{IsDegenerate, Collapsed, erase_poly_if_degenerate-Collapsed}
use salgo.Mesh.Utils.Isolated.{Swept, erase_isolated_verts-Swept}
use mathlib.Core.List.{Mem, Nodup-cons, Nodup-nil, mem-cons, not-mem-nil}
use mathlib.Core.HLevel.{⊥_prop}
use mathlib.Core.Logic.Or
use salgo.Mesh.Full.Linking.{Refines, link-Refines}
use salgo.Mesh.Full.{
  Vert, Poly, FullMesh, link_of, link_at, add_vert, add_poly, add_link, erase_poly, link,
}
use salgo.Mesh.Full.Commands.{
  Command, execute, Reached, start, after, add_vertex, add_triangle, IsAllowed,
  reached-IsConsistent,
}
use salgo.Mesh.Full.Verts.{new_mesh}
use salgo.Tests.Meshes.{pair_key}

abbrev made : Option (FullMesh ℕ) → FullMesh ℕ
made none = new_mesh
made (some m) = m

abbrev one_vertex : FullMesh ℕ
one_vertex = made (execute (add_vertex 10 100) new_mesh)

abbrev two_vertices : FullMesh ℕ
two_vertices = made (execute (add_vertex 11 101) one_vertex)

abbrev three_vertices : FullMesh ℕ
three_vertices = made (execute (add_vertex 12 102) two_vertices)

abbrev one_triangle : FullMesh ℕ
one_triangle = made (execute (add_triangle 0 10 11 12) three_vertices)

abbrev two_triangles : FullMesh ℕ
two_triangles = made (execute (add_triangle 1 11 10 10) one_triangle)

abbrev first_triangle : Poly
first_triangle = record { verts = put 0 10 (put 1 11 (λ _. 12)); edges = λ _. none }

abbrev second_triangle : Poly
second_triangle = record { verts = put 0 11 (put 1 10 (λ _. 10)); edges = λ _. none }

three_reached : Reached three_vertices
unfolding execute add_poly add_link add_vert put
three_reached =
    after (add_vertex 12 102)
      (after (add_vertex 11 101) (after (add_vertex 10 100) start refl refl) refl refl) refl refl

two_reached : Reached two_triangles
unfolding execute add_poly add_link add_vert put
two_reached =
    after (add_triangle 1 11 10 10)
      (after (add_triangle 0 10 11 12) three_reached (refl, (_, refl), (_, refl), (_, refl)) refl)
      (refl, (_, refl), (_, refl), (_, refl)) refl

first_there : two_triangles.ps 0 ≡ some first_triangle
unfolding execute add_poly add_link add_vert put
first_there = refl

second_there : two_triangles.ps 1 ≡ some second_triangle
unfolding execute add_poly add_link add_vert put
second_there = refl

abbrev vertex_12 : Vert ℕ
vertex_12 = record {
  pos = 102;
  poly_links = (emplace (0, 2) tt (record { buckets = []; count = 0 })).1;
}

vertex_there : two_triangles.vs 12 ≡ some vertex_12
unfolding execute add_poly add_link add_vert put
vertex_there = refl

consistent : IsConsistent two_triangles
consistent = (reached-IsConsistent two_triangles two_reached).0

reached-IsConsistent_example :
    IsConsistent two_triangles
    × ((c : Command ℕ)
        → IsAllowed c two_triangles
        → (m' : FullMesh ℕ) × (execute c two_triangles ≡ some m'))
reached-IsConsistent_example = reached-IsConsistent two_triangles two_reached

erase_poly-IsConsistent_example :
    (m' : FullMesh ℕ) × (erase_poly true true 0 two_triangles ≡ some m')
    × IsConsistent m'
    × (m'.ps 0 ≡ none)
    × ((h : ℕ) → h ≢ 0 → verts_of (m'.ps h) ≡ verts_of (two_triangles.ps h))
erase_poly-IsConsistent_example =
    erase_poly-IsConsistent true 0 two_triangles first_triangle consistent first_there

link-Refines_example :
    Refines two_triangles
      (link (0, 0) (1, 0) two_triangles)
      (Mesh.link (0, 0) (1, 0) (link_at two_triangles))
link-Refines_example =
    link-Refines (0, 0) (1, 0) two_triangles first_triangle second_triangle first_there second_there
      (omega arith) (omega arith)

not_linked_to_itself : (i : ℕ) → link_at two_triangles (1, i) ≢ some (1, i)
not_linked_to_itself i l =
    let free = ap (λ z. link_of z i) second_there ∙ if_none (ltb i 3) refl in absurd (cc)

erase_poly_if_degenerate-Collapsed_example :
    (m' : FullMesh ℕ) × (erase_poly_if_degenerate true 1 two_triangles ≡ some m')
    × (((m' ≡ two_triangles) × ((i : ℕ) → ¬ IsDegenerate second_triangle i))
        ⊎ ((i : ℕ) × IsDegenerate second_triangle i
            × Collapsed 1 ((i + 2) % 3) ((i + 1) % 3) two_triangles m'))
erase_poly_if_degenerate-Collapsed_example =
    erase_poly_if_degenerate-Collapsed true 1 two_triangles second_triangle consistent second_there
      not_linked_to_itself

vertex_12_there : HasVert three_vertices 12
unfolding execute add_vert put
vertex_12_there = (_, refl)

vertex_10_there : HasVert three_vertices 10
unfolding execute add_vert put
vertex_10_there = (_, refl)

two_of_three : (v : ℕ) → Mem v (12 ∷ 10 ∷ []) → HasVert three_vertices v
two_of_three v m = elim (number_cases v 12) [
  | inl e ↦ (vertex_12_there.0, ap three_vertices.vs e ∙ vertex_12_there.1)
  | inr n ↦ elim (number_cases v 10) [
    | inl e ↦ (vertex_10_there.0, ap three_vertices.vs e ∙ vertex_10_there.1)
    | inr k ↦
        absurd
          (Or.elim ⊥_prop (mem-cons.0 m) n (λ m'. Or.elim ⊥_prop (mem-cons.0 m') k not-mem-nil))
  ]
]

erase_isolated_verts-Swept_example :
    (m' : FullMesh ℕ) × (erase_isolated_verts (12 ∷ 10 ∷ []) three_vertices ≡ some m')
    × Swept (12 ∷ 10 ∷ []) three_vertices m'
erase_isolated_verts-Swept_example =
    erase_isolated_verts-Swept (12 ∷ 10 ∷ []) three_vertices
      (reached-IsConsistent three_vertices three_reached).0
      (Nodup-cons.1 (
        λ m. Or.elim ⊥_prop (mem-cons.0 m) (λ e. absurd (omega arith)) not-mem-nil,
        Nodup-cons.1 (not-mem-nil, Nodup-nil),
      ))
      two_of_three
