-- ===== src/Tests/Meshes.antt =====
-- include/salgo/_/geom/g3d/edge-links.inl on two triangles with a common edge.
use mathlib.Core.List.{Nodup-cons, Nodup-nil, mem-cons, not-mem-nil}
use mathlib.Core.HLevel.{⊥_prop}
use mathlib.Core.Logic.Or
use salgo.Base.{ℕ, zero, suc, ◌+◌, ◌*◌, ◌≡◌, ◌↔◌, ap, ◌∙◌, true, none, some, [], ◌∷◌, arith}
use salgo.HashTable.{Key}
use salgo.Mesh.{Links, Mesh, same_edge, fast_compute_edge_links}
use salgo.Mesh.EdgeLinks.{same_edge_yes, same_edge_refl}
use salgo.Mesh.OpenEdges.{Computed, fast_compute_edge_links-Computed}

pair_equal : (a b : ℕ × ℕ) → (same_edge a b ≡ true) ↔ (a ≡ b)
pair_equal a b = (same_edge_yes a b, λ p. ap (λ z. same_edge z b) p ∙ same_edge_refl b)

instance pub pair_key : Key (ℕ × ℕ)
pair_key = record { equal = same_edge; equal_iff = pair_equal; hash = λ k. 3 * k.0 + k.1 }

-- The vertices 10, 11, 12 and 11, 10, 13.
abbrev corners : ℕ → ℕ → ℕ
corners zero zero = 10
corners zero (suc zero) = 11
corners zero (suc (suc i)) = 12
corners (suc p) zero = 11
corners (suc p) (suc zero) = 10
corners (suc p) (suc (suc i)) = 13

abbrev not_linked : Links
not_linked e = none

abbrev two_triangles : Mesh
two_triangles = record { polys = 0 ∷ 1 ∷ []; verts = corners; links = not_linked }

fast_compute_edge_links-Computed_example :
    (r : Mesh × ℕ × ℕ) × (fast_compute_edge_links two_triangles ≡ some r) × Computed two_triangles r
fast_compute_edge_links-Computed_example =
    fast_compute_edge_links-Computed two_triangles
      (Nodup-cons.1 (
        λ m. Or.elim ⊥_prop (mem-cons.0 m) (λ e. absurd (omega arith)) not-mem-nil,
        Nodup-cons.1 (not-mem-nil, Nodup-nil),
      ))
      (λ a b p. cc)
