-- ===== src/Mesh/Utils.antt =====
-- include/salgo/_/geom/g3d/mesh-utils.hpp on `Mesh::FULL`, without callbacks. The handles that a loop
-- over the vertices meets are an argument.
use salgo.Base.{
  ℕ, ◌+◌, ◌%◌, Bool, true, false, Option, none, some, List, [], ◌∷◌, ◌==◌, if◌then◌else◌, ◌>>=◌,
}
use salgo.HashTable.{Key}
use salgo.Mesh.{PolyEdge}
use salgo.Mesh.Full.{PolyVert, FullMesh, fast_erase, link, unlink, unlink_if_linked, erase_poly}
pub mod Cleared
pub mod Collapse
pub mod Degenerate
pub mod Isolated

module _ {V : Type 0} ⦃key : Key PolyVert⦄ where
  -- `linked_polyEdge().handle()`
  unfoldable pub linked_edge : PolyEdge → FullMesh V → Option (Option PolyEdge)
  linked_edge e m = do q ← m.ps e.0; some (q.edges e.1)

  -- `if(vv.valid()) vv.unlink()`
  unfoldable pub unlink_if_valid : Option PolyEdge → FullMesh V → Option (FullMesh V)
  unlink_if_valid none m = some m
  unlink_if_valid (some o) m = unlink o m

  -- `if(vv.valid() && ww.valid()) vv.link(ww)`
  unfoldable pub link_if_valid : (vv ww : Option PolyEdge) → FullMesh V → Option (FullMesh V)
  link_if_valid (some vv) (some ww) m = link vv ww m
  link_if_valid (some vv) none m = some m
  link_if_valid none ww m = some m

  -- `erase_poly_if_degenerate` from the place where it finds that edge `next` has one vertex only
  unfoldable pub erase_degenerate : Bool → (p next prev far : ℕ) → FullMesh V → Option (FullMesh V)
  erase_degenerate erase_isolated p next prev far m = do
    m₁ ← unlink_if_linked (p, next) m
    vv ← linked_edge (p, prev) m₁
    m₂ ← unlink_if_valid vv m₁
    ww ← linked_edge (p, far) m₂
    m₃ ← unlink_if_valid ww m₂
    m₄ ← link_if_valid vv ww m₃
    erase_poly false erase_isolated p m₄

  -- the loop of `erase_poly_if_degenerate`
  unfoldable pub erase_if_same : Bool → ℕ → (corners : List ℕ) → FullMesh V → Option (FullMesh V)
  erase_if_same erase_isolated p [] m = some m
  erase_if_same erase_isolated p (i ∷ is) m =
      let rest = erase_if_same erase_isolated p is m in
      m.ps p >>= λ q.
      if q.verts i == q.verts ((i + 1) % 3)
      then erase_degenerate erase_isolated p i ((i + 2) % 3) ((i + 1) % 3) m
      else rest

  unfoldable pub erase_poly_if_degenerate : Bool → ℕ → FullMesh V → Option (FullMesh V)
  erase_poly_if_degenerate erase_isolated p m = erase_if_same erase_isolated p (0 ∷ 1 ∷ 2 ∷ []) m

  -- `erase_isolated_verts`
  unfoldable pub erase_isolated_verts : List ℕ → FullMesh V → Option (FullMesh V)
  erase_isolated_verts [] m = some m
  erase_isolated_verts (v ∷ vs) m = m.vs v >>= λ x.
      (if x.poly_links.count == 0 then fast_erase v m else some m) >>= erase_isolated_verts vs
