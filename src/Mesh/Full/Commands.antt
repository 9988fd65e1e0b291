-- ===== src/Mesh/Full/Commands.antt =====
-- Any sequence of operations on a mesh.
use mathlib.Core.Path.{subst}
use salgo.Base.{ℕ, ◌<◌, ◌≡◌, ◌≢◌, refl, sym, ◌∙◌, Bool, true, Option, none, some}
use salgo.HashTable.{Key}
use salgo.Mesh.{PolyEdge}
use salgo.Mesh.Full.{
  PolyVert, Vert, Poly, FullMesh, link_at, add_vert, add_poly, change_vert, erase_poly, fast_erase,
  link, unlink,
}
use salgo.Mesh.Full.Add.{IsConsistent, add_poly-IsConsistent, change_vert-IsConsistent}
use salgo.Mesh.Full.Erase.{erase_poly-IsConsistent}
use salgo.Mesh.Full.Joined.{link-Joined, unlink-IsConsistent}
use salgo.Mesh.Full.Verts.{
  new_mesh, new_mesh-IsConsistent, add_vert-IsConsistent, fast_erase-IsConsistent,
}

-- The operations, with the handle that the allocator gives where something is added.
pub data Command (V : Type 0) : Type 0 where
  add_vertex : ℕ → V → Command V
  add_triangle : ℕ → (a b c : ℕ) → Command V
  move_corner : (p i v : ℕ) → Command V
  erase_triangle : Bool → ℕ → Command V
  erase_vertex : ℕ → Command V
  link_edges : (e o : PolyEdge) → Command V
  unlink_edges : PolyEdge → Command V

module _ {V : Type 0} where
  same_mesh : (a b : FullMesh V) → Path (Option (FullMesh V)) (some a) (some b) → a ≡ b
  same_mesh a b q = cc

  abbrev pub HasVert : FullMesh V → ℕ → Type 0
  HasVert m v = (x : Vert V) × (m.vs v ≡ some x)

  abbrev pub HasPoly : FullMesh V → ℕ → Type 0
  HasPoly m p = (q : Poly) × (m.ps p ≡ some q)

  -- What a caller has to keep: what is used exists, a new handle is free, a vertex that is erased has
  -- no triangles, two different edges without links are linked, and an edge with a link is unlinked.
  abbrev pub IsAllowed : Command V → FullMesh V → Type 0
  IsAllowed (add_vertex h x) m = m.vs h ≡ none
  IsAllowed (add_triangle h a b c) m = (m.ps h ≡ none) × HasVert m a × HasVert m b × HasVert m c
  IsAllowed (move_corner p i v) m = HasPoly m p × (i < 3) × HasVert m v
  IsAllowed (erase_triangle isolated p) m = HasPoly m p
  IsAllowed (erase_vertex v) m = (x : Vert V) × (m.vs v ≡ some x) × (x.poly_links.count ≡ 0)
  IsAllowed (link_edges e o) m =
      HasPoly m e.0
      × HasPoly m o.0
      × (e.1 < 3)
      × (o.1 < 3)
      × (e ≢ o)
      × (link_at m e ≡ none)
      × (link_at m o ≡ none)
  IsAllowed (unlink_edges e) m = (o : PolyEdge) × (link_at m e ≡ some o)

module _ {V : Type 0} ⦃key : Key PolyVert⦄ where
  unfoldable pub execute : Command V → FullMesh V → Option (FullMesh V)
  execute (add_vertex h x) m = some (add_vert h x m)
  execute (add_triangle h a b c) m = add_poly h a b c m
  execute (move_corner p i v) m = change_vert (p, i) v m
  execute (erase_triangle isolated p) m = erase_poly true isolated p m
  execute (erase_vertex v) m = fast_erase v m
  execute (link_edges e o) m = link e o m
  execute (unlink_edges e) m = unlink e m

  -- The meshes that a caller can make of a new one.
  pub data Reached : FullMesh V → Type 0 where
    start : Reached new_mesh
    after :
        {m m' : FullMesh V} (c : Command V)
        → Reached m
        → IsAllowed c m
        → execute c m ≡ some m'
        → Reached m'

  pub execute-IsConsistent :
      (c : Command V) (m : FullMesh V)
      → IsConsistent m
      → IsAllowed c m
      → (m' : FullMesh V) × (execute c m ≡ some m') × IsConsistent m'
  unfolding execute
  execute-IsConsistent (add_vertex h x) m ok free =
      (add_vert h x m, refl, add_vert-IsConsistent h x m free ok)
  execute-IsConsistent (add_triangle h a b c) m ok (free, (x, at_a), (y, at_b), (z, at_c)) =
      add_poly-IsConsistent h a b c m x y z ok free at_a at_b at_c
  execute-IsConsistent (move_corner p i v) m ok ((q, here), lt, (x, at_v)) =
      let (m', run, ok', _) = change_vert-IsConsistent p i v m q x ok here lt at_v in (m', run, ok')
  execute-IsConsistent (erase_triangle isolated p) m ok (q, here) =
      let (m', run, ok', _, _) = erase_poly-IsConsistent isolated p m q ok here in (m', run, ok')
  execute-IsConsistent (erase_vertex v) m ok (x, here, zero_left) =
      fast_erase-IsConsistent v m x here zero_left ok
  execute-IsConsistent (link_edges e o) m ok
        ((q, at_e), (r, at_o), e_lt, o_lt, differ, free_e, free_o) =
      let (m', run, j) = link-Joined e o m q r at_e at_o e_lt o_lt differ free_e free_o ok in
      (m', run, j.consistent)
  execute-IsConsistent (unlink_edges e) m ok (o, linked) = unlink-IsConsistent e o m linked ok

  -- Every mesh that allowed operations make of a new one is consistent, and no allowed operation
  -- faults on it.
  pub reached-IsConsistent :
      (m : FullMesh V)
      → Reached m
      → IsConsistent m
        × ((c : Command V) → IsAllowed c m → (m' : FullMesh V) × (execute c m ≡ some m'))
  reached-IsConsistent m r =
      let ok = consistent m r in
      (ok, λ c allowed. let (m', run, _) = execute-IsConsistent c m ok allowed in (m', run))
    where
      consistent : (m : FullMesh V) → Reached m → IsConsistent m
      consistent m start = new_mesh-IsConsistent
      consistent m (after {m = m₀} c before allowed run) =
          let (m', run', ok) = execute-IsConsistent c m₀ (consistent m₀ before) allowed in
          subst IsConsistent (same_mesh m' m (sym run' ∙ run)) ok
