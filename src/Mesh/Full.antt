-- ===== src/Mesh/Full.antt =====
-- include/salgo/_/geom/g3d/mesh/mesh-accessors.inl: `Mesh::FULL`, whose vertices and triangles can be
-- erased, with links between edges and from each vertex to the places where triangles have it. The
-- two allocators are functions from handles; the handle that `add` of an allocator returns is an
-- argument. `none` in a result is a failed DCHECK or a handle that names nothing. No callbacks are
-- given to the operations that erase.
pub mod Index
pub mod Corners
pub mod Add
pub mod Ends
pub mod Unlink
pub mod Unlist
pub mod Erase
pub mod Linking
pub mod Verts
pub mod Joined
pub mod Commands
use salgo.Base.Store.{put}
use salgo.Base.{
  ℕ, zero, suc, ◌+◌, Bool, true, false, ◌&&◌, Option, none, some, List, [], ◌∷◌, ltb, ◌==◌,
  if◌then◌else◌, ◌>>=◌,
}
use salgo.HashTable.{Key, HashTable, Handle, find}
use salgo.HashTable
use salgo.Mesh.{PolyEdge, Links, is_valid, is_back}

-- `H_PolyVert`: a triangle and the number of the corner in it.
abbrev pub PolyVert : Type 0
PolyVert = ℕ × ℕ

-- `Vert_Poly_Links`
abbrev pub VertPolyLinks : Type 0
VertPolyLinks = HashTable PolyVert (Unit {0})

pub record Vert (V : Type 0) : Type 0 where
  pub pos : V
  pub poly_links : VertPolyLinks

pub record Poly : Type 0 where
  pub verts : ℕ → ℕ
  pub edges : ℕ → Option PolyEdge

pub record FullMesh (V : Type 0) : Type 0 where
  pub vs : ℕ → Option (Vert V)
  pub ps : ℕ → Option Poly

-- `verts[ith].vert` and `edges[ith].link`, for the three places of a triangle that exists
abbrev pub corner : Option Poly → ℕ → Option ℕ
corner none i = none
corner (some q) i = if ltb i 3 then some (q.verts i) else none

abbrev pub link_of : Option Poly → ℕ → Option PolyEdge
link_of none i = none
link_of (some q) i = if ltb i 3 then q.edges i else none

abbrev pub vert_at : {V : Type 0} → FullMesh V → PolyVert → Option ℕ
vert_at m pv = corner (m.ps pv.0) pv.1

abbrev pub link_at : {V : Type 0} → FullMesh V → Links
link_at m e = link_of (m.ps e.0) e.1

module _ {V : Type 0} ⦃key : Key PolyVert⦄ where
  -- `A_Verts::add`
  unfoldable pub add_vert : ℕ → V → FullMesh V → FullMesh V
  add_vert h x m = record m {
    vs = put h (some (record { pos = x; poly_links = record { buckets = []; count = 0 } })) m.vs;
  }

  -- `raw(CONT, v).poly_links.emplace(pv)`
  unfoldable pub add_link : ℕ → PolyVert → FullMesh V → Option (FullMesh V)
  add_link v pv m = do
    x ← m.vs v
    some (record m {
      vs = put v (some (record x { poly_links = (HashTable.emplace pv tt x.poly_links).1 })) m.vs;
    })

  -- `raw(CONT, v).poly_links(pv).erase()`
  unfoldable pub drop_link : ℕ → PolyVert → FullMesh V → Option (FullMesh V)
  drop_link v pv m = do
    x ← m.vs v
    h ← find pv x.poly_links
    t ← HashTable.erase h x.poly_links
    some (record m { vs = put v (some (record x { poly_links = t })) m.vs })

  -- `A_Polys::add`
  unfoldable pub add_poly : ℕ → (a b c : ℕ) → FullMesh V → Option (FullMesh V)
  add_poly h a b c m = do
    let q : Poly = record { verts = put 0 a (put 1 b (λ _. c)); edges = λ _. none }
    m₁ ← add_link a (h, 0) (record m { ps = put h (some q) m.ps })
    m₂ ← add_link b (h, 1) m₁
    add_link c (h, 2) m₂

  -- `change_vert`
  unfoldable pub change_vert : PolyVert → ℕ → FullMesh V → Option (FullMesh V)
  change_vert pv new_vert m = do
    q ← m.ps pv.0
    m₁ ← drop_link (q.verts pv.1) pv m
    m₂ ← add_link new_vert pv m₁
    r ← m₂.ps pv.0
    some (record m₂ { ps = put pv.0 (some (record r { verts = put pv.1 new_vert r.verts })) m₂.ps })

  -- `raw(CONT, e).link = l`
  unfoldable pub set_end : PolyEdge → Option PolyEdge → FullMesh V → Option (FullMesh V)
  set_end e l m = do
    q ← m.ps e.0
    some (record m { ps = put e.0 (some (record q { edges = put e.1 l q.edges })) m.ps })

  -- `raw(CONT, e).link.reset()`
  unfoldable pub reset_edge : PolyEdge → FullMesh V → Option (FullMesh V)
  reset_edge e m = set_end e none m

  -- `if(pe.link.valid()) raw(CONT, pe.link).link.reset()`
  unfoldable pub reset_other : Option PolyEdge → FullMesh V → Option (FullMesh V)
  reset_other none m = some m
  reset_other (some o) m = reset_edge o m

  -- one round of the loop that unlinks the edges
  unfoldable pub unlink_edge : ℕ → ℕ → FullMesh V → Option (FullMesh V)
  unlink_edge p i m = m.ps p >>= λ q. reset_other (q.edges i) m

  -- `if(erase_isolated_verts && v.poly_links.is_empty()) raw_vs(CONT)(v).erase()`
  unfoldable pub erase_if_isolated : Bool → ℕ → FullMesh V → Option (FullMesh V)
  erase_if_isolated erase_isolated v m = m.vs v >>= λ x.
      if erase_isolated && (x.poly_links.count == 0)
      then some (record m { vs = put v none m.vs })
      else some m

  -- one round of the loop that unlinks the corners
  unfoldable pub unlink_vert : Bool → ℕ → ℕ → FullMesh V → Option (FullMesh V)
  unlink_vert erase_isolated p i m = do
    q ← m.ps p
    m₁ ← drop_link (q.verts i) (p, i) m
    erase_if_isolated erase_isolated (q.verts i) m₁

  -- `Polys_Accessor::erase`
  unfoldable pub erase_poly :
      (unlink_edges erase_isolated : Bool) → ℕ → FullMesh V → Option (FullMesh V)
  erase_poly unlink_edges erase_isolated p m = do
    m₁ ←
        if unlink_edges
        then (unlink_edge p 0 m >>= λ a. unlink_edge p 1 a >>= unlink_edge p 2)
        else some m
    m₂ ←
        (unlink_vert erase_isolated p 0 m₁ >>= λ a.
        unlink_vert erase_isolated p 1 a >>= unlink_vert erase_isolated p 2)
    some (record m₂ { ps = put p none m₂.ps })

  -- `fast_erase`
  unfoldable pub fast_erase : ℕ → FullMesh V → Option (FullMesh V)
  fast_erase v m = m.vs v >>= λ x.
      if x.poly_links.count == 0 then some (record m { vs = put v none m.vs }) else none

  -- `_check_link`, given the link of the edge
  unfoldable pub check_back : PolyEdge → Option PolyEdge → FullMesh V → Option (FullMesh V)
  check_back e none m = none
  check_back e (some o) m = m.ps o.0 >>= λ r. if is_back e (r.edges o.1) then some m else none

  unfoldable pub check_link : PolyEdge → FullMesh V → Option (FullMesh V)
  check_link e m = m.ps e.0 >>= λ q. check_back e (q.edges e.1) m

  -- `PolyEdge_Accessor::link`
  unfoldable pub link : (e o : PolyEdge) → FullMesh V → Option (FullMesh V)
  link e o m = m.ps e.0 >>= λ q. m.ps o.0 >>= λ r.
      if is_valid (q.edges e.1)
      then none
      else if is_valid (r.edges o.1)
      then none
      else (set_end e (some o) m >>= λ a. set_end o (some e) a >>= check_link e)

  -- `unlink`, given the link of the edge
  unfoldable pub unlink_from : PolyEdge → Option PolyEdge → FullMesh V → Option (FullMesh V)
  unlink_from e none m = none
  unlink_from e (some o) m = check_link e m >>= λ a. reset_edge e a >>= reset_edge o

  -- `PolyEdge_Accessor::unlink`
  unfoldable pub unlink : PolyEdge → FullMesh V → Option (FullMesh V)
  unlink e m = m.ps e.0 >>= λ q. unlink_from e (q.edges e.1) m

  -- `unlink_if_linked`
  unfoldable pub unlink_if_linked : PolyEdge → FullMesh V → Option (FullMesh V)
  unlink_if_linked e m = m.ps e.0 >>= λ q. if is_valid (q.edges e.1) then unlink e m else some m
