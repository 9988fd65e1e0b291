-- ===== src/Mesh.antt =====
-- include/salgo/_/geom/g3d/edge-links.inl and the links of edges in
-- include/salgo/_/geom/g3d/mesh/mesh-accessors.inl. A mesh is the handles of its triangles in the
-- order of the iterator, their vertices, and the links of their edges, a function from the handle of
-- an edge: the triangle and the number of the edge in it. `none` in a result is a failed DCHECK.
pub mod EdgeLinks
pub mod Unlinked
pub mod Rounds
pub mod OpenEdges
pub mod Full
pub mod Utils
use salgo.Base.{
  ℕ, ◌+◌, ◌%◌, Bool, true, false, not, ◌&&◌, Option, none, some, List, [], ◌∷◌, ◌++◌, ◌==◌,
  if◌then◌else◌, ◌>>=◌,
}
use salgo.HashTable.{Key, HashTable, Handle, find, entry, emplace, erase}

abbrev pub PolyEdge : Type 0
PolyEdge = ℕ × ℕ

abbrev pub Links : Type 0
Links = PolyEdge → Option PolyEdge

pub record Mesh : Type 0 where
  pub polys : List ℕ
  pub verts : ℕ → ℕ → ℕ
  pub links : Links

unfoldable pub same_edge : PolyEdge → PolyEdge → Bool
same_edge e o = (e.0 == o.0) && (e.1 == o.1)

-- `poly.edges[ith].link = o`
unfoldable pub set_link : PolyEdge → Option PolyEdge → Links → Links
set_link e o links = λ x. if same_edge x e then o else links x

-- `link.valid()`
abbrev pub is_valid : Option PolyEdge → Bool
is_valid none = false
is_valid (some o) = true

abbrev pub is_linked : Links → PolyEdge → Bool
is_linked links e = is_valid (links e)

-- `PolyEdge_Accessor::link`
unfoldable pub link : PolyEdge → PolyEdge → Links → Option Links
link e o links =
    if is_linked links e
    then none
    else if is_linked links o
    then none
    else some (set_link o (some e) (set_link e (some o) links))

-- The edges of the triangles, in the order of the two loops.
unfoldable pub edges : List ℕ → List PolyEdge
edges [] = []
edges (p ∷ ps) = (p, 0) ∷ (p, 1) ∷ (p, 2) ∷ edges ps

-- `prev_vert().handle()` and `next_vert().handle()`
unfoldable pub edge_key : (ℕ → ℕ → ℕ) → PolyEdge → ℕ × ℕ
edge_key verts e = (verts e.0 e.1, verts e.0 ((e.1 + 1) % 3))

abbrev pub reverse : ℕ × ℕ → ℕ × ℕ
reverse k = (k.1, k.0)

-- `linked.linked_polyEdge().handle() == pe.handle()`, given the link of the linked edge
abbrev pub is_back : PolyEdge → Option PolyEdge → Bool
is_back e none = false
is_back e (some b) = same_edge b e

-- the body of the loop of `has_valid_edge_links`, given the link of the edge
abbrev pub is_two_way : Links → PolyEdge → Option PolyEdge → Bool
is_two_way links e none = true
is_two_way links e (some o) = is_back e (links o)

-- `has_valid_edge_links`
unfoldable pub valid_links : Links → List PolyEdge → Bool
valid_links links [] = true
valid_links links (e ∷ es) =
    let rest = valid_links links es in if is_two_way links e (links e) then rest else false

unfoldable pub has_valid_edge_links : Mesh → Bool
has_valid_edge_links mesh = valid_links mesh.links (edges mesh.polys)

-- `has_all_edge_links`
unfoldable pub all_linked : Links → List PolyEdge → Bool
all_linked links [] = true
all_linked links (e ∷ es) =
    let rest = all_linked links es in if is_linked links e then rest else false

unfoldable pub has_all_edge_links : Mesh → Bool
has_all_edge_links mesh = all_linked mesh.links (edges mesh.polys)

-- The state of `fast_compute_edge_links`: the links, `open_edges` and `num_matched_edges`.
pub record Matching : Type 0 where
  pub links : Links
  pub open_edges : HashTable (ℕ × ℕ) PolyEdge
  pub matched : ℕ

module _ ⦃key : Key (ℕ × ℕ)⦄ where
  -- `if(open_edge.not_found())`
  unfoldable pub match_found : (ℕ → ℕ → ℕ) → PolyEdge → Matching → Option Handle → Option Matching
  match_found verts e s none =
      some (record s { open_edges = (emplace (edge_key verts e) e s.open_edges).1 })
  match_found verts e s (some h) = do
    open_edge ← entry s.open_edges h
    rest ← erase h s.open_edges
    links ← link e open_edge.1 s.links
    some (record { links = links; open_edges = rest; matched = s.matched + 1 })

  -- the body of the loop
  unfoldable pub match_edge : (ℕ → ℕ → ℕ) → PolyEdge → Matching → Option Matching
  match_edge verts e s =
      if is_linked s.links e
      then some s
      else match_found verts e s (find (reverse (edge_key verts e)) s.open_edges)

  -- the loop over the edges
  unfoldable pub match_edges : (ℕ → ℕ → ℕ) → List PolyEdge → Matching → Option Matching
  match_edges verts [] s = some s
  match_edges verts (e ∷ es) s = match_edge verts e s >>= match_edges verts es

  -- `fast_compute_edge_links`: the mesh, `num_matched_edges` and `num_open_edges`
  unfoldable pub fast_compute_edge_links : Mesh → Option (Mesh × ℕ × ℕ)
  fast_compute_edge_links mesh = do
    let none_open : HashTable (ℕ × ℕ) PolyEdge = record { buckets = []; count = 0 }
    s ←
        match_edges mesh.verts (edges mesh.polys)
          (record { links = mesh.links; open_edges = none_open; matched = 0 })
    some (record mesh { links = s.links }, s.matched, s.open_edges.count)
