-- ===== src/Mesh/OpenEdges.antt =====
-- `fast_compute_edge_links`, on the table of open edges.
use mathlib.Core.List.{Mem, Nodup, Nodup-cons, Nodup-nil, mem-cons_self, not-mem-nil}
use mathlib.Core.List.Perm
use mathlib.Core.Path.{subst}
use salgo.Base.{
  ℕ, ◌+◌, ◌*◌, ◌≡◌, ◌≢◌, refl, ◌∙◌, true, some, List, [], ◌∷◌, flatten, inl, inr, ◌⊎◌, Bool-cases,
  Option-cases, arith,
}
use salgo.HashTable.{Key, HashTable, find}
use salgo.HashTable.Erase.{erase-Removed}
use salgo.HashTable.Find.{find-Finds}
use salgo.HashTable.Placed.{IsPlaced-replicate}
use salgo.Mesh.{
  PolyEdge, Mesh, Matching, is_linked, edges, edge_key, reverse, match_found, match_edge,
  match_edges, fast_compute_edge_links, has_valid_edge_links,
}
use salgo.Mesh.EdgeLinks.{TwoWay, link-Linked, valid_links_lem}
use salgo.Mesh.Unlinked.{unlinked, no_link, edges-Nodup}
use salgo.Mesh.Rounds.{IsMatching, Matched, skip-Matched, open-Matched, close-Matched}

module _ ⦃key : Key (ℕ × ℕ)⦄ where
  match_edge-Matched :
      (verts : ℕ → ℕ → ℕ) (e : PolyEdge) (rest : List PolyEdge) (s : Matching)
      → Nodup (e ∷ rest)
      → IsMatching verts (e ∷ rest) s
      → (t : Matching) × (match_edge verts e s ≡ some t) × Matched verts (e ∷ rest) rest s t
  unfolding match_edge match_found
  match_edge-Matched verts e rest s d o = elim (Bool-cases (is_linked s.links e)) [
    | inl linked ↦ (s, rw linked, skip-Matched verts e rest s o linked)
    | inr free ↦
        let k = reverse (edge_key verts e) in
        let found = find-Finds k s.open_edges o.valid in
        elim (Option-cases (find k s.open_edges)) [
          | inl f ↦ (_, rw (free, f), open-Matched verts e rest s d o free)
          | inr (h, f) ↦
              let (x, got, x_is) = rw f at found in
              let (t, run, r) = erase-Removed s.open_edges h x o.valid got in
              let here = (Perm.mem_iff r.removed).0 mem-cons_self in
              let differ : e ≢ x.1 =
                λ p. o.visited x here (subst (λ z. Mem z (e ∷ rest)) p mem-cons_self) in
              let (after, linked, l) =
                link-Linked e x.1 s.links differ (no_link s.links e free)
                  (no_link s.links x.1 (o.free x here)) in
              (
                _,
                rw (free, f, got, run, linked),
                close-Matched verts e x h rest s t after d o free here r l x_is,
              )
        ]
  ]

  match_edges-Matched :
      (verts : ℕ → ℕ → ℕ) (es : List PolyEdge) (s : Matching)
      → Nodup es
      → IsMatching verts es s
      → (t : Matching) × (match_edges verts es s ≡ some t) × Matched verts es [] s t
  unfolding match_edges
  match_edges-Matched verts [] s d o = (
    s,
    refl,
    record { still = o; same_tally = refl; kept = λ a b p. p; opposite = λ a b p. inl p },
  )
  match_edges-Matched verts (e ∷ es) s d o =
      let (u, run, m) = match_edge-Matched verts e es s d o in
      let (t, runs, n) = match_edges-Matched verts es u (Nodup-cons.0 d).1 m.still in
      (
        t,
        rw (run, runs),
        record {
          still = n.still;
          same_tally = n.same_tally ∙ m.same_tally;
          kept = λ a b p. n.kept a b (m.kept a b p);
          opposite = λ a b p. elim (n.opposite a b p) [
            | inl earlier ↦ m.opposite a b earlier
            | inr across ↦ inr across
          ];
        },
      )

  -- What `fast_compute_edge_links` makes of a mesh, with the edges that were matched and those left.
  pub record Computed (mesh : Mesh) (r : Mesh × ℕ × ℕ) : Type 0 where
    pub same_polys : r.0.polys ≡ mesh.polys
    pub two_way : TwoWay r.0.links
    pub checked : has_valid_edge_links r.0 ≡ true
    pub kept : (a b : PolyEdge) → mesh.links a ≡ some b → r.0.links a ≡ some b
    pub opposite :
        (a b : PolyEdge)
        → r.0.links a ≡ some b
        → (mesh.links a ≡ some b) ⊎ (edge_key mesh.verts a ≡ reverse (edge_key mesh.verts b))
    pub counts : r.2 + 2 * r.1 ≡ unlinked mesh.links (edges mesh.polys)

  -- On a mesh whose links go both ways and whose iterator meets each triangle once,
  -- `fast_compute_edge_links` does not fault. The links of the result go both ways, so that
  -- `has_valid_edge_links` holds, those that were there are kept, every other link joins two edges
  -- that go between the same two vertices in opposite directions, and twice the number of matched
  -- edges plus the number of open edges is the number of edges that had no link.
  pub fast_compute_edge_links-Computed :
      (mesh : Mesh)
      → Nodup mesh.polys
      → TwoWay mesh.links
      → (r : Mesh × ℕ × ℕ) × (fast_compute_edge_links mesh ≡ some r) × Computed mesh r
  unfolding fast_compute_edge_links unlinked
  fast_compute_edge_links-Computed mesh once two =
      let d = edges-Nodup mesh.polys once in
      let none_open : HashTable (ℕ × ℕ) PolyEdge = record { buckets = []; count = 0 } in
      let s : Matching = record { links = mesh.links; open_edges = none_open; matched = 0 } in
      let o : IsMatching mesh.verts (edges mesh.polys) s =
        unfold flatten in
        record {
          valid = record { placed = IsPlaced-replicate 0; counted = refl };
          free = λ x m. absurd (not-mem-nil m);
          visited = λ x m. absurd (not-mem-nil m);
          distinct = Nodup-nil;
          two_way = two;
          keyed = λ x m. absurd (not-mem-nil m);
        } in
      let (t, run, m) = match_edges-Matched mesh.verts (edges mesh.polys) s d o in
      let r : Mesh × ℕ × ℕ = (record mesh { links = t.links }, t.matched, t.open_edges.count) in
      (
        r,
        rw run,
        record {
          same_polys = refl;
          two_way = m.still.two_way;
          checked =
              unfold has_valid_edge_links in
              valid_links_lem t.links (edges mesh.polys) m.still.two_way;
          kept = m.kept;
          opposite = m.opposite;
          counts = omega (arith, m.same_tally);
        },
      )
