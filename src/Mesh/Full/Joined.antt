-- ===== src/Mesh/Full/Joined.antt =====
-- `link` and `unlink` on a consistent mesh.
use mathlib.Core.Path.{subst}
use salgo.Base.{ℕ, ◌<◌, ◌≡◌, ◌≢◌, ap, sym, none, some, Option-cases, inl, inr}
use salgo.HashTable.{Key}
use salgo.Mesh.{PolyEdge, Links, set_link}
use salgo.Mesh
use salgo.Mesh.EdgeLinks.{TwoWay, Linked, Linked-TwoWay, link-Linked}
use salgo.Mesh.Full.{PolyVert, Poly, FullMesh, vert_at, link_at, link, unlink}
use salgo.Mesh.Full.Index.{Indexed, Indexed-congr}
use salgo.Mesh.Full.Add.{IsConsistent, TwoWay-congr}
use salgo.Mesh.Full.Ends.{verts_of, corner-verts_of}
use salgo.Mesh.Full.Linking.{Relinked, Refines, link-Refines, unlink-Relinked, unlinked-TwoWay}

module _ {V : Type 0} ⦃key : Key PolyVert⦄ where
  -- Other links between the edges.
  pub Relinked-IsConsistent :
      (m m' : FullMesh V) (links : Links)
      → Relinked m m' links
      → TwoWay links
      → IsConsistent m
      → IsConsistent m'
  Relinked-IsConsistent m m' links r two ok = record {
    indexed =
        subst (λ vs. Indexed vs (vert_at m')) (sym r.same_vs)
          (Indexed-congr m.vs (vert_at m) (vert_at m')
            (λ pv. sym (corner-verts_of (m'.ps pv.0) (m.ps pv.0) pv.1 (r.same_verts pv.0)))
            ok.indexed);
    two_way = TwoWay-congr links (link_at m') (λ e. ap (λ (f : Links). f e) (sym r.relinked)) two;
  }

  -- What `link` of `e` and `o` makes of a mesh.
  pub record Joined (e o : PolyEdge) (m m' : FullMesh V) : Type 0 where
    pub consistent : IsConsistent m'
    pub same_verts : (h : ℕ) → verts_of (m'.ps h) ≡ verts_of (m.ps h)
    pub linked : Linked e o (link_at m) (link_at m')

  pub link-Joined :
      (e o : PolyEdge) (m : FullMesh V) (q r : Poly)
      → m.ps e.0 ≡ some q
      → m.ps o.0 ≡ some r
      → e.1 < 3
      → o.1 < 3
      → e ≢ o
      → link_at m e ≡ none
      → link_at m o ≡ none
      → IsConsistent m
      → (m' : FullMesh V) × (link e o m ≡ some m') × Joined e o m m'
  link-Joined e o m q r at_e at_o e_lt o_lt differ free_e free_o ok =
      let (links, run, l) = link-Linked e o (link_at m) differ free_e free_o in
      let refines : Refines m (link e o m) (Mesh.link e o (link_at m)) =
        link-Refines e o m q r at_e at_o e_lt o_lt in
      let refined : Refines m (link e o m) (some links) = rw run at refines in
      elim (Option-cases (link e o m)) [
        | inl none_at ↦ let bad = rw none_at at refined in absurd (bad)
        | inr (m', done) ↦
            let relinked : Relinked m m' links = rw done at refined in
            (
              m',
              done,
              record {
                consistent =
                    Relinked-IsConsistent m m' links relinked
                      (Linked-TwoWay e o (link_at m) links free_e free_o l ok.two_way) ok;
                same_verts = relinked.same_verts;
                linked = subst (Linked e o (link_at m)) (sym relinked.relinked) l;
              },
            )
      ]

  pub unlink-IsConsistent :
      (e o : PolyEdge) (m : FullMesh V)
      → link_at m e ≡ some o
      → IsConsistent m
      → (m' : FullMesh V) × (unlink e m ≡ some m') × IsConsistent m'
  unlink-IsConsistent e o m linked ok =
      let (m', run, r) = unlink-Relinked e o m linked (ok.two_way e o linked) in
      (
        m',
        run,
        Relinked-IsConsistent m m' _ r (unlinked-TwoWay e o (link_at m) linked ok.two_way) ok,
      )
