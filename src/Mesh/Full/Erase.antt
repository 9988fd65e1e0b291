-- ===== src/Mesh/Full/Erase.antt =====
-- `erase` of a triangle.
use salgo.Base.Store.{put, put_self, put_other}
use mathlib.Core.Path.{subst}
use salgo.Base.{
  ℕ, ◌<◌, ◌≡◌, ◌≢◌, refl, ap, sym, ◌∙◌, Bool, true, false, Option, none, some, ◌>>=◌, arith,
}
use salgo.HashTable.{Key}
use salgo.Mesh.{PolyEdge}
use salgo.Mesh.EdgeLinks.{TwoWay}
use salgo.Mesh.Full.{
  PolyVert, Poly, FullMesh, corner, link_of, vert_at, link_at, unlink_edge, erase_poly,
}
use salgo.Mesh.Full.Index.{Indexed, Indexed-congr}
use salgo.Mesh.Full.Add.{IsConsistent, TwoWay-congr}
use salgo.Mesh.Full.Ends.{verts_of, corner-verts_of, some_poly, link_place}
use salgo.Mesh.Full.Unlist.{unlink_verts-Relisted}
use salgo.Mesh.Full.Unlink.{Unlinking, unlink_edge-Unlinking}

no_link : (ps : ℕ → Option Poly) (p i : ℕ) → link_of (put p none ps p) i ≡ none
no_link ps p i = ap (λ z. link_of z i) (put_self p none ps)

module _ {V : Type 0} ⦃key : Key PolyVert⦄ where
  start-Unlinking : (p : ℕ) (m : FullMesh V) → Unlinking p 0 m m
  start-Unlinking p m = record {
    same_vs = refl;
    same_verts = λ h. refl;
    fewer = λ e o l. l;
    cut = λ e i lt l away. absurd (omega arith);
    kept = λ e o away l. l;
  }

  -- The whole loop over the edges.
  unlink_edges-Unlinking :
      (p : ℕ) (m : FullMesh V) (q : Poly)
      → TwoWay (link_at m)
      → m.ps p ≡ some q
      → (m' : FullMesh V) × ((unlink_edge p 0 m >>= λ a. unlink_edge p 1 a >>= unlink_edge p 2)
          ≡ some m')
        × Unlinking p 3 m m'
  unlink_edges-Unlinking p m q two here =
      let (m₁, run₁, u₁) =
        unlink_edge-Unlinking p 0 m m q (omega arith) two here (start-Unlinking p m) in
      let (m₂, run₂, u₂) = unlink_edge-Unlinking p 1 m m₁ q (omega arith) two here u₁ in
      let (m₃, run₃, u₃) = unlink_edge-Unlinking p 2 m m₂ q (omega arith) two here u₂ in
      (m₃, rw (run₁, run₂, run₃), u₃)

  -- No link from or to `p` is left, and the others are as they were.
  rest-TwoWay :
      (p : ℕ) (m m' : FullMesh V)
      → TwoWay (link_at m)
      → Unlinking p 3 m m'
      → TwoWay (λ e. link_of (put p none m'.ps e.0) e.1)
  rest-TwoWay p m m' two u a b l =
      let away : a.0 ≢ p = λ same.
        let gone = ap (λ h. link_of (put p none m'.ps h) a.1) same ∙ no_link m'.ps p a.1 in
        absurd (cc) in
      let now : link_at m' a ≡ some b =
        ap (λ z. link_of z a.1) (sym (put_other p none m'.ps a.0 away)) ∙ l in
      let was = u.fewer a b now in
      let back = two a b was in
      let b_away : b.0 ≢ p = λ same.
        let lt = link_place (m.ps b.0) b.1 a back in
        let is_b : Path PolyEdge b (p, b.1) = λ i. (same i, b.1) in
        let gone = u.cut a b.1 lt (was ∙ ap some is_b) away in absurd (cc) in
      ap (λ z. link_of z b.1) (put_other p none m'.ps b.0 b_away) ∙ u.kept b a away back

  -- What `erase` of `p` makes of a mesh with no links from or to it.
  pub record Erased (p : ℕ) (m m' : FullMesh V) : Type 0 where
    pub consistent : IsConsistent m'
    pub gone : m'.ps p ≡ none
    pub others : (h : ℕ) → h ≢ p → m'.ps h ≡ m.ps h

  -- `erase` that leaves the links, after they have been reset.
  pub erase_poly-Erased :
      (erase_isolated : Bool) (p : ℕ) (m m₁ : FullMesh V) (q : Poly)
      → IsConsistent m
      → m.ps p ≡ some q
      → Unlinking p 3 m m₁
      → (m' : FullMesh V) × (erase_poly false erase_isolated p m₁ ≡ some m') × Erased p m₁ m'
  unfolding erase_poly
  erase_poly-Erased erase_isolated p m m₁ q ok here u =
      let (r, here₁, _) = some_poly (m₁.ps p) (m.ps p) q (u.same_verts p) here in
      let same_corners : (pv : PolyVert) → vert_at m pv ≡ vert_at m₁ pv =
        λ pv. sym (corner-verts_of (m₁.ps pv.0) (m.ps pv.0) pv.1 (u.same_verts pv.0)) in
      let start : Indexed m₁.vs (vert_at m₁) =
        subst (λ vs. Indexed vs (vert_at m₁)) (sym u.same_vs)
          (Indexed-congr m.vs (vert_at m) (vert_at m₁) same_corners ok.indexed) in
      let (m₂, run, left) = unlink_verts-Relisted erase_isolated p m₁ r start here₁ in
      let m₃ : FullMesh V = record m₂ { ps = put p none m₂.ps } in
      let same : Path (ℕ → Option Poly) (put p none m₁.ps) m₃.ps =
        ap (put p none) (sym left.same_ps) in
      (
        m₃,
        rw run,
        record {
          consistent = record {
            indexed =
                Indexed-congr m₂.vs _ (vert_at m₃)
                  (λ pv. ap (λ (f : ℕ → Option Poly). corner (f pv.0) pv.1) same) left.indexed;
            two_way =
                TwoWay-congr (λ e. link_of (put p none m₁.ps e.0) e.1) (link_at m₃)
                  (λ e. ap (λ (f : ℕ → Option Poly). link_of (f e.0) e.1) same)
                  (rest-TwoWay p m m₁ ok.two_way u);
          };
          gone = put_self p none m₂.ps;
          others = λ h differ.
              ap (λ (f : ℕ → Option Poly). f h) (sym same) ∙ put_other p none m₁.ps h differ;
        },
      )

  -- `erase` of a triangle that exists, with its edges unlinked and the vertices it leaves isolated
  -- erased or not, does not fault and leaves the mesh consistent, without that triangle and with the
  -- corners of the others.
  pub erase_poly-IsConsistent :
      (erase_isolated : Bool) (p : ℕ) (m : FullMesh V) (q : Poly)
      → IsConsistent m
      → m.ps p ≡ some q
      → (m' : FullMesh V) × (erase_poly true erase_isolated p m ≡ some m')
        × IsConsistent m'
        × (m'.ps p ≡ none)
        × ((h : ℕ) → h ≢ p → verts_of (m'.ps h) ≡ verts_of (m.ps h))
  unfolding erase_poly
  erase_poly-IsConsistent erase_isolated p m q ok here =
      let (m₁, run₁, u) = unlink_edges-Unlinking p m q ok.two_way here in
      let (m', run, e) = erase_poly-Erased erase_isolated p m m₁ q ok here u in
      (
        m',
        rw run₁ run,
        e.consistent,
        e.gone,
        λ h differ. ap verts_of (e.others h differ) ∙ u.same_verts h,
      )

  -- The same for a triangle without links.
  pub erase_alone-Erased :
      (erase_isolated : Bool) (p : ℕ) (m : FullMesh V) (q : Poly)
      → IsConsistent m
      → m.ps p ≡ some q
      → ((i : ℕ) → i < 3 → link_at m (p, i) ≡ none)
      → (m' : FullMesh V) × (erase_poly false erase_isolated p m ≡ some m') × Erased p m m'
  erase_alone-Erased erase_isolated p m q ok here alone =
      erase_poly-Erased erase_isolated p m m q ok here (record {
        same_vs = refl;
        same_verts = λ h. refl;
        fewer = λ e o l. l;
        cut = λ e i lt l away.
            let back = ok.two_way e (p, i) l in let off = alone i lt in absurd (cc);
        kept = λ e o away l. l;
      })
