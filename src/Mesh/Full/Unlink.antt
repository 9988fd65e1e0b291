-- ===== src/Mesh/Full/Unlink.antt =====
-- The loop of `erase` that resets the links to the edges of a triangle.
use salgo.Base.Store.{put, number_cases}
use salgo.Base.{
  ℕ, suc, ◌<◌, ◌≡◌, ◌≢◌, refl, ap, sym, ◌∙◌, true, Option, none, some, ltb, inl, inr, Option-cases,
  arith,
}
use salgo.HashTable.{Key}
use salgo.Mesh.{PolyEdge}
use salgo.Mesh.EdgeLinks.{TwoWay, edge_cases}
use salgo.Mesh.Full.{
  PolyVert, Poly, FullMesh, link_at, set_end, reset_edge, reset_other, unlink_edge,
}
use salgo.Mesh.Full.Ends.{
  verts_of, some_poly, linked_edge, if_none, with_end, end_at, end_elsewhere, end_verts,
}

module _ {V : Type 0} ⦃key : Key PolyVert⦄ where
  -- After the rounds below `n` no edge elsewhere is linked to these edges of `p`, and only links from
  -- and to `p` are gone.
  pub record Unlinking (p n : ℕ) (m m' : FullMesh V) : Type 0 where
    pub same_vs : m'.vs ≡ m.vs
    pub same_verts : (h : ℕ) → verts_of (m'.ps h) ≡ verts_of (m.ps h)
    pub fewer : (e o : PolyEdge) → link_at m' e ≡ some o → link_at m e ≡ some o
    pub cut :
        (e : PolyEdge) (i : ℕ) → i < n → link_at m e ≡ some (p, i) → e.0 ≢ p → link_at m' e ≡ none
    pub kept : (e o : PolyEdge) → o.0 ≢ p → link_at m e ≡ some o → link_at m' e ≡ some o

  -- The link to edge `n` of `p` goes, which stands at `o`.
  reset-Unlinking :
      (p n : ℕ) (m m' : FullMesh V) (o : PolyEdge) (q : Poly) (there : m'.ps o.0 ≡ some q)
      → TwoWay (link_at m)
      → link_at m o ≡ some (p, n)
      → Unlinking p n m m'
      → Unlinking p
          (suc n)
          m
          (record m' { ps = put o.0 (some (with_end m'.ps o none q there)) m'.ps })
  reset-Unlinking p n m m' o q there two linked u = record {
    same_vs = u.same_vs;
    same_verts = λ h. end_verts m'.ps o none q there h ∙ u.same_verts h;
    fewer = λ e b l. elim (edge_cases e o) [
      | inl same ↦
          let gone = (end_at m'.ps o none q there e same ∙ if_none (ltb o.1 3) refl) in absurd (cc)
      | inr differ ↦ u.fewer e b (sym (end_elsewhere m'.ps o none q there e differ) ∙ l)
    ];
    cut = λ e i i_lt l away. elim (edge_cases e o) [
      | inl same ↦ (end_at m'.ps o none q there e same ∙ if_none (ltb o.1 3) refl)
      | inr differ ↦ end_elsewhere m'.ps o none q there e differ ∙ elim (number_cases i n) [
        | inl same ↦
            let back = two e (p, i) l in
            let again = two o (p, n) linked in
            let as_n = ap (λ z. link_at m (p, z)) same in
            absurd (differ (some_edge e o (sym back ∙ as_n ∙ again)))
        | inr other ↦ u.cut e i (omega arith) l away
      ]
    ];
    kept = λ e b away l.
        end_elsewhere m'.ps o none q there e (λ same.
          away (
            ap (λ (z : PolyEdge). z.0) (some_edge b (p, n) (sym l ∙ ap (link_at m) same ∙ linked))))
        ∙ u.kept e b away l;
  }
    where
      some_edge : (a b : PolyEdge) → Path (Option PolyEdge) (some a) (some b) → a ≡ b
      some_edge a b q = cc

  unlink_edge_linked :
      (p n : ℕ) (m : FullMesh V) (r : Poly) (o : PolyEdge) (q : Poly) (there : m.ps o.0 ≡ some q)
      → m.ps p ≡ some r
      → r.edges n ≡ some o
      → unlink_edge p n m
        ≡ some (record m { ps = put o.0 (some (with_end m.ps o none q there)) m.ps })
  unfolding unlink_edge reset_other reset_edge set_end
  unlink_edge_linked p n m r o q there own f = rw (own, f, there)

  pub unlink_edge-Unlinking :
      (p n : ℕ) (m m' : FullMesh V) (q : Poly)
      → n < 3
      → TwoWay (link_at m)
      → m.ps p ≡ some q
      → Unlinking p n m m'
      → (t : FullMesh V) × (unlink_edge p n m' ≡ some t) × Unlinking p (suc n) m t
  unfolding unlink_edge reset_other
  unlink_edge-Unlinking p n m m' q lt two here u =
      let (r, there, verts) = some_poly (m'.ps p) (m.ps p) q (u.same_verts p) here in
      let low : ltb n 3 ≡ true = ground arith in
      let own : link_at m' (p, n) ≡ r.edges n = rw (there, low) in
      elim (Option-cases (r.edges n)) [
        | inl f ↦ (
          m',
          rw (there, f),
          record {
            same_vs = u.same_vs;
            same_verts = u.same_verts;
            fewer = u.fewer;
            cut = λ e i i_lt linked away. elim (number_cases i n) [
              | inl same ↦
                  let back = two e (p, i) linked in
                  let still = u.kept (p, i) e away back in
                  let gone = ap (λ z. link_at m' (p, z)) same ∙ own ∙ f in absurd (cc)
              | inr differ ↦ u.cut e i (omega arith) linked away
            ];
            kept = u.kept;
          },
        )
        | inr (o, f) ↦
            let linked = two (p, n) o (u.fewer (p, n) o (own ∙ f)) in
            let (q_o, at_o, _) = linked_edge (m.ps o.0) o.1 (p, n) linked in
            let (r_o, at_o', verts_o) =
              some_poly (m'.ps o.0) (m.ps o.0) q_o (u.same_verts o.0) at_o in
            (
              record m' { ps = put o.0 (some (with_end m'.ps o none r_o at_o')) m'.ps },
              unlink_edge_linked p n m' r o r_o at_o' there f,
              reset-Unlinking p n m m' o r_o at_o' two linked u,
            )
      ]
