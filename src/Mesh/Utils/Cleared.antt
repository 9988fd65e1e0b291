-- ===== src/Mesh/Utils/Cleared.antt =====
-- One edge of a mesh loses its link.
use salgo.Base.{
  ◌⊎◌, ℕ, ◌<◌, ◌≡◌, ◌≢◌, refl, ap, sym, ◌∙◌, Option, none, some, inl, inr, Option-cases,
}
use salgo.HashTable.{Key}
use salgo.Mesh.{PolyEdge, Links, set_link}
use salgo.Mesh.EdgeLinks.{edge_cases, set_link_self, set_link_other}
use salgo.Mesh.Full.{PolyVert, Poly, FullMesh, link_at, unlink_if_linked}
use salgo.Mesh.Full.Add.{IsConsistent}
use salgo.Mesh.Full.Ends.{verts_of, some_poly}
use salgo.Mesh.Full.Ends
use salgo.Mesh.Full.Linking.{Relinked, unlink-Relinked, unlinked-TwoWay}
use salgo.Mesh.Full.Joined.{Relinked-IsConsistent}
use salgo.Mesh.Utils.{unlink_if_valid, linked_edge}

some_edge : (a b : PolyEdge) → Path (Option PolyEdge) (some a) (some b) → a ≡ b
some_edge a b q = cc

module _ (a b : PolyEdge) (links : Links) where
  abbrev cut_both : Links
  cut_both = set_link b none (set_link a none links)

  cut_first : cut_both a ≡ none
  cut_first = elim (edge_cases a b) [
    | inl same ↦ ap cut_both same ∙ set_link_self b none (set_link a none links)
    | inr differ ↦
        set_link_other b a none (set_link a none links) differ ∙ set_link_self a none links
  ]

  cut_second : cut_both b ≡ none
  cut_second = set_link_self b none (set_link a none links)

  cut_other : (x : PolyEdge) → x ≢ a → x ≢ b → cut_both x ≡ links x
  cut_other x off_a off_b =
      set_link_other b x none (set_link a none links) off_b ∙ set_link_other a x none links off_a

module _ {V : Type 0} ⦃key : Key PolyVert⦄ where
  -- The edge `e` and the edge it was linked to have no links, and no edge has a new one.
  pub record Cleared (e : PolyEdge) (m m' : FullMesh V) : Type 0 where
    pub consistent : IsConsistent m'
    pub same_vs : m'.vs ≡ m.vs
    pub same_verts : (h : ℕ) → verts_of (m'.ps h) ≡ verts_of (m.ps h)
    pub off : link_at m' e ≡ none
    pub other_off : (o : PolyEdge) → link_at m e ≡ some o → link_at m' o ≡ none
    pub fewer : (x o : PolyEdge) → link_at m' x ≡ some o → link_at m x ≡ some o
    pub kept : (x o : PolyEdge) → link_at m x ≡ some o → x ≢ e → o ≢ e → link_at m' x ≡ some o

  nothing-Cleared :
      (e : PolyEdge) (m : FullMesh V) → IsConsistent m → link_at m e ≡ none → Cleared e m m
  nothing-Cleared e m ok free = record {
    consistent = ok;
    same_vs = refl;
    same_verts = λ h. refl;
    off = free;
    other_off = λ o l. absurd (cc);
    fewer = λ x o l. l;
    kept = λ x o l a b. l;
  }

  -- Both ends of the link of `e` go, in either order.
  Relinked-Cleared :
      (e a b : PolyEdge) (m m' : FullMesh V)
      → IsConsistent m
      → IsConsistent m'
      → link_at m a ≡ some b
      → (e ≡ a) ⊎ (e ≡ b)
      → Relinked m m' (set_link b none (set_link a none (link_at m)))
      → Cleared e m m'
  Relinked-Cleared e a b m m' ok ok' linked is r =
      let now : (x : PolyEdge) → link_at m' x ≡ cut_both a b (link_at m) x =
        λ x. ap (λ (f : Links). f x) r.relinked in
      let first = now a ∙ cut_first a b (link_at m) in
      let second = now b ∙ cut_second a b (link_at m) in
      let back = ok.two_way a b linked in
      record {
        consistent = ok';
        same_vs = r.same_vs;
        same_verts = r.same_verts;
        off = elim is [
          | inl at_a ↦ ap (link_at m') at_a ∙ first
          | inr at_b ↦ ap (link_at m') at_b ∙ second
        ];
        other_off = λ o l. elim is [
          | inl at_a ↦
              ap (link_at m') (some_edge o b (sym l ∙ ap (link_at m) at_a ∙ linked)) ∙ second
          | inr at_b ↦ ap (link_at m') (some_edge o a (sym l ∙ ap (link_at m) at_b ∙ back)) ∙ first
        ];
        fewer = λ x o l.
            sym (
              cut_other a b (link_at m) x (λ s. let gone = ap (link_at m') s ∙ first in absurd (cc))
                (λ s. let gone = ap (link_at m') s ∙ second in absurd (cc)))
            ∙ sym (now x)
            ∙ l;
        kept = λ x o l off_x off_o. now x ∙ elim is [
          | inl at_a ↦
              cut_other a b (link_at m) x (λ s. off_x (s ∙ sym at_a))
                (λ s. off_o (some_edge o a (sym l ∙ ap (link_at m) s ∙ back) ∙ sym at_a))
              ∙ l
          | inr at_b ↦
              cut_other a b (link_at m) x
                (λ s. off_o (some_edge o b (sym l ∙ ap (link_at m) s ∙ linked) ∙ sym at_b))
                (λ s. off_x (s ∙ sym at_b))
              ∙ l
        ];
      }

  pub unlink_if_linked-Cleared :
      (e : PolyEdge) (m : FullMesh V) (q : Poly)
      → IsConsistent m
      → m.ps e.0 ≡ some q
      → e.1 < 3
      → (m' : FullMesh V) × (unlink_if_linked e m ≡ some m') × Cleared e m m'
  unfolding unlink_if_linked
  unlink_if_linked-Cleared e m q ok here lt =
      let own = Ends.link_of_edge (m.ps e.0) q e.1 here lt in
      elim (Option-cases (q.edges e.1)) [
        | inl free ↦ (m, rw (here, free), nothing-Cleared e m ok (own ∙ free))
        | inr (o, taken) ↦
            let linked = own ∙ taken in
            let (m', run, r) = unlink-Relinked e o m linked (ok.two_way e o linked) in
            (
              m',
              rw (here, taken) run,
              Relinked-Cleared e e o m m' ok
                  (Relinked-IsConsistent m m' _ r
                    (unlinked-TwoWay e o (link_at m) linked ok.two_way) ok)
                  linked (inl refl) r,
            )
      ]

  read_edge :
      (e : PolyEdge) (m : FullMesh V) (q : Poly) (o : Option PolyEdge)
      → m.ps e.0 ≡ some q
      → q.edges e.1 ≡ o
      → linked_edge e m ≡ some o
  unfolding linked_edge
  read_edge e m q o here own = rw here (ap some own)

  pub unlink_if_valid-Cleared :
      (e : PolyEdge) (m : FullMesh V) (q : Poly)
      → IsConsistent m
      → m.ps e.0 ≡ some q
      → e.1 < 3
      → (m' : FullMesh V) × (unlink_if_valid (link_at m e) m ≡ some m')
        × (linked_edge e m ≡ some (link_at m e))
        × Cleared e m m'
  unfolding unlink_if_valid
  unlink_if_valid-Cleared e m q ok here lt =
      let own = Ends.link_of_edge (m.ps e.0) q e.1 here lt in
      let read : linked_edge e m ≡ some (link_at m e) =
        read_edge e m q (link_at m e) here (sym own) in
      elim (Option-cases (link_at m e)) [
        | inl free ↦ (m, rw free, read, nothing-Cleared e m ok free)
        | inr (o, linked) ↦
            let back = ok.two_way e o linked in
            let (m', run, r) = unlink-Relinked o e m back linked in
            (
              m',
              rw linked run,
              read,
              Relinked-Cleared e o e m m' ok
                  (Relinked-IsConsistent m m' _ r (unlinked-TwoWay o e (link_at m) back ok.two_way)
                    ok)
                  back (inr refl) r,
            )
      ]
