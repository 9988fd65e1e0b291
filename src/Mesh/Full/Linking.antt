-- ===== src/Mesh/Full/Linking.antt =====
-- `link` and `unlink` of edges, and the same operations on links as a function.
use salgo.Base.Store.{put}
use mathlib.Core.Path.{subst}
use salgo.Base.{
  ℕ, ◌<◌, ◌≡◌, ◌≢◌, refl, ap, sym, ◌∙◌, Option, none, some, ◌>>=◌, inl, inr, Option-cases,
}
use salgo.HashTable.{Key}
use salgo.Mesh.{PolyEdge, Links, set_link, is_valid, is_back, same_edge}
use salgo.Mesh
use salgo.Mesh.EdgeLinks.{TwoWay, edge_cases, same_edge_refl, set_link_self, set_link_other}
use salgo.Mesh.Full.{
  PolyVert, Poly, FullMesh, link_at, set_end, reset_edge, check_back, check_link, link, unlink_from,
  unlink,
}
use salgo.Mesh.Full.Ends.{
  verts_of, some_poly, linked_edge, link_of_edge, link_place, with_end, end_links, end_verts,
}

both_ends :
    (e o : PolyEdge) (links : Links) → set_link o (some e) (set_link e (some o) links) e ≡ some o
both_ends e o links = elim (edge_cases e o) [
  | inl same ↦
      ap (set_link o (some e) (set_link e (some o) links)) same
      ∙ set_link_self o (some e) _
      ∙ ap some same
  | inr differ ↦ set_link_other o e (some e) _ differ ∙ set_link_self e (some o) links
]

bind_assoc :
    {A B C : Type 0} (x : Option A) (f : A → Option B) (g : B → Option C)
    → (x >>= λ a. f a >>= g) ≡ ((x >>= f) >>= g)
bind_assoc none f g = refl
bind_assoc (some a) f g = refl

module _ {V : Type 0} where
  -- Vertices and corners are as they were, and the links are `links`.
  pub record Relinked (m m' : FullMesh V) (links : Links) : Type 0 where
    pub same_vs : m'.vs ≡ m.vs
    pub same_verts : (h : ℕ) → verts_of (m'.ps h) ≡ verts_of (m.ps h)
    pub relinked : Path Links (link_at m') links

  -- The operation on the mesh faults when that on the links does, and changes nothing but the links.
  abbrev pub Refines : FullMesh V → Option (FullMesh V) → Option Links → Type 0
  Refines m none none = Unit
  Refines m none (some links) = ⊥
  Refines m (some m') none = ⊥
  Refines m (some m') (some links) = Relinked m m' links

module _ {V : Type 0} ⦃key : Key PolyVert⦄ where
  set_end-Relinked :
      (e : PolyEdge) (l : Option PolyEdge) (m : FullMesh V) (q : Poly)
      → m.ps e.0 ≡ some q
      → e.1 < 3
      → (m' : FullMesh V) × (set_end e l m ≡ some m') × Relinked m m' (set_link e l (link_at m))
  unfolding set_end
  set_end-Relinked e l m q here lt = (
    record m { ps = put e.0 (some (with_end m.ps e l q here)) m.ps },
    rw here,
    record {
      same_vs = refl;
      same_verts = end_verts m.ps e l q here;
      relinked = end_links m.ps e l q here lt;
    },
  )

  -- Two ends, one after the other.
  set_ends-Relinked :
      (e o : PolyEdge) (l k : Option PolyEdge) (m : FullMesh V) (q r : Poly)
      → m.ps e.0 ≡ some q
      → m.ps o.0 ≡ some r
      → e.1 < 3
      → o.1 < 3
      → (m' : FullMesh V) × ((set_end e l m >>= set_end o k) ≡ some m')
        × Relinked m m' (set_link o k (set_link e l (link_at m)))
  set_ends-Relinked e o l k m q r at_e at_o e_lt o_lt =
      let (m₁, run₁, c₁) = set_end-Relinked e l m q at_e e_lt in
      let (r₁, at_o₁, _) = some_poly (m₁.ps o.0) (m.ps o.0) r (c₁.same_verts o.0) at_o in
      let (m₂, run₂, c₂) = set_end-Relinked o k m₁ r₁ at_o₁ o_lt in
      (
        m₂,
        rw (run₁, run₂),
        record {
          same_vs = c₂.same_vs ∙ c₁.same_vs;
          same_verts = λ h. c₂.same_verts h ∙ c₁.same_verts h;
          relinked = c₂.relinked ∙ ap (set_link o k) c₁.relinked;
        },
      )

  check_link_lem :
      (e o : PolyEdge) (m : FullMesh V)
      → link_at m e ≡ some o
      → link_at m o ≡ some e
      → check_link e m ≡ some m
  unfolding check_link check_back
  check_link_lem e o m there back =
      let (q, at_e, own) = linked_edge (m.ps e.0) e.1 o there in
      let (r, at_o, other) = linked_edge (m.ps o.0) o.1 e back in
      rw (at_e, own, at_o, other, same_edge_refl e)

  by_results :
      (m : FullMesh V) (x x' : Option (FullMesh V)) (y y' : Option Links)
      → x ≡ x'
      → y ≡ y'
      → Refines m x' y'
      → Refines m x y
  by_results m x x' y y' p q r =
      subst (λ z. Refines m z y) (sym p) (subst (λ z. Refines m x' z) (sym q) r)

  -- `link` of two edges of triangles that exist implements `link` on the links of the mesh: it faults
  -- when one of the edges has a link, else it sets both ends, passes its own check and leaves the
  -- vertices and corners as they were.
  pub link-Refines :
      (e o : PolyEdge) (m : FullMesh V) (q r : Poly)
      → m.ps e.0 ≡ some q
      → m.ps o.0 ≡ some r
      → e.1 < 3
      → o.1 < 3
      → Refines m (link e o m) (Mesh.link e o (link_at m))
  unfolding link Mesh.link
  link-Refines e o m q r at_e at_o e_lt o_lt =
      let own_e = link_of_edge (m.ps e.0) q e.1 at_e e_lt in
      let own_o = link_of_edge (m.ps o.0) r o.1 at_o o_lt in
      elim (Option-cases (q.edges e.1)) [
        | inr (x, taken) ↦
            by_results m (link e o m) none (Mesh.link e o (link_at m)) none (rw (at_e, at_o, taken))
              (rw (own_e ∙ taken)) tt
        | inl free ↦ elim (Option-cases (r.edges o.1)) [
          | inr (x, taken) ↦
              by_results m (link e o m) none (Mesh.link e o (link_at m)) none
                (rw (at_e, at_o, free, taken)) (rw (own_e ∙ free, own_o ∙ taken)) tt
          | inl free_o ↦
              let (m', run, c) =
                set_ends-Relinked e o (some o) (some e) m q r at_e at_o e_lt o_lt in
              let checked =
                check_link_lem e o m'
                  (ap (λ (f : Links). f e) c.relinked ∙ both_ends e o (link_at m))
                  (ap (λ (f : Links). f o) c.relinked ∙ set_link_self o (some e) _) in
              let whole =
                bind_assoc (set_end e (some o) m) (set_end o (some e)) (check_link e)
                ∙ ap (λ (z : Option (FullMesh V)). z >>= check_link e) run
                ∙ checked in
              by_results m (link e o m) (some m') (Mesh.link e o (link_at m))
                (some (set_link o (some e) (set_link e (some o) (link_at m))))
                (rw (at_e, at_o, free, free_o) whole) (rw (own_e ∙ free, own_o ∙ free_o)) c
        ]
      ]

  -- `unlink` of two edges that are linked to each other.
  pub unlink-Relinked :
      (e o : PolyEdge) (m : FullMesh V)
      → link_at m e ≡ some o
      → link_at m o ≡ some e
      → (m' : FullMesh V) × (unlink e m ≡ some m')
        × Relinked m m' (set_link o none (set_link e none (link_at m)))
  unfolding unlink unlink_from reset_edge
  unlink-Relinked e o m there back =
      let (q, at_e, own) = linked_edge (m.ps e.0) e.1 o there in
      let (r, at_o, other) = linked_edge (m.ps o.0) o.1 e back in
      let (m', run, c) =
        set_ends-Relinked e o none none m q r at_e at_o (link_place (m.ps e.0) e.1 o there)
          (link_place (m.ps o.0) o.1 e back) in
      (m', rw (at_e, own, check_link_lem e o m there back) run, c)

-- Without both ends of a link, the others still go both ways.
pub unlinked-TwoWay :
    (e o : PolyEdge) (links : Links)
    → links e ≡ some o
    → TwoWay links
    → TwoWay (set_link o none (set_link e none links))
unlinked-TwoWay e o links linked two a b h =
    let after : Links = set_link o none (set_link e none links) in
    let off_o : a ≢ o =
      λ s. let gone = ap after s ∙ set_link_self o none (set_link e none links) in absurd (cc) in
    let off_e : a ≢ e = λ s.
      let gone =
        set_link_other o a none (set_link e none links) off_o
        ∙ ap (set_link e none links) s
        ∙ set_link_self e none links in
      absurd (cc) in
    let keep : (x : PolyEdge) → x ≢ o → x ≢ e → after x ≡ links x = λ x n k.
      set_link_other o x none (set_link e none links) n ∙ set_link_other e x none links k in
    let was = sym (keep a off_o off_e) ∙ h in
    let back = two a b was in
    keep b (λ s. off_e (some_edge a e (sym back ∙ ap links s ∙ two e o linked)))
      (λ s. off_o (some_edge a o (sym back ∙ ap links s ∙ linked)))
    ∙ back
  where
    some_edge : (a b : PolyEdge) → Path (Option PolyEdge) (some a) (some b) → a ≡ b
    some_edge a b q = cc
