-- ===== src/Mesh/Utils/Collapse.antt =====
-- `erase_poly_if_degenerate` links the two neighbours of a triangle that it erases.
use salgo.Base.{
  ◌⊎◌, ℕ, ◌<◌, ◌≡◌, ◌≢◌, refl, ap, sym, ◌∙◌, Option, none, some, inl, inr, Option-cases,
}
use salgo.HashTable.{Key}
use salgo.Mesh.{PolyEdge}
use salgo.Mesh.Full.{PolyVert, Poly, FullMesh, link_at}
use salgo.Mesh.Full.Add.{IsConsistent}
use salgo.Mesh.Full.Ends.{verts_of, some_poly, link_place}
use salgo.Mesh.Full.Ends
use salgo.Mesh.Full.Joined.{link-Joined}
use salgo.Mesh.Utils.{link_if_valid}
use salgo.Mesh.Utils.Cleared.{Cleared}

same_option : (a b : PolyEdge) → Path (Option PolyEdge) (some a) (some b) → a ≡ b
same_option a b q = cc

module _ {V : Type 0} ⦃key : Key PolyVert⦄ where
  pub stays_off :
      (e x : PolyEdge) (m m' : FullMesh V)
      → Cleared e m m'
      → link_at m x ≡ none
      → link_at m' x ≡ none
  stays_off e x m m' c off = elim (Option-cases (link_at m' x)) [
    | inl gone ↦ gone
    | inr (o, l) ↦ let was = c.fewer x o l in absurd (cc)
  ]

  -- Two edges of other triangles than `p` that can be linked.
  pub record Joinable (p : ℕ) (m : FullMesh V) (v w : PolyEdge) : Type 0 where
    pub v_poly : (q : Poly) × (m.ps v.0 ≡ some q)
    pub w_poly : (q : Poly) × (m.ps w.0 ≡ some q)
    pub v_place : v.1 < 3
    pub w_place : w.1 < 3
    pub v_free : link_at m v ≡ none
    pub w_free : link_at m w ≡ none
    pub v_away : v.0 ≢ p
    pub w_away : w.0 ≢ p
    pub differ : v ≢ w

  -- The mesh before the triangle is erased.
  pub record Rejoined (p : ℕ) (vv ww : Option PolyEdge) (m m' : FullMesh V) : Type 0 where
    pub consistent : IsConsistent m'
    pub same_verts : (h : ℕ) → verts_of (m'.ps h) ≡ verts_of (m.ps h)
    pub alone : (i : ℕ) → i < 3 → link_at m' (p, i) ≡ none
    pub joined : (v w : PolyEdge) → vv ≡ some v → ww ≡ some w → link_at m' v ≡ some w

  as_they_are :
      (p : ℕ) (vv ww : Option PolyEdge) (m : FullMesh V)
      → IsConsistent m
      → ((i : ℕ) → i < 3 → link_at m (p, i) ≡ none)
      → (vv ≡ none) ⊎ (ww ≡ none)
      → Rejoined p vv ww m m
  as_they_are p vv ww m ok alone missing = record {
    consistent = ok;
    same_verts = λ h. refl;
    alone = alone;
    joined = λ v w at_v at_w. elim missing [ inl no_v ↦ absurd (cc) | inr no_w ↦ absurd (cc) ];
  }

  pub link_if_valid-Rejoined :
      (p : ℕ) (vv ww : Option PolyEdge) (m : FullMesh V)
      → IsConsistent m
      → ((i : ℕ) → i < 3 → link_at m (p, i) ≡ none)
      → ((v w : PolyEdge) → vv ≡ some v → ww ≡ some w → Joinable p m v w)
      → (m' : FullMesh V) × (link_if_valid vv ww m ≡ some m') × Rejoined p vv ww m m'
  unfolding link_if_valid
  link_if_valid-Rejoined p none ww m ok alone both =
      (m, refl, as_they_are p none ww m ok alone (inl refl))
  link_if_valid-Rejoined p (some v) none m ok alone both =
      (m, refl, as_they_are p (some v) none m ok alone (inr refl))
  link_if_valid-Rejoined p (some v) (some w) m ok alone both =
      let b = both v w refl refl in
      let (m', run, j) =
        link-Joined v w m b.v_poly.0 b.w_poly.0 b.v_poly.1 b.w_poly.1 b.v_place b.w_place b.differ
          b.v_free b.w_free ok in
      (
        m',
        run,
        record {
          consistent = j.consistent;
          same_verts = j.same_verts;
          alone = λ i lt.
              j.linked.elsewhere (p, i) (λ s. b.v_away (sym (ap (λ (z : PolyEdge). z.0) s)))
                (λ s. b.w_away (sym (ap (λ (z : PolyEdge). z.0) s)))
              ∙ alone i lt;
          joined = λ v' w' at_v at_w.
              ap (link_at m') (same_option v' v (sym at_v)) ∙ j.linked.at_this ∙ at_w;
        },
      )

  module _ (p next prev far : ℕ)
      (cover : (i : ℕ) → i < 3 → (i ≡ next) ⊎ (i ≡ prev) ⊎ (i ≡ far)) where
    all_places :
        (m : FullMesh V)
        → link_at m (p, next) ≡ none
        → link_at m (p, prev) ≡ none
        → link_at m (p, far) ≡ none
        → (i : ℕ) → i < 3
        → link_at m (p, i) ≡ none
    all_places m at_next at_prev at_far i lt = elim (cover i lt) [
      | inl e ↦ ap (λ z. link_at m (p, z)) e ∙ at_next
      | inr (inl e) ↦ ap (λ z. link_at m (p, z)) e ∙ at_prev
      | inr (inr e) ↦ ap (λ z. link_at m (p, z)) e ∙ at_far
    ]

  -- The other end of a link is not in `p`, when no edge of `p` is linked to this one.
  other_end :
      (p : ℕ) (m : FullMesh V) (i : ℕ) (v : PolyEdge)
      → IsConsistent m
      → link_at m (p, i) ≡ some v
      → ((j : ℕ) → j < 3 → link_at m (p, j) ≢ some (p, i))
      → v.0 ≢ p
  other_end p m i v ok l others same =
      let back = ok.two_way (p, i) v l in
      let is_v : Path PolyEdge v (p, v.1) = λ k. (same k, v.1) in
      others v.1 (link_place (m.ps v.0) v.1 (p, i) back) (ap (link_at m) (sym is_v) ∙ back)

  -- The neighbours over two edges of `p`, once all its edges are unlinked in turn.
  pub neighbours-Joinable :
      (p next prev far : ℕ) (a b c : FullMesh V) (v w : PolyEdge)
      → ((i : ℕ) → i < 3 → (i ≡ next) ⊎ (i ≡ prev) ⊎ (i ≡ far))
      → ((i : ℕ) → link_at a (p, i) ≢ some (p, i))
      → IsConsistent a
      → link_at a (p, next) ≡ none
      → Cleared (p, prev) a b
      → Cleared (p, far) b c
      → link_at a (p, prev) ≡ some v
      → link_at b (p, far) ≡ some w
      → Joinable p c v w
  neighbours-Joinable p next prev far a b c v w cover selfless ok off cut cut' at_v at_w =
      let v_back = ok.two_way (p, prev) v at_v in
      let w_back = cut.consistent.two_way (p, far) w at_w in
      let v_off = cut.other_off v at_v in
      let (q, v_there, _) = Ends.linked_edge (a.ps v.0) v.1 (p, prev) v_back in
      let (r, w_there, _) = Ends.linked_edge (b.ps w.0) w.1 (p, far) w_back in
      let (q', v_poly, _) =
        some_poly (c.ps v.0) (a.ps v.0) q (cut'.same_verts v.0 ∙ cut.same_verts v.0) v_there in
      let (r', w_poly, _) = some_poly (c.ps w.0) (b.ps w.0) r (cut'.same_verts w.0) w_there in
      record {
        v_poly = (q', v_poly);
        w_poly = (r', w_poly);
        v_place = link_place (a.ps v.0) v.1 (p, prev) v_back;
        w_place = link_place (b.ps w.0) w.1 (p, far) w_back;
        v_free = stays_off (p, far) v b c cut' v_off;
        w_free = cut'.other_off w at_w;
        v_away = other_end p a prev v ok at_v (λ j lt l. elim (cover j lt) [
          | inl e ↦ let off_j = ap (λ z. link_at a (p, z)) e ∙ off in cc
          | inr (inl e) ↦ selfless prev (ap (λ z. link_at a (p, z)) (sym e) ∙ l)
          | inr (inr e) ↦
              let is_v =
                same_option v (p, far)
                  (sym at_v
                    ∙ ok.two_way (p, far) (p, prev) (ap (λ z. link_at a (p, z)) (sym e) ∙ l)) in
              let off_far = ap (link_at b) (sym is_v) ∙ v_off in cc
        ]);
        w_away = other_end p b far w cut.consistent at_w (λ j lt l. elim (cover j lt) [
          | inl e ↦
              let off_j =
                ap (λ z. link_at b (p, z)) e ∙ stays_off (p, prev) (p, next) a b cut off in
              cc
          | inr (inl e) ↦ let off_j = ap (λ z. link_at b (p, z)) e ∙ cut.off in cc
          | inr (inr e) ↦
              selfless far (cut.fewer (p, far) (p, far) (ap (λ z. link_at b (p, z)) (sym e) ∙ l))
        ]);
        differ = λ s. let linked = ap (link_at b) s ∙ w_back in cc;
      }
