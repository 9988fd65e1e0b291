-- ===== src/Mesh/Full/Add.antt =====
-- The links of a mesh, and `add` and `change_vert`.
use salgo.Base.Store.{put, put_self, put_other, number_cases}
use salgo.Base.{
  ℕ, zero, suc, ◌<◌, ◌≡◌, ◌≢◌, refl, ap, sym, ◌∙◌, Bool, true, false, Option, none, some,
  if◌then◌else◌, ltb, ◌==◌, inl, inr, arith,
}
use salgo.HashTable.{Key}
use salgo.Mesh.{PolyEdge, Links, same_edge}
use salgo.Mesh.EdgeLinks.{TwoWay}
use salgo.Mesh.Full.{
  PolyVert, Vert, Poly, FullMesh, corner, link_of, vert_at, link_at, add_poly, change_vert,
}
use salgo.Mesh.Full.Index.{Indexed, Indexed-congr, assign, assign_self, assign_other}
use salgo.Mesh.Full.Corners.{add_link-Relisted, drop_link-Relisted}

pub same_edge_first : (h i j : ℕ) → same_edge (h, i) (h, j) ≡ (i == j)
unfolding same_edge
same_edge_first h i j = let same : (h == h) ≡ true = ground arith in rw same

pub same_edge_miss : (p h i j : ℕ) → p ≢ h → same_edge (p, i) (h, j) ≡ false
unfolding same_edge
same_edge_miss p h i j differ = let miss : (p == h) ≡ false = ground arith in rw miss

-- The corners of a new triangle, one after the other.
new_corner :
    (i a b c : ℕ) (old : Option ℕ) (q : Poly)
    → old ≡ none
    → q.verts 0 ≡ a
    → q.verts 1 ≡ b
    → q.verts 2 ≡ c
    → (if i == 2 then some c else (if i == 1 then some b else (if i == 0 then some a else old)))
      ≡ corner (some q) i
new_corner zero a b c old q fresh ea eb ec = ap some (sym ea)
new_corner (suc zero) a b c old q fresh ea eb ec = ap some (sym eb)
new_corner (suc (suc zero)) a b c old q fresh ea eb ec = ap some (sym ec)
new_corner (suc (suc (suc i))) a b c old q fresh ea eb ec =
    let over : ltb (suc (suc (suc i))) 3 ≡ false = ground arith in
    let no_2 : (suc (suc (suc i)) == 2) ≡ false = ground arith in
    let no_1 : (suc (suc (suc i)) == 1) ≡ false = ground arith in
    let no_0 : (suc (suc (suc i)) == 0) ≡ false = ground arith in rw (no_2, no_1, no_0, over) fresh

added_corners :
    (ps : ℕ → Option Poly) (h a b c : ℕ) (q : Poly)
    → ps h ≡ none
    → q.verts 0 ≡ a
    → q.verts 1 ≡ b
    → q.verts 2 ≡ c
    → (pv : PolyVert)
    → assign
        (h, 2)
        (some c)
        (assign (h, 1) (some b) (assign (h, 0) (some a) (λ x. corner (ps x.0) x.1)))
        pv
      ≡ corner (put h (some q) ps pv.0) pv.1
unfolding assign
added_corners ps h a b c q fresh ea eb ec (p, i) = elim (number_cases p h) [
  | inr differ ↦ rw (
    put_other h (some q) ps p differ,
    same_edge_miss p h i 2 differ,
    same_edge_miss p h i 1 differ,
    same_edge_miss p h i 0 differ,
  )
  | inl same ↦
      rw
        (
          same,
          put_self h (some q) ps,
          same_edge_first h i 2,
          same_edge_first h i 1,
          same_edge_first h i 0,
        )
        (new_corner i a b c (corner (ps h) i) q (ap (λ z. corner z i) fresh) ea eb ec)
]

if_congr :
    (b : Bool) {o o' : Option ℕ} → o ≡ o' → (if b then o else none) ≡ (if b then o' else none)
if_congr true p = p
if_congr false p = refl

-- A new vertex at one corner.
changed_corner :
    (ps : ℕ → Option Poly) (p i v : ℕ) (q : Poly)
    → ps p ≡ some q
    → i < 3
    → (pv : PolyVert)
    → assign (p, i) (some v) (assign (p, i) none (λ x. corner (ps x.0) x.1)) pv
      ≡ corner (put p (some (record q { verts = put i v q.verts })) ps pv.0) pv.1
unfolding assign
changed_corner ps p i v q here lt (k, j) = elim (number_cases k p) [
  | inr differ ↦ rw (
    put_other p (some (record q { verts = put i v q.verts })) ps k differ,
    same_edge_miss k p j i differ,
  )
  | inl same ↦
      let q' : Poly = record q { verts = put i v q.verts } in
      elim (number_cases j i) [
        | inl at_i ↦
            let low : ltb j 3 ≡ true = ground arith in
            let hit : (j == i) ≡ true = ground arith in
            let new : put i v q.verts j ≡ v = ap (put i v q.verts) at_i ∙ put_self i v q.verts in
            rw (same, put_self p (some q') ps, same_edge_first p j i, hit, low) (ap some (sym new))
        | inr other ↦
            let no_i : (j == i) ≡ false = ground arith in
            rw (same, put_self p (some q') ps, same_edge_first p j i, no_i, here)
              (if_congr (ltb j 3) (sym (ap some (put_other i v q.verts j other))))
      ]
]

pub other_corner : (p i j : ℕ) → i ≢ j → Path PolyVert (p, i) (p, j) → ⊥
other_corner p i j differ e = differ (ap (λ z. z.1) e)

-- A new triangle has no links.
added_links :
    (ps : ℕ → Option Poly) (h : ℕ) (q : Poly)
    → ps h ≡ none
    → ((i : ℕ) → q.edges i ≡ none)
    → (e : PolyEdge) → link_of (ps e.0) e.1 ≡ link_of (put h (some q) ps e.0) e.1
added_links ps h q fresh bare (p, i) = elim (number_cases p h) [
  | inr differ ↦ ap (λ z. link_of z i) (sym (put_other h (some q) ps p differ))
  | inl same ↦
      ap (λ z. link_of z i) (ap ps same ∙ fresh)
      ∙ sym (
          ap (λ z. link_of z i) (ap (put h (some q) ps) same ∙ put_self h (some q) ps)
          ∙ no_links (ltb i 3) (bare i))
]
  where
    no_links : (b : Bool) {o : Option PolyEdge} → o ≡ none → (if b then o else none) ≡ none
    no_links true p = p
    no_links false p = refl

-- A triangle whose links stay.
kept_links :
    (ps : ℕ → Option Poly) (p : ℕ) (q r : Poly)
    → ps p ≡ some q
    → r.edges ≡ q.edges
    → (e : PolyEdge) → link_of (ps e.0) e.1 ≡ link_of (put p (some r) ps e.0) e.1
kept_links ps p q r here same (k, i) = elim (number_cases k p) [
  | inr differ ↦ ap (λ z. link_of z i) (sym (put_other p (some r) ps k differ))
  | inl at_p ↦
      ap (λ z. link_of z i) (ap ps at_p ∙ here)
      ∙ ap (λ (f : ℕ → Option PolyEdge). if ltb i 3 then f i else none) (sym same)
      ∙ sym (ap (λ z. link_of z i) (ap (put p (some r) ps) at_p ∙ put_self p (some r) ps))
]

pub corner_of :
    (ps : ℕ → Option Poly) (p i : ℕ) (q : Poly)
    → ps p ≡ some q
    → i < 3
    → corner (ps p) i ≡ some (q.verts i)
corner_of ps p i q here lt = let low : ltb i 3 ≡ true = ground arith in rw (here, low)

-- The links of a mesh do not depend on the corners.
pub TwoWay-congr : (a b : Links) → ((e : PolyEdge) → a e ≡ b e) → TwoWay a → TwoWay b
TwoWay-congr a b same two e o p = sym (same o) ∙ two e o (same e ∙ p)

module _ {V : Type 0} ⦃key : Key PolyVert⦄ where
  -- Each vertex lists exactly the corners that have it, the corners have vertices that exist, and
  -- an edge that has a link is the link of the edge it is linked to.
  pub record IsConsistent (m : FullMesh V) : Type 0 where
    pub indexed : Indexed m.vs (vert_at m)
    pub two_way : TwoWay (link_at m)

  -- `add` of a triangle under a new handle, with three vertices that exist, which may be equal, does
  -- not fault and leaves the mesh consistent.
  pub add_poly-IsConsistent :
      (h a b c : ℕ) (m : FullMesh V) (x y z : Vert V)
      → IsConsistent m
      → m.ps h ≡ none
      → m.vs a ≡ some x
      → m.vs b ≡ some y
      → m.vs c ≡ some z
      → (m' : FullMesh V) × (add_poly h a b c m ≡ some m') × IsConsistent m'
  unfolding add_poly
  add_poly-IsConsistent h a b c m x y z ok fresh at_a at_b at_c =
      let q : Poly = record { verts = put 0 a (put 1 b (λ _. c)); edges = λ _. none } in
      let m₀ : FullMesh V = record m { ps = put h (some q) m.ps } in
      let free : (i : ℕ) → vert_at m (h, i) ≡ none = λ i. ap (λ z. corner z i) fresh in
      let at₁ = assign (h, 0) (some a) (vert_at m) in
      let at₂ = assign (h, 1) (some b) at₁ in
      let free₁ : at₁ (h, 1) ≡ none =
        assign_other (h, 0) (some a) (vert_at m) (h, 1) (other_corner h 1 0 (λ e. omega arith))
        ∙ free 1 in
      let free₂ : at₂ (h, 2) ≡ none =
        assign_other (h, 1) (some b) at₁ (h, 2) (other_corner h 2 1 (λ e. omega arith))
        ∙ assign_other (h, 0) (some a) (vert_at m) (h, 2) (other_corner h 2 0 (λ e. omega arith))
        ∙ free 2 in
      let (m₁, run₁, r₁, k₁) =
        add_link-Relisted a (h, 0) m₀ x (vert_at m) ok.indexed (free 0) at_a in
      let (y₁, at_b₁) = k₁ b y at_b in
      let (m₂, run₂, r₂, k₂) = add_link-Relisted b (h, 1) m₁ y₁ at₁ r₁.indexed free₁ at_b₁ in
      let (z₁, at_c₁) = k₁ c z at_c in
      let (z₂, at_c₂) = k₂ c z₁ at_c₁ in
      let (m₃, run₃, r₃, k₃) = add_link-Relisted c (h, 2) m₂ z₂ at₂ r₂.indexed free₂ at_c₂ in
      let same : Path (ℕ → Option Poly) m₃.ps (put h (some q) m.ps) =
        r₃.same_ps ∙ r₂.same_ps ∙ r₁.same_ps in
      (
        m₃,
        rw (run₁, run₂, run₃),
        record {
          indexed =
              Indexed-congr m₃.vs _ (vert_at m₃)
                (λ pv.
                  added_corners m.ps h a b c q fresh (put_self 0 a _)
                    (put_other 0 a _ 1 (λ e. omega arith) ∙ put_self 1 b _)
                    (put_other 0 a _ 2 (λ e. omega arith) ∙ put_other 1 b _ 2 (λ e. omega arith)) pv
                  ∙ ap (λ (f : ℕ → Option Poly). corner (f pv.0) pv.1) (sym same))
                r₃.indexed;
          two_way =
              TwoWay-congr (link_at m) (link_at m₃)
                (λ e.
                  added_links m.ps h q fresh (λ i. refl) e
                  ∙ ap (λ (f : ℕ → Option Poly). link_of (f e.0) e.1) (sym same))
                ok.two_way;
        },
      )

  -- `change_vert` of a corner of a triangle to a vertex that exists does not fault, puts that vertex
  -- at the corner and leaves the mesh consistent.
  pub change_vert-IsConsistent :
      (p i v : ℕ) (m : FullMesh V) (q : Poly) (x : Vert V)
      → IsConsistent m
      → m.ps p ≡ some q
      → i < 3
      → m.vs v ≡ some x
      → (m' : FullMesh V) × (change_vert (p, i) v m ≡ some m')
        × IsConsistent m'
        × (vert_at m' (p, i) ≡ some v)
  unfolding change_vert
  change_vert-IsConsistent p i v m q x ok here lt at_v =
      let (m₁, run₁, r₁, k₁) =
        drop_link-Relisted (q.verts i) (p, i) m (vert_at m) ok.indexed
          (corner_of m.ps p i q here lt) in
      let (x₁, at_v₁) = k₁ v x at_v in
      let (m₂, run₂, r₂, k₂) =
        add_link-Relisted v (p, i) m₁ x₁ (assign (p, i) none (vert_at m)) r₁.indexed
          (assign_self (p, i) none (vert_at m)) at_v₁ in
      let same : Path (ℕ → Option Poly) m₂.ps m.ps = r₂.same_ps ∙ r₁.same_ps in
      let here₂ : m₂.ps p ≡ some q = ap (λ (f : ℕ → Option Poly). f p) same ∙ here in
      let q' : Poly = record q { verts = put i v q.verts } in
      let m₃ : FullMesh V = record m₂ { ps = put p (some q') m₂.ps } in
      let moved : (pv : PolyVert)
          → assign (p, i) (some v) (assign (p, i) none (vert_at m)) pv ≡ vert_at m₃ pv =
        λ pv.
          changed_corner m.ps p i v q here lt pv
          ∙ ap (λ (f : ℕ → Option Poly). corner (put p (some q') f pv.0) pv.1) (sym same) in
      (
        m₃,
        rw (here, run₁, run₂, here₂),
        record {
          indexed = Indexed-congr m₂.vs _ (vert_at m₃) moved r₂.indexed;
          two_way =
              TwoWay-congr (link_at m) (link_at m₃)
                (λ e.
                  kept_links m.ps p q q' here refl e
                  ∙ ap (λ (f : ℕ → Option Poly). link_of (put p (some q') f e.0) e.1) (sym same))
                ok.two_way;
        },
        sym (moved (p, i)) ∙ assign_self (p, i) (some v) (assign (p, i) none (vert_at m)),
      )
