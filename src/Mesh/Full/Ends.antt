-- ===== src/Mesh/Full/Ends.antt =====
-- One end of a link between edges, changed.
use salgo.Base.Store.{put, put_self, put_other, number_cases}
use salgo.Base.{
  ℕ, ◌<◌, ◌≡◌, ◌≢◌, refl, ap, sym, ◌∙◌, Bool, true, false, Option, none, some, if◌then◌else◌, ltb,
  inl, inr, Bool-cases, arith,
}
use salgo.Mesh.{PolyEdge, Links, set_link}
use salgo.Mesh.EdgeLinks.{edge_cases, set_link_self, set_link_other}
use salgo.Mesh.Full.{Poly, corner, link_of}

-- The corners of a triangle, if there is one.
abbrev pub verts_of : Option Poly → Option (ℕ → ℕ)
verts_of none = none
verts_of (some q) = some q.verts

pub corner-verts_of :
    (a b : Option Poly) (i : ℕ) → verts_of a ≡ verts_of b → corner a i ≡ corner b i
corner-verts_of none none i p = refl
corner-verts_of none (some q) i p = absurd (cc)
corner-verts_of (some q) none i p = absurd (cc)
corner-verts_of (some q) (some r) i p =
    ap (λ o. elim o [ none ↦ none | some f ↦ if ltb i 3 then some (f i) else none ]) p

pub some_poly :
    (a b : Option Poly) (q : Poly)
    → verts_of a ≡ verts_of b
    → b ≡ some q
    → (r : Poly) × (a ≡ some r) × (r.verts ≡ q.verts)
some_poly none b q p e = let none_there = p ∙ ap verts_of e in absurd (cc)
some_poly (some r) b q p e = let same = p ∙ ap verts_of e in (r, refl, cc)

-- Links are at the three edges of a triangle.
pub link_place : (o : Option Poly) (i : ℕ) (e : PolyEdge) → link_of o i ≡ some e → i < 3
link_place none i e l = absurd (cc)
link_place (some q) i e l = elim (Bool-cases (ltb i 3)) [
  | inl low ↦ ground arith
  | inr over ↦ let out = rw over at l in absurd (cc)
]

-- A link is in the record of its triangle.
pub linked_edge :
    (o : Option Poly) (i : ℕ) (e : PolyEdge)
    → link_of o i ≡ some e
    → (q : Poly) × (o ≡ some q) × (q.edges i ≡ some e)
linked_edge none i e l = absurd (cc)
linked_edge (some q) i e l =
    let lt = link_place (some q) i e l in
    let low : ltb i 3 ≡ true = ground arith in
    (q, refl, sym (ap (λ (b : Bool). if b then q.edges i else none) low) ∙ l)

pub link_of_edge :
    (o : Option Poly) (q : Poly) (i : ℕ) → o ≡ some q → i < 3 → link_of o i ≡ q.edges i
link_of_edge o q i here lt = let low : ltb i 3 ≡ true = ground arith in rw (here, low)

pub if_none : (b : Bool) {o : Option PolyEdge} → o ≡ none → (if b then o else none) ≡ none
if_none true p = p
if_none false p = refl

-- The link `l` to the edge `o`.
module _ (ps : ℕ → Option Poly) (o : PolyEdge) (l : Option PolyEdge) (q : Poly)
    (here : ps o.0 ≡ some q) where
  abbrev pub with_end : Poly
  with_end = record q { edges = put o.1 l q.edges }

  pub end_at :
      (x : PolyEdge)
      → x ≡ o
      → link_of (put o.0 (some with_end) ps x.0) x.1 ≡ (if ltb o.1 3 then l else none)
  end_at x same =
      ap (λ (y : PolyEdge). link_of (put o.0 (some with_end) ps y.0) y.1) same
      ∙ ap (λ z. link_of z o.1) (put_self o.0 (some with_end) ps)
      ∙ ap (λ z. if ltb o.1 3 then z else none) (put_self o.1 l q.edges)

  pub end_elsewhere :
      (x : PolyEdge) → x ≢ o → link_of (put o.0 (some with_end) ps x.0) x.1 ≡ link_of (ps x.0) x.1
  end_elsewhere x differ = elim (number_cases x.0 o.0) [
    | inr other ↦ ap (λ z. link_of z x.1) (put_other o.0 (some with_end) ps x.0 other)
    | inl same ↦
        let other : x.1 ≢ o.1 = λ e. differ (λ i. (same i, e i)) in
        ap (λ z. link_of z x.1)
          (ap (put o.0 (some with_end) ps) same ∙ put_self o.0 (some with_end) ps)
        ∙ ap (λ z. if ltb x.1 3 then z else none) (put_other o.1 l q.edges x.1 other)
        ∙ sym (ap (λ z. link_of z x.1) (ap ps same ∙ here))
  ]

  pub end_verts : (h : ℕ) → verts_of (put o.0 (some with_end) ps h) ≡ verts_of (ps h)
  end_verts h = elim (number_cases h o.0) [
    | inr other ↦ ap verts_of (put_other o.0 (some with_end) ps h other)
    | inl same ↦
        ap verts_of (ap (put o.0 (some with_end) ps) same ∙ put_self o.0 (some with_end) ps)
        ∙ sym (ap verts_of (ap ps same ∙ here))
  ]

  -- The links are those of the mesh as a function.
  pub end_links :
      o.1 < 3
      → Path Links
          (λ x. link_of (put o.0 (some with_end) ps x.0) x.1)
          (set_link o l (λ x. link_of (ps x.0) x.1))
  end_links lt = λ i x. at_each x i
    where
      at_each :
          (x : PolyEdge)
          → link_of (put o.0 (some with_end) ps x.0) x.1
            ≡ set_link o l (λ x. link_of (ps x.0) x.1) x
      at_each x = elim (edge_cases x o) [
        | inl same ↦
            let low : ltb o.1 3 ≡ true = ground arith in
            let placed = rw low at end_at x same in
            placed
            ∙ sym (
                ap (set_link o l (λ x. link_of (ps x.0) x.1)) same
                ∙ set_link_self o l (λ x. link_of (ps x.0) x.1))
        | inr differ ↦
            end_elsewhere x differ ∙ sym (set_link_other o x l (λ x. link_of (ps x.0) x.1) differ)
      ]
