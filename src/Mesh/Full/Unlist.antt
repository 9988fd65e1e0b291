-- ===== src/Mesh/Full/Unlist.antt =====
-- The loop of `erase` that takes the corners of a triangle off the lists of the vertices.
use salgo.Base.Store.{put, put_self, put_other, number_cases}
use salgo.Base.{
  ℕ, zero, suc, ◌≡◌, refl, ap, ◌∙◌, Bool, false, Option, none, some, if◌then◌else◌, ◌>>=◌, ltb,
  ◌==◌, inl, inr, arith,
}
use salgo.HashTable.{Key}
use salgo.Mesh.Full.{PolyVert, Poly, FullMesh, corner, vert_at, unlink_vert}
use salgo.Mesh.Full.Index.{Indexed, Indexed-congr, assign, assign_other}
use salgo.Mesh.Full.Corners.{Relisted, drop_link-Relisted, erase_if_isolated-Relisted}
use salgo.Mesh.Full.Add.{corner_of, other_corner, same_edge_first, same_edge_miss}

cleared_corner :
    (i : ℕ) (o : Option Poly)
    → (if i == 2 then none else (if i == 1 then none else (if i == 0 then none else corner o i)))
      ≡ none
cleared_corner zero o = refl
cleared_corner (suc zero) o = refl
cleared_corner (suc (suc zero)) o = refl
cleared_corner (suc (suc (suc i))) none =
    let no_2 : (suc (suc (suc i)) == 2) ≡ false = ground arith in
    let no_1 : (suc (suc (suc i)) == 1) ≡ false = ground arith in
    let no_0 : (suc (suc (suc i)) == 0) ≡ false = ground arith in rw (no_2, no_1, no_0)
cleared_corner (suc (suc (suc i))) (some q) =
    let over : ltb (suc (suc (suc i))) 3 ≡ false = ground arith in
    let no_2 : (suc (suc (suc i)) == 2) ≡ false = ground arith in
    let no_1 : (suc (suc (suc i)) == 1) ≡ false = ground arith in
    let no_0 : (suc (suc (suc i)) == 0) ≡ false = ground arith in rw (no_2, no_1, no_0, over)

erased_corners :
    (ps : ℕ → Option Poly) (p : ℕ) (pv : PolyVert)
    → assign (p, 2) none (assign (p, 1) none (assign (p, 0) none (λ x. corner (ps x.0) x.1))) pv
      ≡ corner (put p none ps pv.0) pv.1
unfolding assign
erased_corners ps p (k, i) = elim (number_cases k p) [
  | inr differ ↦ rw (
    put_other p none ps k differ,
    same_edge_miss k p i 2 differ,
    same_edge_miss k p i 1 differ,
    same_edge_miss k p i 0 differ,
  )
  | inl same ↦
      rw
        (
          same,
          put_self p none ps,
          same_edge_first p i 2,
          same_edge_first p i 1,
          same_edge_first p i 0,
        )
        (cleared_corner i (ps p))
]

module _ {V : Type 0} ⦃key : Key PolyVert⦄ where
  unlink_vert-Relisted :
      (erase_isolated : Bool) (p i : ℕ) (m : FullMesh V) (q : Poly) (at : PolyVert → Option ℕ)
      → Indexed m.vs at
      → m.ps p ≡ some q
      → at (p, i) ≡ some (q.verts i)
      → (m' : FullMesh V) × (unlink_vert erase_isolated p i m ≡ some m')
        × Relisted m m' (assign (p, i) none at)
  unfolding unlink_vert
  unlink_vert-Relisted erase_isolated p i m q at d here there =
      let (x, known) = d.known (p, i) (q.verts i) there in
      let (m₁, run₁, r₁, k₁) = drop_link-Relisted (q.verts i) (p, i) m at d there in
      let (y, known₁) = k₁ (q.verts i) x known in
      let (m₂, run₂, r₂) =
        erase_if_isolated-Relisted erase_isolated (q.verts i) m₁ y (assign (p, i) none at)
          r₁.indexed known₁ in
      (
        m₂,
        rw (here, run₁, run₂),
        record { same_ps = r₂.same_ps ∙ r₁.same_ps; indexed = r₂.indexed },
      )

  -- The whole loop over the corners.
  pub unlink_verts-Relisted :
      (erase_isolated : Bool) (p : ℕ) (m : FullMesh V) (q : Poly)
      → Indexed m.vs (vert_at m)
      → m.ps p ≡ some q
      → (m' : FullMesh V) × ((unlink_vert erase_isolated p 0 m >>= λ a.
            unlink_vert erase_isolated p 1 a >>= unlink_vert erase_isolated p 2)
          ≡ some m')
        × Relisted m m' (λ pv. corner (put p none m.ps pv.0) pv.1)
  unlink_verts-Relisted erase_isolated p m q d here =
      let at₁ = assign (p, 0) none (vert_at m) in
      let at₂ = assign (p, 1) none at₁ in
      let there₁ =
        assign_other (p, 0) none (vert_at m) (p, 1) (other_corner p 1 0 (λ e. omega arith))
        ∙ corner_of m.ps p 1 q here (omega arith) in
      let there₂ =
        assign_other (p, 1) none at₁ (p, 2) (other_corner p 2 1 (λ e. omega arith))
        ∙ assign_other (p, 0) none (vert_at m) (p, 2) (other_corner p 2 0 (λ e. omega arith))
        ∙ corner_of m.ps p 2 q here (omega arith) in
      let (m₁, run₁, r₁) =
        unlink_vert-Relisted erase_isolated p 0 m q (vert_at m) d here
          (corner_of m.ps p 0 q here (omega arith)) in
      let here₁ = ap (λ (f : ℕ → Option Poly). f p) r₁.same_ps ∙ here in
      let (m₂, run₂, r₂) =
        unlink_vert-Relisted erase_isolated p 1 m₁ q at₁ r₁.indexed here₁ there₁ in
      let here₂ = ap (λ (f : ℕ → Option Poly). f p) r₂.same_ps ∙ here₁ in
      let (m₃, run₃, r₃) =
        unlink_vert-Relisted erase_isolated p 2 m₂ q at₂ r₂.indexed here₂ there₂ in
      (
        m₃,
        rw (run₁, run₂, run₃),
        record {
          same_ps = r₃.same_ps ∙ r₂.same_ps ∙ r₁.same_ps;
          indexed = Indexed-congr m₃.vs _ _ (erased_corners m.ps p) r₃.indexed;
        },
      )
