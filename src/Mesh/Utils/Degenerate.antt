-- ===== src/Mesh/Utils/Degenerate.antt =====
-- `erase_poly_if_degenerate`
use salgo.Base.{
  ◌⊎◌, ℕ, zero, suc, ◌+◌, ◌%◌, ◌<◌, ◌≡◌, ◌≢◌, refl, ap, sym, ◌∙◌, Bool, none, some, ◌==◌, inl, inr,
  Bool-cases, arith,
}
use salgo.HashTable.{Key}
use salgo.Mesh.{PolyEdge}
use salgo.Mesh.Full.{PolyVert, Poly, FullMesh, link_of, link_at}
use salgo.Mesh.Full.Add.{IsConsistent}
use salgo.Mesh.Full.Ends.{verts_of, some_poly}
use salgo.Mesh.Full.Erase.{erase_alone-Erased}
use salgo.Mesh.Utils.{erase_degenerate, erase_if_same, erase_poly_if_degenerate}
use salgo.Mesh.Utils.Cleared.{Cleared, unlink_if_linked-Cleared, unlink_if_valid-Cleared}
use salgo.Mesh.Utils.Collapse.{link_if_valid-Rejoined, neighbours-Joinable, stays_off}

abbrev pub Cover : (next prev far : ℕ) → Type 0
Cover next prev far = (i : ℕ) → i < 3 → (i ≡ next) ⊎ (i ≡ prev) ⊎ (i ≡ far)

-- The corner `i` and the next have the same vertex.
abbrev pub IsDegenerate : Poly → ℕ → Type 0
IsDegenerate q i = (i < 3) × (q.verts i ≡ q.verts ((i + 1) % 3))

places_first : Cover 0 2 1
places_first zero lt = inl refl
places_first (suc zero) lt = inr (inr refl)
places_first (suc (suc zero)) lt = inr (inl refl)
places_first (suc (suc (suc i))) lt = absurd (omega arith)

places_second : Cover 1 0 2
places_second zero lt = inr (inl refl)
places_second (suc zero) lt = inl refl
places_second (suc (suc zero)) lt = inr (inr refl)
places_second (suc (suc (suc i))) lt = absurd (omega arith)

places_third : Cover 2 1 0
places_third zero lt = inr (inr refl)
places_third (suc zero) lt = inr (inl refl)
places_third (suc (suc zero)) lt = inl refl
places_third (suc (suc (suc i))) lt = absurd (omega arith)

no_place :
    (q : Poly)
    → q.verts 0 ≢ q.verts 1
    → q.verts 1 ≢ q.verts 2
    → q.verts 2 ≢ q.verts 0
    → (i : ℕ) → ¬ IsDegenerate q i
no_place q a b c zero (lt, e) = a e
no_place q a b c (suc zero) (lt, e) = b e
no_place q a b c (suc (suc zero)) (lt, e) = c e
no_place q a b c (suc (suc (suc i))) (lt, e) = absurd (omega arith)

module _ {V : Type 0} ⦃key : Key PolyVert⦄ where
  -- The triangle `p` is gone, the others have their corners, and the edges of other triangles
  -- that two of its edges were linked to are linked to each other.
  pub record Collapsed (p prev far : ℕ) (m m' : FullMesh V) : Type 0 where
    pub consistent : IsConsistent m'
    pub gone : m'.ps p ≡ none
    pub others : (h : ℕ) → h ≢ p → verts_of (m'.ps h) ≡ verts_of (m.ps h)
    pub joined :
        (v w : PolyEdge)
        → link_at m (p, prev) ≡ some v
        → link_at m (p, far) ≡ some w
        → v.0 ≢ p
        → w.0 ≢ p
        → link_at m' v ≡ some w

  all_places :
      (p next prev far : ℕ) (m : FullMesh V)
      → Cover next prev far
      → link_at m (p, next) ≡ none
      → link_at m (p, prev) ≡ none
      → link_at m (p, far) ≡ none
      → (i : ℕ) → i < 3
      → link_at m (p, i) ≡ none
  all_places p next prev far m cover at_next at_prev at_far i lt = elim (cover i lt) [
    | inl e ↦ ap (λ z. link_at m (p, z)) e ∙ at_next
    | inr (inl e) ↦ ap (λ z. link_at m (p, z)) e ∙ at_prev
    | inr (inr e) ↦ ap (λ z. link_at m (p, z)) e ∙ at_far
  ]

  -- A link to another triangle from one edge of `p` when another edge is cleared.
  kept_away :
      (p i j : ℕ) (m m' : FullMesh V) (v : PolyEdge)
      → Cleared (p, j) m m'
      → i ≢ j
      → v.0 ≢ p
      → link_at m (p, i) ≡ some v
      → link_at m' (p, i) ≡ some v
  kept_away p i j m m' v c differ away l =
      c.kept (p, i) v l (λ s. differ (ap (λ (z : PolyEdge). z.1) s))
        (λ s. away (ap (λ (z : PolyEdge). z.0) s))

  pub erase_degenerate-Collapsed :
      (erase_isolated : Bool) (p next prev far : ℕ) (m : FullMesh V) (q : Poly)
      → IsConsistent m
      → m.ps p ≡ some q
      → next < 3
      → prev < 3
      → far < 3
      → Cover next prev far
      → next ≢ prev
      → next ≢ far
      → prev ≢ far
      → ((i : ℕ) → link_at m (p, i) ≢ some (p, i))
      → (m' : FullMesh V) × (erase_degenerate erase_isolated p next prev far m ≡ some m')
        × Collapsed p prev far m m'
  unfolding erase_degenerate
  erase_degenerate-Collapsed erase_isolated p next prev far m q ok here n_lt p_lt f_lt cover n_p n_f
        p_f selfless =
      let (a, run₁, c₁) = unlink_if_linked-Cleared (p, next) m q ok here n_lt in
      let (q₁, here₁, _) = some_poly (a.ps p) (m.ps p) q (c₁.same_verts p) here in
      let (b, run₂, read₂, c₂) = unlink_if_valid-Cleared (p, prev) a q₁ c₁.consistent here₁ p_lt in
      let (q₂, here₂, _) = some_poly (b.ps p) (a.ps p) q₁ (c₂.same_verts p) here₁ in
      let (c, run₃, read₃, c₃) = unlink_if_valid-Cleared (p, far) b q₂ c₂.consistent here₂ f_lt in
      let (q₃, here₃, _) = some_poly (c.ps p) (b.ps p) q₂ (c₃.same_verts p) here₂ in
      let alone =
        all_places p next prev far c cover
          (stays_off (p, far) (p, next) b c c₃ (stays_off (p, prev) (p, next) a b c₂ c₁.off))
          (stays_off (p, far) (p, prev) b c c₃ c₂.off) c₃.off in
      let (d, run₄, r) =
        link_if_valid-Rejoined p (link_at a (p, prev)) (link_at b (p, far)) c c₃.consistent alone
          (λ v w.
            neighbours-Joinable p next prev far a b c v w cover
              (λ i l. selfless i (c₁.fewer (p, i) (p, i) l)) c₁.consistent c₁.off c₂ c₃) in
      let (q₄, here₄, _) = some_poly (d.ps p) (c.ps p) q₃ (r.same_verts p) here₃ in
      let (m', run₅, e) = erase_alone-Erased erase_isolated p d q₄ r.consistent here₄ r.alone in
      (
        m',
        rw (run₁, read₂, run₂, read₃, run₃, run₄) run₅,
        record {
          consistent = e.consistent;
          gone = e.gone;
          others = λ h differ.
              ap verts_of (e.others h differ)
              ∙ r.same_verts h
              ∙ c₃.same_verts h
              ∙ c₂.same_verts h
              ∙ c₁.same_verts h;
          joined = λ v w at_v at_w v_away w_away.
              ap (λ z. link_of z v.1) (e.others v.0 v_away)
              ∙ r.joined v w (kept_away p prev next m a v c₁ (λ s. n_p (sym s)) v_away at_v) (
                  kept_away p far prev a b w c₂ (λ s. p_f (sym s)) w_away
                    (kept_away p far next m a w c₁ (λ s. n_f (sym s)) w_away at_w));
        },
      )

  -- `erase_poly_if_degenerate` of a triangle that exists in a consistent mesh, and none of whose edges
  -- is linked to itself, does not fault. If the triangle has three different vertices, then nothing
  -- changes. Else it is erased from the mesh, which stays consistent, and if its two other edges were
  -- linked to edges of other triangles, these are linked to each other.
  pub erase_poly_if_degenerate-Collapsed :
      (erase_isolated : Bool) (p : ℕ) (m : FullMesh V) (q : Poly)
      → IsConsistent m
      → m.ps p ≡ some q
      → ((i : ℕ) → link_at m (p, i) ≢ some (p, i))
      → (m' : FullMesh V) × (erase_poly_if_degenerate erase_isolated p m ≡ some m')
        × (((m' ≡ m) × ((i : ℕ) → ¬ IsDegenerate q i))
            ⊎ ((i : ℕ) × IsDegenerate q i × Collapsed p ((i + 2) % 3) ((i + 1) % 3) m m'))
  unfolding erase_poly_if_degenerate erase_if_same
  erase_poly_if_degenerate-Collapsed erase_isolated p m q ok here selfless =
      elim (Bool-cases (q.verts 0 == q.verts 1)) [
        | inl t ↦
            let (m', run, c) =
              erase_degenerate-Collapsed erase_isolated p 0 2 1 m q ok here (omega arith)
                (omega arith) (omega arith) places_first (λ s. omega arith) (λ s. omega arith)
                (λ s. omega arith) selfless in
            (m', rw (here, t) run, inr (0, (omega arith, ground arith), c))
        | inr f ↦ elim (Bool-cases (q.verts 1 == q.verts 2)) [
          | inl t ↦
              let (m', run, c) =
                erase_degenerate-Collapsed erase_isolated p 1 0 2 m q ok here (omega arith)
                  (omega arith) (omega arith) places_second (λ s. omega arith) (λ s. omega arith)
                  (λ s. omega arith) selfless in
              (m', rw (here, f, t) run, inr (1, (omega arith, ground arith), c))
          | inr g ↦ elim (Bool-cases (q.verts 2 == q.verts 0)) [
            | inl t ↦
                let (m', run, c) =
                  erase_degenerate-Collapsed erase_isolated p 2 1 0 m q ok here (omega arith)
                    (omega arith) (omega arith) places_third (λ s. omega arith) (λ s. omega arith)
                    (λ s. omega arith) selfless in
                (m', rw (here, f, g, t) run, inr (2, (omega arith, ground arith), c))
            | inr h ↦ (
              m,
              rw (here, f, g, h),
              inl (refl, no_place q (λ e. ground arith) (λ e. ground arith) (λ e. ground arith)),
            )
          ]
        ]
      ]
