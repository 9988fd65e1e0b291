-- ===== src/Kd/Singular.antt =====
-- include/salgo/_/linalg/aabb.hpp: `Singular_Aligned_Box`, the box of a point, as the boxes of a tree.
use salgo.Base.{
  ℕ, zero, suc, ◌<◌, ◌≡◌, refl, Bool, true, false, ◌&&◌, ltb, inl, inr, Bool-cases, arith,
}
use salgo.Kd.{Scalar, Box, Query, at_most}
use salgo.Kd.Bounds.{AtMost}

-- The box of a query, with its `min()` and `max()`.
pub record AlignedBox {ℓ} (S : Type ℓ) : Type ℓ where
  pub min : ℕ → S
  pub max : ℕ → S

-- `all()` over the first `n` numbers of a vector.
unfoldable pub all : ℕ → (ℕ → Bool) → Bool
all zero test = true
all (suc n) test = let rest = all n test in test n && rest

all-at : (n : ℕ) (test : ℕ → Bool) (i : ℕ) → all n test ≡ true → i < n → test i ≡ true
unfolding all
all-at zero test i h lt = absurd (omega arith)
all-at (suc n) test i h lt = elim (Bool-cases (test n)) [
  | inl t ↦ elim (Bool-cases (ltb i n)) [
    | inl e ↦ all-at n test i (rw t at h) (ground arith)
    | inr e ↦ let same : i ≡ n = ground arith in rw same t
  ]
  | inr f ↦ let bad = rw f at h in cc
]

both : (a b : Bool) → (a && b) ≡ true → (a ≡ true) × (b ≡ true)
both true b h = (refl, h)
both false b h = cc

module _ {ℓ} {S : Type ℓ} ⦃scalar : Scalar S⦄ where
  unfoldable pub singular_intersects : ℕ → (ℕ → S) → AlignedBox S → Bool
  singular_intersects dim v o =
      all dim (λ i. at_most (v i) (o.max i)) && all dim (λ i. at_most (o.min i) (v i))

  at_most-AtMost : (a b : S) → at_most a b ≡ true → AtMost a b
  unfolding at_most
  at_most-AtMost a b h = elim (Bool-cases (scalar.less b a)) [
    | inl t ↦ let bad = rw t at h in cc
    | inr f ↦ f
  ]

  pub singular-above :
      (dim : ℕ) (v : ℕ → S) (o : AlignedBox S) (axis : ℕ)
      → axis < dim
      → singular_intersects dim v o ≡ true
      → AtMost (o.min axis) (v axis)
  unfolding singular_intersects
  singular-above dim v o axis lt h =
      let each =
        (both (all dim (λ i. at_most (v i) (o.max i))) (all dim (λ i. at_most (o.min i) (v i)))
          h).1 in
      at_most-AtMost (o.min axis) (v axis) (all-at dim (λ i. at_most (o.min i) (v i)) axis each lt)

  pub singular-below :
      (dim : ℕ) (v : ℕ → S) (o : AlignedBox S) (axis : ℕ)
      → axis < dim
      → singular_intersects dim v o ≡ true
      → AtMost (v axis) (o.max axis)
  unfolding singular_intersects
  singular-below dim v o axis lt h =
      let each =
        (both (all dim (λ i. at_most (v i) (o.max i))) (all dim (λ i. at_most (o.min i) (v i)))
          h).0 in
      at_most-AtMost (v axis) (o.max axis) (all-at dim (λ i. at_most (v i) (o.max i)) axis each lt)

  abbrev pub singular_box : Box S (ℕ → S)
  singular_box = record { lower = λ v. v; upper = λ v. v }

  abbrev pub singular_query : (dim : ℕ) → Query S (ℕ → S) (AlignedBox S) dim ⦃box = singular_box⦄
  singular_query dim = record {
    query_lower = λ o. o.min;
    query_upper = λ o. o.max;
    intersects = singular_intersects dim;
    meets_above = singular-above dim;
    meets_below = singular-below dim;
  }
