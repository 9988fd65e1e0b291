-- ===== src/Kd/Closest.antt =====
-- include/salgo/_/linalg/kd.hpp: `find_closest_center`.
use mathlib.Core.List.{Mem, not-mem-nil}
use mathlib.Core.Path.{subst}
use native.Mathlib.Nat.{mod-lt}
use salgo.Base.{
  ℕ, ◌+◌, ◌%◌, ◌<◌, ◌≡◌, ap, sym, Bool, false, ◌&&◌, Option, none, some, List, [], ◌∷◌, ◌++◌,
  if◌then◌else◌, inl, inr, Bool-cases, arith,
}
use salgo.Kd.{Scalar, Box, Entry, Tree, empty, node, Kd, entries, is_node, at_most}
use salgo.Kd.Bounds.{AtMost, AtMost-trans, IsBounded, bounded_node}
use salgo.Kd.Nearest.{
  Metric, better, IsFar, IsFar-square, Near, Near-same, Near-better, Near-append,
}

module _ {ℓ} {S B W V : Type ℓ} (dim : ℕ) ⦃scalar : Scalar S⦄ ⦃box : Box S B⦄
    ⦃metric : Metric S B W dim⦄ (w : W) where
  -- `_find_closest_center_impl`
  unfoldable pub closest_from :
      (axis : ℕ) → Tree S B V → Option (Entry B V) × S → Option (Entry B V) × S
  closest_from axis empty best = best
  closest_from axis (node e l_to r_fr left right) best =
      let to_left = closest_from ((axis + 1) % dim) left in
      let to_right = closest_from ((axis + 1) % dim) right in
      let b₁ = better (λ b. metric.distance b w) e best in
      let b₂ =
        if is_node left && at_most (scalar.minus (metric.point w axis) l_to) b₁.1
        then to_left b₁
        else b₁ in
      if is_node right && at_most (scalar.minus r_fr (metric.point w axis)) b₂.1
      then to_right b₂
      else b₂

  unfoldable pub find_closest_center : (biggest : S) → Kd S B V → Option (Entry B V)
  find_closest_center biggest kd = (closest_from 0 kd.tree (none, biggest)).0

-- A distance that the test along an axis excludes.
excluded {ℓ} :
    {S : Type ℓ} ⦃scalar : Scalar S⦄ (a best : S) → at_most a best ≡ false → AtMost best a
unfolding at_most
excluded ⦃scalar⦄ a best far = elim (Bool-cases (scalar.less best a)) [
  | inl t ↦ scalar.less_asym best a t
  | inr f ↦ let bad = rw f at far in cc
]

module _ {ℓ} {S B W V : Type ℓ} (dim : ℕ) ⦃scalar : Scalar S⦄ ⦃box : Box S B⦄
    ⦃metric : Metric S B W dim⦄ (w : W) where
  -- Of a number `near` that excludes a subtree and a number `beyond` past it, whose square a
  -- distance does not fall below, that distance is far.
  past :
      (best near beyond : S) (x : Entry B V)
      → AtMost metric.origin best
      → at_most near best ≡ false
      → AtMost near beyond
      → (AtMost metric.origin beyond → AtMost (metric.square beyond) (metric.distance x.aabb w))
      → IsFar dim w best x
  past best near beyond x pos far le law =
      let up = AtMost-trans best near beyond (excluded near best far) le in
      IsFar-square dim w best x (
        AtMost-trans (metric.square best) (metric.square beyond) (metric.distance x.aabb w)
          (metric.square_mono best beyond pos up)
          (law (AtMost-trans metric.origin best beyond pos up)))

  -- A subtree that the search leaves out has only far boxes.
  guarded :
      (axis : ℕ) (child : Tree S B V) (near : Bool) (best : Option (Entry B V) × S)
      → AtMost metric.origin best.1
      → Near dim w (entries child) best (closest_from dim w axis child best)
      → (near ≡ false → (x : Entry B V) → Mem x (entries child) → IsFar dim w best.1 x)
      → Near dim w
          (entries child)
          best
          (if is_node child && near then closest_from dim w axis child best else best)
  unfolding is_node closest_from
  guarded axis empty near best pos searched far = searched
  guarded axis (node e l_to r_fr left right) near best pos searched far = elim (Bool-cases near) [
    | inl t ↦ rw t searched
    | inr f ↦
        rw f (
          Near-same dim w (entries (node e l_to r_fr left right)) best pos (λ x m alive. far f x m))
  ]

  closest_from-Near :
      (axis : ℕ) (t : Tree S B V) (best : Option (Entry B V) × S)
      → AtMost metric.origin best.1
      → axis < dim
      → IsBounded dim axis t
      → Near dim w (entries t) best (closest_from dim w axis t best)
  unfolding closest_from entries
  closest_from-Near axis empty best pos lt b =
      Near-same dim w [] best pos (λ x m alive. absurd (not-mem-nil m))
  closest_from-Near axis (node e l_to r_fr left right) best pos lt
        (bounded_node below above bl br) =
      let next = (axis + 1) % dim in
      let next_lt : next < dim = mod-lt (axis + 1) (omega arith) in
      let p = metric.point w axis in
      let b₁ = better (λ b. metric.distance b w) e best in
      let n₁ = Near-better dim w e best pos in
      let near_left = at_most (scalar.minus p l_to) b₁.1 in
      let n₂ =
        guarded next left near_left b₁ n₁.known (closest_from-Near next left b₁ n₁.known next_lt bl)
          (λ far x m.
            past b₁.1 (scalar.minus p l_to) (scalar.minus p (box.upper x.aabb axis)) x n₁.known far
              (metric.minus_right p (box.upper x.aabb axis) l_to (below x m))
              (metric.beyond_above x.aabb w axis lt)) in
      let b₂ = if is_node left && near_left then closest_from dim w next left b₁ else b₁ in
      let near_right = at_most (scalar.minus r_fr p) b₂.1 in
      let n₃ =
        guarded next right near_right b₂ n₂.known
          (closest_from-Near next right b₂ n₂.known next_lt br)
          (λ far x m.
            past b₂.1 (scalar.minus r_fr p) (scalar.minus (box.lower x.aabb axis) p) x n₂.known far
              (metric.minus_left p r_fr (box.lower x.aabb axis) (above x m))
              (metric.beyond_below x.aabb w axis lt)) in
      let b₃ = if is_node right && near_right then closest_from dim w next right b₂ else b₂ in
      Near-append dim w (e ∷ []) (entries left ++ entries right) best b₁ b₃ n₁
        (Near-append dim w (entries left) (entries right) b₁ b₂ b₃ n₂ n₃)

  -- What `find_closest_center` returns, given the largest scalar.
  pub data Closest (biggest : S) (es : List (Entry B V)) : Option (Entry B V) → Type ℓ where
    none_closer :
        ((x : Entry B V) → Mem x es → x.erased ≡ false → IsFar dim w biggest x)
        → Closest biggest es none
    closest :
        (e : Entry B V)
        → Mem e es
        → e.erased ≡ false
        → ((x : Entry B V) → Mem x es → x.erased ≡ false → IsFar dim w (metric.distance e.aabb w) x)
        → Closest biggest es (some e)

  Near-Closest :
      (biggest : S) (es : List (Entry B V)) (r : Option (Entry B V) × S)
      → Near dim w es (none, biggest) r
      → Closest biggest es r.0
  Near-Closest biggest es r b = elim b.found [
    | inl nothing ↦
        subst (λ z. Closest biggest es z) (sym (ap (λ z. z.0) nothing))
          (none_closer
            (λ x m alive. subst (λ z. IsFar dim w z x) (ap (λ z. z.1) nothing) (b.least x m alive)))
    | inr (e, is_e, m, alive, dist) ↦
        subst (λ z. Closest biggest es z) (sym is_e)
          (closest e m alive (λ x m' l. subst (λ z. IsFar dim w z x) (sym dist) (b.least x m' l)))
  ]

  -- In a tree that keeps its bounds, `find_closest_center` returns an entry that is not erased, such
  -- that no entry that is not erased has a squared distance from its center to the point below both
  -- that of the result and the square of that. Or it returns no entry, and then the same holds with
  -- the largest number, which is not negative.
  pub find_closest_center-Closest :
      (biggest : S) (kd : Kd S B V)
      → 0 < dim
      → AtMost metric.origin biggest
      → IsBounded dim 0 kd.tree
      → Closest biggest (entries kd.tree) (find_closest_center dim w biggest kd)
  unfolding find_closest_center
  find_closest_center-Closest biggest kd pos big b =
      Near-Closest biggest (entries kd.tree) _
        (closest_from-Near 0 kd.tree (none, biggest) big pos b)
