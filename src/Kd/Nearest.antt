-- ===== src/Kd/Nearest.antt =====
-- The distance that `find_closest_center` compares, and what a search over some entries keeps.
use mathlib.Core.List.{Mem, mem-append, mem-cons, mem-cons_self, not-mem-nil}
use mathlib.Core.Logic.Or
use mathlib.Core.Path.{subst}
use salgo.Base.{
  ℕ, ◌<◌, ◌≡◌, ◌⊎◌, refl, ap, sym, ◌∙◌, true, false, Option, some, List, [], ◌∷◌, ◌++◌,
  if◌then◌else◌, inl, inr, Bool-cases,
}
use salgo.Kd.{Scalar, Box, Entry, min_of}
use salgo.Kd.Bounds.{AtMost, AtMost-refl, AtMost-trans, min_of-left, min_of-right}

-- A point, the number 0, the square of a number, and `(aabb.center() - vec).squaredNorm()`. A point
-- that lies beyond a box along an axis has at least the square of that from the center. Of
-- differences and squares only the order is asked, which rounding keeps.
pub record Metric {ℓ} (S B W : Type ℓ) (dim : ℕ) ⦃scalar : Scalar S⦄ ⦃box : Box S B⦄ : Type ℓ where
  pub point : W → ℕ → S
  pub distance : B → W → S
  pub origin : S
  pub square : S → S
  pub minus_right : (a b c : S) → AtMost b c → AtMost (scalar.minus a c) (scalar.minus a b)
  pub minus_left : (a b c : S) → AtMost b c → AtMost (scalar.minus b a) (scalar.minus c a)
  pub square_mono : (a b : S) → AtMost origin a → AtMost a b → AtMost (square a) (square b)
  pub positive : (b : B) (w : W) → AtMost origin (distance b w)
  pub beyond_above :
      (b : B) (w : W) (axis : ℕ)
      → axis < dim
      → AtMost origin (scalar.minus (point w axis) (box.upper b axis))
      → AtMost (square (scalar.minus (point w axis) (box.upper b axis))) (distance b w)
  pub beyond_below :
      (b : B) (w : W) (axis : ℕ)
      → axis < dim
      → AtMost origin (scalar.minus (box.lower b axis) (point w axis))
      → AtMost (square (scalar.minus (box.lower b axis) (point w axis))) (distance b w)

module _ {ℓ} {S B V : Type ℓ} ⦃scalar : Scalar S⦄ where
  -- The first statement of `_find_closest_center_impl`: the best node and its squared distance.
  unfoldable pub better : (B → S) → Entry B V → Option (Entry B V) × S → Option (Entry B V) × S
  better far e best =
      if e.erased
      then best
      else if scalar.less (far e.aabb) best.1
      then (some e, far e.aabb)
      else best

module _ {ℓ} {S B V : Type ℓ} ⦃scalar : Scalar S⦄ (far : B → S) where
  better_erased :
      (x : Entry B V) (best : Option (Entry B V) × S) → x.erased ≡ true → better far x best ≡ best
  unfolding better
  better_erased x best t = rw t

  better_closer :
      (x : Entry B V) (best : Option (Entry B V) × S)
      → x.erased ≡ false
      → scalar.less (far x.aabb) best.1 ≡ true
      → better far x best ≡ (some x, far x.aabb)
  unfolding better
  better_closer x best f t =
      let new : Option (Entry B V) × S = (some x, far x.aabb) in
      ap (λ b. if b then best else if scalar.less (far x.aabb) best.1 then new else best) f
      ∙ ap (λ b. if b then new else best) t

  better_kept :
      (x : Entry B V) (best : Option (Entry B V) × S)
      → x.erased ≡ false
      → AtMost best.1 (far x.aabb)
      → better far x best ≡ best
  unfolding better
  better_kept x best f g = rw (f, g)

module _ {ℓ} {S B W V : Type ℓ} (dim : ℕ) ⦃scalar : Scalar S⦄ ⦃box : Box S B⦄
    ⦃metric : Metric S B W dim⦄ (w : W) where
  -- The squared distance of the entry is not below both `best` and the square of that.
  abbrev pub IsFar : S → Entry B V → Type 0
  IsFar best x = AtMost (min_of best (metric.square best)) (metric.distance x.aabb w)

  pub IsFar-best :
      (best : S) (x : Entry B V) → AtMost best (metric.distance x.aabb w) → IsFar best x
  IsFar-best best x h =
      let least = min_of best (metric.square best) in
      AtMost-trans least best (metric.distance x.aabb w) (min_of-left best (metric.square best)) h

  pub IsFar-square :
      (best : S) (x : Entry B V)
      → AtMost (metric.square best) (metric.distance x.aabb w)
      → IsFar best x
  IsFar-square best x h =
      let least = min_of best (metric.square best) in
      AtMost-trans least (metric.square best) (metric.distance x.aabb w)
        (min_of-right best (metric.square best)) h

  IsFar-le : (a b : S) (x : Entry B V) → AtMost metric.origin a → AtMost a b → IsFar b x → IsFar a x
  unfolding min_of
  IsFar-le a b x pos le h = elim (Bool-cases (scalar.less (metric.square b) b)) [
    | inl t ↦ IsFar-square a x (
        AtMost-trans (metric.square a) (metric.square b) (metric.distance x.aabb w)
          (metric.square_mono a b pos le) (rw t at h))
    | inr f ↦ IsFar-best a x (AtMost-trans a b (metric.distance x.aabb w) le (rw f at h))
  ]

  -- What a search over the entries makes of the best node and its distance.
  pub record Near (xs : List (Entry B V)) (start r : Option (Entry B V) × S) : Type ℓ where
    pub found :
        (r ≡ start)
        ⊎ ((e : Entry B V) × (r.0 ≡ some e)
            × Mem e xs
            × (e.erased ≡ false)
            × (metric.distance e.aabb w ≡ r.1))
    pub shrinks : AtMost r.1 start.1
    pub known : AtMost metric.origin r.1
    pub least : (x : Entry B V) → Mem x xs → x.erased ≡ false → IsFar r.1 x

  pub Near-same :
      (xs : List (Entry B V)) (s : Option (Entry B V) × S)
      → AtMost metric.origin s.1
      → ((x : Entry B V) → Mem x xs → x.erased ≡ false → IsFar s.1 x)
      → Near xs s s
  Near-same xs s pos far = record {
    found = inl refl;
    shrinks = AtMost-refl s.1;
    known = pos;
    least = far;
  }

  -- The entry of a node.
  pub Near-better :
      (e : Entry B V) (s : Option (Entry B V) × S)
      → AtMost metric.origin s.1
      → Near (e ∷ []) s (better (λ b. metric.distance b w) e s)
  Near-better e s pos =
      let far : B → S = λ b. metric.distance b w in
      elim (Bool-cases e.erased) [
        | inl t ↦ rw (better_erased far e s t) (
            Near-same (e ∷ []) s pos (λ x m alive.
              Or.elim (hlevel) (mem-cons.0 m)
                (λ same. let dead = ap (λ z. z.erased) same in absurd (cc))
                (λ there. absurd (not-mem-nil there))))
        | inr f ↦ elim (Bool-cases (scalar.less (far e.aabb) s.1)) [
          | inl t ↦ rw (better_closer far e s f t) (record {
            found = inr (e, refl, mem-cons_self, f, refl);
            shrinks = scalar.less_asym (far e.aabb) s.1 t;
            known = metric.positive e.aabb w;
            least = λ x m alive.
                Or.elim (hlevel) (mem-cons.0 m)
                  (λ same. IsFar-best (far e.aabb) x (
                    subst (λ z. AtMost (far e.aabb) (far z.aabb)) (sym same)
                      (AtMost-refl (far e.aabb))))
                  (λ there. absurd (not-mem-nil there));
          })
          | inr g ↦ rw (better_kept far e s f g) (
              Near-same (e ∷ []) s pos (λ x m alive.
                Or.elim (hlevel) (mem-cons.0 m)
                  (λ same. IsFar-best s.1 x (subst (λ z. AtMost s.1 (far z.aabb)) (sym same) g))
                  (λ there. absurd (not-mem-nil there))))
        ]
      ]

  -- One search after the other.
  pub Near-append :
      (xs ys : List (Entry B V)) (s r t : Option (Entry B V) × S)
      → Near xs s r
      → Near ys r t
      → Near (xs ++ ys) s t
  Near-append xs ys s r t a b = record {
    found = elim b.found [
      | inl same ↦ elim a.found [
        | inl kept ↦ inl (same ∙ kept)
        | inr (e, is_e, m, alive, dist) ↦ inr (
          e,
          ap (λ z. z.0) same ∙ is_e,
          mem-append.1 (Or.inl m),
          alive,
          dist ∙ ap (λ z. z.1) (sym same),
        )
      ]
      | inr (e, is_e, m, alive, dist) ↦ inr (e, is_e, mem-append.1 (Or.inr m), alive, dist)
    ];
    shrinks = AtMost-trans t.1 r.1 s.1 b.shrinks a.shrinks;
    known = b.known;
    least = λ x m alive.
        Or.elim (hlevel) (mem-append.0 m)
          (λ first. IsFar-le t.1 r.1 x b.known b.shrinks (a.least x first alive))
          (λ second. b.least x second alive);
  }
