-- ===== src/Kd/Bounds.antt =====
-- `emplace` and `erase` keep the bounds that a search relies on, and their effect on the entries.
use mathlib.Core.List.{Perm, Mem, mem-cons, not-mem-nil, perm_middle, map, mem-map, map-append}
use mathlib.Core.List.Perm
use mathlib.Core.Logic.Or
use mathlib.Core.Logic.{∥∥₁_elim}
use salgo.Base.{
  ℕ, ◌+◌, ◌%◌, ◌≡◌, refl, ap, sym, ◌∙◌, Bool, false, List, [], ◌∷◌, inl, inr, ◌==◌, Bool-cases,
}
use salgo.Kd.{
  Scalar, Box, Entry, Tree, empty, node, mark, mark_all, entries, max_of, min_of, descend,
}

module _ {ℓ} {S : Type ℓ} ⦃scalar : Scalar S⦄ where
  -- `a <= b`
  abbrev pub AtMost : S → S → Type 0
  AtMost a b = scalar.less b a ≡ false

  pub AtMost-refl : (a : S) → AtMost a a
  AtMost-refl a = elim (Bool-cases (scalar.less a a)) [ inl t ↦ scalar.less_asym a a t | inr f ↦ f ]

  pub AtMost-trans : (a b c : S) → AtMost a b → AtMost b c → AtMost a c
  AtMost-trans a b c p q = scalar.less_trans a b c p q

  max_of-left : (a b : S) → AtMost a (max_of a b)
  unfolding max_of
  max_of-left a b = elim (Bool-cases (scalar.less a b)) [
    | inl t ↦ rw t (scalar.less_asym a b t)
    | inr f ↦ rw f (AtMost-refl a)
  ]

  max_of-right : (a b : S) → AtMost b (max_of a b)
  unfolding max_of
  max_of-right a b = elim (Bool-cases (scalar.less a b)) [
    | inl t ↦ rw t (AtMost-refl b)
    | inr f ↦ rw f f
  ]

  pub min_of-left : (a b : S) → AtMost (min_of a b) a
  unfolding min_of
  min_of-left a b = elim (Bool-cases (scalar.less b a)) [
    | inl t ↦ rw t (scalar.less_asym b a t)
    | inr f ↦ rw f (AtMost-refl a)
  ]

  pub min_of-right : (a b : S) → AtMost (min_of a b) b
  unfolding min_of
  min_of-right a b = elim (Bool-cases (scalar.less b a)) [
    | inl t ↦ rw t (AtMost-refl b)
    | inr f ↦ rw f f
  ]

all_false {ℓ} :
    {E : Type ℓ} (test : E → Bool) (e : E) (xs ys : List E)
    → Perm xs (e ∷ ys)
    → test e ≡ false
    → ((x : E) → Mem x ys → test x ≡ false)
    → (x : E) → Mem x xs
    → test x ≡ false
all_false test e xs ys p at_e rest x m =
    Or.elim (hlevel) (mem-cons.0 ((Perm.mem_iff p).0 m)) (λ same. ap test same ∙ at_e) (rest x)

module _ {ℓ} {S B V : Type ℓ} (dim : ℕ) ⦃scalar : Scalar S⦄ ⦃box : Box S B⦄ where
  -- Along the axis of a node, every box to its left ends at `l_to` at the latest, and every box to
  -- its right begins at `r_fr` at the earliest.
  pub data IsBounded : ℕ → Tree S B V → Type ℓ where
    bounded_empty : {axis : ℕ} → IsBounded axis empty
    bounded_node :
        {axis : ℕ} {e : Entry B V} {l_to r_fr : S} {left right : Tree S B V}
        → ((x : Entry B V) → Mem x (entries left) → AtMost (box.upper x.aabb axis) l_to)
        → ((x : Entry B V) → Mem x (entries right) → AtMost r_fr (box.lower x.aabb axis))
        → IsBounded ((axis + 1) % dim) left
        → IsBounded ((axis + 1) % dim) right
        → IsBounded axis (node e l_to r_fr left right)

  pub leaf-IsBounded :
      (axis : ℕ) (e : Entry B V) (l_to r_fr : S) → IsBounded axis (node e l_to r_fr empty empty)
  unfolding entries
  leaf-IsBounded axis e l_to r_fr =
      bounded_node (λ x m. absurd (not-mem-nil m)) (λ x m. absurd (not-mem-nil m)) bounded_empty
        bounded_empty

  -- The loop adds the entry.
  pub descend-Perm :
      (axis : ℕ) (e : Entry B V) (l_new r_new : S) (t : Tree S B V)
      → Perm (entries (descend dim axis e l_new r_new t)) (e ∷ entries t)
  unfolding descend entries
  descend-Perm axis e l_new r_new empty = Perm.refl (e ∷ [])
  descend-Perm axis e l_new r_new (node n l_to r_fr left right) =
      elim (Bool-cases (
        scalar.less (scalar.minus (box.upper e.aabb axis) l_to)
          (scalar.minus r_fr (box.lower e.aabb axis)))) [
            | inl t ↦ rw t (
                Perm.trans
                  (Perm.cons n (
                    Perm.append_right (entries right)
                      (descend-Perm ((axis + 1) % dim) e l_new r_new left)))
                  (Perm.swap e n _))
            | inr f ↦ rw f (
                Perm.trans
                  (Perm.cons n (
                    Perm.trans
                      (Perm.append_left (entries left)
                        (descend-Perm ((axis + 1) % dim) e l_new r_new right))
                      (perm_middle (entries left) (entries right))))
                  (Perm.swap e n _))
          ]

  pub descend-IsBounded :
      (axis : ℕ) (e : Entry B V) (l_new r_new : S) (t : Tree S B V)
      → IsBounded axis t
      → IsBounded axis (descend dim axis e l_new r_new t)
  unfolding descend entries
  descend-IsBounded axis e l_new r_new empty b = leaf-IsBounded axis e l_new r_new
  descend-IsBounded axis e l_new r_new (node n l_to r_fr left right)
        (bounded_node below above bl br) =
      elim (Bool-cases (
        scalar.less (scalar.minus (box.upper e.aabb axis) l_to)
          (scalar.minus r_fr (box.lower e.aabb axis)))) [
            | inl t ↦ rw t (
                bounded_node
                  (all_false
                    (λ (x : Entry B V).
                      scalar.less (max_of l_to (box.upper e.aabb axis)) (box.upper x.aabb axis))
                    e _ (entries left) (descend-Perm ((axis + 1) % dim) e l_new r_new left)
                    (max_of-right l_to (box.upper e.aabb axis))
                    (λ x m.
                      AtMost-trans (box.upper x.aabb axis) l_to
                        (max_of l_to (box.upper e.aabb axis)) (below x m)
                        (max_of-left l_to (box.upper e.aabb axis))))
                  above (descend-IsBounded ((axis + 1) % dim) e l_new r_new left bl) br)
            | inr f ↦ rw f (
                bounded_node below
                  (all_false
                    (λ (x : Entry B V).
                      scalar.less (box.lower x.aabb axis) (min_of r_fr (box.lower e.aabb axis)))
                    e _ (entries right) (descend-Perm ((axis + 1) % dim) e l_new r_new right)
                    (min_of-right r_fr (box.lower e.aabb axis))
                    (λ x m.
                      AtMost-trans (min_of r_fr (box.lower e.aabb axis)) r_fr
                        (box.lower x.aabb axis) (min_of-left r_fr (box.lower e.aabb axis))
                        (above x m)))
                  bl (descend-IsBounded ((axis + 1) % dim) e l_new r_new right br))
          ]

module _ {ℓ} {B V : Type ℓ} where
  pub mark-aabb : (h : ℕ) (e : Entry B V) → (mark h e).aabb ≡ e.aabb
  unfolding mark
  mark-aabb h e = elim (Bool-cases (e.handle == h)) [ inl t ↦ rw t refl | inr f ↦ rw f refl ]

module _ {ℓ} {S B V : Type ℓ} where
  pub entries-mark_all :
      (h : ℕ) (t : Tree S B V) → entries (mark_all h t) ≡ map (mark h) (entries t)
  unfolding entries mark_all
  entries-mark_all h empty = refl
  entries-mark_all h (node e l_to r_fr left right) =
      rw (entries-mark_all h left, entries-mark_all h right)
        (ap (λ t. mark h e ∷ t) (sym (map-append (mark h) (entries left) (entries right))))

  -- What no box satisfies, no box satisfies after a mark.
  marked_false :
      (test : B → Bool) (h : ℕ) (t : Tree S B V)
      → ((x : Entry B V) → Mem x (entries t) → test x.aabb ≡ false)
      → (x : Entry B V) → Mem x (entries (mark_all h t))
      → test x.aabb ≡ false
  marked_false test h t all x m =
      ∥∥₁_elim (mem-map.0 (rw (entries-mark_all h t) at m)) (hlevel)
        (λ p. ap (λ y. test y.aabb) (sym p.2) ∙ ap test (mark-aabb h p.0) ∙ all p.0 p.1)

module _ {ℓ} {S B V : Type ℓ} (dim : ℕ) ⦃scalar : Scalar S⦄ ⦃box : Box S B⦄ where
  pub mark_all-IsBounded :
      (h axis : ℕ) (t : Tree S B V) → IsBounded dim axis t → IsBounded dim axis (mark_all h t)
  unfolding mark_all
  mark_all-IsBounded h axis empty b = bounded_empty
  mark_all-IsBounded h axis (node e l_to r_fr left right) (bounded_node below above bl br) =
      bounded_node (marked_false (λ b. scalar.less l_to (box.upper b axis)) h left below)
        (marked_false (λ b. scalar.less (box.lower b axis) r_fr) h right above)
        (mark_all-IsBounded h ((axis + 1) % dim) left bl)
        (mark_all-IsBounded h ((axis + 1) % dim) right br)
