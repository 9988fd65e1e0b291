-- ===== src/Kd/Search.antt =====
-- A search of the tree against a search of the list of all entries.
use mathlib.Core.List.{Mem, mem-cons_self, mem-cons_of_mem}
use mathlib.Core.Path.{fun_ext}
use native.Mathlib.Nat.{mod-lt}
use salgo.Base.{
  ℕ, ◌+◌, ◌%◌, ◌<◌, ◌≡◌, refl, ap, ap₂, sym, ◌∙◌, Bool, true, false, ◌&&◌, List, [], ◌∷◌, ◌++◌,
  if◌then◌else◌, inl, inr, Bool-cases, arith,
}
use salgo.Kd.{
  Scalar, Box, Query, Entry, Tree, empty, node, Kd, entries, is_node, at_most, is_hit, then_next,
  each_from, each_intersecting,
}
use salgo.Kd.Bounds.{AtMost, AtMost-trans, IsBounded, bounded_node}

-- A callback called on the entries of a list that pass a test, in order, until it asks to break.
unfoldable pub visit {ℓ} : {E A : Type ℓ} → (E → Bool) → (A → E → Bool × A) → List E → A → Bool × A
visit test fun [] s = (false, s)
visit test fun (e ∷ es) s =
    let rest = visit test fun es in then_next (if test e then fun s e else (false, s)) rest

module _ {ℓ} {A : Type ℓ} where
  then_next_assoc :
      (r : Bool × A) (f g : A → Bool × A)
      → then_next (then_next r f) g ≡ then_next r (λ s. then_next (f s) g)
  unfolding then_next
  then_next_assoc (true, s) f g = refl
  then_next_assoc (false, s) f g = refl

module _ {ℓ} {E A : Type ℓ} (test : E → Bool) (fun : A → E → Bool × A) where
  visit-append :
      (xs ys : List E) (s : A)
      → visit test fun (xs ++ ys) s ≡ then_next (visit test fun xs s) (visit test fun ys)
  unfolding visit then_next
  visit-append [] ys s = refl
  visit-append (x ∷ xs) ys s =
      let first = if test x then fun s x else (false, s) in
      ap (then_next first) (fun_ext (visit-append xs ys))
      ∙ sym (then_next_assoc first (visit test fun xs) (visit test fun ys))

  visit_none :
      (xs : List E) (s : A)
      → ((x : E) → Mem x xs → test x ≡ false)
      → visit test fun xs s ≡ (false, s)
  unfolding visit then_next
  visit_none [] s h = refl
  visit_none (x ∷ xs) s h =
      rw (h x mem-cons_self) (visit_none xs s (λ y m. h y (mem-cons_of_mem x m)))

module _ {ℓ} {B Q V : Type ℓ} where
  is_hit_no :
      (intersects : B → Q → Bool) (q : Q) (e : Entry B V)
      → ¬ (intersects e.aabb q ≡ true)
      → is_hit intersects q e ≡ false
  unfolding is_hit
  is_hit_no intersects q e miss = elim (Bool-cases (intersects e.aabb q)) [
    | inl t ↦ absurd (miss t)
    | inr f ↦ elim (Bool-cases e.erased) [ inl t ↦ rw t | inr t ↦ rw (t, f) ]
  ]

module _ {ℓ} {S B Q V A : Type ℓ} (dim : ℕ) ⦃scalar : Scalar S⦄ ⦃box : Box S B⦄
    ⦃query : Query S B Q dim⦄ (q : Q) (fun : A → Entry B V → Bool × A) where
  abbrev listed : Tree S B V → A → Bool × A
  listed t = visit (is_hit query.intersects q) fun (entries t)

  -- A subtree that the search leaves out has no hits.
  guarded :
      (axis : ℕ) (child : Tree S B V) (near : Bool)
      → ((s : A) → each_from dim axis q fun child s ≡ listed child s)
      → (near ≡ false
          → (x : Entry B V) → Mem x (entries child)
          → is_hit query.intersects q x ≡ false)
      → (s : A)
      → (if is_node child && near then each_from dim axis q fun child s else (false, s))
        ≡ listed child s
  unfolding is_node entries visit
  guarded axis empty near same far s = refl
  guarded axis (node e l_to r_fr left right) near same far s = elim (Bool-cases near) [
    | inl t ↦ rw t (same s)
    | inr f ↦ rw f (
        sym (
          visit_none (is_hit query.intersects q) fun (entries (node e l_to r_fr left right)) s
            (far f)))
  ]

  far_left :
      (axis : ℕ) (l_to : S) (child : Tree S B V)
      → axis < dim
      → ((x : Entry B V) → Mem x (entries child) → AtMost (box.upper x.aabb axis) l_to)
      → at_most (query.query_lower q axis) l_to ≡ false
      → (x : Entry B V) → Mem x (entries child)
      → is_hit query.intersects q x ≡ false
  unfolding at_most
  far_left axis l_to child lt below far x m = is_hit_no query.intersects q x (λ t.
      let near =
        AtMost-trans (query.query_lower q axis) (box.upper x.aabb axis) l_to
          (query.meets_above x.aabb q axis lt t) (below x m) in
      let bad = rw near at far in cc)

  far_right :
      (axis : ℕ) (r_fr : S) (child : Tree S B V)
      → axis < dim
      → ((x : Entry B V) → Mem x (entries child) → AtMost r_fr (box.lower x.aabb axis))
      → at_most r_fr (query.query_upper q axis) ≡ false
      → (x : Entry B V) → Mem x (entries child)
      → is_hit query.intersects q x ≡ false
  unfolding at_most
  far_right axis r_fr child lt above far x m = is_hit_no query.intersects q x (λ t.
      let near =
        AtMost-trans r_fr (box.lower x.aabb axis) (query.query_upper q axis) (above x m)
          (query.meets_below x.aabb q axis lt t) in
      let bad = rw near at far in cc)

  each_from-listed :
      (axis : ℕ) (t : Tree S B V)
      → axis < dim
      → IsBounded dim axis t
      → (s : A) → each_from dim axis q fun t s ≡ listed t s
  unfolding each_from entries visit
  each_from-listed axis empty lt b s = refl
  each_from-listed axis (node e l_to r_fr left right) lt (bounded_node below above bl br) s =
      let next = (axis + 1) % dim in
      let next_lt : next < dim = mod-lt (axis + 1) (omega arith) in
      let at_left =
        guarded next left (at_most (query.query_lower q axis) l_to)
          (each_from-listed next left next_lt bl) (far_left axis l_to left lt below) in
      let at_right =
        guarded next right (at_most r_fr (query.query_upper q axis))
          (each_from-listed next right next_lt br) (far_right axis r_fr right lt above) in
      ap (then_next (if is_hit query.intersects q e then fun s e else (false, s))) (
        fun_ext (λ s'.
          ap₂ then_next (at_left s') (fun_ext at_right)
          ∙ sym (visit-append (is_hit query.intersects q) fun (entries left) (entries right) s')))

  -- In a tree that keeps its bounds, `each_intersecting` calls the callback as a walk over the list
  -- of all entries does: on those that are not erased and meet the query, each once, until the
  -- callback asks to break.
  pub each_intersecting-visit :
      (kd : Kd S B V)
      → 0 < dim
      → IsBounded dim 0 kd.tree
      → (s : A)
      → each_intersecting dim q fun kd s ≡ visit (is_hit query.intersects q) fun (entries kd.tree) s
  unfolding each_intersecting
  each_intersecting-visit kd pos b s = each_from-listed 0 kd.tree pos b s
