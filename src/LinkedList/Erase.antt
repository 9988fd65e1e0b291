-- ===== src/LinkedList/Erase.antt =====
-- The invariant of a list, and what erasing one of its nodes does.
use salgo.Base.{
  ℕ, ◌-◌, ◌≡◌, ◌≢◌, refl, ◌∙◌, true, false, none, some, List, [], ◌∷◌, ◌++◌, ◌==◌, length,
  length-append, inl, inr, Bool-cases, if◌then◌else◌, arith,
}
use salgo.LinkedList.{
  Cells, LinkedList, Reference, reference, is_handle, store, unlink, erase, on_erase,
}
use salgo.LinkedList.Segment.{
  first, final, has, Distinct, Seg, Distinct-append, Distinct-split, Apart-has, Apart-has_first,
  Apart-tail, frame, final-append, Seg-append, Seg-split, set_next-Seg, set_prev-Seg, has-append,
}

module _ {ℓ} {V : Type ℓ} where
  -- The list holds these handles with these values, in this order.
  pub record IsList (xs : List (ℕ × V)) (l : LinkedList V) : Type ℓ where
    pub links : Seg l.cells none xs none
    pub distinct : Distinct xs
    pub front_is : l.front ≡ first xs none
    pub back_is : l.back ≡ final none xs
    pub counted : l.num_existing ≡ length xs

  front_after :
      (xs ys : List (ℕ × V)) (h : ℕ) (x : V)
      → has h xs ≡ false
      → (if is_handle (first (xs ++ (h, x) ∷ ys) none) h
          then first ys none
          else first (xs ++ (h, x) ∷ ys) none)
        ≡ first (xs ++ ys) none
  front_after [] ys h x e = ground arith
  front_after ((k, y) ∷ xs) ys h x e = ground arith

  final_in :
      (k : ℕ) (y : V) (ys : List (ℕ × V))
      → (i : ℕ) × (final (some k) ys ≡ some i) × (has i ((k, y) ∷ ys) ≡ true)
  final_in k y [] = (k, refl, ground arith)
  final_in k y ((j, z) ∷ ys) = let (i, e, m) = final_in j z ys in (i, e, ground arith)

  back_after :
      (xs ys : List (ℕ × V)) (h : ℕ) (x : V)
      → has h ys ≡ false
      → (if is_handle (final none (xs ++ (h, x) ∷ ys)) h
          then final none xs
          else final none (xs ++ (h, x) ∷ ys))
        ≡ final none (xs ++ ys)
  back_after xs [] h x e =
      rw (final-append none xs ((h, x) ∷ []), final-append none xs []) (ground arith)
  back_after xs ((k, y) ∷ ys) h x e =
      let (i, at, m) = final_in k y ys in
      rw (final-append none xs ((h, x) ∷ (k, y) ∷ ys), final-append none xs ((k, y) ∷ ys), at)
        (ground arith)

  -- `unlink` of the node between `xs` and `ys`.
  pub record Unlinked (xs ys : List (ℕ × V)) (h : ℕ) (l l' : LinkedList V) : Type ℓ where
    pub valid : IsList (xs ++ ys) l'
    pub freed : l'.cells h ≡ none
    pub others : (i : ℕ) → i ≢ h → has i xs ≡ false → has i ys ≡ false → l'.cells i ≡ l.cells i

  spared_ne : (cells : Cells V) (h i : ℕ) → i ≢ h → store cells h none i ≡ cells i
  unfolding store
  spared_ne cells h i ne = ground arith

  spared :
      (cells : Cells V) (h i : ℕ) (xs : List (ℕ × V))
      → has i xs ≡ true
      → has h xs ≡ false
      → store cells h none i ≡ cells i
  unfolding store
  spared cells h i xs e out = elim (Bool-cases (i == h)) [
    | inl t ↦ let same : i ≡ h = ground arith in let bad = rw same at e in cc
    | inr f ↦ rw f
  ]

  -- Unlinking the node between `xs` and `ys` does not fault.
  pub unlink-IsList :
      (xs ys : List (ℕ × V)) (h : ℕ) (x : V) (l : LinkedList V)
      → IsList (xs ++ (h, x) ∷ ys) l
      → (l' : LinkedList V) × (unlink h l ≡ some l') × Unlinked xs ys h l l'
  unfolding unlink
  unlink-IsList xs ys h x l v =
      let (dx, dh, apart) = Distinct-split xs ((h, x) ∷ ys) v.distinct in
      let (h_xs, apart') = Apart-tail xs ys h x apart in
      let (sx, (at, sy)) = Seg-split l.cells none xs ((h, x) ∷ ys) none v.links in
      let (c₁, run₁, s₁, same₁) = set_next-Seg l.cells xs (some h) (first ys none) sx dx in
      let sy₁ =
        frame l.cells c₁ (some h) ys none sy (λ i e. same₁ i (Apart-has xs ys i apart' e)) in
      let (c₂, run₂, s₂, same₂) = set_prev-Seg c₁ (some h) (final none xs) ys sy₁ dh.1 in
      let s₁' =
        frame c₁ c₂ none xs (first ys none) s₁
          (λ i e. same₂ i (Apart-has_first xs ys i apart' e)) in
      let both = Seg-append c₂ none xs ys none s₁' s₂ in
      let h_ys = dh.0 in
      let c₃ = store c₂ h none in
      (
        record {
          cells = c₃;
          front = first (xs ++ ys) none;
          back = final none (xs ++ ys);
          num_existing = l.num_existing - 1;
        },
        rw (
          at,
          run₁,
          run₂,
          v.front_is,
          v.back_is,
          front_after xs ys h x h_xs,
          back_after xs ys h x h_ys,
        ),
        record {
          valid = record {
            links =
                frame c₂ c₃ none (xs ++ ys) none both
                  (λ i e. spared c₂ h i (xs ++ ys) e (ground (arith, has-append h xs ys)));
            distinct = Distinct-append xs ys dx dh.1 apart';
            front_is = refl;
            back_is = refl;
            counted = omega (arith, v.counted, length-append xs ys, length-append xs ((h, x) ∷ ys));
          };
          freed = unfold store in ground arith;
          others = λ i ne ox oy. spared_ne c₂ h i ne ∙ same₂ i oy ∙ same₁ i ox;
        },
      )

  -- Erasing a node of a list through its accessor does not fault. The list then holds the other
  -- nodes in their order, the handle names no node, no node outside the list changes, and the
  -- accessor remembers the neighbours.
  pub erase-IsList :
      (xs ys : List (ℕ × V)) (h : ℕ) (x : V) (l : LinkedList V)
      → IsList (xs ++ (h, x) ∷ ys) l
      → (r : Reference) × (l' : LinkedList V) × (erase (reference h) l ≡ some (r, l'))
        × Unlinked xs ys h l l'
        × (r.just_erased ≡ true)
        × (r.next ≡ first ys none)
        × (r.prev ≡ final none xs)
  unfolding erase on_erase
  erase-IsList xs ys h x l v =
      let (l', run, un) = unlink-IsList xs ys h x l v in
      let at = (Seg-split l.cells none xs ((h, x) ∷ ys) none v.links).1 in
      (
        record { handle = h; prev = final none xs; next = first ys none; just_erased = true },
        l',
        rw (at.0, run),
        un,
        refl,
        refl,
        refl,
      )
