-- ===== src/LinkedList/Segment.antt =====
-- Segments of doubly linked nodes, and what `set_next` and `set_prev` do at their ends.
use salgo.Base.{
  ℕ, ◌≡◌, refl, ◌∙◌, Bool, true, false, ◌||◌, Option, none, some, List, [], ◌∷◌, ◌++◌, ◌==◌, inl,
  inr, Bool-cases, if◌then◌else◌, arith,
}
use salgo.LinkedList.{Node, Cells, store, set_next, set_prev}

module _ {ℓ} {V : Type ℓ} where
  -- The handle of the first node and of the last one, or what stands beside the segment.
  abbrev pub first : List (ℕ × V) → Option ℕ → Option ℕ
  first [] next = next
  first ((h, x) ∷ xs) next = some h

  abbrev pub final : Option ℕ → List (ℕ × V) → Option ℕ
  final prev [] = prev
  final prev ((h, x) ∷ xs) = final (some h) xs

  abbrev pub has : ℕ → List (ℕ × V) → Bool
  has i [] = false
  has i ((h, x) ∷ xs) = i == h || has i xs

  abbrev pub Distinct : List (ℕ × V) → Type 0
  Distinct [] = Unit {0}
  Distinct ((h, x) ∷ xs) = (has h xs ≡ false) × Distinct xs

  abbrev pub Apart : List (ℕ × V) → List (ℕ × V) → Type 0
  Apart [] ys = Unit {0}
  Apart ((h, x) ∷ xs) ys = (has h ys ≡ false) × Apart xs ys

  -- The nodes with these handles and values are linked in both directions, between `prev` and `next`.
  abbrev pub Seg : Cells V → Option ℕ → List (ℕ × V) → Option ℕ → Type ℓ
  Seg cells prev [] next = Unit
  Seg cells prev ((h, x) ∷ xs) next =
      (cells h ≡ some (record { val = x; next = first xs next; prev = prev }))
      × Seg cells (some h) xs next

  -- The two stores differ at most at the handles of `xs`.
  abbrev pub SameOutside : List (ℕ × V) → Cells V → Cells V → Type ℓ
  SameOutside xs cells cells' = (i : ℕ) → has i xs ≡ false → cells' i ≡ cells i

  pub has-append : (i : ℕ) (xs ys : List (ℕ × V)) → has i (xs ++ ys) ≡ (has i xs || has i ys)
  has-append i [] ys = refl
  has-append i ((h, x) ∷ xs) ys = ground (arith, has-append i xs ys)

  pub Distinct-append :
      (xs ys : List (ℕ × V)) → Distinct xs → Distinct ys → Apart xs ys → Distinct (xs ++ ys)
  Distinct-append [] ys d e a = e
  Distinct-append ((h, x) ∷ xs) ys d e a =
      (ground (arith, has-append h xs ys), Distinct-append xs ys d.1 e a.1)

  pub Distinct-split :
      (xs ys : List (ℕ × V)) → Distinct (xs ++ ys) → Distinct xs × Distinct ys × Apart xs ys
  Distinct-split [] ys d = (tt, d, tt)
  Distinct-split ((h, x) ∷ xs) ys d =
      let (p, q, r) = Distinct-split xs ys d.1 in
      let both = d.0 in
      ((ground (arith, has-append h xs ys), p), q, (ground (arith, has-append h xs ys), r))

  pub Apart-has : (xs ys : List (ℕ × V)) (i : ℕ) → Apart xs ys → has i ys ≡ true → has i xs ≡ false
  Apart-has [] ys i a e = refl
  Apart-has ((h, x) ∷ xs) ys i a e = let here = a.0 in ground (arith, Apart-has xs ys i a.1 e)

  pub Apart-has_first :
      (xs ys : List (ℕ × V)) (i : ℕ) → Apart xs ys → has i xs ≡ true → has i ys ≡ false
  Apart-has_first [] ys i a e = cc
  Apart-has_first ((h, x) ∷ xs) ys i a e = elim (Bool-cases (i == h)) [
    | inl t ↦ let same : i ≡ h = ground arith in rw same a.0
    | inr f ↦ Apart-has_first xs ys i a.1 (ground arith)
  ]

  pub Apart-tail :
      (xs ys : List (ℕ × V)) (h : ℕ) (x : V)
      → Apart xs ((h, x) ∷ ys)
      → (has h xs ≡ false) × Apart xs ys
  Apart-tail [] ys h x a = (refl, tt)
  Apart-tail ((k, y) ∷ xs) ys h x a =
      let here = a.0 in let (p, q) = Apart-tail xs ys h x a.1 in (ground arith, (ground arith, q))

  pub Apart-cons :
      (xs ys : List (ℕ × V)) (h : ℕ) (x : V)
      → has h xs ≡ false
      → Apart xs ys
      → Apart xs ((h, x) ∷ ys)
  Apart-cons [] ys h x e a = tt
  Apart-cons ((k, y) ∷ xs) ys h x e a =
      let here = a.0 in (ground arith, Apart-cons xs ys h x (ground arith) a.1)

  -- What a change that spares a segment leaves of it.
  pub frame :
      (cells cells' : Cells V) (prev : Option ℕ) (xs : List (ℕ × V)) (next : Option ℕ)
      → Seg cells prev xs next
      → ((i : ℕ) → has i xs ≡ true → cells' i ≡ cells i)
      → Seg cells' prev xs next
  frame cells cells' prev [] next s same = s
  frame cells cells' prev ((h, x) ∷ xs) next s same = (
    same h (ground arith) ∙ s.0,
    frame cells cells' (some h) xs next s.1 (λ i e. same i (ground arith)),
  )

  pub first-append :
      (xs ys : List (ℕ × V)) (next : Option ℕ) → first (xs ++ ys) next ≡ first xs (first ys next)
  first-append [] ys next = refl
  first-append ((h, x) ∷ xs) ys next = refl

  pub final-append :
      (prev : Option ℕ) (xs ys : List (ℕ × V)) → final prev (xs ++ ys) ≡ final (final prev xs) ys
  final-append prev [] ys = refl
  final-append prev ((h, x) ∷ xs) ys = final-append (some h) xs ys

  pub Seg-append :
      (cells : Cells V) (prev : Option ℕ) (xs ys : List (ℕ × V)) (next : Option ℕ)
      → Seg cells prev xs (first ys next)
      → Seg cells (final prev xs) ys next
      → Seg cells prev (xs ++ ys) next
  Seg-append cells prev [] ys next s t = t
  Seg-append cells prev ((h, x) ∷ xs) ys next s t =
      (rw (first-append xs ys next) s.0, Seg-append cells (some h) xs ys next s.1 t)

  pub Seg-split :
      (cells : Cells V) (prev : Option ℕ) (xs ys : List (ℕ × V)) (next : Option ℕ)
      → Seg cells prev (xs ++ ys) next
      → Seg cells prev xs (first ys next) × Seg cells (final prev xs) ys next
  Seg-split cells prev [] ys next s = (tt, s)
  Seg-split cells prev ((h, x) ∷ xs) ys next s =
      let (p, q) = Seg-split cells (some h) xs ys next s.1 in
      ((rw (first-append xs ys next) at s.0, p), q)

  -- A handle that names no node is not in a segment.
  pub not_in :
      (cells : Cells V) (prev : Option ℕ) (xs : List (ℕ × V)) (next : Option ℕ) (i : ℕ)
      → Seg cells prev xs next
      → cells i ≡ none
      → has i xs ≡ false
  not_in cells prev [] next i s e = refl
  not_in cells prev ((h, x) ∷ xs) next i s e =
      let here = s.0 in ground (arith, not_in cells (some h) xs next i s.1 e)

  store_at :
      (cells : Cells V) (h i : ℕ) (n : Option (Node V))
      → store cells h n i ≡ (if i == h then n else cells i)
  unfolding store
  store_at cells h i n = refl

  last_next :
      (cells : Cells V) (prev : Option ℕ) (h : ℕ) (x : V) (xs : List (ℕ × V)) (next new : Option ℕ)
      → Seg cells prev ((h, x) ∷ xs) next
      → Distinct ((h, x) ∷ xs)
      → (cells' : Cells V) × (set_next (final (some h) xs) new cells ≡ some cells')
        × Seg cells' prev ((h, x) ∷ xs) new
        × SameOutside ((h, x) ∷ xs) cells cells'
  unfolding set_next
  last_next cells prev h x [] next new s d =
      let n : Node V = record { val = x; next = new; prev = prev } in
      (
        store cells h (some n),
        rw s.0,
        (ground (arith, store_at cells h h (some n)), tt),
        λ i e. ground (arith, store_at cells h i (some n)),
      )
  last_next cells prev h x ((k, y) ∷ xs) next new s d =
      let (cells', run, t, same) = last_next cells (some h) k y xs next new s.1 d.1 in
      (cells', run, (same h d.0 ∙ s.0, t), λ i e. same i (ground arith))

  -- The node before a gap gets a new `next`.
  pub set_next-Seg :
      (cells : Cells V) (xs : List (ℕ × V)) (next new : Option ℕ)
      → Seg cells none xs next
      → Distinct xs
      → (cells' : Cells V) × (set_next (final none xs) new cells ≡ some cells')
        × Seg cells' none xs new
        × SameOutside xs cells cells'
  set_next-Seg cells [] next new s d = (cells, unfold set_next in refl, tt, λ i e. refl)
  set_next-Seg cells ((h, x) ∷ xs) next new s d = last_next cells none h x xs next new s d

  -- The node after a gap gets a new `prev`.
  pub set_prev-Seg :
      (cells : Cells V) (prev new : Option ℕ) (ys : List (ℕ × V))
      → Seg cells prev ys none
      → Distinct ys
      → (cells' : Cells V) × (set_prev (first ys none) new cells ≡ some cells')
        × Seg cells' new ys none
        × SameOutside ys cells cells'
  unfolding set_prev
  set_prev-Seg cells prev new [] s d = (cells, refl, tt, λ i e. refl)
  set_prev-Seg cells prev new ((h, x) ∷ ys) s d =
      let n : Node V = record { val = x; next = first ys none; prev = new } in
      (
        store cells h (some n),
        rw s.0,
        (
          ground (arith, store_at cells h h (some n)),
          frame cells (store cells h (some n)) (some h) ys none s.1
              (λ i e. let out = d.0 in ground (arith, store_at cells h i (some n))),
        ),
        λ i e. ground (arith, store_at cells h i (some n)),
      )
