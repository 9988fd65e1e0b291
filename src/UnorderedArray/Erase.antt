-- ===== src/UnorderedArray/Erase.antt =====
-- What `erase` removes.
use mathlib.Core.List.{Perm, perm_middle, perm_append_singleton, append_assoc, append-nil}
use mathlib.Core.List.Perm
use salgo.Base.{
  ℕ, zero, suc, ◌+◌, ◌<◌, ◌≡◌, refl, ap, some, List, [], ◌∷◌, ◌++◌, length, get_elem?, set, arith,
  length-append, inl, inr, ◌⊎◌,
}
use salgo.UnorderedArray.{pop_back, erase}

module _ {ℓ} {A : Type ℓ} where
  pub pop_back-append : (xs : List A) (b : A) → pop_back (xs ++ b ∷ []) ≡ some (b, xs)
  unfolding pop_back
  pop_back-append [] b = refl
  pop_back-append (x ∷ []) b = refl
  pop_back-append (x ∷ y ∷ xs) b = rw (pop_back-append (y ∷ xs) b)

  -- A list that is not empty ends in a value.
  pub snoc : (xs : List A) → 0 < length xs → (b : A) × (ys : List A) × (xs ≡ ys ++ b ∷ [])
  snoc [] h = absurd (omega arith)
  snoc (x ∷ []) h = (x, [], refl)
  snoc (x ∷ y ∷ xs) h =
      let (b, ys, e) = snoc (y ∷ xs) (omega arith) in (b, x ∷ ys, ap (λ t. x ∷ t) e)

  pub split_at :
      (xs : List A) (i : ℕ) {x : A}
      → get_elem? xs i ≡ some x
      → (front : List A) × (t : List A) × (xs ≡ front ++ x ∷ t) × (length front ≡ i)
  split_at [] i e = cc
  split_at (y ∷ xs) zero {x} e = ([], xs, (let f : y ≡ x = cc in ap (λ z. z ∷ xs) f), refl)
  split_at (y ∷ xs) (suc i) e =
      let (front, t, f, g) = split_at xs i e in (y ∷ front, t, ap (λ z. y ∷ z) f, ap suc g)

  pub set_split :
      (front : List A) (x : A) (t : List A) (b : A)
      → set (front ++ x ∷ t) (length front) b ≡ front ++ b ∷ t
  set_split [] x t b = refl
  set_split (y ∷ front) x t b = ap (λ z. y ∷ z) (set_split front x t b)

  pub get_split :
      (front : List A) (x : A) (t : List A) → get_elem? (front ++ x ∷ t) (length front) ≡ some x
  get_split [] x t = refl
  get_split (y ∷ front) x t = get_split front x t

  -- The last value stands alone: it is dropped.
  pub erase_last : (front : List A) (x : A) → erase (front ++ x ∷ []) (length front) ≡ some front
  unfolding erase
  erase_last front x = rw (
    get_split front x [],
    pop_back-append front x,
    set_split front x [] x,
    pop_back-append front x,
  )

  -- Before the last value `b`: `b` takes the place of what is erased.
  pub erase_before :
      (front : List A) (x : A) (r : List A) (b : A)
      → erase (front ++ x ∷ (r ++ b ∷ [])) (length front) ≡ some (front ++ b ∷ r)
  unfolding erase
  erase_before front x r b =
      rw
        (
          get_split front x (r ++ b ∷ []),
          ← append_assoc front (x ∷ r) (b ∷ []),
          pop_back-append (front ++ x ∷ r) b,
        )
        (rw (
          append_assoc front (x ∷ r) (b ∷ []),
          set_split front x (r ++ b ∷ []) b,
          ← append_assoc front (b ∷ r) (b ∷ []),
          pop_back-append (front ++ b ∷ r) b,
        ))

  -- What takes the place of the rest after an erased value: the last value moved to its front.
  pub erase_split :
      (front : List A) (x : A) (t : List A)
      → (r : List A) × (erase (front ++ x ∷ t) (length front) ≡ some (front ++ r))
        × ((t ≡ []) × (r ≡ []) ⊎ ((b : A) × (s : List A) × (t ≡ s ++ b ∷ []) × (r ≡ b ∷ s)))
  erase_split front x [] = ([], rw (append-nil front) (erase_last front x), inl (refl, refl))
  erase_split front x (y ∷ t) =
      let (b, s, e) = snoc (y ∷ t) (omega arith) in
      (b ∷ s, rw e (erase_before front x s b), inr (b, s, e, refl))

  pub moved-Perm :
      {t r : List A}
      → ((t ≡ []) × (r ≡ []) ⊎ ((b : A) × (s : List A) × (t ≡ s ++ b ∷ []) × (r ≡ b ∷ s)))
      → Perm r t
  moved-Perm (inl (e, f)) = rw (e, f) (Perm.refl [])
  moved-Perm (inr (b, s, e, f)) = rw (e, f) (Perm.symm (perm_append_singleton b s))

  pub moved-length :
      {t r : List A}
      → ((t ≡ []) × (r ≡ []) ⊎ ((b : A) × (s : List A) × (t ≡ s ++ b ∷ []) × (r ≡ b ∷ s)))
      → length r ≡ length t
  moved-length (inl (e, f)) = rw (e, f)
  moved-length (inr (b, s, e, f)) = rw (e, f) (omega (arith, length-append s (b ∷ [])))

  get_front :
      (front r t : List A) (j : ℕ)
      → j < length front
      → get_elem? (front ++ r) j ≡ get_elem? (front ++ t) j
  get_front [] r t j h = absurd (omega arith)
  get_front (y ∷ front) r t zero h = refl
  get_front (y ∷ front) r t (suc j) h = get_front front r t j (omega arith)

  -- Erasing at an index in bounds removes the value there and keeps the others, as a bag; what
  -- stands before the index does not move.
  pub erase-Perm :
      (xs : List A) (i : ℕ) (x : A)
      → get_elem? xs i ≡ some x
      → (ys : List A) × (erase xs i ≡ some ys)
        × Perm (x ∷ ys) xs
        × (length ys + 1 ≡ length xs)
        × ((j : ℕ) → j < i → get_elem? ys j ≡ get_elem? xs j)
  erase-Perm xs i x e =
      let (front, t, f, g) = split_at xs i e in
      let (r, run, m) = erase_split front x t in
      let p = moved-Perm m in
      (
        front ++ r,
        rw (f, ← g) run,
        rw f
            (Perm.trans (Perm.cons x (Perm.append_left front p)) (Perm.symm (perm_middle front t))),
        omega (
          arith,
          moved-length m,
          length-append front r,
          length-append front (x ∷ t),
          ap length f,
        ),
        λ j h. rw f (get_front front r (x ∷ t) j (rw g h)),
      )
