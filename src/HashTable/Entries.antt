-- ===== src/HashTable/Entries.antt =====
-- The entries of a table as a bag, under a write to one bucket.
use mathlib.Core.List.{Perm, Permᴰ, perm_middle, append_assoc, append-nil}
use mathlib.Core.Logic.{∥∥₁_elim}
use native.Mathlib.Nat.{ℕ_set}
use mathlib.Core.List.Perm
use salgo.Base.{
  ℕ, zero, suc, ◌<◌, ◌≤◌, ◌≡◌, refl, ap, sym, ◌∙◌, some, List, [], ◌∷◌, ◌++◌, flatten, length,
  get_or, set, replicate, take, get_elem?, get_or-set_self, arith,
}

module _ {ℓ} {A : Type ℓ} where
  pub take-set : (bs : List A) (a : ℕ) (c : A) → take a (set bs a c) ≡ take a bs
  take-set [] zero c = refl
  take-set [] (suc a) c = refl
  take-set (b ∷ bs) zero c = refl
  take-set (b ∷ bs) (suc a) c = rw (take-set bs a c)

module _ {ℓ} {A : Type ℓ} where
  -- What one bucket gains or loses, the whole gains or loses.
  pub flatten-set_add :
      (bs : List (List A)) (i : ℕ) (x : A) (c : List A)
      → i < length bs
      → Perm c (x ∷ get_or bs i [])
      → Perm (flatten (set bs i c)) (x ∷ flatten bs)
  unfolding flatten
  flatten-set_add [] i x c h p = absurd (omega arith)
  flatten-set_add (b ∷ bs) zero x c h p = Perm.append_right (flatten bs) p
  flatten-set_add (b ∷ bs) (suc i) x c h p =
      Perm.trans (Perm.append_left b (flatten-set_add bs i x c (omega arith) p))
        (perm_middle b (flatten bs))

  pub flatten-set_drop :
      (bs : List (List A)) (i : ℕ) (x : A) (c : List A)
      → i < length bs
      → Perm (x ∷ c) (get_or bs i [])
      → Perm (x ∷ flatten (set bs i c)) (flatten bs)
  unfolding flatten
  flatten-set_drop [] i x c h p = absurd (omega arith)
  flatten-set_drop (b ∷ bs) zero x c h p = Perm.append_right (flatten bs) p
  flatten-set_drop (b ∷ bs) (suc i) x c h p =
      Perm.trans (Perm.symm (perm_middle b (flatten (set bs i c))))
        (Perm.append_left b (flatten-set_drop bs i x c (omega arith) p))

  pub flatten-replicate : (n : ℕ) → flatten {A = A} (replicate n []) ≡ []
  unfolding flatten
  flatten-replicate zero = refl
  flatten-replicate (suc n) = flatten-replicate n

  Permᴰ-length : {xs ys : List A} → Permᴰ xs ys → length xs ≡ length ys
  Permᴰ-length Permᴰ.nil = refl
  Permᴰ-length (Permᴰ.cons e p) = ap suc (Permᴰ-length p)
  Permᴰ-length (Permᴰ.swap e f) = refl
  Permᴰ-length (Permᴰ.trans p q) = Permᴰ-length p ∙ Permᴰ-length q

  pub Perm-length : {xs ys : List A} → Perm xs ys → length xs ≡ length ys
  Perm-length p = ∥∥₁_elim p (ℕ_set _ _) Permᴰ-length

  -- The first `n` entries of the bucket `a` and the buckets below it.
  abbrev pub unvisited : List (List A) → ℕ → ℕ → List A
  unvisited bs a n = flatten (take a bs) ++ take n (get_or bs a [])

  pub take-congr :
      (n : ℕ) (xs ys : List A)
      → n ≤ length xs
      → n ≤ length ys
      → ((j : ℕ) → j < n → get_elem? xs j ≡ get_elem? ys j)
      → take n xs ≡ take n ys
  take-congr zero xs ys h k same = refl
  take-congr (suc n) [] ys h k same = absurd (omega arith)
  take-congr (suc n) (x ∷ xs) [] h k same = absurd (omega arith)
  take-congr (suc n) (x ∷ xs) (y ∷ ys) h k same =
      let rest =
        take-congr n xs ys (omega arith) (omega arith) (λ j lt. same (suc j) (omega arith)) in
      let head : x ≡ y = let first = same 0 (omega arith) in cc in cc

  pub unvisited-set :
      (bs : List (List A)) (a n : ℕ) (c : List A)
      → a < length bs
      → take n c ≡ take n (get_or bs a [])
      → unvisited (set bs a c) a n ≡ unvisited bs a n
  unvisited-set bs a n c lt same = rw (take-set bs a c, get_or-set_self bs a c [] lt, same)

  pub take-all : (n : ℕ) (xs : List A) → length xs ≤ n → take n xs ≡ xs
  take-all zero [] h = refl
  take-all zero (x ∷ xs) h = absurd (omega arith)
  take-all (suc n) [] h = refl
  take-all (suc n) (x ∷ xs) h = rw (take-all n xs (omega arith))

  pub take_snoc :
      (n : ℕ) (xs : List A) (x : A)
      → get_elem? xs n ≡ some x
      → take (suc n) xs ≡ take n xs ++ x ∷ []
  take_snoc n [] x e = cc
  take_snoc zero (y ∷ xs) x e = let f : y ≡ x = cc in ap (λ z. z ∷ []) f
  take_snoc (suc n) (y ∷ xs) x e = ap (λ z. y ∷ z) (take_snoc n xs x e)

module _ {ℓ} {A : Type ℓ} where
  -- The entries below the bucket `a + 1` are those of `a` and below.
  pub flatten-take-suc :
      (bs : List (List A)) (a : ℕ)
      → flatten (take (suc a) bs) ≡ flatten (take a bs) ++ get_or bs a []
  unfolding flatten
  flatten-take-suc [] zero = refl
  flatten-take-suc [] (suc a) = refl
  flatten-take-suc (b ∷ bs) zero = append-nil b
  flatten-take-suc (b ∷ bs) (suc a) =
      ap (λ z. b ++ z) (flatten-take-suc bs a)
      ∙ sym (append_assoc b (flatten (take a bs)) (get_or bs a []))
