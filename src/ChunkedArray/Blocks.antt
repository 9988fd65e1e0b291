-- ===== src/ChunkedArray/Blocks.antt =====
-- The blocks of the array, read one after the other.
use mathlib.Core.List.{append_assoc, append-nil}
use native.Mathlib.Nat.{pow-zero, pow-suc}
use salgo.Base.{
  ℕ, zero, suc, ◌+◌, ◌-◌, ◌^◌, ◌≤◌, ◌<◌, ◌≡◌, refl, ap, sym, ◌∙◌, List, [], ◌∷◌, ◌++◌, flatten,
  length, get_elem?, get_or, set, length-append, arith,
}
use salgo.Base.Masks.{pow-two_pos}

pub pow_le : (j k : ℕ) → j ≤ k → 2 ^ j ≤ 2 ^ k
pow_le zero k h = omega (arith, pow-zero 2, pow-two_pos k)
pow_le (suc j) zero h = absurd (omega arith)
pow_le (suc j) (suc k) h = omega (arith, pow-suc 2 j, pow-suc 2 k, pow_le j k (omega arith))

module _ {ℓ} {A : Type ℓ} where
  -- The lengths of the lists are powers of 2, from `2 ^ n` on.
  abbrev pub Doubling : ℕ → List (List A) → Type 0
  Doubling n [] = Unit {0}
  Doubling n (b ∷ bs) = (length b ≡ 2 ^ n) × Doubling (suc n) bs

  pub length-flatten-Doubling :
      (n : ℕ) (bs : List (List A))
      → Doubling n bs
      → length (flatten bs) + 2 ^ n ≡ 2 ^ (n + length bs)
  unfolding flatten
  length-flatten-Doubling n [] d =
      let same : n ≡ n + 0 = omega arith in
      let power : 2 ^ n ≡ 2 ^ (n + 0) = ap (λ k. 2 ^ k) same in omega (arith, power)
  length-flatten-Doubling n (b ∷ bs) d =
      let rest = length-flatten-Doubling (suc n) bs d.1 in
      let index : suc n + length bs ≡ n + suc (length bs) = omega arith in
      let total = rw index at rest in
      let size = d.0 in omega (arith, total, length-append b (flatten bs), size, pow-suc 2 n)

  pub Doubling-append :
      (n : ℕ) (bs : List (List A)) (b : List A)
      → Doubling n bs
      → length b ≡ 2 ^ (n + length bs)
      → Doubling n (bs ++ b ∷ [])
  Doubling-append n [] b d e = (e ∙ ap (λ k. 2 ^ k) (let f : n + 0 ≡ n = omega arith in f), tt)
  Doubling-append n (c ∷ bs) b d e =
      let index : n + suc (length bs) ≡ suc n + length bs = omega arith in
      (d.0, Doubling-append (suc n) bs b d.1 (e ∙ ap (λ k. 2 ^ k) index))

  pub Doubling-split :
      (n : ℕ) (bs : List (List A)) (b : List A)
      → Doubling n (bs ++ b ∷ [])
      → Doubling n bs × (length b ≡ 2 ^ (n + length bs))
  Doubling-split n [] b d = (tt, d.0 ∙ ap (λ k. 2 ^ k) (let f : n ≡ n + 0 = omega arith in f))
  Doubling-split n (c ∷ bs) b d =
      let index : suc n + length bs ≡ n + suc (length bs) = omega arith in
      let (rest, e) = Doubling-split (suc n) bs b d.1 in ((d.0, rest), e ∙ ap (λ k. 2 ^ k) index)

  pub flatten-append_one :
      (bs : List (List A)) (b : List A) → flatten (bs ++ b ∷ []) ≡ flatten bs ++ b
  unfolding flatten
  flatten-append_one [] b = append-nil b
  flatten-append_one (c ∷ bs) b =
      ap (λ z. c ++ z) (flatten-append_one bs b) ∙ sym (append_assoc c (flatten bs) b)

  pub get_elem?-append_right :
      (xs ys : List A) (i : ℕ) → get_elem? (xs ++ ys) (length xs + i) ≡ get_elem? ys i
  get_elem?-append_right [] ys i = ap (get_elem? ys) (let e : 0 + i ≡ i = omega arith in e)
  get_elem?-append_right (x ∷ xs) ys i =
      let index : suc (length xs) + i ≡ suc (length xs + i) = omega arith in
      rw index (get_elem?-append_right xs ys i)

  pub set-append_right :
      (xs ys : List A) (i : ℕ) (v : A) → set (xs ++ ys) (length xs + i) v ≡ xs ++ set ys i v
  set-append_right [] ys i v = ap (λ j. set ys j v) (let e : 0 + i ≡ i = omega arith in e)
  set-append_right (x ∷ xs) ys i v =
      let index : suc (length xs) + i ≡ suc (length xs + i) = omega arith in
      rw index (ap (λ z. x ∷ z) (set-append_right xs ys i v))

  pub get_elem?-append_left :
      (xs ys : List A) (i : ℕ) → i < length xs → get_elem? (xs ++ ys) i ≡ get_elem? xs i
  get_elem?-append_left [] ys i h = absurd (omega arith)
  get_elem?-append_left (x ∷ xs) ys zero h = refl
  get_elem?-append_left (x ∷ xs) ys (suc i) h = get_elem?-append_left xs ys i (omega arith)

  -- An element of a block, among the elements of all blocks.
  pub get_elem?-flatten :
      (n : ℕ) (bs : List (List A)) (a b : ℕ)
      → Doubling n bs
      → a < length bs
      → b < 2 ^ (n + a)
      → (length (get_or bs a []) ≡ 2 ^ (n + a))
        × ((i : ℕ)
            → i + 2 ^ n ≡ 2 ^ (n + a) + b
            → get_elem? (flatten bs) i ≡ get_elem? (get_or bs a []) b)
  unfolding flatten
  get_elem?-flatten n [] a b d lt inside = absurd (omega arith)
  get_elem?-flatten n (c ∷ bs) zero b d lt inside =
      let zeroth : n + 0 ≡ n = omega arith in
      let inside' : b < length c = (let here = d.0 in omega (arith, here, rw zeroth at inside)) in
      (
        d.0 ∙ ap (λ k. 2 ^ k) (sym zeroth),
        λ i e.
            (let same : i ≡ b = omega (arith, rw zeroth at e) in
              rw same (get_elem?-append_left c (flatten bs) b inside')),
      )
  get_elem?-flatten n (c ∷ bs) (suc a) b d lt inside =
      let index : n + suc a ≡ suc n + a = omega arith in
      let (len, reads) = get_elem?-flatten (suc n) bs a b d.1 (omega arith) (rw index at inside) in
      (
        len ∙ ap (λ k. 2 ^ k) (sym index),
        λ i e.
            (let at_i = rw index at e in
              let here = d.0 in
              let more = pow-suc 2 n in
              let grows = pow_le n (suc n + a) (omega arith) in
              let past : i ≡ length c + (i - length c) =
                omega (arith, at_i, here, more, grows, pow_le (suc n) (suc n + a) (omega arith)) in
              rw past (
                get_elem?-append_right c (flatten bs) (i - length c)
                ∙ reads (i - length c) (omega (arith, at_i, here, more, past)))),
      )
