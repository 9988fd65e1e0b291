-- ===== src/UnorderedArray/Sweep.antt =====
-- A loop that erases while it iterates visits every value once.
use mathlib.Core.List.{Perm, perm_append_comm, append_assoc, append-nil}
use mathlib.Core.List.Perm
use salgo.Base.{
  ℕ, zero, suc, ◌<◌, ◌≡◌, refl, ap, ◌∙◌, some, List, [], ◌∷◌, ◌++◌, length, get_elem?, arith,
  length-append, inl, inr, ltb, Bool, true, false, Bool-cases, if◌then◌else◌, ◌⊎◌,
}
use salgo.UnorderedArray.{erase, sweep, sweep_back}
use salgo.UnorderedArray.Erase.{get_split, erase_split, moved-Perm, moved-length, snoc}

module _ {ℓ} {A : Type ℓ} (p : A → Bool) where
  -- What is left of a list when the values that satisfy `p` are erased.
  unfoldable pub keep : List A → List A
  keep [] = []
  keep (x ∷ xs) = if p x then keep xs else x ∷ keep xs

  pub keep-append : (xs ys : List A) → keep (xs ++ ys) ≡ keep xs ++ keep ys
  unfolding keep
  keep-append [] ys = refl
  keep-append (x ∷ xs) ys = elim (Bool-cases (p x)) [
    | inl e ↦ rw e (keep-append xs ys)
    | inr e ↦ rw e (ap (λ t. x ∷ t) (keep-append xs ys))
  ]

  moved-keep :
      {t r : List A}
      → ((t ≡ []) × (r ≡ []) ⊎ ((b : A) × (s : List A) × (t ≡ s ++ b ∷ []) × (r ≡ b ∷ s)))
      → Perm (keep r) (keep t)
  moved-keep (inl (e, f)) = rw (e, f) (Perm.refl (keep []))
  moved-keep (inr (b, s, e, f)) =
      rw (e, f, keep-append (b ∷ []) s, keep-append s (b ∷ []))
        (perm_append_comm (keep (b ∷ [])) (keep s))

  sweep_from :
      (fuel : ℕ) (front t : List A)
      → length t < fuel
      → (r : List A) × (sweep fuel p (front ++ t) (length front) ≡ some (front ++ r))
        × Perm r (keep t)
  unfolding sweep keep
  sweep_from zero front t h = absurd (omega arith)
  sweep_from (suc fuel) front [] h =
      let stop : ltb (length front) (length (front ++ [])) ≡ false =
        ground (arith, length-append front []) in
      ([], rw stop, Perm.refl [])
  sweep_from (suc fuel) front (x ∷ t) h =
      let go : ltb (length front) (length (front ++ x ∷ t)) ≡ true =
        ground (arith, length-append front (x ∷ t)) in
      elim (Bool-cases (p x)) [
        | inl e ↦
            let (m, run, moved) = erase_split front x t in
            let (r, rest, q) = sweep_from fuel front m (omega (arith, moved-length moved)) in
            (r, rw (go, get_split front x t, e, run) rest, rw e (Perm.trans q (moved-keep moved)))
        | inr e ↦
            let (r, rest, q) = sweep_from fuel (front ++ x ∷ []) t (omega arith) in
            let rest' =
              rw
                (
                  append_assoc front (x ∷ []) t,
                  append_assoc front (x ∷ []) r,
                  length-append front (x ∷ []),
                )
                at rest in
            (x ∷ r, rw (go, get_split front x t, e) rest', rw e (Perm.cons x q))
      ]

  -- The loop ends, and leaves the values that do not satisfy `p`, as a bag: the iterator skips no
  -- value and visits none twice, although `erase` moves the last value into the hole.
  pub sweep-Perm :
      (xs : List A) → (ys : List A) × (sweep (suc (length xs)) p xs 0 ≡ some ys) × Perm ys (keep xs)
  sweep-Perm xs = sweep_from (suc (length xs)) [] xs (omega arith)

  pub kept_last :
      (s : List A) (b : A) (xs : List A)
      → xs ≡ s ++ b ∷ []
      → keep xs ≡ keep s ++ (if p b then [] else b ∷ [])
  unfolding keep
  kept_last s b xs e = rw e (keep-append s (b ∷ []))

  back_from :
      (n : ℕ) (front t : List A)
      → length front ≡ n
      → (ys : List A) × (sweep_back p (front ++ t) n ≡ some ys) × Perm ys (keep front ++ t)
  unfolding sweep_back keep
  back_from zero [] t h = (t, refl, Perm.refl t)
  back_from zero (x ∷ front) t h = absurd (omega arith)
  back_from (suc n) front t h =
      let (b, s, e) = snoc front (omega arith) in
      let ls : length s ≡ n = omega (arith, length-append s (b ∷ []), ap length e) in
      let whole : front ++ t ≡ s ++ b ∷ t = ap (λ z. z ++ t) e ∙ append_assoc s (b ∷ []) t in
      let got : get_elem? (s ++ b ∷ t) n ≡ some b = rw (← ls) (get_split s b t) in
      elim (Bool-cases (p b)) [
        | inl k ↦
            let (m, run, moved) = erase_split s b t in
            let run' : erase (s ++ b ∷ t) n ≡ some (s ++ m) = rw (← ls) run in
            let (ys, rest, q) = back_from n s m ls in
            let kept : keep front ≡ keep s = kept_last s b front e ∙ rw k (append-nil (keep s)) in
            (
              ys,
              rw (whole, got, k, run') rest,
              rw kept (Perm.trans q (Perm.append_left (keep s) (moved-Perm moved))),
            )
        | inr k ↦
            let (ys, rest, q) = back_from n s (b ∷ t) ls in
            let kept : keep front ≡ keep s ++ b ∷ [] = kept_last s b front e ∙ rw k in
            (ys, rw (whole, got, k) rest, rw (kept, append_assoc (keep s) (b ∷ []) t) q)
      ]

  -- The loop over the array reversed ends too, and leaves the values that do not satisfy `p`, as a
  -- bag.
  pub sweep_back-Perm :
      (xs : List A) → (ys : List A) × (sweep_back p xs (length xs) ≡ some ys) × Perm ys (keep xs)
  sweep_back-Perm xs =
      let (ys, run, q) = back_from (length xs) xs [] refl in
      (ys, rw (append-nil xs) at run, rw (append-nil (keep xs)) at q)
