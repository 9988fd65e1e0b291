-- ===== src/LinkedList/Clear.antt =====
-- The loop that erases while it iterates, and `clear`.
use salgo.Base.{
  ℕ, zero, suc, ◌+◌, ◌<◌, ◌≡◌, refl, ap, ◌∙◌, true, false, Option, none, some, List, [], ◌∷◌, ◌==◌,
  length, inl, inr, Bool-cases, arith,
}
use salgo.LinkedList.{LinkedList, Reference, reference, get_next, increment, erase_all, clear}
use salgo.LinkedList.Erase.{IsList, erase-IsList}
use salgo.LinkedList.Segment.{first, has}

-- the iterator that `begin` returns
abbrev pub start : Option ℕ → Option Reference
start o = elim o [ none ↦ none | some h ↦ some (reference h) ]

module _ {ℓ} {V : Type ℓ} where
  -- From an erased node the iterator goes to the node that followed it.
  increment_erased :
      (r : Reference) (l : LinkedList V) (o : Option ℕ)
      → r.just_erased ≡ true
      → r.next ≡ o
      → increment r l ≡ some (start o)
  unfolding increment get_next
  increment_erased r l none e f = rw (e, f)
  increment_erased r l (some h) e f = rw (e, f)

  -- The list `l'` is empty, and the nodes `xs` of `l`, and no others, were freed.
  pub record Freed (xs : List (ℕ × V)) (l l' : LinkedList V) : Type ℓ where
    pub valid : IsList [] l'
    pub freed : (i : ℕ) → has i xs ≡ true → l'.cells i ≡ none
    pub others : (i : ℕ) → has i xs ≡ false → l'.cells i ≡ l.cells i

  erase_all-Freed :
      (fuel : ℕ) (xs : List (ℕ × V)) (l : LinkedList V)
      → IsList xs l
      → length xs < fuel
      → (l' : LinkedList V) × (erase_all fuel (start (first xs none)) l ≡ some l') × Freed xs l l'
  unfolding erase_all
  erase_all-Freed zero xs l v h = absurd (omega arith)
  erase_all-Freed (suc fuel) [] l v h =
      (l, refl, record { valid = v; freed = λ i e. cc; others = λ i e. refl })
  erase_all-Freed (suc fuel) ((k, x) ∷ xs) l v h =
      let (r, l₁, run, un, erased, next, _) = erase-IsList [] xs k x l v in
      let (l₂, rest, q) = erase_all-Freed fuel xs l₁ un.valid (omega arith) in
      let out = v.distinct.0 in
      (
        l₂,
        rw (run, increment_erased r l₁ (first xs none) erased next) rest,
        record {
          valid = q.valid;
          freed = λ i e. elim (Bool-cases (i == k)) [
            | inl t ↦ let same : i ≡ k = ground arith in rw same (q.others k out ∙ un.freed)
            | inr f ↦ q.freed i (ground arith)
          ];
          others =
              λ i e. q.others i (ground arith) ∙ un.others i (ground arith) refl (ground arith);
        },
      )

  clear_step :
      (l l' : LinkedList V)
      → erase_all (l.num_existing + 1) (start l.front) l ≡ some l'
      → clear l ≡ some (record l' { front = none; back = none })
  unfolding clear
  clear_step l l' run = rw run

  -- The loop that erases each node as the iterator reaches it ends, and `clear` does not fault: the
  -- list is empty afterwards, all its nodes are freed and no other node is.
  pub clear-Freed :
      (xs : List (ℕ × V)) (l : LinkedList V)
      → IsList xs l
      → (l' : LinkedList V) × (clear l ≡ some l') × Freed xs l l'
  clear-Freed xs l v =
      let (l', run, q) = erase_all-Freed (length xs + 1) xs l v (omega arith) in
      (
        record l' { front = none; back = none },
        clear_step l l' (
            ap (λ n. erase_all (n + 1) (start l.front) l) v.counted
            ∙ ap (λ o. erase_all (length xs + 1) (start o) l) v.front_is
            ∙ run),
        record {
          valid = record {
            links = tt;
            distinct = tt;
            front_is = refl;
            back_is = refl;
            counted = q.valid.counted;
          };
          freed = q.freed;
          others = q.others;
        },
      )
