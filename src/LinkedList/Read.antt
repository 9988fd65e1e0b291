-- ===== src/LinkedList/Read.antt =====
-- Iterating over a list, and over a list made from values.
use mathlib.Core.List.{append_assoc, append-nil}
use salgo.Base.{
  ℕ, zero, suc, ◌+◌, ◌<◌, ◌≡◌, refl, ap, ◌∙◌, true, Option, none, some, List, [], ◌∷◌, ◌++◌, length,
  arith,
}
use salgo.LinkedList.{LinkedList, Node, reference, get_next, increment, read_all, of_values, empty}
use salgo.LinkedList.Clear.{start}
use salgo.LinkedList.Ends.{emplace_ends-Emplaced}
use salgo.LinkedList.Erase.{IsList}
use salgo.LinkedList.Segment.{first, has, Distinct, Seg, not_in}

module _ {ℓ} {V : Type ℓ} where
  abbrev pub values : List (ℕ × V) → List V
  values [] = []
  values ((h, x) ∷ xs) = x ∷ values xs

  increment_at :
      (h : ℕ) (n : Node V) (l : LinkedList V) (o : Option ℕ)
      → l.cells h ≡ some n
      → n.next ≡ o
      → increment (reference h) l ≡ some (start o)
  unfolding increment get_next
  increment_at h n l none e f = rw (e, f)
  increment_at h n l (some k) e f = rw (e, f)

  read_all-Seg :
      (fuel : ℕ) (prev : Option ℕ) (ys : List (ℕ × V)) (l : LinkedList V)
      → Seg l.cells prev ys none
      → length ys < fuel
      → read_all fuel (start (first ys none)) l ≡ some (values ys)
  unfolding read_all
  read_all-Seg zero prev ys l s h = absurd (omega arith)
  read_all-Seg (suc fuel) prev [] l s h = refl
  read_all-Seg (suc fuel) prev ((k, x) ∷ ys) l s h =
      let n : Node V = record { val = x; next = first ys none; prev = prev } in
      rw (
        s.0,
        increment_at k n l (first ys none) s.0 refl,
        read_all-Seg fuel (some k) ys l s.1 (omega arith),
      )

  of_values-IsList :
      (xs ys : List (ℕ × V)) (l : LinkedList V)
      → IsList xs l
      → Distinct ys
      → ((i : ℕ) → has i ys ≡ true → l.cells i ≡ none)
      → (l' : LinkedList V) × (of_values ys l ≡ some l') × IsList (xs ++ ys) l'
  unfolding of_values
  of_values-IsList xs [] l v d unused = (l, refl, rw (append-nil xs) v)
  of_values-IsList xs ((new, x) ∷ ys) l v d unused =
      let (l₁, run, e) = (emplace_ends-Emplaced xs new x l v (unused new (ground arith))).1 in
      let out = d.0 in
      let (l₂, rest, w) = of_values-IsList (xs ++ (new, x) ∷ []) ys l₁ e.valid d.1 (λ i m.
        let free : l.cells i ≡ none = unused i (ground arith) in
        e.others i (λ same. (let bad = rw same at m in cc))
          (not_in l.cells none xs none i v.links free)
        ∙ free) in
      (l₂, rw run rest, rw (append_assoc xs ((new, x) ∷ []) ys) at w)

  -- A list that is made from values, each in a node of its own, does not fault, and the iterator
  -- then visits just these values in their order and ends.
  pub read_all-of_values :
      (xs : List (ℕ × V))
      → Distinct xs
      → (l : LinkedList V) × (of_values xs empty ≡ some l)
        × (read_all (l.num_existing + 1) (start l.front) l ≡ some (values xs))
  read_all-of_values xs d =
      let none_yet : IsList [] (empty {V = V}) = record {
        links = tt;
        distinct = tt;
        front_is = refl;
        back_is = refl;
        counted = refl;
      } in
      let (l, run, v) = of_values-IsList [] xs empty none_yet d (λ i m. refl) in
      (
        l,
        run,
        ap (λ o. read_all (l.num_existing + 1) (start o) l) v.front_is
            ∙ read_all-Seg (l.num_existing + 1) none xs l v.links (omega (arith, v.counted)),
      )
