-- ===== src/LinkedList/Ends.antt =====
-- Inserting at the ends of a list.
use mathlib.Core.List.{append_assoc}
use mathlib.Core.Path.{subst}
use salgo.Base.{ℕ, ◌≡◌, refl, sym, ◌∙◌, none, some, List, [], ◌∷◌, ◌++◌, arith}
use salgo.LinkedList.{
  LinkedList, emplace_before, emplace_after, emplace_into_empty, emplace_front, emplace_back,
}
use salgo.LinkedList.Erase.{IsList}
use salgo.LinkedList.Segment.{first}
use salgo.UnorderedArray.Erase.{snoc}
use salgo.LinkedList.Emplace.{
  Emplaced, store_self, store_other, final_none, emplace_before-Emplaced, emplace_after-Emplaced,
}

module _ {ℓ} {V : Type ℓ} where
  into_empty-Emplaced :
      (new : ℕ) (x : V) (l : LinkedList V)
      → IsList [] l
      → Emplaced [] ((new, x) ∷ []) new l (emplace_into_empty x new l)
  unfolding emplace_into_empty
  into_empty-Emplaced new x l p = record {
    valid = record {
      links = (store_self l.cells new (record { val = x; next = none; prev = none }), tt);
      distinct = (refl, tt);
      front_is = refl;
      back_is = refl;
      counted = omega (arith, p.counted);
    };
    others =
        λ i ne out. store_other l.cells new i (record { val = x; next = none; prev = none }) ne;
  }

  emplace_front_step :
      (x : V) (new h : ℕ) (l : LinkedList V)
      → l.front ≡ some h
      → emplace_front x new l ≡ emplace_before x new h l
  unfolding emplace_front
  emplace_front_step x new h l e = rw e

  emplace_back_step :
      (x : V) (new h k : ℕ) (l : LinkedList V)
      → l.front ≡ some h
      → l.back ≡ some k
      → emplace_back x new l ≡ emplace_after x new k l
  unfolding emplace_back
  emplace_back_step x new h k l e f = rw (e, f)

  first_lem :
      (ys : List (ℕ × V)) (k : ℕ) (w : V) → (h : ℕ) × (first (ys ++ (k, w) ∷ []) none ≡ some h)
  first_lem [] k w = (k, refl)
  first_lem ((h, v) ∷ ys) k w = (h, refl)

  back-Emplaced :
      (ys : List (ℕ × V)) (k new : ℕ) (w x : V) (l : LinkedList V)
      → IsList (ys ++ (k, w) ∷ []) l
      → l.cells new ≡ none
      → (l' : LinkedList V) × (emplace_back x new l ≡ some l')
        × Emplaced (ys ++ (k, w) ∷ []) ((ys ++ (k, w) ∷ []) ++ (new, x) ∷ []) new l l'
  back-Emplaced ys k new w x l p unused =
      let (l', run, q) = emplace_after-Emplaced ys [] k new w x l p unused in
      let (h, e) = first_lem ys k w in
      (
        l',
        emplace_back_step x new h k l (p.front_is ∙ e) (p.back_is ∙ final_none none ys k w) ∙ run,
        rw (append_assoc ys ((k, w) ∷ []) ((new, x) ∷ [])) q,
      )

  -- `emplace_front` and `emplace_back`, at a handle that names no node, do not fault, also on an
  -- empty list; they put the new value before, respectively after, all values of the list, and
  -- change no node outside the list.
  pub emplace_ends-Emplaced :
      (xs : List (ℕ × V)) (new : ℕ) (x : V) (l : LinkedList V)
      → IsList xs l
      → l.cells new ≡ none
      → ((l' : LinkedList V) × (emplace_front x new l ≡ some l')
          × Emplaced xs ((new, x) ∷ xs) new l l')
        × ((l' : LinkedList V) × (emplace_back x new l ≡ some l')
            × Emplaced xs (xs ++ (new, x) ∷ []) new l l')
  emplace_ends-Emplaced [] new x l p unused =
      let made = into_empty-Emplaced new x l p in
      (
        (emplace_into_empty x new l, (unfold emplace_front in rw p.front_is), made),
        (emplace_into_empty x new l, (unfold emplace_back in rw p.front_is), made),
      )
  emplace_ends-Emplaced ((h, v) ∷ xs) new x l p unused =
      let (l₁, run₁, q₁) = emplace_before-Emplaced [] xs h new v x l p unused in
      let ((k, w), ys, e) = snoc ((h, v) ∷ xs) (omega arith) in
      (
        (l₁, emplace_front_step x new h l p.front_is ∙ run₁, q₁),
        subst
            (λ t.
              (l' : LinkedList V) × (emplace_back x new l ≡ some l')
              × Emplaced t (t ++ (new, x) ∷ []) new l l')
            (sym e) (back-Emplaced ys k new w x l (subst (λ t. IsList t l) e p) unused),
      )
