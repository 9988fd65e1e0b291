-- ===== src/LinkedList/Emplace.antt =====
-- Inserting a node into a list.
use mathlib.Core.List.{append_assoc}
use salgo.Base.{
  ℕ, ◌+◌, ◌≡◌, ◌≢◌, refl, sym, ◌∙◌, true, false, Option, none, some, List, [], ◌∷◌, ◌++◌, ◌==◌,
  length-append, inl, inr, Bool-cases, if◌then◌else◌, arith,
}
use salgo.LinkedList.{
  Node, Cells, LinkedList, is_handle, store, set_next, set_prev, emplace_before, emplace_after,
}
use salgo.LinkedList.Erase.{IsList}
use salgo.LinkedList.Segment.{
  first, final, has, Distinct, Apart, Seg, Distinct-append, Distinct-split, Apart-has,
  Apart-has_first, Apart-cons, frame, first-append, final-append, Seg-append, Seg-split,
  set_next-Seg, set_prev-Seg, has-append, not_in,
}

module _ {ℓ} {V : Type ℓ} where
  pub store_self : (cells : Cells V) (h : ℕ) (n : Node V) → store cells h (some n) h ≡ some n
  unfolding store
  store_self cells h n = ground arith

  store_spares :
      (cells : Cells V) (h i : ℕ) (n : Node V) (xs : List (ℕ × V))
      → has i xs ≡ true
      → has h xs ≡ false
      → store cells h (some n) i ≡ cells i
  unfolding store
  store_spares cells h i n xs e out = elim (Bool-cases (i == h)) [
    | inl t ↦ let same : i ≡ h = ground arith in let bad = rw same at e in cc
    | inr f ↦ rw f
  ]

  pub store_other :
      (cells : Cells V) (h i : ℕ) (n : Node V) → i ≢ h → store cells h (some n) i ≡ cells i
  unfolding store
  store_other cells h i n ne = ground arith

  -- A gap between `xs` and `ys`, and a handle that names no node.
  module _ (cells : Cells V) (xs ys : List (ℕ × V)) (new : ℕ) (x : V)
      (sx : Seg cells none xs (first ys none)) (sy : Seg cells (final none xs) ys none)
      (dx : Distinct xs) (dy : Distinct ys) (apart : Apart xs ys) (unused : cells new ≡ none) where
    fresh : Node V
    fresh = record { val = x; next = first ys none; prev = final none xs }

    abbrev added : Cells V
    added = store cells new (some fresh)

    new_xs : has new xs ≡ false
    new_xs = not_in cells none xs (first ys none) new sx unused

    new_ys : has new ys ≡ false
    new_ys = not_in cells (final none xs) ys none new sy unused

    sx_added : Seg added none xs (first ys none)
    sx_added =
        frame cells added none xs (first ys none) sx
          (λ i e. store_spares cells new i fresh xs e new_xs)

    sy_added : Seg added (final none xs) ys none
    sy_added =
        frame cells added (final none xs) ys none sy
          (λ i e. store_spares cells new i fresh ys e new_ys)

    pub Distinct-insert : Distinct (xs ++ (new, x) ∷ ys)
    Distinct-insert =
        Distinct-append xs ((new, x) ∷ ys) dx (new_ys, dy) (Apart-cons xs ys new x new_xs apart)

    -- The links are set after the gap and then before it, as `emplace_after` does.
    insert_after :
        (c₁ c₂ : Cells V) × (set_prev (first ys none) (some new) added ≡ some c₁)
        × (set_next (final none xs) (some new) c₁ ≡ some c₂)
        × Seg c₂ none (xs ++ (new, x) ∷ ys) none
        × ((i : ℕ) → i ≢ new → has i xs ≡ false → has i ys ≡ false → c₂ i ≡ cells i)
    unfolding fresh
    insert_after =
        let (c₁, run₁, s₂, same₁) = set_prev-Seg added (final none xs) (some new) ys sy_added dy in
        let sx₁ =
          frame added c₁ none xs (first ys none) sx_added
            (λ i e. same₁ i (Apart-has_first xs ys i apart e)) in
        let (c₂, run₂, s₁, same₂) = set_next-Seg c₁ xs (first ys none) (some new) sx₁ dx in
        let at : c₂ new ≡ some fresh =
          same₂ new new_xs ∙ same₁ new new_ys ∙ store_self cells new fresh in
        let sy₂ = frame c₁ c₂ (some new) ys none s₂ (λ i e. same₂ i (Apart-has xs ys i apart e)) in
        (
          c₁,
          c₂,
          run₁,
          run₂,
          Seg-append c₂ none xs ((new, x) ∷ ys) none s₁ (at, sy₂),
          λ i ne ox oy. same₂ i ox ∙ same₁ i oy ∙ store_other cells new i fresh ne,
        )

    -- The links are set before the gap and then after it, as `emplace_before` does.
    insert_before :
        (c₁ c₂ : Cells V) × (set_next (final none xs) (some new) added ≡ some c₁)
        × (set_prev (first ys none) (some new) c₁ ≡ some c₂)
        × Seg c₂ none (xs ++ (new, x) ∷ ys) none
        × ((i : ℕ) → i ≢ new → has i xs ≡ false → has i ys ≡ false → c₂ i ≡ cells i)
    unfolding fresh
    insert_before =
        let (c₁, run₁, s₁, same₁) = set_next-Seg added xs (first ys none) (some new) sx_added dx in
        let sy₁ =
          frame added c₁ (final none xs) ys none sy_added
            (λ i e. same₁ i (Apart-has xs ys i apart e)) in
        let (c₂, run₂, s₂, same₂) = set_prev-Seg c₁ (final none xs) (some new) ys sy₁ dy in
        let at : c₂ new ≡ some fresh =
          same₂ new new_ys ∙ same₁ new new_xs ∙ store_self cells new fresh in
        let sx₂ =
          frame c₁ c₂ none xs (some new) s₁ (λ i e. same₂ i (Apart-has_first xs ys i apart e)) in
        (
          c₁,
          c₂,
          run₁,
          run₂,
          Seg-append c₂ none xs ((new, x) ∷ ys) none sx₂ (at, s₂),
          λ i ne ox oy. same₂ i oy ∙ same₁ i ox ∙ store_other cells new i fresh ne,
        )

  front_before :
      (xs ys : List (ℕ × V)) (h new : ℕ) (v x : V)
      → has h xs ≡ false
      → (if is_handle (first (xs ++ (h, v) ∷ ys) none) h
          then some new
          else first (xs ++ (h, v) ∷ ys) none)
        ≡ first (xs ++ (new, x) ∷ (h, v) ∷ ys) none
  front_before [] ys h new v x e = ground arith
  front_before ((k, y) ∷ xs) ys h new v x e = ground arith

  pub final_none :
      (prev : Option ℕ) (xs : List (ℕ × V)) (k : ℕ) (y : V)
      → final prev (xs ++ (k, y) ∷ []) ≡ some k
  final_none prev [] k y = refl
  final_none prev ((h, x) ∷ xs) k y = final_none (some h) xs k y

  -- The last node of a segment is not a node that stands outside of it.
  final_not :
      (h k : ℕ) (y : V) (ys : List (ℕ × V))
      → has h ((k, y) ∷ ys) ≡ false
      → is_handle (final (some k) ys) h ≡ false
  final_not h k y [] e = ground arith
  final_not h k y ((j, z) ∷ ys) e = final_not h j z ys (ground arith)

  back_after :
      (ys : List (ℕ × V)) (h new : ℕ)
      → has h ys ≡ false
      → (if is_handle (final (some h) ys) h then some new else final (some h) ys)
        ≡ final (some new) ys
  back_after [] h new e = ground arith
  back_after ((k, y) ∷ ys) h new e = rw (final_not h k y ys e)

  -- `l'` holds the list `zs` where `l` held `xs`; besides the nodes of `xs` only `new` may differ.
  pub record Emplaced (xs zs : List (ℕ × V)) (new : ℕ) (l l' : LinkedList V) : Type ℓ where
    pub valid : IsList zs l'
    pub others : (i : ℕ) → i ≢ new → has i xs ≡ false → l'.cells i ≡ l.cells i

  -- Inserting before a node of a list, at a handle that names no node, does not fault; the list then
  -- holds the new value just before the node and all else as it was, and no node outside the list
  -- changes.
  pub emplace_before-Emplaced :
      (xs ys : List (ℕ × V)) (h new : ℕ) (v x : V) (l : LinkedList V)
      → IsList (xs ++ (h, v) ∷ ys) l
      → l.cells new ≡ none
      → (l' : LinkedList V) × (emplace_before x new h l ≡ some l')
        × Emplaced (xs ++ (h, v) ∷ ys) (xs ++ (new, x) ∷ (h, v) ∷ ys) new l l'
  unfolding emplace_before fresh
  emplace_before-Emplaced xs ys h new v x l p unused =
      let (dx, dy, apart) = Distinct-split xs ((h, v) ∷ ys) p.distinct in
      let (sx, sy) = Seg-split l.cells none xs ((h, v) ∷ ys) none p.links in
      let h_xs = Apart-has xs ((h, v) ∷ ys) h apart (ground arith) in
      let (c₁, c₂, run₁, run₂, links, spared) =
        insert_before l.cells xs ((h, v) ∷ ys) new x sx sy dx dy apart unused in
      (
        record {
          cells = c₂;
          front = first (xs ++ (new, x) ∷ (h, v) ∷ ys) none;
          back = l.back;
          num_existing = l.num_existing + 1;
        },
        rw (sy.0, run₁, run₂, p.front_is, front_before xs ys h new v x h_xs),
        record {
          valid = record {
            links = links;
            distinct = Distinct-insert l.cells xs ((h, v) ∷ ys) new x sx sy dx dy apart unused;
            front_is = refl;
            back_is =
                p.back_is
                ∙ final-append none xs ((h, v) ∷ ys)
                ∙ sym (final-append none xs ((new, x) ∷ (h, v) ∷ ys));
            counted = omega (
              arith,
              p.counted,
              length-append xs ((h, v) ∷ ys),
              length-append xs ((new, x) ∷ (h, v) ∷ ys),
            );
          };
          others = λ i ne out.
              spared i ne (ground (arith, has-append i xs ((h, v) ∷ ys)))
                (ground (arith, has-append i xs ((h, v) ∷ ys)));
        },
      )

  -- Inserting after a node of a list, at a handle that names no node, does not fault; the list then
  -- holds the new value just after the node and all else as it was, and no node outside the list
  -- changes.
  pub emplace_after-Emplaced :
      (xs ys : List (ℕ × V)) (h new : ℕ) (v x : V) (l : LinkedList V)
      → IsList (xs ++ (h, v) ∷ ys) l
      → l.cells new ≡ none
      → (l' : LinkedList V) × (emplace_after x new h l ≡ some l')
        × Emplaced (xs ++ (h, v) ∷ ys) (xs ++ (h, v) ∷ (new, x) ∷ ys) new l l'
  unfolding emplace_after fresh
  emplace_after-Emplaced xs ys h new v x l p unused =
      let left = xs ++ (h, v) ∷ [] in
      let regroup : left ++ ys ≡ xs ++ (h, v) ∷ ys = append_assoc xs ((h, v) ∷ []) ys in
      let regroup' : left ++ (new, x) ∷ ys ≡ xs ++ (h, v) ∷ (new, x) ∷ ys =
        append_assoc xs ((h, v) ∷ []) ((new, x) ∷ ys) in
      let end : final none left ≡ some h = final_none none xs h v in
      let (dx, dy, apart) = Distinct-split left ys (rw regroup p.distinct) in
      let (sx, sy) = Seg-split l.cells none left ys none (rw regroup p.links) in
      let (ex, ey, apart') = Distinct-split xs ((h, v) ∷ ys) p.distinct in
      let at = (Seg-split l.cells none xs ((h, v) ∷ ys) none p.links).1 in
      let (c₁, c₂, run₁, run₂, links, spared) =
        insert_after l.cells left ys new x sx sy dx dy apart unused in
      let size = length-append xs ((h, v) ∷ ys) in
      let size' = length-append xs ((h, v) ∷ (new, x) ∷ ys) in
      (
        record {
          cells = c₂;
          front = l.front;
          back = final (some new) ys;
          num_existing = l.num_existing + 1;
        },
        rw (
          at.0,
          rw end at run₁,
          rw end at run₂,
          p.back_is,
          final-append none xs ((h, v) ∷ ys),
          back_after ys h new ey.0,
        ),
        record {
          valid = record {
            links = rw regroup' at links;
            distinct =
                rw regroup' at (Distinct-insert l.cells left ys new x sx sy dx dy apart unused);
            front_is =
                p.front_is
                ∙ first-append xs ((h, v) ∷ ys) none
                ∙ sym (first-append xs ((h, v) ∷ (new, x) ∷ ys) none);
            back_is = sym (final-append none xs ((h, v) ∷ (new, x) ∷ ys));
            counted = omega (arith, p.counted, size, size');
          };
          others = λ i ne out.
              spared i ne
                (ground (arith, has-append i xs ((h, v) ∷ ys), has-append i xs ((h, v) ∷ [])))
                (ground (arith, has-append i xs ((h, v) ∷ ys)));
        },
      )
