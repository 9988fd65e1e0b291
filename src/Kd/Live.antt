-- ===== src/Kd/Live.antt =====
-- `emplace` and `erase` with the counter, which counts the entries that are not erased.
use mathlib.Core.List.{
  Perm, Permᴰ, Mem, Nodup, Nodup-cons, Nodup-nil, mem-cons, mem-cons_of_mem, map, mem-map_of_mem,
  not-mem-nil,
}
use mathlib.Core.List.Perm
use mathlib.Core.Logic.{∥∥₁_elim}
use mathlib.Core.Logic.Or
use mathlib.Core.Path.{subst}
use native.Mathlib.Nat.{ℕ_set}
use salgo.Base.{
  ℕ, suc, ◌+◌, ◌≡◌, ◌≢◌, refl, ap, ap₂, sym, ◌∙◌, true, false, List, [], ◌∷◌, if◌then◌else◌, inl,
  inr, ◌==◌, Bool-cases, arith,
}
use salgo.Kd.{Scalar, Box, Entry, Tree, empty, node, Kd, mark, entries, plant, emplace, erase}
use salgo.Kd.Bounds.{
  leaf-IsBounded, IsBounded, bounded_empty, descend-Perm, descend-IsBounded, entries-mark_all,
  mark_all-IsBounded,
}

module _ {ℓ} {B V : Type ℓ} where
  -- How many entries are not erased.
  unfoldable pub live : List (Entry B V) → ℕ
  live [] = 0
  live (e ∷ es) = let rest = live es in if e.erased then rest else suc rest

  live_step :
      (e : Entry B V) (xs ys : List (Entry B V)) → live xs ≡ live ys → live (e ∷ xs) ≡ live (e ∷ ys)
  unfolding live
  live_step e xs ys p = rw p

  live_swap : (x y : Entry B V) (es : List (Entry B V)) → live (x ∷ y ∷ es) ≡ live (y ∷ x ∷ es)
  unfolding live
  live_swap x y es = elim (Bool-cases x.erased) [
    | inl a ↦ elim (Bool-cases y.erased) [ inl b ↦ rw (a, b) | inr b ↦ rw (a, b) ]
    | inr a ↦ elim (Bool-cases y.erased) [ inl b ↦ rw (a, b) | inr b ↦ rw (a, b) ]
  ]

  Permᴰ-live : {xs ys : List (Entry B V)} → Permᴰ xs ys → live xs ≡ live ys
  Permᴰ-live Permᴰ.nil = refl
  Permᴰ-live (Permᴰ.cons {b = y} {l₁ = xs} {l₂ = ys} e p) =
      ap (λ z. live (z ∷ xs)) e ∙ live_step y xs ys (Permᴰ-live p)
  Permᴰ-live (Permᴰ.swap {a = x} {b = y} {l = es} e f) =
      live_swap x y es ∙ ap₂ (λ z w. live (z ∷ w ∷ es)) f e
  Permᴰ-live (Permᴰ.trans p q) = Permᴰ-live p ∙ Permᴰ-live q

  Perm-live : {xs ys : List (Entry B V)} → Perm xs ys → live xs ≡ live ys
  Perm-live p = ∥∥₁_elim p (ℕ_set _ _) Permᴰ-live

  abbrev pub handles : List (Entry B V) → List ℕ
  handles es = map (λ (e : Entry B V). e.handle) es

  mark_other : (h : ℕ) (e : Entry B V) → e.handle ≢ h → mark h e ≡ e
  unfolding mark
  mark_other h e differs = elim (Bool-cases (e.handle == h)) [
    | inl t ↦ absurd (differs (ground arith))
    | inr f ↦ rw f
  ]

  mark_same : (h : ℕ) (e : Entry B V) → e.handle ≡ h → (mark h e).erased ≡ true
  unfolding mark
  mark_same h e same = let t : (e.handle == h) ≡ true = ground arith in rw t

  mark_none : (h : ℕ) (es : List (Entry B V)) → ¬ Mem h (handles es) → map (mark h) es ≡ es
  mark_none h [] no_h = refl
  mark_none h (e ∷ es) no_h =
      ap₂ ◌∷◌ (mark_other h e (λ same. no_h (mem-cons.1 (Or.inl (sym same)))))
        (mark_none h es (λ m. no_h (mem-cons_of_mem e.handle m)))

  mark-handle : (h : ℕ) (e : Entry B V) → (mark h e).handle ≡ e.handle
  unfolding mark
  mark-handle h e = elim (Bool-cases (e.handle == h)) [ inl t ↦ rw t | inr f ↦ rw f ]

  mark-handles : (h : ℕ) (es : List (Entry B V)) → handles (map (mark h) es) ≡ handles es
  mark-handles h [] = refl
  mark-handles h (e ∷ es) = ap₂ ◌∷◌ (mark-handle h e) (mark-handles h es)

  -- A mark on an entry that is not erased takes one from the count.
  mark-live :
      (h : ℕ) (es : List (Entry B V)) (e : Entry B V)
      → Nodup (handles es)
      → Mem e es
      → e.handle ≡ h
      → e.erased ≡ false
      → suc (live (map (mark h) es)) ≡ live es
  unfolding live
  mark-live h [] e d m at_h alive = absurd (not-mem-nil m)
  mark-live h (x ∷ es) e d m at_h alive =
      Or.elim (ℕ_set _ _) (mem-cons.0 m)
        (λ same.
          let x_is : x.handle ≡ h = ap (λ z. z.handle) (sym same) ∙ at_h in
          let x_alive : x.erased ≡ false = ap (λ z. z.erased) (sym same) ∙ alive in
          let others = mark_none h es (subst (λ z. ¬ Mem z (handles es)) x_is (Nodup-cons.0 d).0) in
          rw (mark_same h x x_is, x_alive, others))
        (λ here.
          let differs : x.handle ≢ h = λ same. (Nodup-cons.0 d).0 (
            subst (λ z. Mem z (handles es)) (at_h ∙ sym same)
              (mem-map_of_mem (λ (z : Entry B V). z.handle) here)) in
          let rest = mark-live h es e (Nodup-cons.0 d).1 here at_h alive in
          elim (Bool-cases x.erased) [
            | inl t ↦ rw (mark_other h x differs, t) rest
            | inr f ↦ rw (mark_other h x differs, f) (ap suc rest)
          ])

module _ {ℓ} {S B V : Type ℓ} (dim : ℕ) ⦃scalar : Scalar S⦄ ⦃box : Box S B⦄ where
  -- The bounds of a search hold, no two entries have one handle, and the counter counts the entries
  -- that are not erased.
  pub record IsValid (kd : Kd S B V) : Type ℓ where
    pub bounded : IsBounded dim 0 kd.tree
    pub distinct : Nodup (handles (entries kd.tree))
    pub counted : kd.counter ≡ live (entries kd.tree)

  pub empty-IsValid : IsValid (record { tree = empty; counter = 0 })
  unfolding entries live
  empty-IsValid = record { bounded = bounded_empty; distinct = Nodup-nil; counted = refl }

  planted :
      (e : Entry B V) (l_new r_new : S) (t : Tree S B V)
      → IsBounded dim 0 t
      → IsBounded dim 0 (plant dim e l_new r_new t)
        × Perm (entries (plant dim e l_new r_new t)) (e ∷ entries t)
  unfolding plant entries
  planted e l_new r_new empty bounds = (leaf-IsBounded dim 0 e _ _, Perm.refl (e ∷ []))
  planted e l_new r_new (node n l_to r_fr left right) bounds =
      let t = node n l_to r_fr left right in
      (descend-IsBounded dim 0 e l_new r_new t bounds, descend-Perm dim 0 e l_new r_new t)

  -- `emplace` under a handle that no entry has returns a valid tree with one entry more, whatever
  -- the memory of the new node holds in `l_to` and `r_fr`.
  pub emplace-IsValid :
      (h : ℕ) (b : B) (x : V) (l_new r_new : S) (kd : Kd S B V)
      → IsValid kd
      → ¬ Mem h (handles (entries kd.tree))
      → IsValid (emplace dim h b x l_new r_new kd)
        × Perm
            (entries (emplace dim h b x l_new r_new kd).tree)
            (record { handle = h; aabb = b; kv = x; erased = false } ∷ entries kd.tree)
  unfolding live emplace
  emplace-IsValid h b x l_new r_new kd v fresh =
      let e : Entry B V = record { handle = h; aabb = b; kv = x; erased = false } in
      let (bounds, same) = planted e l_new r_new kd.tree v.bounded in
      (
        record {
          bounded = bounds;
          distinct =
              Perm.nodup (Perm.symm (Perm.map (λ (e : Entry B V). e.handle) same))
                (Nodup-cons.1 (fresh, v.distinct));
          counted = (let more = Perm-live same in omega (arith, v.counted));
        },
        same,
      )

  -- `erase` of an entry that is not erased marks this entry and no other, and the tree is still
  -- valid, with one entry less in the counter.
  pub erase-IsValid :
      (e : Entry B V) (kd : Kd S B V)
      → IsValid kd
      → Mem e (entries kd.tree)
      → e.erased ≡ false
      → IsValid (erase e.handle kd)
        × (entries (erase e.handle kd).tree ≡ map (mark e.handle) (entries kd.tree))
        × ((erase e.handle kd).counter + 1 ≡ kd.counter)
  unfolding erase
  erase-IsValid e kd v m alive =
      let same = entries-mark_all e.handle kd.tree in
      let fewer = mark-live e.handle (entries kd.tree) e v.distinct m refl alive in
      (
        record {
          bounded = mark_all-IsBounded dim e.handle 0 kd.tree v.bounded;
          distinct = rw same (rw (mark-handles e.handle (entries kd.tree)) v.distinct);
          counted = rw same (omega (arith, v.counted));
        },
        same,
        omega (arith, v.counted),
      )
