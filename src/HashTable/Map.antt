-- ===== src/HashTable/Map.antt =====
-- A table whose entries have different keys is a map: `emplace_if_not_found` and `erase_if_found`
-- of include/salgo/_/hash-table.inl in any order, against a function from the keys.
use mathlib.Core.List.{
  Mem, Nodup, Nodup-cons, Nodup-nil, mem-cons, mem-cons_of_mem, mem-map_of_mem, not-mem-nil,
  Mem-prop,
}
use mathlib.Core.List.Perm
use mathlib.Core.Option.{is_set}
use mathlib.Core.Path.{subst}
use mathlib.Core.Logic.Or
use salgo.Base.{
  ◌≡◌, ◌≢◌, ◌↔◌, refl, ap, sym, ◌∙◌, Option, none, some, List, [], ◌∷◌, flatten, inl, inr,
  Bool-cases, Option-cases,
}
use salgo.HashTable.{Key, HashTable, Handle, find, emplace_if_not_found, erase, value_at}
use salgo.HashTable.Emplace.{entries, IsValid, emplace-Added}
use salgo.HashTable.Erase.{Removed, erase-Removed}
use salgo.HashTable.Find.{find-Finds}
use salgo.HashTable.Placed.{IsPlaced-replicate}
use salgo.HashTable.Commands.{
  Command, insert, remove, erase_if_found, serve, insert_in, remove_from, remembered,
  insert_in_present, insert_in_same, insert_in_other, remove_from_other, remove_from_absent,
  remove_from-some,
}
use salgo.HashTable.Represents.{
  keys, Represents, entry-Mem, value_at-Represents, insert_missing, insert_present, absent-none,
  absent-keys,
}

module _ {ℓ} {K V : Type ℓ} ⦃key : Key K⦄ where
  other_keys :
      (h : Handle) (e : K × V) (t t' : HashTable K V)
      → Nodup (keys t)
      → Removed h e t t'
      → (¬ Mem e.0 (keys t')) × Nodup (keys t')
  other_keys h e t t' d r =
      Nodup-cons.0 (Perm.nodup (Perm.symm (Perm.map (λ (y : K × V). y.0) r.removed)) d)

  erase_case :
      (k : K) (t : HashTable K V) {o : Option Handle}
      → find k t ≡ o
      → erase_if_found k t ≡ elim o [ some h ↦ erase h t | none ↦ some t ]
  unfolding erase_if_found
  erase_case k t f =
      ap
        (λ (o : Option Handle). elim o as (λ _. Option (HashTable K V)) [
          | some h ↦ erase h t
          | none ↦ some t
        ])
        f

  erased-agrees :
      (k : K) (h : Handle) (e : K × V) (t t' : HashTable K V) (m : K → Option V)
      → e.0 ≡ k
      → Represents t m
      → Removed h e t t'
      → (y : K × V) → Mem y (entries t') ↔ (remove_from k m y.0 ≡ some y.1)
  erased-agrees k h e t t' m e_is r left y =
      let same = Perm.mem_iff left.removed in
      let others = (other_keys h e t t' r.distinct left).0 in
      (
        λ here.
            let differs : y.0 ≢ k = λ y_is. others (
              subst (λ q. Mem q (keys t')) (y_is ∙ sym e_is)
                (mem-map_of_mem (λ (z : K × V). z.0) here)) in
            remove_from_other k m y.0 differs ∙ (r.agrees y).0 (same.0 (mem-cons_of_mem e here)),
        λ kept.
            let (differs, stored) = remove_from-some k m y.0 y.1 kept in
            Or.elim Mem-prop (mem-cons.0 (same.1 ((r.agrees y).1 stored)))
              (λ is_e. absurd (differs (ap (λ (z : K × V). z.0) is_e ∙ e_is))) (λ here. here),
      )

  remove-Represents :
      (k : K) (t : HashTable K V) (m : K → Option V)
      → Represents t m
      → (t' : HashTable K V) × (erase_if_found k t ≡ some t') × Represents t' (remove_from k m)
  remove-Represents k t m r =
      let found = find-Finds k t r.valid in
      elim (Option-cases (find k t)) [
        | inl f ↦
            let n = absent-none k t m r (rw f at found) in
            (
              t,
              erase_case k t f,
              record {
                valid = r.valid;
                distinct = r.distinct;
                agrees = λ e. rw (remove_from_absent k m n e.0) (r.agrees e);
              },
            )
        | inr (h, f) ↦
            let (e, got, e_is) = rw f at found in
            let (t', run, left) = erase-Removed t h e r.valid got in
            (
              t',
              erase_case k t f ∙ run,
              record {
                valid = left.valid;
                distinct = (other_keys h e t t' r.distinct left).1;
                agrees = erased-agrees k h e t t' m e_is r left;
              },
            )
      ]

  module _ (V_set : IsSet V) where
    insert_new-agrees :
        (k : K) (x : V) (t : HashTable K V) (m : K → Option V)
        → m k ≡ none
        → Represents t m
        → (e : K × V) → Mem e ((k, x) ∷ entries t) ↔ (insert_in k x m e.0 ≡ some e.1)
    insert_new-agrees k x t m n r e = (
      λ here.
          Or.elim (is_set V_set _ _) (mem-cons.0 here)
            (λ same.
              ap (insert_in k x m) (ap (λ (y : K × V). y.0) same)
              ∙ insert_in_same k x m n
              ∙ ap (λ (y : K × V). some y.1) (sym same))
            (λ old. elim (Bool-cases (key.equal e.0 k)) [
              | inl h ↦
                  let stored = (r.agrees e).0 old in
                  let e_is = (key.equal_iff e.0 k).0 h in let m_is = ap m e_is in cc
              | inr h ↦ insert_in_other k x m e.0 h ∙ (r.agrees e).0 old
            ]),
      λ new. elim (Bool-cases (key.equal e.0 k)) [
        | inl h ↦
            let e_is = (key.equal_iff e.0 k).0 h in
            let stored = insert_in_same k x m n in
            let at_k : insert_in k x m k ≡ some e.1 = ap (insert_in k x m) (sym e_is) ∙ new in
            let value : e.1 ≡ x = cc in mem-cons.1 (Or.inl (λ i. (e_is i, value i)))
        | inr h ↦ mem-cons_of_mem (k, x) ((r.agrees e).1 (sym (insert_in_other k x m e.0 h) ∙ new))
      ],
    )

    insert-Represents :
        (k : K) (x : V) (t : HashTable K V) (m : K → Option V)
        → Represents t m
        → Represents (emplace_if_not_found k x t).1 (insert_in k x m)
    insert-Represents k x t m r =
        let found = find-Finds k t r.valid in
        elim (Option-cases (find k t)) [
          | inl f ↦
              let absent = rw f at found in
              let a = emplace-Added k x t r.valid in
              let n = absent-none k t m r absent in
              rw (insert_missing k x t f) (record {
                valid = a.valid;
                distinct =
                    Perm.nodup (Perm.map (λ (e : K × V). e.0) (Perm.symm a.added))
                      (Nodup-cons.1 (absent-keys k t absent, r.distinct));
                agrees = λ e.
                    let new = insert_new-agrees k x t m n r e in
                    let same = Perm.mem_iff a.added in
                    (λ here. new.0 (same.0 here), λ p. same.1 (new.1 p));
              })
          | inr (h, f) ↦
              let (e, got, e_is) = rw f at found in
              let p : m k ≡ some e.1 =
                ap m (sym e_is) ∙ (r.agrees e).0 (entry-Mem t h e r.valid got) in
              rw (insert_present k x t f) (record {
                valid = r.valid;
                distinct = r.distinct;
                agrees = λ e'. rw (insert_in_present k x e.1 m p e'.0) (r.agrees e');
              })
        ]

    serve-Represents :
        (cs : List (Command K V)) (t : HashTable K V) (m : K → Option V)
        → Represents t m
        → (t' : HashTable K V) × (serve cs t ≡ some t') × Represents t' (remembered cs m)
    unfolding serve remembered
    serve-Represents [] t m r = (t, refl, r)
    serve-Represents (insert k x ∷ rest) t m r =
        serve-Represents rest _ (insert_in k x m) (insert-Represents k x t m r)
    serve-Represents (remove k ∷ rest) t m r =
        let (u, run, left) = remove-Represents k t m r in
        let (t', runs, last) = serve-Represents rest u (remove_from k m) left in
        (t', rw (run, runs), last)

  abbrev pub unused : HashTable K V
  unused = record { buckets = []; count = 0 }

  unused-Represents : Represents unused (λ _. none)
  unused-Represents = record {
    valid = record { placed = IsPlaced-replicate 0; counted = unfold flatten in refl };
    distinct = unfold flatten in Nodup-nil;
    agrees = unfold flatten in λ e. (λ m. absurd (not-mem-nil m), λ p. cc);
  }

  -- Any sequence of `emplace_if_not_found` and `erase_if_found` on a new table runs without a
  -- fault. Of the table it leaves, which is valid, `operator[]` reads under each key what a function
  -- from the keys holds after the same commands, and faults at the keys where that holds nothing;
  -- the values are of a type whose equations are propositions.
  pub serve-remembered :
      (V_set : IsSet V) (cs : List (Command K V))
      → (t : HashTable K V) × (serve cs unused ≡ some t)
        × IsValid t
        × ((q : K) → value_at q t ≡ remembered cs (λ _. none) q)
  serve-remembered V_set cs =
      let (t, run, r) = serve-Represents V_set cs unused (λ _. none) unused-Represents in
      (t, run, r.valid, λ q. value_at-Represents q t _ r)
