-- ===== src/HashTable/Represents.antt =====
-- A table that holds the entries of a function.
use mathlib.Core.List.{Mem, Nodup, map, mem-cons_self, mem-map}
use mathlib.Core.List.Perm
use mathlib.Core.HLevel.{⊥_prop}
use mathlib.Core.Logic.{∥∥₁_elim}
use salgo.Base.{◌≡◌, ◌≢◌, ◌↔◌, refl, ap, sym, ◌∙◌, Option, none, some, List, inl, inr, Option-cases}
use salgo.HashTable.{Key, HashTable, Handle, entry, find, emplace, emplace_if_not_found, value_at}
use salgo.HashTable.Emplace.{entries, IsValid}
use salgo.HashTable.Erase.{erase-Removed}
use salgo.HashTable.Find.{find-Finds}

module _ {ℓ} {K V : Type ℓ} ⦃key : Key K⦄ where
  abbrev pub keys : HashTable K V → List K
  keys t = map (λ (e : K × V). e.0) (entries t)

  -- The table holds exactly the entries of `m`, once each.
  pub record Represents (t : HashTable K V) (m : K → Option V) : Type ℓ where
    pub valid : IsValid t
    pub distinct : Nodup (keys t)
    pub agrees : (e : K × V) → Mem e (entries t) ↔ (m e.0 ≡ some e.1)

  pub entry-Mem :
      (t : HashTable K V) (h : Handle) (e : K × V)
      → IsValid t
      → entry t h ≡ some e
      → Mem e (entries t)
  entry-Mem t h e v p =
      let (t', run, r) = erase-Removed t h e v p in (Perm.mem_iff r.removed).0 mem-cons_self

  pub value_at-Represents :
      (q : K) (t : HashTable K V) (m : K → Option V) → Represents t m → value_at q t ≡ m q
  unfolding value_at
  value_at-Represents q t m r =
      let found = find-Finds q t r.valid in
      elim (Option-cases (find q t)) [
        | inl f ↦
            let absent = rw f at found in
            elim (Option-cases (m q)) [
              | inl n ↦ rw (f, n)
              | inr (x, n) ↦ absurd (absent (q, x) ((r.agrees (q, x)).1 n) refl)
            ]
        | inr (h, f) ↦
            let (e, got, e_is) = rw f at found in
            let here = (r.agrees e).0 (entry-Mem t h e r.valid got) in
            rw (f, got) (sym here ∙ ap m e_is)
      ]

  pub insert_missing :
      (k : K) (x : V) (t : HashTable K V)
      → find k t ≡ none
      → emplace_if_not_found k x t ≡ emplace k x t
  unfolding emplace_if_not_found
  insert_missing k x t f =
      ap {B = Handle × HashTable K V}
        (λ (o : Option Handle). elim o as (λ _. Handle × HashTable K V) [
          | some h ↦ (h, t)
          | none ↦ emplace k x t
        ])
        f

  pub insert_present :
      (k : K) (x : V) (t : HashTable K V) {h : Handle}
      → find k t ≡ some h
      → emplace_if_not_found k x t ≡ (h, t)
  unfolding emplace_if_not_found
  insert_present k x t f =
      ap {B = Handle × HashTable K V}
        (λ (o : Option Handle). elim o as (λ _. Handle × HashTable K V) [
          | some h ↦ (h, t)
          | none ↦ emplace k x t
        ])
        f

  pub absent-none :
      (k : K) (t : HashTable K V) (m : K → Option V)
      → Represents t m
      → ((e : K × V) → Mem e (entries t) → e.0 ≢ k)
      → m k ≡ none
  absent-none k t m r absent = elim (Option-cases (m k)) [
    | inl n ↦ n
    | inr (x, n) ↦ absurd (absent (k, x) ((r.agrees (k, x)).1 n) refl)
  ]

  pub absent-keys :
      (k : K) (t : HashTable K V) → ((e : K × V) → Mem e (entries t) → e.0 ≢ k) → ¬ Mem k (keys t)
  absent-keys k t absent here = ∥∥₁_elim (mem-map.0 here) ⊥_prop (λ p. absent p.0 p.1 p.2)
