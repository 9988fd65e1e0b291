-- ===== src/Mesh/Full/Index.antt =====
-- The links from the vertices to the corners of triangles.
use mathlib.Core.HLevel.{⊥_prop}
use mathlib.Core.List.{
  Mem, Nodup, Nodup-cons, map, mem-cons, mem-cons_of_mem, mem-map, mem-map_of_mem, Mem-prop,
}
use mathlib.Core.List.Perm
use mathlib.Core.Logic.Or
use mathlib.Core.Logic.{∥∥₁_elim}
use mathlib.Core.Option.{is_set}
use mathlib.Core.Path.{subst}
use native.Mathlib.Nat.{ℕ_set}
use salgo.Base.{
  ℕ, ◌≡◌, ◌≢◌, ◌↔◌, refl, ap, sym, ◌∙◌, Option, none, some, if◌then◌else◌, inl, inr, Option-cases,
}
use salgo.HashTable.{Key, Handle, find, emplace, erase}
use salgo.HashTable.Emplace.{entries, IsValid, emplace-Added}
use salgo.HashTable.Erase.{erase-Removed}
use salgo.HashTable.Find.{find-Finds}
use salgo.Mesh.{same_edge}
use salgo.Mesh.EdgeLinks.{same_edge_refl, same_edge_no, edge_cases}
use salgo.Mesh.Full.{PolyVert, VertPolyLinks, Vert}

-- `at` with `o` under `pv`.
unfoldable pub assign : PolyVert → Option ℕ → (PolyVert → Option ℕ) → PolyVert → Option ℕ
assign pv o at x = if same_edge x pv then o else at x

pub assign_self : (pv : PolyVert) (o : Option ℕ) (at : PolyVert → Option ℕ) → assign pv o at pv ≡ o
unfolding assign
assign_self pv o at = rw (same_edge_refl pv)

pub assign_other :
    (pv : PolyVert) (o : Option ℕ) (at : PolyVert → Option ℕ) (x : PolyVert)
    → x ≢ pv
    → assign pv o at x ≡ at x
unfolding assign
assign_other pv o at x differ = rw (same_edge_no x pv differ)

module _ ⦃key : Key PolyVert⦄ where
  -- The table has the corners at which `at` has `v`, each once.
  pub record Holds (t : VertPolyLinks) (at : PolyVert → Option ℕ) (v : ℕ) : Type 0 where
    pub table : IsValid t
    pub once : Nodup (map (λ (e : PolyVert × Unit {0}). e.0) (entries t))
    pub exact : (pv : PolyVert) → Mem (pv, tt) (entries t) ↔ (at pv ≡ some v)

  same_some : (o : Option ℕ) (v w : ℕ) → o ≡ some v → o ≡ some w → v ≡ w
  same_some o v w p q = cc

  Holds-congr :
      (t : VertPolyLinks) (at at' : PolyVert → Option ℕ) (v : ℕ)
      → ((pv : PolyVert) → (at pv ≡ some v) ↔ (at' pv ≡ some v))
      → Holds t at v
      → Holds t at' v
  Holds-congr t at at' v same h = record {
    table = h.table;
    once = h.once;
    exact = λ pv. (λ m. (same pv).0 ((h.exact pv).0 m), λ p. (h.exact pv).1 ((same pv).1 p));
  }

  -- A corner that is not listed under any vertex is listed under `v`.
  pub emplace-Holds :
      (t : VertPolyLinks) (at : PolyVert → Option ℕ) (v : ℕ) (pv : PolyVert)
      → Holds t at v
      → at pv ≡ none
      → Holds (emplace pv tt t).1 (assign pv (some v) at) v
  emplace-Holds t at v pv h free =
      let a = emplace-Added pv tt t h.table in
      record {
        table = a.valid;
        once = Perm.nodup (Perm.map (λ (e : PolyVert × Unit {0}). e.0) (Perm.symm a.added)) (
            Nodup-cons.1 (
              λ m.
                  ∥∥₁_elim (mem-map.0 m) ⊥_prop
                    (λ e. let there = (h.exact e.0.0).0 e.1 in let here = ap at e.2 in absurd (cc)),
              h.once,
            ));
        exact = λ x. (
          λ m.
              Or.elim (is_set ℕ_set _ _) (mem-cons.0 ((Perm.mem_iff a.added).0 m))
                (λ p.
                  ap (assign pv (some v) at) (ap (λ (e : PolyVert × Unit {0}). e.0) p)
                  ∙ assign_self pv (some v) at)
                (λ old. elim (edge_cases x pv) [
                  | inl same ↦ ap (assign pv (some v) at) same ∙ assign_self pv (some v) at
                  | inr differ ↦ assign_other pv (some v) at x differ ∙ (h.exact x).0 old
                ]),
          λ p. (Perm.mem_iff a.added).1 (elim (edge_cases x pv) [
            | inl same ↦ mem-cons.1 (Or.inl (λ i. (same i, tt)))
            | inr differ ↦
                mem-cons_of_mem (pv, tt)
                  ((h.exact x).1 (sym (assign_other pv (some v) at x differ) ∙ p))
          ]),
        );
      }

  -- A corner that is listed under `v` is found and erased.
  pub drop-Holds :
      (t : VertPolyLinks) (at : PolyVert → Option ℕ) (v : ℕ) (pv : PolyVert)
      → Holds t at v
      → at pv ≡ some v
      → (h : Handle) × (t' : VertPolyLinks) × (find pv t ≡ some h)
        × (erase h t ≡ some t')
        × Holds t' (assign pv none at) v
  drop-Holds t at v pv h here =
      let found = find-Finds pv t h.table in
      elim (Option-cases (find pv t)) [
        | inl f ↦ let absent = rw f at found in absurd (absent (pv, tt) ((h.exact pv).1 here) refl)
        | inr (b, f) ↦
            let (e, got, e_is) = rw f at found in
            let (t', run, r) = erase-Removed t b e h.table got in
            let others = Nodup-cons.0 (
              Perm.nodup (Perm.symm (Perm.map (λ (y : PolyVert × Unit {0}). y.0) r.removed))
                h.once) in
            let differ : (x : PolyVert) → Mem (x, tt) (entries t') → x ≢ pv = λ x m same. others.0 (
              subst (λ z. Mem z (map (λ (y : PolyVert × Unit {0}). y.0) (entries t')))
                (same ∙ sym e_is) (mem-map_of_mem (λ (y : PolyVert × Unit {0}). y.0) m)) in
            (
              b,
              t',
              f,
              run,
              record {
                table = r.valid;
                once = others.1;
                exact = λ x. (
                  λ m.
                      assign_other pv none at x (differ x m)
                      ∙ (h.exact x).0 ((Perm.mem_iff r.removed).0 (mem-cons_of_mem e m)),
                  λ p. elim (edge_cases x pv) [
                    | inl same ↦
                        let gone = ap (assign pv none at) same ∙ assign_self pv none at in
                        absurd (cc)
                    | inr other ↦
                        Or.elim Mem-prop
                          (mem-cons.0 (
                            (Perm.mem_iff r.removed).1
                              ((h.exact x).1 (sym (assign_other pv none at x other) ∙ p))))
                          (λ is_e.
                            absurd (other (ap (λ (y : PolyVert × Unit {0}). y.0) is_e ∙ e_is)))
                          (λ m. m)
                  ],
                );
              },
            )
      ]

  -- A change at a corner under another vertex.
  pub other-Holds :
      (t : VertPolyLinks) (at : PolyVert → Option ℕ) (v : ℕ) (pv : PolyVert) (o : Option ℕ)
      → Holds t at v
      → at pv ≢ some v
      → o ≢ some v
      → Holds t (assign pv o at) v
  other-Holds t at v pv o h before after =
      Holds-congr t at (assign pv o at) v
        (λ x. elim (edge_cases x pv) [
          | inl same ↦ (
            λ p. absurd (before (sym (ap at same) ∙ p)),
            λ p. absurd (after (sym (ap (assign pv o at) same ∙ assign_self pv o at) ∙ p)),
          )
          | inr differ ↦
              (λ p. assign_other pv o at x differ ∙ p, λ p. sym (assign_other pv o at x differ) ∙ p)
        ])
        h

  -- Each vertex lists the corners at which `at` has it, and `at` has no other vertices.
  pub record Indexed {V : Type 0} (vs : ℕ → Option (Vert V)) (at : PolyVert → Option ℕ)
      : Type 0 where
    pub lists : (v : ℕ) (x : Vert V) → vs v ≡ some x → Holds x.poly_links at v
    pub known : (pv : PolyVert) (v : ℕ) → at pv ≡ some v → (x : Vert V) × (vs v ≡ some x)

  pub Indexed-congr :
      {V : Type 0} (vs : ℕ → Option (Vert V)) (at at' : PolyVert → Option ℕ)
      → ((pv : PolyVert) → at pv ≡ at' pv)
      → Indexed vs at
      → Indexed vs at'
  Indexed-congr vs at at' same d = record {
    lists = λ v x p.
        Holds-congr x.poly_links at at' v (λ pv. (λ q. sym (same pv) ∙ q, λ q. same pv ∙ q))
          (d.lists v x p);
    known = λ pv v p. d.known pv v (same pv ∙ p);
  }
