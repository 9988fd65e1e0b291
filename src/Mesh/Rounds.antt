-- ===== src/Mesh/Rounds.antt =====
-- One round of `fast_compute_edge_links`.
use mathlib.Core.HLevel.{⊥_prop}
use mathlib.Core.List.{
  Mem, Nodup, Nodup-cons, map, mem-cons, mem-cons_self, mem-cons_of_mem, mem-map_of_mem, mem-map,
}
use mathlib.Core.List.Perm
use mathlib.Core.Logic.Or
use mathlib.Core.Logic.{∥∥₁_elim}
use mathlib.Core.Path.{subst}
use salgo.Base.{
  ℕ, ◌+◌, ◌*◌, ◌≡◌, refl, ap, sym, ◌∙◌, true, false, some, List, ◌∷◌, ◌⊎◌, inl, inr, arith,
}
use salgo.HashTable.{Key, HashTable, Handle, emplace}
use salgo.HashTable.Emplace.{entries, IsValid, emplace-Added}
use salgo.HashTable.Erase.{Removed}
use salgo.Mesh.{PolyEdge, Links, Matching, is_valid, is_linked, edge_key, reverse}
use salgo.Mesh.EdgeLinks.{TwoWay, Linked, Linked-TwoWay, edge_cases}
use salgo.Mesh.Unlinked.{unlinked, unlinked-congr, no_link}

module _ ⦃key : Key (ℕ × ℕ)⦄ (verts : ℕ → ℕ → ℕ) where
  -- The open edges have no link, are different, are not among the edges that are left and stand under
  -- the keys of their vertices.
  pub record IsMatching (rest : List PolyEdge) (s : Matching) : Type 0 where
    pub valid : IsValid s.open_edges
    pub free :
        (x : (ℕ × ℕ) × PolyEdge) → Mem x (entries s.open_edges) → is_linked s.links x.1 ≡ false
    pub visited : (x : (ℕ × ℕ) × PolyEdge) → Mem x (entries s.open_edges) → ¬ Mem x.1 rest
    pub distinct : Nodup (map (λ (x : (ℕ × ℕ) × PolyEdge). x.1) (entries s.open_edges))
    pub two_way : TwoWay s.links
    pub keyed : (x : (ℕ × ℕ) × PolyEdge) → Mem x (entries s.open_edges) → x.0 ≡ edge_key verts x.1

  -- The open edges, the linked ones and those to come.
  abbrev pub tally : List PolyEdge → Matching → ℕ
  tally rest s = s.open_edges.count + 2 * s.matched + unlinked s.links rest

  -- What some rounds make of the state.
  pub record Matched (before rest : List PolyEdge) (s t : Matching) : Type 0 where
    pub still : IsMatching rest t
    pub same_tally : tally rest t ≡ tally before s
    pub kept : (a b : PolyEdge) → s.links a ≡ some b → t.links a ≡ some b
    pub opposite :
        (a b : PolyEdge)
        → t.links a ≡ some b
        → (s.links a ≡ some b) ⊎ (edge_key verts a ≡ reverse (edge_key verts b))

  -- The next edge is not open.
  not_open :
      (e : PolyEdge) (rest : List PolyEdge) (s : Matching)
      → IsMatching (e ∷ rest) s
      → ¬ Mem e (map (λ (x : (ℕ × ℕ) × PolyEdge). x.1) (entries s.open_edges))
  not_open e rest s o m =
      ∥∥₁_elim (mem-map.0 m) ⊥_prop
        (λ p. o.visited p.0 p.1 (subst (λ y. Mem y (e ∷ rest)) (sym p.2) mem-cons_self))

  pub skip-Matched :
      (e : PolyEdge) (rest : List PolyEdge) (s : Matching)
      → IsMatching (e ∷ rest) s
      → is_linked s.links e ≡ true
      → Matched (e ∷ rest) rest s s
  unfolding unlinked
  skip-Matched e rest s o linked = record {
    still = record {
      valid = o.valid;
      free = o.free;
      visited = λ x m r. o.visited x m (mem-cons_of_mem e r);
      distinct = o.distinct;
      two_way = o.two_way;
      keyed = o.keyed;
    };
    same_tally = rw linked refl;
    kept = λ a b p. p;
    opposite = λ a b p. inl p;
  }

  pub open-Matched :
      (e : PolyEdge) (rest : List PolyEdge) (s : Matching)
      → Nodup (e ∷ rest)
      → IsMatching (e ∷ rest) s
      → is_linked s.links e ≡ false
      → Matched
          (e ∷ rest)
          rest
          s
          (record s { open_edges = (emplace (edge_key verts e) e s.open_edges).1 })
  unfolding unlinked
  open-Matched e rest s d o none_yet =
      let k = edge_key verts e in
      let a = emplace-Added k e s.open_edges o.valid in
      record {
        still = record {
          valid = a.valid;
          free = λ x m.
              Or.elim (hlevel) (mem-cons.0 ((Perm.mem_iff a.added).0 m))
                (λ p. ap (λ y. is_linked s.links y.1) p ∙ none_yet) (o.free x);
          visited = λ x m r.
              Or.elim ⊥_prop (mem-cons.0 ((Perm.mem_iff a.added).0 m))
                (λ p. (Nodup-cons.0 d).0 (subst (λ y. Mem y rest) (ap (λ y. y.1) p) r))
                (λ old. o.visited x old (mem-cons_of_mem e r));
          distinct =
              Perm.nodup (Perm.map (λ (x : (ℕ × ℕ) × PolyEdge). x.1) (Perm.symm a.added))
                (Nodup-cons.1 (not_open e rest s o, o.distinct));
          two_way = o.two_way;
          keyed = λ x m.
              Or.elim (hlevel) (mem-cons.0 ((Perm.mem_iff a.added).0 m))
                (λ p. ap (λ y. y.0) p ∙ ap (λ y. edge_key verts y.1) (sym p)) (o.keyed x);
        };
        same_tally = rw none_yet (omega (arith, a.counted));
        kept = λ a b p. p;
        opposite = λ a b p. inl p;
      }

  was_open :
      (h : Handle) (x : (ℕ × ℕ) × PolyEdge) (s : Matching) (t : HashTable (ℕ × ℕ) PolyEdge)
      → Removed h x s.open_edges t
      → (y : (ℕ × ℕ) × PolyEdge) → Mem y (entries t)
      → Mem y (entries s.open_edges)
  was_open h x s t r y m = (Perm.mem_iff r.removed).0 (mem-cons_of_mem x m)

  pub close-Matched :
      (e : PolyEdge) (x : (ℕ × ℕ) × PolyEdge) (h : Handle) (rest : List PolyEdge) (s : Matching)
      (t : HashTable (ℕ × ℕ) PolyEdge) (after : Links)
      → Nodup (e ∷ rest)
      → IsMatching (e ∷ rest) s
      → is_linked s.links e ≡ false
      → Mem x (entries s.open_edges)
      → Removed h x s.open_edges t
      → Linked e x.1 s.links after
      → x.0 ≡ reverse (edge_key verts e)
      → Matched
          (e ∷ rest)
          rest
          s
          (record { links = after; open_edges = t; matched = s.matched + 1 })
  unfolding unlinked
  close-Matched e x h rest s t after d o none_yet here r l across =
      let x_free = no_link s.links x.1 (o.free x here) in
      let e_free = no_link s.links e none_yet in
      let k : PolyEdge → ℕ × ℕ = edge_key verts in
      let named = o.keyed x here in
      let others = Nodup-cons.0 (
        Perm.nodup (Perm.symm (Perm.map (λ (y : (ℕ × ℕ) × PolyEdge). y.1) r.removed)) o.distinct) in
      record {
        still = record {
          valid = r.valid;
          free = λ y m.
              ap is_valid (
                l.elsewhere y.1
                  (λ p.
                    o.visited y (was_open h x s t r y m)
                      (subst (λ z. Mem z (e ∷ rest)) (sym p) mem-cons_self))
                  (λ p. others.0 (
                    subst (λ z. Mem z (map (λ (y : (ℕ × ℕ) × PolyEdge). y.1) (entries t))) p
                      (mem-map_of_mem (λ (y : (ℕ × ℕ) × PolyEdge). y.1) m))))
              ∙ o.free y (was_open h x s t r y m);
          visited = λ y m z. o.visited y (was_open h x s t r y m) (mem-cons_of_mem e z);
          distinct = others.1;
          two_way = Linked-TwoWay e x.1 s.links after e_free x_free l o.two_way;
          keyed = λ y m. o.keyed y (was_open h x s t r y m);
        };
        same_tally =
            let same : unlinked after rest ≡ unlinked s.links rest =
              unlinked-congr after s.links rest (λ y m.
                l.elsewhere y (λ p. (Nodup-cons.0 d).0 (subst (λ z. Mem z rest) p m))
                  (λ p.
                    o.visited x here (subst (λ z. Mem z (e ∷ rest)) p (mem-cons_of_mem e m)))) in
            rw none_yet (omega (arith, r.counted, same));
        kept = λ a b p.
            l.elsewhere a (λ q. let at_e = ap s.links q in cc) (λ q. let at_x = ap s.links q in cc)
            ∙ p;
        opposite = λ a b p. elim (edge_cases a e) [
          | inl is_e ↦ inr (
              let linked = l.at_this in
              let b_is : x.1 ≡ b = let at_e = ap after is_e in cc in
              ap k is_e ∙ ap reverse (sym across) ∙ ap reverse named ∙ ap (λ z. reverse (k z)) b_is)
          | inr not_e ↦ elim (edge_cases a x.1) [
            | inl is_x ↦ inr (
                let linked = l.at_other in
                let b_is : e ≡ b = let at_x = ap after is_x in cc in
                ap k is_x ∙ sym named ∙ across ∙ ap (λ z. reverse (k z)) b_is)
            | inr not_x ↦ inl (sym (l.elsewhere a not_e not_x) ∙ p)
          ]
        ];
      }
