-- ===== src/Mesh/Unlinked.antt =====
-- The edges of a mesh, and those of them that have no link.
use mathlib.Core.HLevel.{⊥_prop}
use mathlib.Core.List.{
  Mem, Nodup, Nodup-cons, Nodup-nil, mem-cons, mem-cons_self, mem-cons_of_mem, not-mem-nil,
  Mem-prop,
}
use mathlib.Core.Logic.Or
use salgo.Base.{
  ℕ, suc, ◌≡◌, ◌≢◌, refl, ap, false, none, List, [], ◌∷◌, if◌then◌else◌, inl, inr, Option-cases,
  arith,
}
use salgo.Mesh.{PolyEdge, Links, is_linked, edges}

-- How many of the edges have no link.
unfoldable pub unlinked : Links → List PolyEdge → ℕ
unlinked links [] = 0
unlinked links (e ∷ es) =
    let rest = unlinked links es in if is_linked links e then rest else suc rest

pub unlinked-congr :
    (a b : Links) (es : List PolyEdge)
    → ((x : PolyEdge) → Mem x es → a x ≡ b x)
    → unlinked a es ≡ unlinked b es
unfolding unlinked
unlinked-congr a b [] same = refl
unlinked-congr a b (e ∷ es) same =
    rw (same e mem-cons_self, unlinked-congr a b es (λ x m. same x (mem-cons_of_mem e m)))

pub no_link : (links : Links) (e : PolyEdge) → is_linked links e ≡ false → links e ≡ none
no_link links e h = elim (Option-cases (links e)) [
  | inl n ↦ n
  | inr (o, p) ↦ let bad = rw p at h in cc
]

edges-Mem : (ps : List ℕ) (e : PolyEdge) → Mem e (edges ps) → Mem e.0 ps
unfolding edges
edges-Mem [] e m = absurd (not-mem-nil m)
edges-Mem (p ∷ ps) e m =
    let first : (i : ℕ) → Path PolyEdge e (p, i) → Mem e.0 (p ∷ ps) =
      λ i q. mem-cons.1 (Or.inl (ap (λ z. z.0) q)) in
    Or.elim Mem-prop (mem-cons.0 m) (first 0) (λ m₁.
      Or.elim Mem-prop (mem-cons.0 m₁) (first 1) (λ m₂.
        Or.elim Mem-prop (mem-cons.0 m₂) (first 2) (λ m₃. mem-cons_of_mem p (edges-Mem ps e m₃))))

-- A handle that is met once has edges that are met once.
pub edges-Nodup : (ps : List ℕ) → Nodup ps → Nodup (edges ps)
unfolding edges
edges-Nodup [] d = Nodup-nil
edges-Nodup (p ∷ ps) d =
    let absent : (i : ℕ) → ¬ Mem (p, i) (edges ps) =
      λ i m. (Nodup-cons.0 d).0 (edges-Mem ps (p, i) m) in
    let differ : (i j : ℕ) → i ≢ j → Path PolyEdge (p, i) (p, j) → ⊥ =
      λ i j n q. n (ap (λ z. z.1) q) in
    Nodup-cons.1 (
      λ m.
          Or.elim ⊥_prop (mem-cons.0 m) (differ 0 1 (λ q. omega arith))
            (λ m₁. Or.elim ⊥_prop (mem-cons.0 m₁) (differ 0 2 (λ q. omega arith)) (absent 0)),
      Nodup-cons.1 (
        λ m. Or.elim ⊥_prop (mem-cons.0 m) (differ 1 2 (λ q. omega arith)) (absent 1),
        Nodup-cons.1 (absent 2, edges-Nodup ps (Nodup-cons.0 d).1),
      ),
    )
