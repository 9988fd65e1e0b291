-- ===== src/UnionFind/Paths.antt =====
-- Where the parent links lead.
use mathlib.Core.Option
use salgo.Base.{
  ℕ, zero, suc, ◌+◌, ◌≤◌, ◌<◌, ◌≡◌, refl, ◌≢◌, ap, Option, none, some, List, [], ◌∷◌, ◌==◌,
  if◌then◌else◌, length, arith,
}
use mathlib.Core.Path.{subst}
use salgo.UnionFind.{Node, parent_at, set_parent}

module _ {ℓ} {D : Type ℓ} where
  -- From `i` the links lead to the root `r`.
  pub data Leads (nodes : List (Node D)) (r : ℕ) : ℕ → Type ℓ where
    here : parent_at nodes r ≡ some none → Leads nodes r r
    step : {i p : ℕ} → parent_at nodes i ≡ some (some p) → Leads nodes r p → Leads nodes r i

  -- How many nodes have a parent.
  unfoldable pub children : List (Node D) → ℕ
  children [] = 0
  children (n ∷ ns) = (elim n.parent [ none ↦ 0 | some p ↦ 1 ]) + children ns

  -- Every link leads to a node of a larger rank, and no rank exceeds the number of links.
  pub record IsRanked (nodes : List (Node D)) (rank : ℕ → ℕ) : Type ℓ where
    pub up : (i p : ℕ) → parent_at nodes i ≡ some (some p) → (p < length nodes) × (rank i < rank p)
    pub bound : (i : ℕ) → rank i ≤ children nodes

  pub parent_at-set_parent :
      (nodes : List (Node D)) (h q j : ℕ)
      → parent_at (set_parent nodes h q) j
        ≡ (if h == j then Option.map (λ _. some q) (parent_at nodes j) else parent_at nodes j)
  unfolding parent_at set_parent
  parent_at-set_parent [] h q j = ground arith
  parent_at-set_parent (n ∷ ns) zero q zero = refl
  parent_at-set_parent (n ∷ ns) zero q (suc j) = ground arith
  parent_at-set_parent (n ∷ ns) (suc h) q zero = ground arith
  parent_at-set_parent (n ∷ ns) (suc h) q (suc j) = ground (arith, parent_at-set_parent ns h q j)

  pub length-set_parent :
      (nodes : List (Node D)) (h q : ℕ) → length (set_parent nodes h q) ≡ length nodes
  unfolding set_parent
  length-set_parent [] h q = refl
  length-set_parent (n ∷ ns) zero q = refl
  length-set_parent (n ∷ ns) (suc h) q = ap suc (length-set_parent ns h q)

  pub children-set_parent :
      (nodes : List (Node D)) (h q p : ℕ)
      → parent_at nodes h ≡ some (some p)
      → children (set_parent nodes h q) ≡ children nodes
  unfolding set_parent parent_at children
  children-set_parent [] h q p e = ground arith
  children-set_parent (n ∷ ns) zero q p e = ground arith
  children-set_parent (n ∷ ns) (suc h) q p e = omega (arith, children-set_parent ns h q p e)

  pub children-link :
      (nodes : List (Node D)) (h q : ℕ)
      → parent_at nodes h ≡ some none
      → children (set_parent nodes h q) ≡ suc (children nodes)
  unfolding set_parent parent_at children
  children-link [] h q e = ground arith
  children-link (n ∷ ns) zero q e = ground arith
  children-link (n ∷ ns) (suc h) q e = omega (arith, children-link ns h q e)

  pub children-le-length : (nodes : List (Node D)) → children nodes ≤ length nodes
  unfolding children
  children-le-length [] = omega arith
  children-le-length (n ∷ ns) = ground (arith, children-le-length ns)

  pub Leads-unique : {nodes : List (Node D)} {r t i : ℕ} → Leads nodes r i → Leads nodes t i → r ≡ t
  Leads-unique (here p) (here q) = refl
  Leads-unique (here p) (step q l) = cc
  Leads-unique (step p k) (here q) = cc
  Leads-unique {nodes} {t = t} (step {p = a} p k) (step {p = b} q l) =
      let e : b ≡ a = cc in Leads-unique k (subst (Leads nodes t) e l)

  pub parent_at-some :
      (nodes : List (Node D)) (i : ℕ)
      → i < length nodes
      → (p : Option ℕ) × (parent_at nodes i ≡ some p)
  unfolding parent_at
  parent_at-some [] i h = absurd (omega arith)
  parent_at-some (n ∷ ns) zero h = (n.parent, refl)
  parent_at-some (n ∷ ns) (suc i) h = parent_at-some ns i (omega arith)

  pub parent_at-lt :
      (nodes : List (Node D)) (i : ℕ) {p : Option ℕ} → parent_at nodes i ≡ some p → i < length nodes
  unfolding parent_at
  parent_at-lt [] i e = cc
  parent_at-lt (n ∷ ns) zero e = omega arith
  parent_at-lt (n ∷ ns) (suc i) e = omega (arith, parent_at-lt ns i e)

  pub Leads-root :
      {nodes : List (Node D)} {r i : ℕ} → Leads nodes r i → parent_at nodes r ≡ some none
  Leads-root (here e) = e
  Leads-root (step e l) = Leads-root l

  module _ (nodes : List (Node D)) (rank : ℕ → ℕ) (ranked : IsRanked nodes rank) where
    pub Leads-le : {r i : ℕ} → Leads nodes r i → rank i ≤ rank r
    Leads-le (here e) = omega arith
    Leads-le (step {i} {p} e l) = omega (arith, Leads-le l, ranked.up i p e)

    pub Leads-lt : {r i : ℕ} → Leads nodes r i → i ≢ r → rank i < rank r
    Leads-lt (here e) ne = absurd (ne refl)
    Leads-lt (step {i} {p} e l) ne = omega (arith, Leads-le l, ranked.up i p e)

    -- Every node leads to a root.
    climb :
        (k i : ℕ) (p : Option ℕ)
        → children nodes ≤ rank i + k
        → parent_at nodes i ≡ some p
        → (r : ℕ) × Leads nodes r i
    climb k i none h e = (i, here e)
    climb zero i (some q) h e = absurd (omega (arith, ranked.up i q e, ranked.bound q))
    climb (suc k) i (some q) h e =
        let next = parent_at-some nodes q (ranked.up i q e).0 in
        let (r, l) = climb k q next.0 (omega (arith, ranked.up i q e)) next.1 in (r, step e l)

    pub Leads-exists : (i : ℕ) → i < length nodes → (r : ℕ) × Leads nodes r i
    Leads-exists i h =
        let here = parent_at-some nodes i h in climb (children nodes) i here.0 (omega arith) here.1
