-- ===== src/UnionFind/Find.antt =====
-- `_find` returns the root, and path compression changes no set.
use mathlib.Core.Path.{subst}
use salgo.Base.{
  ℕ, zero, suc, ◌+◌, ◌<◌, ◌≡◌, refl, ◌≢◌, ap, sym, ◌∙◌, false, none, some, List, [], ◌∷◌, ◌==◌,
  length, inl, inr, Bool-cases, arith,
}
use salgo.UnionFind.{Node, parent_at, set_parent, root_loop, compress_loop, find, storage_at}
use salgo.UnionFind.Paths.{
  Leads, here, step, children, IsRanked, parent_at-set_parent, length-set_parent,
  children-set_parent, children-le-length, Leads-unique, parent_at-lt, Leads-root, Leads-le,
  Leads-lt, Leads-exists,
}

module _ {ℓ} {D : Type ℓ} where
  -- `after` holds the same sets as `before`, with the same roots and data.
  pub record SameSets (rank : ℕ → ℕ) (before after : List (Node D)) : Type ℓ where
    pub width : length after ≡ length before
    pub links : children after ≡ children before
    pub keeps : (i r : ℕ) → Leads before r i → Leads after r i
    pub ranked : IsRanked after rank
    pub stored : (i : ℕ) → storage_at after i ≡ storage_at before i

  SameSets-refl :
      (rank : ℕ → ℕ) (nodes : List (Node D)) → IsRanked nodes rank → SameSets rank nodes nodes
  SameSets-refl rank nodes v = record {
    width = refl;
    links = refl;
    keeps = λ i r l. l;
    ranked = v;
    stored = λ i. refl;
  }

  pub SameSets-trans :
      {rank : ℕ → ℕ} {a b c : List (Node D)}
      → SameSets rank a b
      → SameSets rank b c
      → SameSets rank a c
  SameSets-trans s t = record {
    width = t.width ∙ s.width;
    links = t.links ∙ s.links;
    keeps = λ i r l. t.keeps i r (s.keeps i r l);
    ranked = t.ranked;
    stored = λ i. t.stored i ∙ s.stored i;
  }

  pub storage_at-set_parent :
      (nodes : List (Node D)) (h q i : ℕ) → storage_at (set_parent nodes h q) i ≡ storage_at nodes i
  unfolding set_parent
  storage_at-set_parent [] h q i = refl
  storage_at-set_parent (n ∷ ns) zero q zero = refl
  storage_at-set_parent (n ∷ ns) zero q (suc i) = refl
  storage_at-set_parent (n ∷ ns) (suc h) q zero = refl
  storage_at-set_parent (n ∷ ns) (suc h) q (suc i) = storage_at-set_parent ns h q i

  module _ (rank : ℕ → ℕ) (nodes : List (Node D)) (ranked : IsRanked nodes rank) {h q root : ℕ}
      (e : parent_at nodes h ≡ some (some q)) (l : Leads nodes root h) where
    not_root : h ≢ root
    not_root same =
        let f : some (some q) ≡ some none = sym e ∙ ap (parent_at nodes) same ∙ Leads-root l in cc

    h-lt : h < length nodes
    h-lt = parent_at-lt nodes h e

    root-lt : root < length nodes
    root-lt = parent_at-lt nodes root (Leads-root l)

    root_stays : parent_at (set_parent nodes h root) root ≡ some none
    root_stays = ground (arith, parent_at-set_parent nodes h root root, Leads-root l, not_root)

    shortcut : Leads (set_parent nodes h root) root h
    shortcut = step (ground (arith, parent_at-set_parent nodes h root h)) (here root_stays)

    set_keeps : {r i : ℕ} → Leads nodes r i → Leads (set_parent nodes h root) r i
    set_keeps {r} (here p) = here (ground (arith, parent_at-set_parent nodes h root r))
    set_keeps {r} (step {i} {p} a k) = elim (Bool-cases (h == i)) [
      | inl t ↦
          let same : h ≡ i = ground arith in
          let roots : root ≡ r = Leads-unique l (subst (Leads nodes r) (sym same) (step a k)) in
          subst (λ x. Leads (set_parent nodes h root) x i) roots
            (subst (Leads (set_parent nodes h root) root) same shortcut)
      | inr t ↦ step (ground (arith, parent_at-set_parent nodes h root i)) (set_keeps k)
    ]

    set-IsRanked : IsRanked (set_parent nodes h root) rank
    set-IsRanked = record {
      up = λ i p a. ground (
        arith,
        parent_at-set_parent nodes h root i,
        length-set_parent nodes h root,
        ranked.up i p,
        root-lt,
        Leads-lt nodes rank ranked l not_root,
      );
      bound = λ i. omega (arith, children-set_parent nodes h root q e, ranked.bound i);
    }

    set-SameSets : SameSets rank nodes (set_parent nodes h root)
    set-SameSets = record {
      width = length-set_parent nodes h root;
      links = children-set_parent nodes h root q e;
      keeps = λ i r k. set_keeps k;
      ranked = set-IsRanked;
      stored = storage_at-set_parent nodes h root;
    }

  module _ (rank : ℕ → ℕ) where
    root_loop-Leads :
        (fuel : ℕ) (nodes : List (Node D)) {r i : ℕ}
        → IsRanked nodes rank
        → Leads nodes r i
        → rank r < rank i + fuel
        → root_loop fuel nodes i ≡ some r
    unfolding root_loop
    root_loop-Leads zero nodes v l h = absurd (omega (arith, Leads-le nodes rank v l))
    root_loop-Leads (suc fuel) nodes v (here e) h = rw (e, root_loop)
    root_loop-Leads (suc fuel) nodes v (step {i} {p} e l) h =
        rw (e, root_loop) (root_loop-Leads fuel nodes v l (omega (arith, v.up i p e)))

    compress_loop-SameSets :
        (fuel : ℕ) (nodes : List (Node D)) {root h : ℕ}
        → IsRanked nodes rank
        → Leads nodes root h
        → rank root < rank h + fuel
        → (after : List (Node D)) × (compress_loop fuel nodes h root ≡ some after)
          × SameSets rank nodes after
    unfolding compress_loop
    compress_loop-SameSets zero nodes v l h = absurd (omega (arith, Leads-le nodes rank v l))
    compress_loop-SameSets (suc fuel) nodes v (here e) h =
        (nodes, ground arith, SameSets-refl rank nodes v)
    compress_loop-SameSets (suc fuel) nodes {root} v (step {i} {p} e l) h =
        let first = set-SameSets rank nodes v e (step e l) in
        let (after, run, rest) =
          compress_loop-SameSets fuel (set_parent nodes i root) first.ranked (first.keeps p root l)
            (omega (arith, v.up i p e)) in
        let apart : i ≢ root = not_root rank nodes v e (step e l) in
        let miss : (i == root) ≡ false = ground arith in
        (after, rw (miss, e) run, SameSets-trans first rest)

  -- No root is added.
  pub SameSets-root :
      {rank : ℕ → ℕ} {before after : List (Node D)}
      → IsRanked before rank
      → SameSets rank before after
      → (i : ℕ) → parent_at after i ≡ some none
      → parent_at before i ≡ some none
  SameSets-root {rank} {before} {after} v s i e =
      let (r, l) = Leads-exists before rank v i (omega (arith, parent_at-lt after i e, s.width)) in
      let same : r ≡ i = Leads-unique (s.keeps i r l) (here e) in
      subst (λ x. parent_at before x ≡ some none) same (Leads-root l)

  pub find-Leads :
      (rank : ℕ → ℕ) (nodes : List (Node D)) {r i : ℕ}
      → IsRanked nodes rank
      → Leads nodes r i
      → (after : List (Node D)) × (find nodes i ≡ some (r, after)) × SameSets rank nodes after
  unfolding find
  find-Leads rank nodes {r} {i} v l =
      let enough : rank r < rank i + suc (length nodes) =
        omega (arith, v.bound r, children-le-length nodes) in
      let (after, run, same) = compress_loop-SameSets rank (suc (length nodes)) nodes v l enough in
      (after, rw (root_loop-Leads rank (suc (length nodes)) nodes v l enough, run), same)

  -- At every node, `_find` ends, returns the root of the node's set, and compression leaves the
  -- sets, their roots, the number of links and the data as they were.
  pub find-SameSets :
      (rank : ℕ → ℕ) (nodes : List (Node D)) (i : ℕ)
      → IsRanked nodes rank
      → i < length nodes
      → (r : ℕ) × (after : List (Node D)) × (find nodes i ≡ some (r, after))
        × Leads nodes r i
        × SameSets rank nodes after
  find-SameSets rank nodes i v h =
      let (r, l) = Leads-exists nodes rank v i h in
      let (after, run, same) = find-Leads rank nodes v l in (r, after, run, l, same)
