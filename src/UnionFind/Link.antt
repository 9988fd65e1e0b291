-- ===== src/UnionFind/Link.antt =====
-- Linking one root below another, and writing data.
use mathlib.Core.Option
use salgo.Base.{
  ℕ, zero, suc, ◌+◌, ◌≡◌, refl, ◌≢◌, ap, ◌∙◌, Option, none, some, List, [], ◌∷◌, ◌==◌,
  if◌then◌else◌, length, inl, inr, Bool-cases, max, arith,
}
use salgo.UnionFind.{Node, parent_at, set_parent, set_storage, storage_at}
use salgo.UnionFind.Paths.{
  Leads, here, step, children, IsRanked, parent_at-set_parent, length-set_parent, children-link,
  parent_at-lt,
}

module _ {ℓ} {D : Type ℓ} where
  pub parent_at-set_storage :
      (nodes : List (Node D)) (i : ℕ) (s : Option D) (j : ℕ)
      → parent_at (set_storage nodes i s) j ≡ parent_at nodes j
  unfolding parent_at set_storage
  parent_at-set_storage [] i s j = refl
  parent_at-set_storage (n ∷ ns) zero s zero = refl
  parent_at-set_storage (n ∷ ns) zero s (suc j) = refl
  parent_at-set_storage (n ∷ ns) (suc i) s zero = refl
  parent_at-set_storage (n ∷ ns) (suc i) s (suc j) = parent_at-set_storage ns i s j

  pub length-set_storage :
      (nodes : List (Node D)) (i : ℕ) (s : Option D) → length (set_storage nodes i s) ≡ length nodes
  unfolding set_storage
  length-set_storage [] i s = refl
  length-set_storage (n ∷ ns) zero s = refl
  length-set_storage (n ∷ ns) (suc i) s = ap suc (length-set_storage ns i s)

  pub children-set_storage :
      (nodes : List (Node D)) (i : ℕ) (s : Option D)
      → children (set_storage nodes i s) ≡ children nodes
  unfolding set_storage children
  children-set_storage [] i s = refl
  children-set_storage (n ∷ ns) zero s = refl
  children-set_storage (n ∷ ns) (suc i) s = omega (arith, children-set_storage ns i s)

  pub storage_at-set_storage :
      (nodes : List (Node D)) (i : ℕ) (s : Option D) (j : ℕ)
      → storage_at (set_storage nodes i s) j
        ≡ (if i == j then Option.map (λ _. s) (storage_at nodes j) else storage_at nodes j)
  unfolding set_storage
  storage_at-set_storage [] i s j = ground arith
  storage_at-set_storage (n ∷ ns) zero s zero = refl
  storage_at-set_storage (n ∷ ns) zero s (suc j) = ground arith
  storage_at-set_storage (n ∷ ns) (suc i) s zero = ground arith
  storage_at-set_storage (n ∷ ns) (suc i) s (suc j) =
      ground (arith, storage_at-set_storage ns i s j)

  -- Links that are the same lead the same way.
  pub Leads-same :
      {m n : List (Node D)}
      → ((i : ℕ) → parent_at n i ≡ parent_at m i)
      → {r i : ℕ} → Leads m r i
      → Leads n r i
  Leads-same same {r = r} (here e) = here (same r ∙ e)
  Leads-same same (step {i} e l) = step (same i ∙ e) (Leads-same same l)

  module _ (nodes : List (Node D)) (rank : ℕ → ℕ) (ranked : IsRanked nodes rank) {h q : ℕ}
      (root_h : parent_at nodes h ≡ some none) (root_q : parent_at nodes q ≡ some none)
      (ne : h ≢ q) where
    -- The rank of the upper root makes room for the lower one.
    abbrev pub raised : ℕ → ℕ
    raised i = if i == q then max (rank q) (rank h + 1) else rank i

    pub link-IsRanked : IsRanked (set_parent nodes h q) raised
    link-IsRanked = record {
      up = λ i p a. ground (
        arith,
        parent_at-set_parent nodes h q i,
        length-set_parent nodes h q,
        ranked.up i p,
        parent_at-lt nodes q root_q,
      );
      bound = λ i.
          ground
            (arith, children-link nodes h q root_h, ranked.bound i, ranked.bound q, ranked.bound h);
    }

    pub link-Leads :
        {r i : ℕ} → Leads nodes r i → Leads (set_parent nodes h q) (if r == h then q else r) i
    link-Leads {r} (here e) = elim (Bool-cases (r == h)) [
      | inl t ↦ rw t (
          step (ground (arith, parent_at-set_parent nodes h q r))
            (here (ground (arith, parent_at-set_parent nodes h q q))))
      | inr t ↦ rw t (here (ground (arith, parent_at-set_parent nodes h q r)))
    ]
    link-Leads (step {i} e l) =
        step (ground (arith, parent_at-set_parent nodes h q i)) (link-Leads l)
