-- ===== src/Graph/Erasable/Shrink.antt =====
-- `resize` of the vertices to a smaller size.
use salgo.Base.Store.{number_cases}
use salgo.Base.{
  ℕ, zero, suc, ◌+◌, ◌<◌, ◌≤◌, ◌≡◌, ◌≢◌, ◌⊎◌, ◌↔◌, refl, ap, ◌∙◌, Option, none, some, inl, inr,
  Option-cases, Bool-cases, ltb, arith,
}
use salgo.Graph.{Link}
use salgo.Graph.Erasable.{Outs, Verts, entry_of, edge_at, erase, erase_above}
use salgo.Graph.Erasable.Write.{IsValid, domain_of}
use salgo.Graph.Erasable.Erase.{Erased, erase-Erased}

-- The vertices from `size` on are gone, and the entries at them and to them, and no others.
pub record Shrunk (size : ℕ) (g g' : Verts) : Type 0 where
  pub valid : IsValid g'
  pub gone : (v : ℕ) → size ≤ v → g' v ≡ none
  pub others : (v : ℕ) → v < size → domain_of (g' v) ≡ domain_of (g v)
  pub edges :
      (w j : ℕ) (l : Link)
      → (edge_at g' w j ≡ some l) ↔ ((edge_at g w j ≡ some l) × (w < size) × (l.a < size))

order_cases : (a b : ℕ) → (a < b) ⊎ (b ≤ a)
order_cases a b = elim (Bool-cases (ltb a b)) [
  | inl t ↦ inl (ground arith)
  | inr f ↦ inr (ground arith)
]

entry_below :
    (size : ℕ) (g : Verts) (w j : ℕ) (l : Link)
    → ((v : ℕ) → size ≤ v → g v ≡ none)
    → edge_at g w j ≡ some l
    → w < size
entry_below size g w j l above e = elim (order_cases w size) [
  | inl lt ↦ lt
  | inr le ↦ let gone = ap (λ z. entry_of z j) (above w le) in absurd (cc)
]

no_domain : (o : Option Outs) → domain_of o ≡ none → o ≡ none
no_domain none e = refl
no_domain (some o) e = absurd (cc)

some_domain :
    (a b : Option Outs)
    → domain_of a ≡ domain_of b
    → (o : Outs) × (b ≡ some o)
    → (o : Outs) × (a ≡ some o)
some_domain none b e (o, at) = let bad = ap domain_of at in absurd (cc)
some_domain (some o) b e there = (o, refl)

-- One vertex: those from `v` on are gone when those after `v` were.
erase-Shrunk :
    (v : ℕ) (o : Outs) (g : Verts)
    → IsValid g
    → g v ≡ some o
    → ((w : ℕ) → v + 1 ≤ w → g w ≡ none)
    → (g' : Verts) × (erase v g ≡ some g') × Shrunk v g g'
erase-Shrunk v o g ok here above =
    let (g', run, e) = erase-Erased v o g ok here in (g', run, erased g' e)
  where
    two_ends : (w j : ℕ) (l : Link) → edge_at g w j ≡ some l → w ≢ v → l.a ≢ v → (w < v) × (l.a < v)
    two_ends w j l e n k =
        let lt = entry_below (v + 1) g w j l above e in
        let lt' =
          entry_below (v + 1) g l.a l.b (record { a = w; b = j }) above (ok.linked w j l e) in
        (omega arith, omega arith)

    erased : (g' : Verts) → Erased v g g' → Shrunk v g g'
    erased g' e = record {
      valid = e.valid;
      gone = λ w le. elim (number_cases w v) [
        | inl same ↦ ap g' same ∙ e.gone
        | inr differ ↦ no_domain (g' w) (e.others w differ ∙ ap domain_of (above w (omega arith)))
      ];
      others = λ w lt. e.others w (λ s. omega arith);
      edges = λ w j l. (
        λ q.
            let (was, n, k) = (e.edges w j l).0 q in
            let (lt, lt') = two_ends w j l was n k in (was, lt, lt'),
        λ p.
            (e.edges w j l).1
              (p.0, (λ s. let lt = p.1 in omega arith), (λ s. let lt = p.2 in omega arith)),
      );
    }

-- The loop of `resize` to a smaller size, in a graph whose links name each other, whose vertices are
-- below the old size, and where no vertex from the new size on is missing, does not fault.
-- Afterwards the links name each other, the vertices from the new size on are gone, the others are
-- there, and the entries that are left are those between them.
pub erase_above-Shrunk :
    (size n : ℕ) (g : Verts)
    → IsValid g
    → ((v : ℕ) → size + n ≤ v → g v ≡ none)
    → ((v : ℕ) → size ≤ v → v < size + n → (o : Outs) × (g v ≡ some o))
    → (g' : Verts) × (erase_above size n g ≡ some g') × Shrunk size g g'
unfolding erase_above
erase_above-Shrunk size zero g ok above there =
    let above' : (v : ℕ) → size ≤ v → g v ≡ none = λ v le. above v (omega arith) in
    (
      g,
      refl,
      record {
        valid = ok;
        gone = above';
        others = λ v lt. refl;
        edges = λ w j l. (
          λ e. (
            e,
            entry_below size g w j l above' e,
            entry_below size g l.a l.b (record { a = w; b = j }) above' (ok.linked w j l e),
          ),
          λ p. p.0,
        );
      },
    )
erase_above-Shrunk size (suc n) g ok above there =
    let (o, at) = there (size + n) (omega arith) (omega arith) in
    let (g₁, run₁, s₁) = erase-Shrunk (size + n) o g ok at (λ w le. above w (omega arith)) in
    let (g₂, run₂, s₂) =
      erase_above-Shrunk size n g₁ s₁.valid s₁.gone
        (λ v le lt. some_domain (g₁ v) (g v) (s₁.others v lt) (there v le (omega arith))) in
    (
      g₂,
      rw run₁ run₂,
      record {
        valid = s₂.valid;
        gone = s₂.gone;
        others = λ v lt. s₂.others v lt ∙ s₁.others v (omega arith);
        edges = λ w j l. (
          λ e.
              let (mid, lt, lt') = (s₂.edges w j l).0 e in
              let (was, _, _) = (s₁.edges w j l).0 mid in (was, lt, lt'),
          λ p.
              let lt = p.1 in
              let lt' = p.2 in
              (s₂.edges w j l).1 ((s₁.edges w j l).1 (p.0, omega arith, omega arith), lt, lt'),
        );
      },
    )

-- Where one of these vertices is missing, as after it was erased, the loop faults.
pub erase_above_faults :
    (size n hole : ℕ) (g : Verts)
    → IsValid g
    → ((v : ℕ) → size + n ≤ v → g v ≡ none)
    → size ≤ hole
    → hole < size + n
    → g hole ≡ none
    → erase_above size n g ≡ none
unfolding erase_above erase
erase_above_faults size zero hole g ok above le lt gone = absurd (omega arith)
erase_above_faults size (suc n) hole g ok above le lt gone = elim (Option-cases (g (size + n))) [
  | inl missing ↦ rw (erase_missing missing)
  | inr (o, at) ↦
      let (g₁, run, s) = erase-Shrunk (size + n) o g ok at (λ w le. above w (omega arith)) in
      let before : hole < size + n = elim (number_cases hole (size + n)) [
        | inl same ↦ let here = ap g same in absurd (cc)
        | inr differ ↦ omega arith
      ] in
      let gone₁ = no_domain (g₁ hole) (s.others hole before ∙ ap domain_of gone) in
      rw run (erase_above_faults size n hole g₁ s.valid s.gone le before gone₁)
]
  where
    erase_missing : g (size + n) ≡ none → erase (size + n) g ≡ none
    erase_missing e = rw e
