-- ===== src/Mesh/Full/Corners.antt =====
-- One corner more or less in the lists of a vertex.
use salgo.Base.Store.{put, put_self, put_other, number_cases}
use mathlib.Core.Path.{subst}
use mathlib.Core.List.{Mem, not-mem-nil}
use salgo.Base.{
  ℕ, ◌≡◌, ◌≢◌, refl, ap, sym, ◌∙◌, Bool, true, false, ◌&&◌, Option, none, some, List, [], ◌∷◌,
  length, ◌==◌, inl, inr, Bool-cases, arith,
}
use salgo.HashTable.{Key, emplace}
use salgo.HashTable.Emplace.{entries, IsValid}
use salgo.Mesh.EdgeLinks.{edge_cases}
use salgo.Mesh.Full.{
  PolyVert, VertPolyLinks, Vert, FullMesh, add_link, drop_link, erase_if_isolated,
}
use salgo.Mesh.Full.Index.{
  Holds, Indexed, assign, assign_self, assign_other, emplace-Holds, drop-Holds, other-Holds,
}

some_at : (o : Option ℕ) (v w : ℕ) → o ≡ some v → w ≢ v → o ≢ some w
some_at o v w p differ q = absurd (differ (same v w (sym p ∙ q)))
  where
    same : (v w : ℕ) → Path (Option ℕ) (some v) (some w) → w ≡ v
    same v w q = cc

zero_count : (b : Bool) (n : ℕ) → (b && (n == 0)) ≡ true → n ≡ 0
zero_count true n h = ground arith
zero_count false n h = cc

module _ ⦃key : Key PolyVert⦄ where
  pub no_entries :
      (t : VertPolyLinks) → IsValid t → t.count ≡ 0 → (pv : PolyVert) → ¬ Mem (pv, tt) (entries t)
  no_entries t valid none_left pv m = empty_list (entries t) (sym valid.counted ∙ none_left) m
    where
      empty_list : (es : List (PolyVert × Unit {0})) → length es ≡ 0 → ¬ Mem (pv, tt) es
      empty_list [] e m = not-mem-nil m
      empty_list (x ∷ es) e m = absurd (omega arith)

module _ {V : Type 0} ⦃key : Key PolyVert⦄ where
  -- What is left of a mesh when corners are listed anew as `at` says: the triangles and the handles
  -- of the vertices.
  pub record Relisted (m m' : FullMesh V) (at : PolyVert → Option ℕ) : Type 0 where
    pub same_ps : m'.ps ≡ m.ps
    pub indexed : Indexed m'.vs at

  -- No vertex goes.
  abbrev pub KeepsVerts : FullMesh V → FullMesh V → Type 0
  KeepsVerts m m' = (v : ℕ) (x : Vert V) → m.vs v ≡ some x → (y : Vert V) × (m'.vs v ≡ some y)

  put-KeepsVerts :
      (m : FullMesh V) (v : ℕ) (x : Vert V) → KeepsVerts m (record m { vs = put v (some x) m.vs })
  put-KeepsVerts m v x w y p = elim (number_cases w v) [
    | inl same ↦ (x, ap (put v (some x) m.vs) same ∙ put_self v (some x) m.vs)
    | inr differ ↦ (y, put_other v (some x) m.vs w differ ∙ p)
  ]

  -- Another record under the handle of a vertex.
  pub replace-Indexed :
      (vs : ℕ → Option (Vert V)) (at at' : PolyVert → Option ℕ) (v : ℕ) (x : Vert V)
      → Holds x.poly_links at' v
      → ((w : ℕ) (y : Vert V) → w ≢ v → vs w ≡ some y → Holds y.poly_links at' w)
      → ((pv : PolyVert) (w : ℕ) → w ≢ v → at' pv ≡ some w → (y : Vert V) × (vs w ≡ some y))
      → Indexed (put v (some x) vs) at'
  replace-Indexed vs at at' v x new others known = record {
    lists = λ w y p. elim (number_cases w v) [
      | inl same ↦
          let q = sym (put_self v (some x) vs) ∙ ap (put v (some x) vs) (sym same) ∙ p in
          subst (λ z. Holds z.poly_links at' w) (some_same x y q)
            (subst (Holds x.poly_links at') (sym same) new)
      | inr differ ↦ others w y differ (sym (put_other v (some x) vs w differ) ∙ p)
    ];
    known = λ pv w p. elim (number_cases w v) [
      | inl same ↦ (x, ap (put v (some x) vs) same ∙ put_self v (some x) vs)
      | inr differ ↦ let (y, q) = known pv w differ p in (y, put_other v (some x) vs w differ ∙ q)
    ];
  }
    where
      some_same : (a b : Vert V) → Path (Option (Vert V)) (some a) (some b) → a ≡ b
      some_same a b q = cc

  pub add_link-Relisted :
      (v : ℕ) (pv : PolyVert) (m : FullMesh V) (x : Vert V) (at : PolyVert → Option ℕ)
      → Indexed m.vs at
      → at pv ≡ none
      → m.vs v ≡ some x
      → (m' : FullMesh V) × (add_link v pv m ≡ some m')
        × Relisted m m' (assign pv (some v) at)
        × KeepsVerts m m'
  unfolding add_link
  add_link-Relisted v pv m x at d free here =
      let x' : Vert V = record x { poly_links = (emplace pv tt x.poly_links).1 } in
      let m' : FullMesh V = record m { vs = put v (some x') m.vs } in
      (
        m',
        rw here,
        record {
          same_ps = refl;
          indexed =
              replace-Indexed m.vs at (assign pv (some v) at) v x'
                (emplace-Holds x.poly_links at v pv (d.lists v x here) free)
                (λ w y differ p.
                  other-Holds y.poly_links at w pv (some v) (d.lists w y p)
                    (λ q. let bad = sym free ∙ q in cc) (some_at (some v) v w refl differ))
                (λ x w differ p. elim (edge_cases x pv) [
                  | inl same ↦
                      let q =
                        sym (assign_self pv (some v) at)
                        ∙ ap (assign pv (some v) at) (sym same)
                        ∙ p in
                      absurd (some_at (some v) v w refl differ q)
                  | inr other ↦ d.known x w (sym (assign_other pv (some v) at x other) ∙ p)
                ]);
        },
        put-KeepsVerts m v x',
      )

  pub drop_link-Relisted :
      (v : ℕ) (pv : PolyVert) (m : FullMesh V) (at : PolyVert → Option ℕ)
      → Indexed m.vs at
      → at pv ≡ some v
      → (m' : FullMesh V) × (drop_link v pv m ≡ some m')
        × Relisted m m' (assign pv none at)
        × KeepsVerts m m'
  unfolding drop_link
  drop_link-Relisted v pv m at d there =
      let (x, here) = d.known pv v there in
      let (h, t, found, run, left) = drop-Holds x.poly_links at v pv (d.lists v x here) there in
      let x' : Vert V = record x { poly_links = t } in
      let m' : FullMesh V = record m { vs = put v (some x') m.vs } in
      (
        m',
        rw (here, found, run),
        record {
          same_ps = refl;
          indexed =
              replace-Indexed m.vs at (assign pv none at) v x' left
                (λ w y differ p.
                  other-Holds y.poly_links at w pv none (d.lists w y p)
                    (some_at (at pv) v w there differ) (λ q. cc))
                (λ x w differ p. elim (edge_cases x pv) [
                  | inl same ↦
                      let q =
                        sym (assign_self pv none at) ∙ ap (assign pv none at) (sym same) ∙ p in
                      absurd (cc)
                  | inr other ↦ d.known x w (sym (assign_other pv none at x other) ∙ p)
                ]);
        },
        put-KeepsVerts m v x',
      )

  -- A vertex that `at` has at no corner may go.
  pub gone-Indexed :
      (vs : ℕ → Option (Vert V)) (at : PolyVert → Option ℕ) (v : ℕ)
      → Indexed vs at
      → ((pv : PolyVert) → at pv ≢ some v)
      → Indexed (put v none vs) at
  gone-Indexed vs at v d unused = record {
    lists = λ w y p. elim (number_cases w v) [
      | inl same ↦
          let q = sym (put_self v none vs) ∙ ap (put v none vs) (sym same) ∙ p in absurd (cc)
      | inr differ ↦ d.lists w y (sym (put_other v none vs w differ) ∙ p)
    ];
    known = λ pv w p. elim (number_cases w v) [
      | inl same ↦ absurd (unused pv (p ∙ ap some same))
      | inr differ ↦ let (y, q) = d.known pv w p in (y, put_other v none vs w differ ∙ q)
    ];
  }

  -- A vertex that no corner has may go.
  pub erase_if_isolated-Relisted :
      (erase_isolated : Bool) (v : ℕ) (m : FullMesh V) (x : Vert V) (at : PolyVert → Option ℕ)
      → Indexed m.vs at
      → m.vs v ≡ some x
      → (m' : FullMesh V) × (erase_if_isolated erase_isolated v m ≡ some m') × Relisted m m' at
  unfolding erase_if_isolated
  erase_if_isolated-Relisted erase_isolated v m x at d here =
      elim (Bool-cases (erase_isolated && (x.poly_links.count == 0))) [
        | inr stays ↦ (m, rw (here, stays), record { same_ps = refl; indexed = d })
        | inl goes ↦ (
          record m { vs = put v none m.vs },
          rw (here, goes),
          record {
            same_ps = refl;
            indexed = gone-Indexed m.vs at v d (λ pv p.
                no_entries x.poly_links (d.lists v x here).table
                  (zero_count erase_isolated x.poly_links.count goes) pv
                  (((d.lists v x here).exact pv).1 p));
          },
        )
      ]
