-- ===== src/Mesh/Utils/Isolated.antt =====
-- `erase_isolated_verts`
use salgo.Base.Store.{put, put_self, put_other, number_cases}
use mathlib.Core.Path.{subst}
use mathlib.Core.List.{
  Mem, Nodup, Nodup-cons, mem-cons, mem-cons_self, mem-cons_of_mem, not-mem-nil, Mem-prop,
}
use mathlib.Core.Logic.Or
use salgo.Base.{
  ℕ, ◌≡◌, ◌≢◌, refl, ap, sym, ◌∙◌, true, Option, none, some, List, [], ◌∷◌, if◌then◌else◌, ◌==◌,
  inl, inr, Bool-cases, arith,
}
use salgo.HashTable.{Key}
use salgo.Mesh.Full.{PolyVert, Vert, FullMesh, fast_erase}
use salgo.Mesh.Full.Add.{IsConsistent}
use salgo.Mesh.Full.Verts.{fast_erase-IsConsistent}
use salgo.Mesh.Utils.{erase_isolated_verts}

same_some : {V : Type 0} (a b : FullMesh V) → Path (Option (FullMesh V)) (some a) (some b) → a ≡ b
same_some a b q = cc

same_vert : {V : Type 0} (a b : Vert V) → Path (Option (Vert V)) (some a) (some b) → a ≡ b
same_vert a b q = cc

in_rest : (w v : ℕ) (vs : List ℕ) → w ≢ v → Mem w (v ∷ vs) → Mem w vs
in_rest w v vs differ at = Or.elim Mem-prop (mem-cons.0 at) (λ e. absurd (differ e)) (λ m. m)

module _ {V : Type 0} ⦃key : Key PolyVert⦄ where
  -- The vertices of `vs` without triangles are gone, and nothing else.
  pub record Swept (vs : List ℕ) (m m' : FullMesh V) : Type 0 where
    pub consistent : IsConsistent m'
    pub same_ps : m'.ps ≡ m.ps
    pub gone :
        (v : ℕ) (x : Vert V) → Mem v vs → m.vs v ≡ some x → x.poly_links.count ≡ 0 → m'.vs v ≡ none
    pub used : (v : ℕ) (x : Vert V) → m.vs v ≡ some x → x.poly_links.count ≢ 0 → m'.vs v ≡ some x
    pub elsewhere : (v : ℕ) → ¬ Mem v vs → m'.vs v ≡ m.vs v

  fast_erase_empty :
      (v : ℕ) (m : FullMesh V) (x : Vert V)
      → m.vs v ≡ some x
      → x.poly_links.count ≡ 0
      → fast_erase v m ≡ some (record m { vs = put v none m.vs })
  unfolding fast_erase
  fast_erase_empty v m x here zero_left =
      let none_left : (x.poly_links.count == 0) ≡ true = ground arith in rw (here, none_left)

  one_round :
      (v : ℕ) (vs : List ℕ) (m m₁ m' : FullMesh V) (x : Vert V)
      → m.vs v ≡ some x
      → (if x.poly_links.count == 0 then fast_erase v m else some m) ≡ some m₁
      → erase_isolated_verts vs m₁ ≡ some m'
      → erase_isolated_verts (v ∷ vs) m ≡ some m'
  unfolding erase_isolated_verts
  one_round v vs m m₁ m' x here step run = rw (here, step) run

  kept-Swept :
      (v : ℕ) (vs : List ℕ) (m m' : FullMesh V) (x : Vert V)
      → m.vs v ≡ some x
      → x.poly_links.count ≢ 0
      → Swept vs m m'
      → Swept (v ∷ vs) m m'
  kept-Swept v vs m m' x here in_use s = record {
    consistent = s.consistent;
    same_ps = s.same_ps;
    gone = λ w y at h zero_left. elim (number_cases w v) [
      | inl same ↦
          let y_is : y ≡ x = same_vert y x (sym h ∙ ap m.vs same ∙ here) in
          absurd (in_use (ap (λ (z : Vert V). z.poly_links.count) (sym y_is) ∙ zero_left))
      | inr differ ↦ s.gone w y (in_rest w v vs differ at) h zero_left
    ];
    used = s.used;
    elsewhere = λ w n. s.elsewhere w (λ at. n (mem-cons_of_mem v at));
  }

  gone-Swept :
      (v : ℕ) (vs : List ℕ) (m m' : FullMesh V) (x : Vert V)
      → m.vs v ≡ some x
      → x.poly_links.count ≡ 0
      → ¬ Mem v vs
      → Swept vs (record m { vs = put v none m.vs }) m'
      → Swept (v ∷ vs) m m'
  gone-Swept v vs m m' x here zero_left absent s = record {
    consistent = s.consistent;
    same_ps = s.same_ps;
    gone = λ w y at h e. elim (number_cases w v) [
      | inl same ↦ ap m'.vs same ∙ s.elsewhere v absent ∙ put_self v none m.vs
      | inr differ ↦ s.gone w y (in_rest w v vs differ at) (put_other v none m.vs w differ ∙ h) e
    ];
    used = λ w y h in_use. elim (number_cases w v) [
      | inl same ↦
          let y_is : y ≡ x = same_vert y x (sym h ∙ ap m.vs same ∙ here) in
          absurd (in_use (ap (λ (z : Vert V). z.poly_links.count) y_is ∙ zero_left))
      | inr differ ↦ s.used w y (put_other v none m.vs w differ ∙ h) in_use
    ];
    elsewhere = λ w n.
        s.elsewhere w (λ at. n (mem-cons_of_mem v at))
        ∙ put_other v none m.vs w (λ same. n (mem-cons.1 (Or.inl same)));
  }

  -- `erase_isolated_verts` over vertices that exist, each met once, does not fault, and leaves the mesh
  -- consistent and without those of them that had no triangle. The other vertices and the triangles
  -- are as they were.
  pub erase_isolated_verts-Swept :
      (vs : List ℕ) (m : FullMesh V)
      → IsConsistent m
      → Nodup vs
      → ((v : ℕ) → Mem v vs → (x : Vert V) × (m.vs v ≡ some x))
      → (m' : FullMesh V) × (erase_isolated_verts vs m ≡ some m') × Swept vs m m'
  unfolding erase_isolated_verts
  erase_isolated_verts-Swept [] m ok once there = (
    m,
    refl,
    record {
      consistent = ok;
      same_ps = refl;
      gone = λ v x at h e. absurd (not-mem-nil at);
      used = λ v x h n. h;
      elsewhere = λ v n. refl;
    },
  )
  erase_isolated_verts-Swept (v ∷ vs) m ok once there =
      let (x, here) = there v mem-cons_self in
      let (absent, rest_once) = Nodup-cons.0 once in
      elim (Bool-cases (x.poly_links.count == 0)) [
        | inr stays ↦
            let (m', run, s) =
              erase_isolated_verts-Swept vs m ok rest_once
                (λ w at. there w (mem-cons_of_mem v at)) in
            (
              m',
              one_round v vs m m m' x here (rw stays) run,
              kept-Swept v vs m m' x here (λ e. ground arith) s,
            )
        | inl empty ↦
            let zero_left : x.poly_links.count ≡ 0 = ground arith in
            let m₁ : FullMesh V = record m { vs = put v none m.vs } in
            let run₁ = fast_erase_empty v m x here zero_left in
            let (m₂, run₂, ok₂) = fast_erase-IsConsistent v m x here zero_left ok in
            let ok₁ : IsConsistent m₁ =
              subst IsConsistent (same_some m₂ m₁ (sym run₂ ∙ run₁)) ok₂ in
            let old : (w : ℕ) → Mem w vs → m₁.vs w ≡ m.vs w =
              λ w at. put_other v none m.vs w (λ s. absent (subst (λ z. Mem z vs) s at)) in
            let (m', run, s) =
              erase_isolated_verts-Swept vs m₁ ok₁ rest_once
                (λ w at. let (y, q) = there w (mem-cons_of_mem v at) in (y, old w at ∙ q)) in
            (
              m',
              one_round v vs m m₁ m' x here (rw empty run₁) run,
              gone-Swept v vs m m' x here zero_left absent s,
            )
      ]
