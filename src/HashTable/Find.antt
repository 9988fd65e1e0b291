-- ===== src/HashTable/Find.antt =====
-- `_find` finds an entry under the key if and only if there is one.
use mathlib.Core.HLevel.{⊥_prop}
use mathlib.Core.List.{Mem, mem-append, mem-cons, not-mem-nil}
use mathlib.Core.Logic.{∥∥₁_elim}
use mathlib.Core.Logic.Or
use salgo.Base.{
  ℕ, suc, ◌+◌, ◌<◌, ◌%◌, ◌≡◌, ◌≢◌, refl, ap, sym, ◌∙◌, Option, none, some, List, [], ◌∷◌, flatten,
  length, get_elem?, inl, inr, true, ◌==◌, Bool-cases, Option-cases, arith,
}
use salgo.HashTable.{Key, Buckets, bucket, HashTable, Handle, entry, scan, find}
use salgo.HashTable.Emplace.{entries, IsValid}

module _ {ℓ} {K V : Type ℓ} ⦃key : Key K⦄ where
  scan-none :
      (k : K) (es : List (K × V)) (i : ℕ) → scan k es i ≡ none → (e : K × V) → Mem e es → e.0 ≢ k
  unfolding scan
  scan-none k [] i h e m = absurd (not-mem-nil m)
  scan-none k (x ∷ es) i h e m = elim (Bool-cases (key.equal x.0 k)) [
    | inl t ↦ let bad = rw t at h in cc
    | inr t ↦
        let rest = rw t at h in
        Or.elim (hlevel) (mem-cons.0 m)
          (λ same e_is.
            let hit : key.equal x.0 k ≡ true =
              (key.equal_iff x.0 k).1 (ap (λ (y : K × V). y.0) (sym same) ∙ e_is) in
            cc)
          (scan-none k es (i + 1) rest e)
  ]

  scan-some :
      (k : K) (es : List (K × V)) (i b : ℕ)
      → scan k es i ≡ some b
      → (j : ℕ) × (e : K × V) × (b ≡ i + j) × (get_elem? es j ≡ some e) × (e.0 ≡ k)
  unfolding scan
  scan-some k [] i b h = cc
  scan-some k (x ∷ es) i b h = elim (Bool-cases (key.equal x.0 k)) [
    | inl t ↦ (0, x, ground arith, refl, (key.equal_iff x.0 k).0 t)
    | inr t ↦
        let (j, e, p, q, r) = scan-some k es (i + 1) b (rw t at h) in (suc j, e, omega arith, q, r)
  ]

  -- An entry stands in some bucket.
  bucket_of :
      (bs : Buckets K V) (e : K × V)
      → Mem e (flatten bs)
      → ∥ ((i : ℕ) × (i < length bs) × Mem e (bucket bs i)) ∥₁
  unfolding flatten
  bucket_of [] e m = absurd (not-mem-nil m)
  bucket_of (b ∷ bs) e m =
      Or.elim squash₁ (mem-append.0 m) (λ here. ∣ (0, omega arith, here) ∣₁)
        (λ there.
          ∥∥₁_elim (bucket_of bs e there) squash₁ (λ p. ∣ (suc p.0, omega (arith, p.1), p.2) ∣₁))

  -- The outcome of a search for `k`.
  abbrev pub Finds : K → HashTable K V → Option Handle → Type ℓ
  Finds k t none = (e : K × V) → Mem e (entries t) → e.0 ≢ k
  Finds k t (some h) = (e : K × V) × (entry t h ≡ some e) × (e.0 ≡ k)

  find_absent :
      (k : K) (t : HashTable K V)
      → IsValid t
      → scan k (bucket t.buckets (key.hash k % length t.buckets)) 0 ≡ none
      → Finds k t none
  find_absent k t v s e m e_is = ∥∥₁_elim (bucket_of t.buckets e m) ⊥_prop (λ p.
      let home : key.hash k % length t.buckets ≡ p.0 =
        ap (λ x. key.hash x % length t.buckets) (sym e_is) ∙ v.placed p.0 e p.2 in
      scan-none k _ 0 (rw home at s) e p.2 e_is)

  -- In a valid table `_find` returns a handle that reads an entry under the key, or no handle, and
  -- then no entry has that key.
  pub find-Finds : (k : K) (t : HashTable K V) → IsValid t → Finds k t (find k t)
  unfolding find entry
  find-Finds k t v = elim (Bool-cases (length t.buckets == 0)) [
    | inl z ↦ rw z (λ e m _.
        ∥∥₁_elim (bucket_of t.buckets e m) ⊥_prop (λ p.
          let lt = p.1 in absurd (let n : length t.buckets ≡ 0 = ground arith in omega arith)))
    | inr p ↦
        let i = key.hash k % length t.buckets in
        elim (Option-cases (scan k (bucket t.buckets i) 0)) [
          | inl s ↦ rw (p, s) (find_absent k t v s)
          | inr (b, s) ↦
              let (j, e, q, got, e_is) = scan-some k (bucket t.buckets i) 0 b s in
              let same : j ≡ b = omega arith in rw (p, s) (e, rw same at got, e_is)
        ]
  ]
