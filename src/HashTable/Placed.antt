-- ===== src/HashTable/Placed.antt =====
-- Every entry stands in the bucket that its key hashes to.
use mathlib.Core.List.{Mem, mem-append, mem-cons, not-mem-nil, Perm}
use mathlib.Core.List.Perm
use mathlib.Core.Logic.Or
use mathlib.Core.Path.{subst}
use native.Mathlib.Nat.{ℕ_set}
use salgo.Base.{
  ℕ, ◌<◌, ◌%◌, ◌≡◌, ◌≢◌, ap, ◌∙◌, List, [], ◌∷◌, ◌++◌, length, set, replicate, inl, inr, ◌==◌,
  Bool-cases, length-set, get_or-set_self, get_or-set_ne, get_or-replicate, arith,
}
use salgo.HashTable.{Key, Buckets, bucket}

module _ {ℓ} {K V : Type ℓ} ⦃key : Key K⦄ where
  -- All entries of the bucket hash to `i` among `n` buckets.
  abbrev pub Hashed : ℕ → ℕ → List (K × V) → Type ℓ
  Hashed n i es = (e : K × V) → Mem e es → key.hash e.0 % n ≡ i

  abbrev pub IsPlaced : Buckets K V → Type ℓ
  IsPlaced bs = (i : ℕ) → Hashed (length bs) i (bucket bs i)

  pub Hashed-perm : (n i : ℕ) (es fs : List (K × V)) → Perm es fs → Hashed n i fs → Hashed n i es
  Hashed-perm n i es fs p h e m = h e ((Perm.mem_iff p).0 m)

  pub Hashed-nil : (n i : ℕ) → Hashed n i []
  Hashed-nil n i e m = absurd (not-mem-nil m)

  pub Hashed-append_one :
      (n i : ℕ) (es : List (K × V)) (x : K × V)
      → Hashed n i es
      → key.hash x.0 % n ≡ i
      → Hashed n i (es ++ x ∷ [])
  Hashed-append_one n i es x h p e m = Or.elim (ℕ_set _ _) (mem-append.0 m) (h e) (λ last.
      Or.elim (ℕ_set _ _) (mem-cons.0 last) (λ same. ap (λ (y : K × V). key.hash y.0 % n) same ∙ p)
        (λ none. absurd (not-mem-nil none)))

  -- A write of a bucket whose entries hash to it.
  pub IsPlaced-set :
      (bs : Buckets K V) (i : ℕ) (es : List (K × V))
      → i < length bs
      → IsPlaced bs
      → Hashed (length bs) i es
      → IsPlaced (set bs i es)
  IsPlaced-set bs i es lt h p j = elim (Bool-cases (i == j)) [
    | inl t ↦
        let same : i ≡ j = ground arith in
        subst (λ z. Hashed (length (set bs i es)) z (bucket (set bs i es) z)) same
          (rw (length-set bs i es, get_or-set_self bs i es [] lt) p)
    | inr t ↦
        let apart : i ≢ j = ground arith in
        rw (length-set bs i es, get_or-set_ne bs i j es [] apart) (h j)
  ]

  pub IsPlaced-replicate : (n : ℕ) → IsPlaced (replicate n [])
  IsPlaced-replicate n i = rw (get_or-replicate {A = List (K × V)} n i []) (Hashed-nil _ i)
