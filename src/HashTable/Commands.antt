-- ===== src/HashTable/Commands.antt =====
-- `emplace_if_not_found` and `erase_if_found` of include/salgo/_/hash-table.inl as commands, and the
-- same commands on a function from the keys.
use salgo.Base.{
  ◌≡◌, ◌≢◌, refl, ap, sym, ◌∙◌, Option, none, some, List, [], ◌∷◌, inl, inr, false, if◌then◌else◌,
  ◌>>=◌, Bool-cases,
}
use salgo.HashTable.{Key, HashTable, find, emplace_if_not_found, erase}

pub data Command {ℓ} (K V : Type ℓ) : Type ℓ where
  insert : K → V → Command K V
  remove : K → Command K V

module _ {ℓ} {K V : Type ℓ} ⦃key : Key K⦄ where
  -- `table(k).erase_if_found()`
  unfoldable pub erase_if_found : K → HashTable K V → Option (HashTable K V)
  erase_if_found k t = elim (find k t) [ some h ↦ erase h t | none ↦ some t ]

  unfoldable pub serve : List (Command K V) → HashTable K V → Option (HashTable K V)
  serve [] t = some t
  serve (insert k x ∷ rest) t = serve rest (emplace_if_not_found k x t).1
  serve (remove k ∷ rest) t = erase_if_found k t >>= serve rest

  -- The same commands on a function.
  unfoldable pub insert_in : K → V → (K → Option V) → K → Option V
  insert_in k x m q = if key.equal q k then elim (m k) [ some y ↦ some y | none ↦ some x ] else m q

  unfoldable pub remove_from : K → (K → Option V) → K → Option V
  remove_from k m q = if key.equal q k then none else m q

  unfoldable pub remembered : List (Command K V) → (K → Option V) → K → Option V
  remembered [] m = m
  remembered (insert k x ∷ rest) m = remembered rest (insert_in k x m)
  remembered (remove k ∷ rest) m = remembered rest (remove_from k m)

  pub insert_in_present :
      (k : K) (x y : V) (m : K → Option V) → m k ≡ some y → (q : K) → insert_in k x m q ≡ m q
  unfolding insert_in
  insert_in_present k x y m p q = elim (Bool-cases (key.equal q k)) [
    | inl e ↦ rw (e, p) (sym (ap m ((key.equal_iff q k).0 e) ∙ p))
    | inr e ↦ rw e
  ]

  pub insert_in_same : (k : K) (x : V) (m : K → Option V) → m k ≡ none → insert_in k x m k ≡ some x
  unfolding insert_in
  insert_in_same k x m n = rw ((key.equal_iff k k).1 refl, n)

  pub insert_in_other :
      (k : K) (x : V) (m : K → Option V) (q : K) → key.equal q k ≡ false → insert_in k x m q ≡ m q
  unfolding insert_in
  insert_in_other k x m q e = rw e

  pub remove_from_other : (k : K) (m : K → Option V) (q : K) → q ≢ k → remove_from k m q ≡ m q
  unfolding remove_from
  remove_from_other k m q no_match = elim (Bool-cases (key.equal q k)) [
    | inl h ↦ absurd (no_match ((key.equal_iff q k).0 h))
    | inr h ↦ rw h
  ]

  pub remove_from_absent :
      (k : K) (m : K → Option V) → m k ≡ none → (q : K) → remove_from k m q ≡ m q
  unfolding remove_from
  remove_from_absent k m n q = elim (Bool-cases (key.equal q k)) [
    | inl h ↦ rw h (sym (ap m ((key.equal_iff q k).0 h) ∙ n))
    | inr h ↦ rw h
  ]

  pub remove_from-some :
      (k : K) (m : K → Option V) (q : K) (x : V)
      → remove_from k m q ≡ some x
      → (q ≢ k) × (m q ≡ some x)
  unfolding remove_from
  remove_from-some k m q x p = elim (Bool-cases (key.equal q k)) [
    | inl h ↦ let bad = rw h at p in cc
    | inr h ↦ (λ same. let hit = (key.equal_iff q k).1 same in cc, rw h at p)
  ]
  -- The keys left by the removal of `e` are those of other entries.
