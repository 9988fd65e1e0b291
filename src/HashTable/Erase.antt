-- ===== src/HashTable/Erase.antt =====
-- `erase` removes the entry at a handle.
use mathlib.Core.List.{Perm}
use mathlib.Core.List.Perm
use salgo.Base.{
  get_elem?-lt, ◌+◌, ◌-◌, ◌<◌, ◌≤◌, ◌≡◌, some, [], ◌∷◌, length, set, inl, inr, ltb, Bool-cases,
  get_or_outside, length-set, get_or-set_self, arith,
}
use salgo.HashTable.{Key, bucket, HashTable, Handle, entry, erase}
use salgo.HashTable.Emplace.{entries, IsValid}
use salgo.HashTable.Entries.{flatten-set_drop, Perm-length, unvisited, unvisited-set, take-congr}
use salgo.HashTable.Placed.{IsPlaced-set}
use salgo.UnorderedArray.Erase.{erase-Perm}
use mathlib.Core.List.{mem-cons_of_mem}

module _ {ℓ} {K V : Type ℓ} ⦃key : Key K⦄ where
  -- A handle that reads an entry names a bucket.
  pub entry-lt :
      (t : HashTable K V) (h : Handle) {e : K × V} → entry t h ≡ some e → h.a < length t.buckets
  unfolding entry
  entry-lt t h p = elim (Bool-cases (ltb h.a (length t.buckets))) [
    | inl lt ↦ ground arith
    | inr ge ↦
        let outside = get_or_outside t.buckets h.a [] (ground arith) in
        let none_there = rw outside at p in cc
  ]

  -- What `erase` of the entry `e` at the handle `h` leaves of `t`.
  pub record Removed (h : Handle) (e : K × V) (t t' : HashTable K V) : Type ℓ where
    pub valid : IsValid t'
    pub removed : Perm (e ∷ entries t') (entries t)
    pub counted : t'.count + 1 ≡ t.count
    pub width : length t'.buckets ≡ length t.buckets
    pub room : h.b ≤ length (bucket t'.buckets h.a)
    pub before : unvisited t'.buckets h.a h.b ≡ unvisited t.buckets h.a h.b

  -- At a handle that reads an entry of a valid table `erase` does not fault; it returns a valid
  -- table that lacks this one entry, as wide, in which the entries before the handle have not moved.
  pub erase-Removed :
      (t : HashTable K V) (h : Handle) (e : K × V)
      → IsValid t
      → entry t h ≡ some e
      → (t' : HashTable K V) × (erase h t ≡ some t') × Removed h e t t'
  unfolding erase entry
  erase-Removed t h e v p =
      let lt = entry-lt t h p in
      let (es, run, same, size, kept) = erase-Perm (bucket t.buckets h.a) h.b e p in
      let removed = flatten-set_drop t.buckets h.a e es lt same in
      let counts = Perm-length removed in
      (
        record { buckets = set t.buckets h.a es; count = t.count - 1 },
        rw run,
        record {
          valid = record {
            placed =
                IsPlaced-set t.buckets h.a es lt v.placed
                  (λ x m. v.placed h.a x ((Perm.mem_iff same).0 (mem-cons_of_mem e m)));
            counted = omega (arith, counts, v.counted);
          };
          removed = removed;
          counted = omega (arith, counts, v.counted);
          width = length-set t.buckets h.a es;
          room =
              let lt' = get_elem?-lt (bucket t.buckets h.a) h.b p in
              rw (get_or-set_self t.buckets h.a es [] lt) (omega arith);
          before =
              let lt' = get_elem?-lt (bucket t.buckets h.a) h.b p in
              unvisited-set t.buckets h.a h.b es lt
                (take-congr h.b es (bucket t.buckets h.a) (omega arith) (omega arith) kept);
        },
      )
