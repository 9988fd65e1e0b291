-- ===== src/HashTable/Emplace.antt =====
-- `rehash` keeps the entries, and `emplace` adds one.
use mathlib.Core.List.{
  Perm, perm_append_singleton, perm_append_comm, perm_middle, append_assoc, append-nil,
}
use mathlib.Core.List.Perm
use native.Mathlib.Nat.{mod-lt}
use salgo.Base.{
  ℕ, ◌+◌, ◌*◌, ◌/◌, ◌≤◌, ◌<◌, ◌%◌, ◌≡◌, refl, ap, sym, ◌∙◌, some, List, [], ◌∷◌, ◌++◌, flatten,
  length, replicate, inl, inr, ltb, Bool-cases, length-set, length-replicate, get_or-set_self,
  get_elem?-append_last, arith,
}
use salgo.HashTable.{
  Key, Buckets, bucket, HashTable, Handle, add_entry, move_bucket, move_buckets, rehash, rebucket,
  emplace, entry,
}
use salgo.HashTable.Entries.{flatten-set_add, flatten-replicate, Perm-length}
use salgo.HashTable.Placed.{IsPlaced, IsPlaced-set, IsPlaced-replicate, Hashed-append_one}
use salgo.UnorderedArray

module _ {ℓ} {K V : Type ℓ} ⦃key : Key K⦄ where
  abbrev pub entries : HashTable K V → List (K × V)
  entries t = flatten t.buckets

  -- Every entry stands where its key hashes, and `count` counts the entries.
  pub record IsValid (t : HashTable K V) : Type ℓ where
    pub placed : IsPlaced t.buckets
    pub counted : t.count ≡ length (entries t)

  -- `n` buckets that hold the entries `es`, in place.
  record Holds (n : ℕ) (es : List (K × V)) (bs : Buckets K V) : Type ℓ where
    width : length bs ≡ n
    same : Perm (flatten bs) es
    in_place : IsPlaced bs

  add_entry-Holds :
      (n : ℕ) (bs : Buckets K V) (es : List (K × V)) (e : K × V)
      → 0 < n
      → Holds n es bs
      → Holds n (e ∷ es) (add_entry bs (key.hash e.0 % n) e).1
  unfolding add_entry UnorderedArray.add
  add_entry-Holds n bs es e pos h =
      let i = key.hash e.0 % n in
      let lt : i < length bs = rw h.width (mod-lt (key.hash e.0) pos) in
      record {
        width = length-set bs i _ ∙ h.width;
        same =
            Perm.trans (flatten-set_add bs i e _ lt (perm_append_singleton e (bucket bs i)))
              (Perm.cons e h.same);
        in_place = IsPlaced-set bs i _ lt h.in_place (
            Hashed-append_one (length bs) i (bucket bs i) e (h.in_place i)
              (ap (λ w. key.hash e.0 % w) h.width));
      }

  module _ (n : ℕ) (pos : 0 < n) where
    move_bucket-Holds :
        (b : List (K × V)) (fresh : Buckets K V) (es : List (K × V))
        → Holds n es fresh
        → Holds n (b ++ es) (move_bucket n b fresh)
    unfolding move_bucket
    move_bucket-Holds [] fresh es h = h
    move_bucket-Holds (e ∷ b) fresh es h =
        let rest = move_bucket-Holds b _ (e ∷ es) (add_entry-Holds n fresh es e pos h) in
        record {
          width = rest.width;
          same = Perm.trans rest.same (perm_middle b es);
          in_place = rest.in_place;
        }

    move_buckets-Holds :
        (bs fresh : Buckets K V) (es : List (K × V))
        → Holds n es fresh
        → Holds n (flatten bs ++ es) (move_buckets n bs fresh)
    unfolding move_buckets flatten
    move_buckets-Holds [] fresh es h = h
    move_buckets-Holds (b ∷ bs) fresh es h =
        let rest = move_buckets-Holds bs _ (b ++ es) (move_bucket-Holds b fresh es h) in
        record {
          width = rest.width;
          same =
              Perm.trans rest.same rw (← append_assoc (flatten bs) b es)
                (Perm.append_right es (perm_append_comm (flatten bs) b));
          in_place = rest.in_place;
        }

  -- A rehash to a positive number of buckets keeps a table valid and keeps its entries, as a bag.
  pub rehash-Perm :
      (want : ℕ) (t : HashTable K V)
      → 0 < want
      → IsValid t
      → IsValid (rehash want t)
        × Perm (entries (rehash want t)) (entries t)
        × (length (rehash want t).buckets ≡ want)
  unfolding rehash
  rehash-Perm want t pos v =
      let empty : Holds want [] (replicate want []) = record {
        width = length-replicate want [];
        same = rw flatten-replicate (Perm.refl []);
        in_place = IsPlaced-replicate want;
      } in
      let h = move_buckets-Holds want pos t.buckets (replicate want []) [] empty in
      let same = rw (append-nil (flatten t.buckets)) at h.same in
      (record { placed = h.in_place; counted = v.counted ∙ sym (Perm-length same) }, same, h.width)

  record Ready (t u : HashTable K V) : Type ℓ where
    valid : IsValid u
    same : Perm (entries u) (entries t)
    count_same : u.count ≡ t.count
    room : t.count + 1 ≤ length u.buckets * 3 / 2

  rebucket-Ready : (t : HashTable K V) → IsValid t → Ready t (rebucket t)
  unfolding rebucket
  rebucket-Ready t v = elim (Bool-cases (ltb (length t.buckets * 3 / 2) (t.count + 1))) [
    | inl e ↦
        let (w, same, width) = rehash-Perm (t.count + 1) t (omega arith) v in
        rw e (record {
          valid = w;
          same = same;
          count_same = unfold rehash in refl;
          room = omega arith;
        })
    | inr e ↦
        rw e (record {
          valid = v;
          same = Perm.refl (entries t);
          count_same = refl;
          room = ground arith;
        })
  ]

  -- What `emplace` of `k` and `v` into `t` returns.
  pub record Added (k : K) (v : V) (t : HashTable K V) (r : Handle × HashTable K V) : Type ℓ where
    pub valid : IsValid r.1
    pub added : Perm (entries r.1) ((k, v) ∷ entries t)
    pub reads : entry r.1 r.0 ≡ some (k, v)
    pub counted : r.1.count ≡ t.count + 1
    pub roomy : r.1.count ≤ length r.1.buckets * 3 / 2

  -- From a valid table, also one with no buckets, `emplace` returns a valid table with one entry
  -- more, as a bag, and a handle at which the new entry is read; the buckets number at least two
  -- thirds of the entries.
  pub emplace-Added : (k : K) (x : V) (t : HashTable K V) → IsValid t → Added k x t (emplace k x t)
  unfolding emplace add_entry UnorderedArray.add entry
  emplace-Added k x t v =
      let u = rebucket t in
      let r = rebucket-Ready t v in
      let pos : 0 < length u.buckets = omega (arith, r.room) in
      let i = key.hash k % length u.buckets in
      let lt : i < length u.buckets = mod-lt (key.hash k) pos in
      let h =
        add_entry-Holds (length u.buckets) u.buckets (entries u) (k, x) pos
          (record { width = refl; same = Perm.refl (entries u); in_place = r.valid.placed }) in
      record {
        valid = record {
          placed = unfold add_entry UnorderedArray.add in h.in_place;
          counted = omega (arith, r.valid.counted, Perm-length h.same);
        };
        added = unfold add_entry UnorderedArray.add in Perm.trans h.same (Perm.cons (k, x) r.same);
        reads =
            rw (get_or-set_self u.buckets i (bucket u.buckets i ++ (k, x) ∷ []) [] lt)
              (get_elem?-append_last (bucket u.buckets i) (k, x));
        counted = omega (arith, r.count_same);
        roomy =
            rw (length-set u.buckets i (bucket u.buckets i ++ (k, x) ∷ []))
              (omega (arith, r.count_same, r.room));
      }
