-- ===== src/HashTable.antt =====
-- include/salgo/_/hash-table.inl: `Hash_Table` with values kept in place. A table is its vector of
-- buckets, each an `Unordered_Array` of entries, and the number of entries. A handle is the index
-- of a bucket and an index in it; `none` in a result is a fault.
pub mod Entries
pub mod Placed
pub mod Find
pub mod Emplace
pub mod Erase
pub mod Iterate
pub mod Commands
pub mod Represents
pub mod Map
use salgo.Base.{
  ℕ, zero, suc, ◌+◌, ◌-◌, ◌*◌, ◌/◌, ◌%◌, ◌≡◌, ◌↔◌, Bool, true, false, Option, none, some, List, [],
  ◌∷◌, ◌++◌, length, get_elem?, get_or, set, replicate, ltb, ◌==◌, if◌then◌else◌, ◌>>=◌, max,
}
use salgo.UnorderedArray

-- `operator==` of the keys and the template parameter `HASH`, a number of 64 bits.
pub record Key {ℓ} (K : Type ℓ) : Type ℓ where
  pub equal : K → K → Bool
  pub equal_iff : (a b : K) → (equal a b ≡ true) ↔ (a ≡ b)
  pub hash : K → ℕ

pub record Handle : Type 0 where
  pub a : ℕ
  pub b : ℕ

abbrev pub Buckets {ℓ} : Type ℓ → Type ℓ → Type ℓ
Buckets K V = List (List (K × V))

pub record HashTable {ℓ} (K V : Type ℓ) : Type ℓ where
  pub buckets : Buckets K V
  pub count : ℕ

abbrev pub bucket {ℓ} : {K V : Type ℓ} → Buckets K V → ℕ → List (K × V)
bucket bs i = get_or bs i []

abbrev pub want_buckets_for_count : ℕ → ℕ
want_buckets_for_count count = count + 1

module _ {ℓ} {K V : Type ℓ} ⦃key : Key K⦄ where
  -- `for(auto& e : bucket) if(_kv(e()).key == k) return e.handle()`, from the index `i`
  unfoldable pub scan : K → List (K × V) → ℕ → Option ℕ
  scan k [] i = none
  scan k (e ∷ es) i = if key.equal e.0 k then some i else scan k es (i + 1)

  -- `_find`: an invalid handle is `none`
  unfoldable pub find : K → HashTable K V → Option Handle
  unfolding scan
  find k t =
      if length t.buckets == 0
      then none
      else let i = key.hash k % length t.buckets in
        scan k (bucket t.buckets i) 0 >>= λ b. some (record { a = i; b = b })

  -- `_buckets[handle.a][handle.b]`
  unfoldable pub entry : HashTable K V → Handle → Option (K × V)
  entry t h = get_elem? (bucket t.buckets h.a) h.b

  -- `_buckets[i].add(e)`
  unfoldable pub add_entry : Buckets K V → ℕ → K × V → ℕ × Buckets K V
  add_entry bs i e = let (b, es) = UnorderedArray.add e (bucket bs i) in (b, set bs i es)

  -- the inner and the outer loop of `rehash`
  unfoldable pub move_bucket : ℕ → List (K × V) → Buckets K V → Buckets K V
  move_bucket want [] fresh = fresh
  move_bucket want (e ∷ es) fresh = move_bucket want es (add_entry fresh (key.hash e.0 % want) e).1

  unfoldable pub move_buckets : ℕ → Buckets K V → Buckets K V → Buckets K V
  move_buckets want [] fresh = fresh
  move_buckets want (b ∷ bs) fresh = move_buckets want bs (move_bucket want b fresh)

  unfoldable pub rehash : ℕ → HashTable K V → HashTable K V
  rehash want t = record t { buckets = move_buckets want t.buckets (replicate want []) }

  unfoldable pub reserve : ℕ → HashTable K V → HashTable K V
  reserve want_elements t = rehash (want_buckets_for_count want_elements) t

  -- the first statement of `emplace`
  unfoldable pub rebucket : HashTable K V → HashTable K V
  rebucket t =
      let want = want_buckets_for_count t.count in
      if ltb (length t.buckets * 3 / 2) want then rehash want t else t

  -- `emplace`: the handle of the new entry and the new table
  unfoldable pub emplace : K → V → HashTable K V → Handle × HashTable K V
  emplace k v t₀ =
      let t = rebucket t₀ in
      let i = key.hash k % length t.buckets in
      let (b, bs) = add_entry t.buckets i (k, v) in
      (record { a = i; b = b }, record { buckets = bs; count = t.count + 1 })

  unfoldable pub emplace_if_not_found : K → V → HashTable K V → Handle × HashTable K V
  emplace_if_not_found k v t = elim (find k t) [ some h ↦ (h, t) | none ↦ emplace k v t ]

  -- `erase(handle)`
  unfoldable pub erase : Handle → HashTable K V → Option (HashTable K V)
  erase h t = UnorderedArray.erase (bucket t.buckets h.a) h.b >>= λ es.
      some (record { buckets = set t.buckets h.a es; count = t.count - 1 })

  unfoldable pub max_bucket_size : Buckets K V → ℕ → ℕ
  max_bucket_size [] r = r
  max_bucket_size (b ∷ bs) r = max_bucket_size bs (max r (length b))

  -- `operator[](k)`: the value under a key
  unfoldable pub value_at : K → HashTable K V → Option V
  value_at k t = do h ← find k t; e ← entry t h; some e.1

  -- the loop of `_increment`: the bucket `a` is done, go to the last entry of the next bucket down
  -- that is not empty; `none` is the handle whose `a` is `-1`
  unfoldable pub settle : Buckets K V → ℕ → Option Handle
  settle bs zero = none
  settle bs (suc a) =
      let rest = settle bs a in
      if length (bucket bs a) == 0
      then rest
      else some (record { a = a; b = length (bucket bs a) - 1 })

  -- `_increment`
  unfoldable pub increment : Buckets K V → Handle → Option Handle
  increment bs h = if h.b == 0 then settle bs h.a else some (record { a = h.a; b = h.b - 1 })

  -- `begin`: the handle past the last bucket, incremented
  unfoldable pub begin : HashTable K V → Option Handle
  begin t = increment t.buckets (record { a = length t.buckets; b = 0 })

  -- `for(auto& e : table) if(p(e)) e.erase()`: the visited entries and the table that is left
  unfoldable pub iterate :
      ℕ → (K × V → Bool) → HashTable K V → Option Handle → Option (List (K × V) × HashTable K V)
  iterate fuel p t none = some ([], t)
  iterate zero p t (some h) = none
  iterate (suc fuel) p t (some h) = do
    e ← entry t h
    t' ← if p e then erase h t else some t
    (visited, last) ← iterate fuel p t' (increment t'.buckets h)
    some (e ∷ visited, last)
