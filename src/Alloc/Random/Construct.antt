-- ===== src/Alloc/Random/Construct.antt =====
-- `construct` finds a free slot.
use Prim.Native.Nat.{bit_and}
use salgo.Alloc.Random.{RandomAllocator, scan, search, construct}
use salgo.Base.{
  ℕ, zero, suc, ◌+◌, ◌-◌, ◌*◌, ◌%◌, ◌^◌, ◌≤◌, ◌<◌, ◌≡◌, ◌≢◌, refl, ap, sym, ◌∙◌, true, false, ◌||◌,
  Option, none, some, List, [], ◌∷◌, ◌++◌, length, get_elem?, set, ltb, leb, ◌==◌, inl, inr, ◌⊎◌,
  Bool-cases, Option-cases, get_elem?-lt, get_elem?-some, arith,
}
use salgo.Base.Masks.{bit_and-mask, bit_and-next}
use salgo.ChunkedArray.{
  LeadingZeros, Handle, ChunkedArray, of_index, constructed, emplace_back, capacity,
}
use salgo.ChunkedArray
use salgo.ChunkedArray.Emplace.{emplace_back-Appended}
use salgo.ChunkedArray.Grow.{Holds, existing}
use salgo.ChunkedArray.Slots.{is_some, constructed-of_index, construct-of_index}
use salgo.Rand.{next, after, rand_32}

module _ {ℓ} {V : Type ℓ} ⦃zeros : LeadingZeros⦄ where
  -- What the loop over the elements from `idx` on finds: a hole if there is one.
  record Scanned (vs : List (Option V)) (rounds idx : ℕ) (found : Option ℕ) : Type ℓ where
    hole : (i : ℕ) → found ≡ some i → get_elem? vs i ≡ some none
    all : (j : ℕ) → idx ≤ j → j < idx + rounds → get_elem? vs j ≡ some none → found ≢ none

  scan_here :
      (vs : List (Option V)) (c : ChunkedArray V) (rounds idx : ℕ) (slot : Option V)
      (rest : Option ℕ)
      → get_elem? vs idx ≡ some slot
      → leb c.size idx ≡ false
      → constructed c (of_index idx) ≡ some (is_some slot)
      → scan rounds (idx + 1) c ≡ some rest
      → Scanned vs rounds (idx + 1) rest
      → (found : Option ℕ) × (scan (suc rounds) idx c ≡ some found)
        × Scanned vs (suc rounds) idx found
  unfolding scan
  scan_here vs c rounds idx none rest at e run go s = (
    some idx,
    rw (e, run) refl,
    record {
      hole = λ i f. (let same : idx ≡ i = cc in ap (get_elem? vs) (sym same) ∙ at);
      all = λ j lo hi f. λ g. (let bad : some idx ≡ none = g in cc);
    },
  )
  scan_here vs c rounds idx (some x) rest at e run go s = (
    rest,
    rw (e, run) go,
    record {
      hole = s.hole;
      all = λ j lo hi f. elim (Bool-cases (j == idx)) [
        | inl same ↦
            let eq : j ≡ idx = ground arith in
            let bad = rw eq at f in absurd (let no_hole : get_elem? vs idx ≡ some none = bad in cc)
        | inr other ↦ s.all j (ground arith) (omega arith) f
      ];
    },
  )

  scan-Scanned :
      (vs : List (Option V)) (c : ChunkedArray V) (rounds idx : ℕ)
      → Holds vs c
      → length vs + 1 < 2 ^ 32
      → (found : Option ℕ) × (scan rounds idx c ≡ some found) × Scanned vs rounds idx found
  unfolding scan
  scan-Scanned vs c zero idx p small =
      (none, refl, record { hole = λ i e. cc; all = λ j lo hi e. absurd (omega arith) })
  scan-Scanned vs c (suc rounds) idx p small = elim (Bool-cases (leb c.size idx)) [
    | inl e ↦
        let size = p.size_is in
        let past : length vs ≤ idx = ground arith in
        (
          none,
          rw e refl,
          record {
            hole = λ i f. cc;
            all = λ j lo hi at. absurd (let inside = get_elem?-lt vs j at in omega arith);
          },
        )
    | inr e ↦
        let size = p.size_is in
        let inside : idx < length vs = ground arith in
        let (slot, at) = get_elem?-some vs idx inside in
        let run = constructed-of_index vs c idx slot p at inside (omega arith) in
        let (rest, go, s) = scan-Scanned vs c rounds (idx + 1) p small in
        scan_here vs c rounds idx slot rest at e run go s
  ]

  -- A hole of `vs` was filled with `x`, under the handle of its index.
  pub record Filled (vs : List (Option V)) (x : V) (h : Handle) (r' : RandomAllocator V)
      : Type ℓ where
    pub index : ℕ
    pub hole : get_elem? vs index ≡ some none
    pub handle : h ≡ of_index index
    pub valid : Holds (set vs index (some x)) r'.v

  search_found :
      (fuel : ℕ) (x : V) (r : RandomAllocator V) (i : ℕ) (c : ChunkedArray V)
      → bit_and r.v.size (r.v.size + 1) ≡ 0
      → scan 10 (bit_and (rand_32 r.generator).0 r.v.size) r.v ≡ some (some i)
      → ChunkedArray.construct (of_index i) x r.v ≡ some c
      → search (suc fuel) x r
        ≡ some (of_index i, record { v = c; generator = (rand_32 r.generator).1 })
  unfolding search
  search_found fuel x r i c mask found run =
      let check : (bit_and r.v.size (r.v.size + 1) == 0) ≡ true = ground arith in
      rw (check, found, run) refl

  search_again :
      (fuel : ℕ) (x : V) (r : RandomAllocator V)
      → bit_and r.v.size (r.v.size + 1) ≡ 0
      → scan 10 (bit_and (rand_32 r.generator).0 r.v.size) r.v ≡ some none
      → search (suc fuel) x r ≡ search fuel x (record r { generator = (rand_32 r.generator).1 })
  unfolding search
  search_again fuel x r mask found =
      let check : (bit_and r.v.size (r.v.size + 1) == 0) ≡ true = ground arith in
      rw (check, found) refl

  module _ (vs : List (Option V)) (x : V) (k : ℕ) (small : length vs + 1 < 2 ^ 32) where
    masked :
        (r : RandomAllocator V)
        → Holds vs r.v
        → r.v.size + 1 ≡ 2 ^ k
        → bit_and (rand_32 r.generator).0 r.v.size ≡ (rand_32 r.generator).0 % (length vs + 1)
    masked r p full =
        let size = p.size_is in
        let mask : r.v.size ≡ 2 ^ k - 1 = omega arith in
        let width : 2 ^ k ≡ length vs + 1 = omega arith in
        ap (bit_and (rand_32 r.generator).0) mask
        ∙ bit_and-mask k (rand_32 r.generator).0
        ∙ ap (λ w. (rand_32 r.generator).0 % w) width

    search_now :
        (fuel : ℕ) (r : RandomAllocator V)
        → Holds vs r.v
        → r.v.size + 1 ≡ 2 ^ k
        → (i : ℕ) → scan 10 (bit_and (rand_32 r.generator).0 r.v.size) r.v ≡ some (some i)
        → get_elem? vs i ≡ some none
        → (h : Handle) × (r' : RandomAllocator V) × (search (suc fuel) x r ≡ some (h, r'))
          × Filled vs x h r'
    search_now fuel r p full i run at =
        let inside = get_elem?-lt vs i at in
        let (c, made, q) = construct-of_index vs r.v i x p at inside (omega arith) in
        (
          of_index i,
          record { v = c; generator = (rand_32 r.generator).1 },
          search_found fuel x r i c (bit_and-next k r.v.size full) run made,
          record { index = i; hole = at; handle = refl; valid = q },
        )

    search-Filled :
        (fuel n j : ℕ) (r : RandomAllocator V)
        → Holds vs r.v
        → r.v.size + 1 ≡ 2 ^ k
        → n < fuel
        → get_elem? vs j ≡ some none
        → (rand_32 (after n r.generator)).0 % (length vs + 1) ≤ j
        → j < (rand_32 (after n r.generator)).0 % (length vs + 1) + 10
        → (h : Handle) × (r' : RandomAllocator V) × (search fuel x r ≡ some (h, r'))
          × Filled vs x h r'
    unfolding after rand_32
    search-Filled zero n j r p full more hole lo hi = absurd (omega arith)
    search-Filled (suc fuel) zero j r p full more hole lo hi =
        let (found, run, s) =
          scan-Scanned vs r.v 10 (bit_and (rand_32 r.generator).0 r.v.size) p small in
        let idx = masked r p full in
        elim (Option-cases found) [
          | inl nothing ↦ absurd (s.all j (rw idx lo) (rw idx hi) hole nothing)
          | inr (i, e) ↦ search_now fuel r p full i (run ∙ ap some e) (s.hole i e)
        ]
    search-Filled (suc fuel) (suc n) j r p full more hole lo hi =
        let (found, run, s) =
          scan-Scanned vs r.v 10 (bit_and (rand_32 r.generator).0 r.v.size) p small in
        elim (Option-cases found) [
          | inl nothing ↦
              let (h, r', go, q) =
                search-Filled fuel n j (record r { generator = (next r.generator).1 }) p full
                  (omega arith) hole lo hi in
              (
                h,
                r',
                search_again fuel x r (bit_and-next k r.v.size full) (run ∙ ap some nothing) ∙ go,
                q,
              )
          | inr (i, e) ↦ search_now fuel r p full i (run ∙ ap some e) (s.hole i e)
        ]

  some_hole :
      (vs : List (Option V)) → existing vs < length vs → (j : ℕ) × (get_elem? vs j ≡ some none)
  some_hole [] lt = absurd (omega arith)
  some_hole (none ∷ vs) lt = (0, refl)
  some_hole (some x ∷ vs) lt = let (j, e) = some_hole vs (omega arith) in (suc j, e)

  -- What `construct` returns: the handle of a slot that held no value, at the end or in a hole.
  pub record Constructed (vs : List (Option V)) (x : V) (h : Handle) (r' : RandomAllocator V)
      : Type ℓ where
    pub index : ℕ
    pub handle : h ≡ of_index index
    pub valid :
        ((index ≡ length vs) × Holds (vs ++ some x ∷ []) r'.v)
        ⊎ ((get_elem? vs index ≡ some none) × Holds (set vs index (some x)) r'.v)

  -- `construct` returns if for every slot one of the first `n + 1` draws falls on it or on one of the
  -- nine slots before it. No slot that holds a value is handed out or changed.
  pub construct-Constructed :
      (vs : List (Option V)) (x : V) (r : RandomAllocator V) (n : ℕ)
      → Holds vs r.v
      → length vs + 1 < 2 ^ 32
      → ((j : ℕ)
          → j < length vs
          → (m : ℕ) × (m ≤ n)
            × ((rand_32 (after m r.generator)).0 % (length vs + 1) ≤ j)
            × (j < (rand_32 (after m r.generator)).0 % (length vs + 1) + 10))
      → (h : Handle) × (r' : RandomAllocator V) × (construct (n + 1) x r ≡ some (h, r'))
        × Constructed vs x h r'
  unfolding construct capacity
  construct-Constructed vs x r n p small covers =
      elim (Bool-cases
        (ltb r.v.size (2 ^ length r.v.blocks - 1) || leb r.v.size (r.v.num_existing * 2))) [
          | inl e ↦
              let (c, run, q) = emplace_back-Appended vs x r.v p small in
              (
                of_index (length vs),
                record r { v = c },
                rw (e, run) refl,
                record { index = length vs; handle = refl; valid = inl (refl, q) },
              )
          | inr e ↦
              let size = p.size_is in
              let counted = p.counted in
              let fits = p.fits in
              let full : r.v.size + 1 ≡ 2 ^ length r.v.blocks = ground arith in
              let sparse : existing vs < length vs = ground arith in
              let (j, hole) = some_hole vs sparse in
              let (m, le, lo, hi) = covers j (get_elem?-lt vs j hole) in
              let (h, r', run, q) =
                search-Filled vs x (length r.v.blocks) small (n + 1) m j r p full (omega arith) hole
                  lo hi in
              (
                h,
                r',
                rw e run,
                record { index = q.index; handle = q.handle; valid = inr (q.hole, q.valid) },
              )
        ]
