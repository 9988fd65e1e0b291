-- ===== src/Alloc/Crude/Construct.antt =====
-- `construct` never hands out a slot twice.
use native.Mathlib.Nat.{pow-suc}
use salgo.Alloc.Crude.Handles.{unpack-pack}
use salgo.Base.{
  ℕ, zero, suc, ◌+◌, ◌-◌, ◌*◌, ◌^◌, ◌≤◌, ◌<◌, ◌≡◌, ◌≢◌, refl, ap, sym, ◌∙◌, Option, none, some,
  List, [], ◌∷◌, ◌++◌, ◌>>=◌, ◌⊎◌, inl, inr, length, get_elem?, get_or, set, replicate, leb, ltb,
  true, ◌==◌, Bool-cases, length-append, length-replicate, length-set, get_elem?-set_self,
  get_elem?-set_ne, get_or-set_self, get_or-set_ne, get_or_outside, arith,
}
use salgo.Alloc.Crude.{Handle, CrudeAllocator, make_handle, grow, construct, read, pack, unpack}

pow-two_mono : (k n : ℕ) → k ≤ n → 2 ^ k ≤ 2 ^ n
pow-two_mono k zero h = let same : k ≡ 0 = omega arith in rw same (omega arith)
pow-two_mono k (suc n) h = elim (Bool-cases (k == suc n)) [
  | inl e ↦ let same : k ≡ suc n = ground arith in rw same (omega arith)
  | inr ne ↦
      let smaller : k ≤ n = ground arith in omega (arith, pow-suc 2 n, pow-two_mono k n smaller)
]

compare-cases : (a b : ℕ) → (a < b) ⊎ ((a ≡ b) ⊎ (b < a))
compare-cases a b = elim (Bool-cases (ltb a b)) [
  | inl t ↦ inl (ground arith)
  | inr f ↦ elim (Bool-cases (a == b)) [
    | inl e ↦ inr (inl (ground arith))
    | inr n ↦ inr (inr (ground arith))
  ]
]

make_handle_lem : (h : Handle) → h.a < 2 ^ 5 → h.b < 2 ^ 27 → make_handle h.a h.b ≡ some h
unfolding make_handle
make_handle_lem h a b =
    let first : ltb h.a (2 ^ 5) ≡ true = ground arith in
    let second : ltb h.b (2 ^ 27) ≡ true = ground arith in rw (first, second)

module _ {ℓ} {V : Type ℓ} where
  abbrev last : CrudeAllocator V → List (Option V)
  last s = get_or s.blocks (length s.blocks - 1) []

  -- The last block has the current size, its slots from `current_filled` on hold no value, and the
  -- sizes of the blocks are 2, 6, 14 and so on.
  pub record IsValid (s : CrudeAllocator V) : Type ℓ where
    pub width : length (last s) ≡ s.current_max_size
    pub filled : s.current_filled ≤ s.current_max_size
    pub unused :
        (i : ℕ) → s.current_filled ≤ i → i < s.current_max_size → get_elem? (last s) i ≡ some none
    pub sized : s.current_max_size + 2 ≡ 2 ^ (length s.blocks + 1)

  -- Between the two statements of `construct`.
  record Grown (s g : CrudeAllocator V) : Type ℓ where
    valid : IsValid g
    room : g.current_filled < g.current_max_size
    inside : 0 < length g.blocks
    reads : (h : Handle) → read g h ≡ read s h
    blocks_le : length g.blocks ≤ length s.blocks + 1

  get_or-append_first :
      (bs cs : List (List (Option V))) (i : ℕ)
      → i < length bs
      → get_or (bs ++ cs) i [] ≡ get_or bs i []
  get_or-append_first [] cs i h = absurd (omega arith)
  get_or-append_first (b ∷ bs) cs zero h = refl
  get_or-append_first (b ∷ bs) cs (suc i) h = get_or-append_first bs cs i (omega arith)

  get_or-append_last :
      (bs : List (List (Option V))) (b : List (Option V)) → get_or (bs ++ b ∷ []) (length bs) [] ≡ b
  get_or-append_last [] b = refl
  get_or-append_last (c ∷ bs) b = get_or-append_last bs b

  get_or-append_after :
      (bs : List (List (Option V))) (b : List (Option V)) (i : ℕ)
      → length bs < i
      → get_or (bs ++ b ∷ []) i [] ≡ []
  get_or-append_after bs b i h =
      get_or_outside (bs ++ b ∷ []) i [] (omega (arith, length-append bs (b ∷ [])))

  get_elem?-replicate :
      (n i : ℕ) → i < n → get_elem? (replicate {A = Option V} n none) i ≡ some none
  get_elem?-replicate zero i h = absurd (omega arith)
  get_elem?-replicate (suc n) zero h = refl
  get_elem?-replicate (suc n) (suc i) h = get_elem?-replicate n i (omega arith)

  no_value : (n i : ℕ) → (get_elem? (replicate {A = Option V} n none) i >>= λ slot. slot) ≡ none
  no_value zero i = refl
  no_value (suc n) zero = refl
  no_value (suc n) (suc i) = no_value n i

  nonempty :
      (s : CrudeAllocator V)
      → IsValid s
      → s.current_filled < s.current_max_size
      → 0 < length s.blocks
  nonempty s v room = elim (Bool-cases (leb (length s.blocks) 0)) [
    | inl t ↦
        let none_there : length s.blocks ≤ length s.blocks - 1 = ground arith in
        let bare : last s ≡ [] = get_or_outside s.blocks (length s.blocks - 1) [] none_there in
        let size : length (last s) ≡ 0 = ap length bare in
        absurd (omega (arith, v.width, size, room))
    | inr f ↦ ground arith
  ]

  -- A new block of slots without values, which reads nowhere.
  module _ (s : CrudeAllocator V) (n : ℕ) where
    abbrev block : List (Option V)
    block = replicate n none

    abbrev more : List (List (Option V))
    more = s.blocks ++ block ∷ []

    length-more : length more ≡ length s.blocks + 1
    length-more = length-append s.blocks (block ∷ [])

    last-more : get_or more (length more - 1) [] ≡ block
    last-more =
        let at : length more - 1 ≡ length s.blocks = omega (arith, length-more) in
        ap (λ i. get_or more i []) at ∙ get_or-append_last s.blocks block

    read-more :
        (i b : ℕ)
        → (get_elem? (get_or more i []) b >>= λ slot. slot)
          ≡ (get_elem? (get_or s.blocks i []) b >>= λ slot. slot)
    read-more i b = elim (compare-cases i (length s.blocks)) [
      | inl lt ↦ rw (get_or-append_first s.blocks (block ∷ []) i lt)
      | inr (inl same) ↦
          rw
            (
              same,
              get_or-append_last s.blocks block,
              get_or_outside s.blocks (length s.blocks) [] (omega arith),
            )
            (no_value n b)
      | inr (inr gt) ↦
          rw (get_or-append_after s.blocks block i gt, get_or_outside s.blocks i [] (omega arith))
    ]

  grow-Grown : (s : CrudeAllocator V) → IsValid s → Grown s (grow s)
  unfolding grow read
  grow-Grown s v = elim (Bool-cases (leb s.current_max_size s.current_filled)) [
    | inl full ↦
        let n = (s.current_max_size + 1) * 2 in
        let at = last-more s n in
        let size = length-replicate {A = Option V} n none in
        let longer = length-more s n in
        let exponent : length (more s n) + 1 ≡ suc (length s.blocks + 1) = omega (arith, longer) in
        rw full (record {
          valid = record {
            width = ap length at ∙ size;
            filled = omega arith;
            unused = λ i lo hi. ap (λ b. get_elem? b i) at ∙ get_elem?-replicate n i hi;
            sized =
                omega (arith, v.sized, pow-suc 2 (length s.blocks + 1))
                ∙ ap (λ k. 2 ^ k) (sym exponent);
          };
          room = omega arith;
          inside = omega (arith, longer);
          reads = λ h. read-more s n h.a h.b;
          blocks_le = omega (arith, longer);
        })
    | inr room ↦
        let room' : s.current_filled < s.current_max_size = ground arith in
        rw room (record {
          valid = v;
          room = room';
          inside = nonempty s v room';
          reads = λ h. refl;
          blocks_le = omega arith;
        })
  ]

  -- The outcome of `construct` of `x` in `s`.
  pub record Fresh (x : V) (s : CrudeAllocator V) (h : Handle) (s' : CrudeAllocator V)
      : Type ℓ where
    pub valid : IsValid s'
    pub free : read s h ≡ none
    pub reads : read s' h ≡ some x
    pub others : (k : Handle) → k ≢ h → read s' k ≡ read s k
    pub packed : unpack (pack h) ≡ h

  read-unused :
      (g : CrudeAllocator V)
      → IsValid g
      → g.current_filled < g.current_max_size
      → read g (record { a = length g.blocks - 1; b = g.current_filled }) ≡ none
  unfolding read
  read-unused g v room = rw (v.unused g.current_filled (omega arith) room)

  module _ (x : V) (g : CrudeAllocator V) where
    abbrev spot : ℕ
    spot = length g.blocks - 1

    abbrev filled_in : CrudeAllocator V
    filled_in = record g {
      blocks = set g.blocks spot (set (get_or g.blocks spot []) g.current_filled (some x));
      current_filled = g.current_filled + 1;
    }

    read_new :
        g.current_filled < length (last g)
        → spot < length g.blocks
        → read filled_in (record { a = spot; b = g.current_filled }) ≡ some x
    unfolding read
    read_new inner lt = rw (
      get_or-set_self g.blocks spot (set (last g) g.current_filled (some x)) [] lt,
      get_elem?-set_self (last g) g.current_filled (some x) inner,
    )

    read_others :
        spot < length g.blocks
        → (k : Handle) → k ≢ record { a = spot; b = g.current_filled }
        → read filled_in k ≡ read g k
    unfolding read
    read_others lt k ne =
        let block = set (last g) g.current_filled (some x) in
        elim (Bool-cases (k.a == spot)) [
          | inl t ↦
              let a_is : k.a ≡ spot = ground arith in
              let apart : g.current_filled ≢ k.b =
                λ b_is. ne (λ i. record { a = a_is i; b = sym b_is i }) in
              ap (λ i. get_elem? (get_or (set g.blocks spot block) i []) k.b >>= λ slot. slot) a_is
              ∙ ap (λ c. get_elem? c k.b >>= λ slot. slot)
                  (get_or-set_self g.blocks spot block [] lt)
              ∙ ap (λ e. e >>= λ slot. slot)
                  (get_elem?-set_ne (last g) {i = g.current_filled} {j = k.b} (some x) apart)
              ∙ ap (λ i. get_elem? (get_or g.blocks i []) k.b >>= λ slot. slot) (sym a_is)
          | inr f ↦
              let apart : spot ≢ k.a = ground arith in
              ap (λ c. get_elem? c k.b >>= λ slot. slot)
                (get_or-set_ne g.blocks spot k.a block [] apart)
        ]

  -- In a valid state with at most 25 blocks `construct` does not fault. Its handle survives packing,
  -- read no value before and reads the new value afterwards; every other handle reads what it read,
  -- and the new state is valid.
  pub construct-Unused :
      (x : V) (s : CrudeAllocator V)
      → IsValid s
      → length s.blocks ≤ 25
      → (h : Handle) × (s' : CrudeAllocator V) × (construct x s ≡ some (h, s')) × Fresh x s h s'
  unfolding construct
  construct-Unused x s v few =
      let g = grow s in
      let w = grow-Grown s v in
      let inside = w.inside in
      let room = w.room in
      let a = length g.blocks - 1 in
      let lt : a < length g.blocks = omega arith in
      let new = set (last g) g.current_filled (some x) in
      let h : Handle = record { a = a; b = g.current_filled } in
      let same_length = length-set g.blocks a new in
      let in_block : g.current_filled < length (last g) = omega (arith, w.valid.width) in
      let last_is : get_or (set g.blocks a new) (length (set g.blocks a new) - 1) [] ≡ new =
        ap (λ n. get_or (set g.blocks a new) (n - 1) []) same_length
        ∙ get_or-set_self g.blocks a new [] lt in
      let le = w.blocks_le in
      let big = pow-two_mono (length g.blocks + 1) 27 (omega arith) in
      let size = w.valid.sized in
      let small_a : h.a < 2 ^ 5 = omega arith in
      let small_b : h.b < 2 ^ 27 = omega arith in
      (
        h,
        filled_in x g,
        rw (make_handle_lem h small_a small_b),
        record {
          valid = record {
            width =
                ap length last_is ∙ length-set (last g) g.current_filled (some x) ∙ w.valid.width;
            filled = omega arith;
            unused = λ i lo hi.
                ap (λ b. get_elem? b i) last_is
                ∙ get_elem?-set_ne (last g) {i = g.current_filled} {j = i} (some x) (omega arith)
                ∙ w.valid.unused i (omega arith) hi;
            sized = w.valid.sized ∙ ap (λ n. 2 ^ (n + 1)) (sym same_length);
          };
          free = sym (w.reads h) ∙ read-unused g w.valid room;
          reads = read_new x g in_block lt;
          others = λ k ne. read_others x g lt k ne ∙ w.reads k;
          packed = (unpack-pack h small_a small_b).1;
        },
      )
