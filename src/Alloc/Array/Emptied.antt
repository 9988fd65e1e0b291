-- ===== src/Alloc/Array/Emptied.antt =====
-- `construct` after the constructor and some calls of `destruct`.
use salgo.Base.{
  ℕ, zero, suc, ◌+◌, ◌-◌, ◌*◌, ◌≤◌, ◌<◌, ◌≡◌, refl, ap, sym, ◌∙◌, Option, none, some, Option-cases,
  List, [], ◌∷◌, ◌>>=◌, length, get_elem?, set, replicate, leb, inl, inr, false, arith,
  length-replicate, length-set, get_elem?-outside,
}
use salgo.Alloc.Array.{ArrayAllocator, grow, probe, construct, destruct, starting}
use salgo.DynamicArray.{construct_from}
use salgo.MemoryBlock
use salgo.MemoryBlock.{Block}

some_injective {ℓ} : {A : Type ℓ} {x y : A} → Path (Option A) (some x) (some y) → x ≡ y
some_injective e = cc

module _ {ℓ} {V : Type ℓ} where
  probe-outside : (fuel : ℕ) (s : Block V) (i : ℕ) → length s ≤ i → probe fuel s i ≡ none
  unfolding probe
  probe-outside zero s i h = refl
  probe-outside (suc fuel) s i h = rw (get_elem?-outside s i h)

  -- Out of bounds of a block that need not grow, `construct` faults.
  lookup_faults :
      (x : V) (s : ArrayAllocator V)
      → length s.v ≤ s.lookup_index
      → s.num_existing * 2 < length s.v
      → construct x s ≡ none
  unfolding construct grow
  lookup_faults x s out few =
      let room : leb (length s.v) (s.num_existing * 2) ≡ false = ground arith in
      rw (room, probe-outside (length s.v) s.v s.lookup_index out)

  construct-length :
      (i : ℕ) (x : V) (s t : Block V) → MemoryBlock.construct i x s ≡ some t → length t ≡ length s
  unfolding MemoryBlock.construct
  construct-length i x s t e = elim (Option-cases (get_elem? s i)) [
    | inl out ↦ let bad = rw out at e in absurd (cc)
    | inr (slot, at) ↦ elim (Option-cases slot) [
      | inl free ↦
          let made : Path (Option (Block V)) (some (set s i (some x))) (some t) =
            rw (at, free) at e in
          ap length (some_injective (sym made)) ∙ length-set s i (some x)
      | inr (y, taken) ↦ let bad = rw (at, taken) at e in absurd (cc)
    ]
  ]

  construct_from-length :
      (rounds i : ℕ) (x : V) (s t : Block V)
      → construct_from rounds i x s ≡ some t
      → length t ≡ length s
  unfolding construct_from
  construct_from-length zero i x s t e = ap length (some_injective (sym e))
  construct_from-length (suc rounds) i x s t e = elim (Option-cases (MemoryBlock.construct i x s)) [
    | inl fault ↦ let bad = rw fault at e in absurd (cc)
    | inr (u, made) ↦
        construct_from-length rounds (i + 1) x u t (rw made at e) ∙ construct-length i x s u made
  ]

  -- `destruct` of the elements at the handles, one after the other
  unfoldable pub destruct_all : List ℕ → ArrayAllocator V → Option (ArrayAllocator V)
  destruct_all [] s = some s
  destruct_all (h ∷ hs) s = destruct h s >>= destruct_all hs

  -- What is left of an allocator after the destructions.
  record Emptied (k : ℕ) (s t : ArrayAllocator V) : Type ℓ where
    same_length : length t.v ≡ length s.v
    same_index : t.lookup_index ≡ s.lookup_index
    counted : t.num_existing ≡ s.num_existing - k

  destruct-Emptied : (h : ℕ) (s t : ArrayAllocator V) → destruct h s ≡ some t → Emptied 1 s t
  unfolding destruct MemoryBlock.destruct
  destruct-Emptied h s t e = elim (Option-cases (MemoryBlock.read s.v h)) [
    | inl fault ↦ let bad = rw fault at e in absurd (cc)
    | inr (x, at) ↦
        let u : ArrayAllocator V = record s {
          v = set s.v h none;
          num_existing = s.num_existing - 1;
        } in
        let t_is : u ≡ t = some_injective (rw at at e) in
        rw (← t_is)
          (record { same_length = length-set s.v h none; same_index = refl; counted = refl })
  ]

  destruct_all-Emptied :
      (hs : List ℕ) (s t : ArrayAllocator V) → destruct_all hs s ≡ some t → Emptied (length hs) s t
  unfolding destruct_all
  destruct_all-Emptied [] s t e =
      rw (← some_injective e)
        (record { same_length = refl; same_index = refl; counted = omega arith })
  destruct_all-Emptied (h ∷ hs) s t e = elim (Option-cases (destruct h s)) [
    | inl fault ↦ let bad = rw fault at e in absurd (cc)
    | inr (u, run) ↦
        let a = destruct-Emptied h s u run in
        let b = destruct_all-Emptied hs u t (rw run at e) in
        record {
          same_length = b.same_length ∙ a.same_length;
          same_index = b.same_index ∙ a.same_index;
          counted = omega (arith, a.counted, b.counted);
        }
  ]

  -- After the constructor with `n` elements and the destruction of more than half of them,
  -- `construct` faults: `lookup_index` stands at `n`, out of bounds.
  pub construct_faults :
      (n : ℕ) (x y : V) (hs : List ℕ) (s t : ArrayAllocator V)
      → starting n x ≡ some s
      → destruct_all hs s ≡ some t
      → n < length hs * 2
      → 0 < n
      → construct y t ≡ none
  unfolding starting
  construct_faults n x y hs s t made emptied few pos =
      elim (Option-cases (construct_from n 0 x (replicate n none))) [
        | inl fault ↦ let bad = rw fault at made in absurd (cc)
        | inr (b, run) ↦
            let s_is : record { v = b; num_existing = n; lookup_index = n } ≡ s =
              some_injective (rw run at made) in
            let size : length b ≡ n =
              construct_from-length n 0 x (replicate n none) b run
              ∙ length-replicate {A = Option V} n none in
            let e = destruct_all-Emptied hs s t emptied in
            let same_length : length s.v ≡ length b = ap (λ z. length z.v) (sym s_is) in
            let same_index : s.lookup_index ≡ n = ap (λ z. z.lookup_index) (sym s_is) in
            let same_count : s.num_existing ≡ n = ap (λ z. z.num_existing) (sym s_is) in
            lookup_faults y t
              (omega (arith, e.same_length, e.same_index, same_length, same_index, size))
              (omega (arith, e.same_length, e.counted, same_length, same_count, size))
      ]
