-- ===== src/ChunkedArray/Access.antt =====
-- Access by the handle of an index.
use native.Mathlib.Nat.{pow-zero, pow-suc}
use salgo.Base.{
  ℕ, zero, suc, ◌+◌, ◌-◌, ◌^◌, ◌<◌, ◌≡◌, refl, ap, sym, ◌∙◌, true, Option, none, some, List, [],
  ◌∷◌, ◌++◌, flatten, set, length-set, length, get_elem?, get_or, replicate, ltb, ◌>>=◌, arith,
}
use salgo.ChunkedArray.{LeadingZeros, Handle, ChunkedArray, of_index, read, block_of}
use salgo.ChunkedArray.Blocks.{
  Doubling, pow_le, set-append_right, get_elem?-flatten, get_elem?-append_left,
}
use salgo.ChunkedArray.Grow.{Holds, existing}
use salgo.ChunkedArray.Handles.{IsHandle, of_index-IsHandle, power_bound}
use salgo.MemoryBlock.{Block}
use salgo.MemoryBlock

get_elem?-get_or {ℓ} :
    {A : Type ℓ} (xs : List A) (i : ℕ) (d : A)
    → i < length xs
    → get_elem? xs i ≡ some (get_or xs i d)
get_elem?-get_or [] i d h = absurd (omega arith)
get_elem?-get_or (x ∷ xs) zero d h = refl
get_elem?-get_or (x ∷ xs) (suc i) d h = get_elem?-get_or xs i d (omega arith)

module _ {ℓ} {A : Type ℓ} where
  set-append_left :
      (xs ys : List A) (i : ℕ) (v : A) → i < length xs → set (xs ++ ys) i v ≡ set xs i v ++ ys
  set-append_left [] ys i v h = absurd (omega arith)
  set-append_left (x ∷ xs) ys zero v h = refl
  set-append_left (x ∷ xs) ys (suc i) v h =
      ap (λ z. x ∷ z) (set-append_left xs ys i v (omega arith))

  Doubling-set :
      (n : ℕ) (bs : List (List A)) (a : ℕ) (b : List A)
      → Doubling n bs
      → length b ≡ length (get_or bs a [])
      → Doubling n (set bs a b)
  Doubling-set n [] a b d e = d
  Doubling-set n (c ∷ bs) zero b d e = (e ∙ d.0, d.1)
  Doubling-set n (c ∷ bs) (suc a) b d e = (d.0, Doubling-set (suc n) bs a b d.1 e)

  -- A write in a block, among the elements of all blocks.
  set-flatten :
      (n : ℕ) (bs : List (List A)) (a b i : ℕ) (v : A)
      → Doubling n bs
      → a < length bs
      → b < 2 ^ (n + a)
      → i + 2 ^ n ≡ 2 ^ (n + a) + b
      → flatten (set bs a (set (get_or bs a []) b v)) ≡ set (flatten bs) i v
  unfolding flatten
  set-flatten n [] a b i v d lt inside e = absurd (omega arith)
  set-flatten n (c ∷ bs) zero b i v d lt inside e =
      let zeroth : n + 0 ≡ n = omega arith in
      let same : i ≡ b = (let e' = rw zeroth at e in omega arith) in
      let inside' : b < length c =
        (let here = d.0 in let inside' = rw zeroth at inside in omega arith) in
      rw same (sym (set-append_left c (flatten bs) b v inside'))
  set-flatten n (c ∷ bs) (suc a) b i v d lt inside e =
      let index : n + suc a ≡ suc n + a = omega arith in
      let e' = rw index at e in
      let here = d.0 in
      let more = pow-suc 2 n in
      let grows = pow_le (suc n) (suc n + a) (omega arith) in
      let past : i ≡ length c + (i - length c) = omega (arith, e', here, more, grows) in
      let rest =
        set-flatten (suc n) bs a b (i - length c) v d.1 (omega arith) (rw index at inside)
          (omega (arith, e', here, more, past)) in
      rw past (ap (λ z. c ++ z) rest ∙ sym (set-append_right c (flatten bs) (i - length c) v))

module _ {ℓ} {V : Type ℓ} where
  -- The slot `i` of an array, under its handle.
  pub record Located (vs : List (Option V)) (c : ChunkedArray V) (i : ℕ) (h : Handle) : Type ℓ where
    pub block : Block V
    pub found : block_of c h ≡ some block
    pub slot : get_elem? block h.b ≡ get_elem? vs i
    pub written :
        (v : Option V) (n : ℕ)
        → n ≡ existing (set vs i v)
        → Holds (set vs i v) (record {
          blocks = set c.blocks h.a (set block h.b v);
          size = c.size;
          num_existing = n;
        })

  IsHandle-Located :
      (vs : List (Option V)) (c : ChunkedArray V) (i : ℕ) (h : Handle)
      → Holds vs c
      → i < length vs
      → IsHandle i h
      → Located vs c i h
  IsHandle-Located vs c i h p lt q =
      let inside = q.inside in
      let zeroth : 0 + h.a ≡ h.a = omega arith in
      let below : h.a < length c.blocks =
        power_bound h.a (length c.blocks) (omega (arith, q.number, p.fits, p.size_is)) in
      let (len, reads) = get_elem?-flatten 0 c.blocks h.a h.b p.doubling below (rw zeroth inside) in
      let width = rw zeroth at len in
      let found = get_elem?-get_or c.blocks h.a [] below in
      let fits : ltb h.b (length (get_or c.blocks h.a [])) ≡ true = ground arith in
      let power : 2 ^ (0 + h.a) ≡ 2 ^ h.a = ap (λ k. 2 ^ k) zeroth in
      let index : i + 2 ^ 0 ≡ 2 ^ (0 + h.a) + h.b = omega (arith, q.number, pow-zero 2, power) in
      record {
        block = get_or c.blocks h.a [];
        found = unfold block_of in rw (found, fits) refl;
        slot =
            sym (reads i index)
            ∙ ap (λ z. get_elem? z i) p.slots
            ∙ get_elem?-append_left vs (replicate p.gap none) i lt;
        written = λ v n num. record {
          doubling =
              Doubling-set 0 c.blocks h.a (set (get_or c.blocks h.a []) h.b v) p.doubling
                (length-set (get_or c.blocks h.a []) h.b v);
          size_is = p.size_is ∙ sym (length-set vs i v);
          needed = rw (length-set c.blocks h.a (set (get_or c.blocks h.a []) h.b v)) p.needed;
          fits = rw (length-set c.blocks h.a (set (get_or c.blocks h.a []) h.b v)) p.fits;
          gap = p.gap;
          slots =
              set-flatten 0 c.blocks h.a h.b i v p.doubling below (rw zeroth inside) index
              ∙ ap (λ z. set z i v) p.slots
              ∙ set-append_left vs (replicate p.gap none) i v lt;
          counted = num;
        };
      }

  module _ ⦃zeros : LeadingZeros⦄ where
    pub of_index-Located :
        (vs : List (Option V)) (c : ChunkedArray V) (i : ℕ)
        → Holds vs c
        → i < length vs
        → i + 1 < 2 ^ 32
        → Located vs c i (of_index i)
    of_index-Located vs c i p lt small =
        IsHandle-Located vs c i (of_index i) p lt (of_index-IsHandle i small)

    -- `operator[]` at the handle of an index reads the value in that slot, and fails its check where
    -- the slot is a hole.
    pub read-of_index :
        (vs : List (Option V)) (c : ChunkedArray V) (i : ℕ)
        → Holds vs c
        → i < length vs
        → i + 1 < 2 ^ 32
        → read c (of_index i) ≡ (get_elem? vs i >>= λ slot. slot)
    unfolding read MemoryBlock.read
    read-of_index vs c i p lt small =
        let at = of_index-Located vs c i p lt small in rw (at.found, at.slot) refl
