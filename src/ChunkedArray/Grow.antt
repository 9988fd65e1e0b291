-- ===== src/ChunkedArray/Grow.antt =====
-- `emplace_back`, and access by index.
use mathlib.Core.List.{append-nil}
use native.Mathlib.Nat.{pow-zero, pow-suc, mod_self}
use Prim.Native.Nat.{bit_and}
use salgo.Base.{
  ℕ, zero, suc, ◌+◌, ◌-◌, ◌*◌, ◌^◌, ◌≤◌, ◌<◌, ◌≡◌, refl, ap, sym, ◌∙◌, true, false, Option, none,
  some, List, [], ◌∷◌, ◌++◌, flatten, length, replicate, ◌==◌, length-append, length-replicate, inl,
  inr, Bool-cases, arith,
}
use salgo.Base.Masks.{bit_and-mask, bit_and-shared, pow-two_pos}
use salgo.ChunkedArray.{ChunkedArray, is_power_of_2, add_block}
use salgo.ChunkedArray.Blocks.{
  Doubling, Doubling-split, length-flatten-Doubling, flatten-append_one,
}
use salgo.MemoryBlock.{Block}
use salgo.UnorderedArray.Erase.{snoc}

is_power_of_2-power : (k : ℕ) → is_power_of_2 (2 ^ k) ≡ true
unfolding is_power_of_2
is_power_of_2-power k =
    let zero_left : bit_and (2 ^ k) (2 ^ k - 1) ≡ 0 = bit_and-mask k (2 ^ k) ∙ mod_self (2 ^ k) in
    ground arith

is_power_of_2-between : (k n : ℕ) → 2 ^ k < n → n < 2 ^ k + 2 ^ k → is_power_of_2 n ≡ false
unfolding is_power_of_2
is_power_of_2-between k n lo hi =
    let some_left = bit_and-shared k n (n - 1) (omega arith) hi (omega arith) (omega arith) in
    ground arith

pub pred_lem : (n : ℕ) → 0 < n → (m : ℕ) × (n ≡ suc m)
pred_lem zero h = absurd (omega arith)
pred_lem (suc m) h = (m, refl)

pub positive_of : (n : ℕ) → 1 < 2 ^ n → 0 < n
positive_of zero h = absurd (omega (arith, pow-zero 2))
positive_of (suc n) h = omega arith

module _ {ℓ} {V : Type ℓ} where
  abbrev pub existing : List (Option V) → ℕ
  existing [] = 0
  existing (none ∷ vs) = existing vs
  existing (some x ∷ vs) = suc (existing vs)

  pub existing-append_one :
      (vs : List (Option V)) (x : V) → existing (vs ++ some x ∷ []) ≡ existing vs + 1
  existing-append_one [] x = refl
  existing-append_one (none ∷ vs) x = existing-append_one vs x
  existing-append_one (some y ∷ vs) x = let rest = existing-append_one vs x in omega (arith, rest)

  -- The array holds the slots `vs`; one without a value is a hole. There is not one block too many.
  pub record Holds (vs : List (Option V)) (c : ChunkedArray V) : Type ℓ where
    pub doubling : Doubling 0 c.blocks
    pub size_is : c.size ≡ length vs
    pub needed : 2 ^ length c.blocks ≤ c.size * 2 + 1
    pub fits : c.size < 2 ^ length c.blocks
    pub gap : ℕ
    pub slots : flatten c.blocks ≡ vs ++ replicate gap none
    pub counted : c.num_existing ≡ existing vs

  -- The last block `block`, after the blocks `front`, has room for one element more than `vs`.
  pub record Roomy (vs : List (Option V)) (c : ChunkedArray V) : Type ℓ where
    pub front : List (Block V)
    pub block : Block V
    pub blocks_are : c.blocks ≡ front ++ block ∷ []
    pub doubling : Doubling 0 front
    pub width : length block ≡ 2 ^ length front
    pub size_is : c.size ≡ length vs + 1
    pub from : 2 ^ length front ≤ c.size
    pub below : c.size < 2 ^ length front + 2 ^ length front
    pub gap : ℕ
    pub slots : flatten front ++ block ≡ vs ++ none ∷ replicate gap none
    pub counted : c.num_existing ≡ existing vs

  -- The slots fill the blocks.
  pub gap_lem :
      (vs : List (Option V)) (c : ChunkedArray V) (p : Holds vs c)
      → c.size + p.gap + 1 ≡ 2 ^ length c.blocks
  gap_lem vs c p =
      let total = length-flatten-Doubling 0 c.blocks p.doubling in
      let size = ap length p.slots in
      let zeroth : 0 + length c.blocks ≡ length c.blocks = omega arith in
      let all = rw zeroth at total in
      omega (
        arith,
        all,
        size,
        pow-zero 2,
        p.size_is,
        length-append vs (replicate p.gap none),
        length-replicate {A = Option V} p.gap none,
      )

  between :
      (vs : List (Option V)) (c : ChunkedArray V)
      → Holds vs c
      → c.size + 1 < 2 ^ length c.blocks
      → is_power_of_2 (c.size + 1) ≡ false
  between vs c p room =
      let (k, more) = pred_lem (length c.blocks) (positive_of (length c.blocks) (omega arith)) in
      let power : 2 ^ length c.blocks ≡ 2 ^ k * 2 = ap (λ k. 2 ^ k) more ∙ pow-suc 2 k in
      let needed = p.needed in is_power_of_2-between k (c.size + 1) (omega arith) (omega arith)

  full-Roomy :
      (vs : List (Option V)) (c : ChunkedArray V)
      → Holds vs c
      → c.size + 1 ≡ 2 ^ length c.blocks
      → Roomy vs
          (record c { blocks = c.blocks ++ replicate (c.size + 1) none ∷ []; size = c.size + 1 })
  full-Roomy vs c p full =
      let none_left : p.gap ≡ 0 = (let g = gap_lem vs c p in omega arith) in
      let whole : flatten c.blocks ≡ vs = p.slots ∙ rw none_left (append-nil vs) in
      let one_more : c.size + 1 ≡ suc c.size = omega arith in
      record {
        front = c.blocks;
        block = replicate (c.size + 1) none;
        blocks_are = refl;
        doubling = p.doubling;
        width = length-replicate (c.size + 1) none ∙ full;
        size_is = (let s = p.size_is in omega arith);
        from = omega arith;
        below = (let pos = pow-two_pos (length c.blocks) in omega arith);
        gap = c.size;
        slots = rw (whole, one_more) refl;
        counted = p.counted;
      }

  room-Roomy :
      (vs : List (Option V)) (c : ChunkedArray V)
      → Holds vs c
      → c.size + 1 < 2 ^ length c.blocks
      → Roomy vs (record c { size = c.size + 1 })
  room-Roomy vs c p room =
      let total = gap_lem vs c p in
      let (gap, more) = pred_lem p.gap (omega arith) in
      let inhabited : 0 < length c.blocks = positive_of (length c.blocks) (omega arith) in
      let (block, front, parts) = snoc c.blocks inhabited in
      let (doubling, width) = Doubling-split 0 front block (rw parts at p.doubling) in
      let zeroth : 0 + length front ≡ length front = omega arith in
      let count : length c.blocks ≡ suc (length front) =
        ap length parts ∙ length-append front (block ∷ []) ∙ omega arith in
      let power : 2 ^ length c.blocks ≡ 2 * 2 ^ length front =
        ap (λ k. 2 ^ k) count ∙ pow-suc 2 (length front) ∙ omega arith in
      let needed = p.needed in
      record {
        front = front;
        block = block;
        blocks_are = parts;
        doubling = doubling;
        width = rw zeroth at width;
        size_is = (let s = p.size_is in omega arith);
        from = omega arith;
        below = omega arith;
        gap = gap;
        slots =
            sym (flatten-append_one front block)
            ∙ ap flatten (sym parts)
            ∙ p.slots
            ∙ ap (λ g. vs ++ replicate g none) more;
        counted = p.counted;
      }

  pub add_block-Roomy :
      (vs : List (Option V)) (c : ChunkedArray V) → Holds vs c → Roomy vs (add_block c)
  unfolding add_block
  add_block-Roomy vs c p = elim (Bool-cases (c.size + 1 == 2 ^ length c.blocks)) [
    | inl e ↦
        let full : c.size + 1 ≡ 2 ^ length c.blocks = ground arith in
        let power : is_power_of_2 (c.size + 1) ≡ true =
          ap is_power_of_2 full ∙ is_power_of_2-power (length c.blocks) in
        rw power (full-Roomy vs c p full)
    | inr e ↦
        let room : c.size + 1 < 2 ^ length c.blocks = (let fits = p.fits in ground arith) in
        rw (between vs c p room) (room-Roomy vs c p room)
  ]
