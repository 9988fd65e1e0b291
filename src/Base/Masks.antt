-- ===== src/Base/Masks.antt =====
-- Packing two fields in one word: `bit_or` of fields that do not overlap, and `bit_and` by a mask.
use Prim.Native.Nat.{
  min, bit_and, bit_or, bit_xor, differ, digits, bit_and-bitwise, bit_or-bitwise, bit_xor-bitwise,
}
use mathlib.Core.Path.{◌≡◌, refl, sym, ap, ◌∙◌}
use native.Mathlib.Nat.{pow-zero, pow-suc, mod-eq_of_lt, add-mul-mod_self_left, div-add-mod, mod-lt}
use native.Mathlib.Omega.{arith}
use Prim.Native.Nat.{ℕ, zero, suc, ◌+◌, ◌-◌, ◌*◌, ◌/◌, ◌%◌, ◌^◌, ◌≤◌, ◌<◌, max}

-- The digits of a sum whose parts do not overlap, on any count of digits to go from the first on.
or_digits :
    (count high low k a : ℕ)
    → high ≡ a * 2 ^ k
    → low < 2 ^ k
    → high ≤ count
    → digits (λ y. y) max count high low ≡ high + low
or_digits zero high low k a e lt le = omega arith
or_digits (suc count) zero low k a e lt le = omega arith
or_digits (suc count) (suc high) low zero a e lt le =
    let none : low ≡ 0 = omega (arith, pow-zero 2) in
    let rest =
      or_digits count (suc high / 2) 0 0 (suc high / 2) (omega arith) (omega arith) (omega arith) in
    rw (none, rest) (omega arith)
or_digits (suc count) (suc high) low (suc k) a e lt le =
    let half : suc high ≡ a * 2 ^ k + a * 2 ^ k =
      e ∙ ap (λ (t : ℕ). a * t) (pow-suc 2 k) ∙ omega arith in
    let rest =
      or_digits count (suc high / 2) (low / 2) k a (omega arith) (omega (arith, pow-suc 2 k))
        (omega arith) in
    omega (arith, rest, half)

-- A field below bit `k` beside a field from bit `k` on.
pub bit_or-fields : (k a b : ℕ) → b < 2 ^ k → bit_or (a * 2 ^ k) b ≡ a * 2 ^ k + b
bit_or-fields k a b h =
    bit_or-bitwise (a * 2 ^ k) b ∙ or_digits (a * 2 ^ k) (a * 2 ^ k) b k a refl h (omega arith)

-- The remainder of a number, from that of its half.
mod_double : (v p : ℕ) → 0 < p → v % (p * 2) ≡ v / 2 % p * 2 + v % 2
mod_double v p h =
    let m = v / 2 % p in
    let bound = mod-lt (v / 2) h in
    let parts : v ≡ m * 2 + v % 2 + p * 2 * (v / 2 / p) = omega (arith, div-add-mod (v / 2) p) in
    ap (λ t. t % (p * 2)) parts
    ∙ add-mul-mod_self_left (m * 2 + v % 2) (p * 2) (v / 2 / p)
    ∙ mod-eq_of_lt (omega arith)

pub pow-two_pos : (k : ℕ) → 0 < 2 ^ k
pow-two_pos zero = omega (arith, pow-zero 2)
pow-two_pos (suc k) = omega (arith, pow-suc 2 k, pow-two_pos k)

and_digits :
    (count v mask k : ℕ)
    → mask + 1 ≡ 2 ^ k
    → v ≤ count
    → digits (λ y. zero) min count v mask ≡ v % 2 ^ k
and_digits zero v mask k e le =
    let nothing : v ≡ 0 = omega arith in
    let small : v % 2 ^ k ≡ v = mod-eq_of_lt (omega (arith, pow-two_pos k)) in omega arith
and_digits (suc count) zero mask k e le = sym (mod-eq_of_lt (pow-two_pos k))
and_digits (suc count) (suc v) mask zero e le =
    let none : mask ≡ 0 = omega (arith, pow-zero 2) in
    let rest = and_digits count (suc v / 2) 0 0 (omega (arith, pow-zero 2)) (omega arith) in
    let one : suc v % 2 ^ 0 ≡ 0 = rw (pow-zero 2) (omega arith) in
    let one' : suc v / 2 % 2 ^ 0 ≡ 0 = rw (pow-zero 2) (omega arith) in
    rw (none, one) (omega (arith, rest, one'))
and_digits (suc count) (suc v) mask (suc k) e le =
    let rest =
      and_digits count (suc v / 2) (mask / 2) k (omega (arith, pow-suc 2 k)) (omega arith) in
    omega (
      arith,
      rest,
      mod_double (suc v) (2 ^ k) (pow-two_pos k),
      ap (λ t. suc v % t) (pow-suc 2 k),
      pow-suc 2 k,
    )

-- The mask of the bits below `k`.
pub bit_and-mask : (k v : ℕ) → bit_and v (2 ^ k - 1) ≡ v % 2 ^ k
bit_and-mask k v =
    bit_and-bitwise v (2 ^ k - 1)
    ∙ and_digits v v (2 ^ k - 1) k (omega (arith, pow-two_pos k)) (omega arith)

digits_zero : (z : ℕ → ℕ) (f : ℕ → ℕ → ℕ) (count b : ℕ) → digits z f count 0 b ≡ z b
digits_zero z f zero b = refl
digits_zero z f (suc count) b = refl

xor_digits :
    (count high v k : ℕ)
    → high ≡ 2 ^ k
    → high ≤ v
    → v < high + high
    → high ≤ count
    → digits (λ y. y) differ count high v + high ≡ v
xor_digits zero high v k e le lt small = absurd (omega (arith, pow-two_pos k))
xor_digits (suc count) zero v k e le lt small = absurd (omega arith)
xor_digits (suc count) (suc high) v zero e le lt small =
    let none : high ≡ 0 = omega (arith, pow-zero 2) in
    let one : v ≡ 1 = omega arith in rw (none, one, digits_zero (λ y. y) differ count 0) refl
xor_digits (suc count) (suc high) v (suc k) e le lt small =
    let half : suc high ≡ 2 ^ k + 2 ^ k = e ∙ pow-suc 2 k ∙ omega arith in
    let even : suc high % 2 ≡ 0 = omega (arith, half) in
    let rest =
      xor_digits count (suc high / 2) (v / 2) k (omega (arith, half)) (omega (arith, half))
        (omega (arith, half)) (omega arith) in
    rw even (omega (arith, rest, half))

-- Exclusive or with its highest bit takes the bit from a number.
pub bit_xor-highest : (k v : ℕ) → 2 ^ k ≤ v → v < 2 ^ k + 2 ^ k → bit_xor (2 ^ k) v + 2 ^ k ≡ v
bit_xor-highest k v le lt =
    let same = bit_xor-bitwise (2 ^ k) v in
    let sum = xor_digits (2 ^ k) (2 ^ k) v k refl le lt (omega arith) in omega (arith, same, sum)

shared_digits :
    (count x y k : ℕ)
    → 2 ^ k ≤ x
    → x < 2 ^ k + 2 ^ k
    → 2 ^ k ≤ y
    → y < 2 ^ k + 2 ^ k
    → x ≤ count
    → 0 < digits (λ y. zero) min count x y
shared_digits zero x y k h h' l l' small = absurd (omega (arith, pow-two_pos k))
shared_digits (suc count) zero y k h h' l l' small = absurd (omega (arith, pow-two_pos k))
shared_digits (suc count) (suc x) y zero h h' l l' small =
    let none : x ≡ 0 = omega (arith, pow-zero 2) in
    let one : y ≡ 1 = omega (arith, pow-zero 2) in
    rw (none, one, digits_zero (λ y. zero) min count 0) (omega arith)
shared_digits (suc count) (suc x) y (suc k) h h' l l' small =
    let double = pow-suc 2 k in
    let rest =
      shared_digits count (suc x / 2) (y / 2) k (omega (arith, double)) (omega (arith, double))
        (omega (arith, double)) (omega (arith, double)) (omega arith) in
    omega (arith, rest)

-- Two numbers with the same highest bit share this bit.
pub bit_and-shared :
    (k x y : ℕ) → 2 ^ k ≤ x → x < 2 ^ k + 2 ^ k → 2 ^ k ≤ y → y < 2 ^ k + 2 ^ k → 0 < bit_and x y
bit_and-shared k x y h h' l l' =
    let same = bit_and-bitwise x y in
    omega (arith, same, shared_digits x x y k h h' l l' (omega arith))

differ-lt : (x y : ℕ) → x < 2 → y < 2 → differ x y < 2
differ-lt zero y h l = l
differ-lt (suc x) zero h l = h
differ-lt (suc x) (suc y) h l = differ-lt x y (omega arith) (omega arith)

differ_zero : (x y : ℕ) → differ x y ≡ 0 → x ≡ y
differ_zero zero y e = sym e
differ_zero (suc x) zero e = e
differ_zero (suc x) (suc y) e = ap suc (differ_zero x y e)

xor_zero_digits : (count x y : ℕ) → x ≤ count → digits (λ b. b) differ count x y ≡ 0 → x ≡ y
xor_zero_digits zero zero y le e = sym e
xor_zero_digits zero (suc x) y le e = absurd (omega arith)
xor_zero_digits (suc count) zero y le e = sym e
xor_zero_digits (suc count) (suc x) y le e =
    let rest = xor_zero_digits count (suc x / 2) (y / 2) (omega arith) (omega arith) in
    let digit = differ_zero (suc x % 2) (y % 2) (omega arith) in omega (arith, rest, digit)

-- Only equal numbers have the exclusive or 0.
pub bit_xor-zero : (x y : ℕ) → bit_xor x y ≡ 0 → x ≡ y
bit_xor-zero x y e =
    let same = bit_xor-bitwise x y in xor_zero_digits x x y (omega arith) (omega arith)

xor_lt_digits :
    (count x y k : ℕ) → x < 2 ^ k → y < 2 ^ k → x ≤ count → digits (λ b. b) differ count x y < 2 ^ k
xor_lt_digits zero zero y k h l le = l
xor_lt_digits zero (suc x) y k h l le = absurd (omega arith)
xor_lt_digits (suc count) zero y k h l le = l
xor_lt_digits (suc count) (suc x) y zero h l le = absurd (omega (arith, pow-zero 2))
xor_lt_digits (suc count) (suc x) y (suc k) h l le =
    let double = pow-suc 2 k in
    let rest =
      xor_lt_digits count (suc x / 2) (y / 2) k (omega arith) (omega arith) (omega arith) in
    let digit = differ-lt (suc x % 2) (y % 2) (omega arith) (omega arith) in
    omega (arith, rest, double, digit)

pub bit_xor-lt : (k x y : ℕ) → x < 2 ^ k → y < 2 ^ k → bit_xor x y < 2 ^ k
bit_xor-lt k x y h l =
    let same = bit_xor-bitwise x y in omega (arith, same, xor_lt_digits x x y k h l (omega arith))

or_lt_digits :
    (count x y k : ℕ) → x < 2 ^ k → y < 2 ^ k → x ≤ count → digits (λ b. b) max count x y < 2 ^ k
or_lt_digits zero zero y k h l le = l
or_lt_digits zero (suc x) y k h l le = absurd (omega arith)
or_lt_digits (suc count) zero y k h l le = l
or_lt_digits (suc count) (suc x) y zero h l le = absurd (omega (arith, pow-zero 2))
or_lt_digits (suc count) (suc x) y (suc k) h l le =
    let double = pow-suc 2 k in
    let rest = or_lt_digits count (suc x / 2) (y / 2) k (omega arith) (omega arith) (omega arith) in
    omega (arith, rest, double)

pub bit_or-lt : (k x y : ℕ) → x < 2 ^ k → y < 2 ^ k → bit_or x y < 2 ^ k
bit_or-lt k x y h l =
    let same = bit_or-bitwise x y in omega (arith, same, or_lt_digits x x y k h l (omega arith))

disjoint_digits :
    (count x y k : ℕ) → x + 1 ≡ 2 ^ k → y ≡ 2 ^ k → x ≤ count → digits (λ b. zero) min count x y ≡ 0
disjoint_digits zero zero y k h l le = refl
disjoint_digits zero (suc x) y k h l le = absurd (omega arith)
disjoint_digits (suc count) zero y k h l le = refl
disjoint_digits (suc count) (suc x) y zero h l le = absurd (omega (arith, pow-zero 2))
disjoint_digits (suc count) (suc x) y (suc k) h l le =
    let double = pow-suc 2 k in
    let even : y % 2 ≡ 0 = omega arith in
    let rest =
      disjoint_digits count (suc x / 2) (y / 2) k (omega arith) (omega arith) (omega arith) in
    omega (arith, rest, even)

-- A number below a power of 2 by one shares no bit with the power.
pub bit_and-next : (k x : ℕ) → x + 1 ≡ 2 ^ k → bit_and x (x + 1) ≡ 0
bit_and-next k x e =
    let same = bit_and-bitwise x (x + 1) in
    omega (arith, same, disjoint_digits x x (x + 1) k e e (omega arith))
