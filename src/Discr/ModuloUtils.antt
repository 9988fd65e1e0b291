-- ===== src/Discr/ModuloUtils.antt =====
-- include/salgo/_/discr/modulo-utils.hpp: remainders of signed numbers, and products modulo a
-- 64-bit number, with the 128-bit type and without it.
pub mod Signed
pub mod Portable
use salgo.Base.{
  ℕ, zero, suc, ◌+◌, ◌-◌, ◌*◌, ◌/◌, ◌%◌, ◌^◌, bit_or, Bool, true, false, Option, none, some, ltb,
  leb, ◌==◌, if◌then◌else◌,
}
use salgo.Base.Int.{ℤ, pos, negsuc, sub_ℕ, ◌+ℤ◌, ltb_ℤ}

-- `a % b` of C++ on signed numbers, for a positive `b`: the quotient is rounded towards zero.
unfoldable pub rem : ℤ → ℕ → ℤ
rem (pos n) b = pos (n % b)
rem (negsuc n) b = sub_ℕ 0 (suc n % b)

abbrev pub is_zero : ℤ → Bool
is_zero (pos n) = n == 0
is_zero (negsuc n) = false

-- `mod` for a signed first argument
unfoldable pub mod_signed : ℤ → ℕ → ℤ
unfolding rem ◌+ℤ◌
mod_signed a b =
    if ltb_ℤ a (pos 0)
    then (let r = rem a b in if is_zero r then pos 0 else pos b +ℤ r)
    else rem a b

-- `mod` for an unsigned first argument
unfoldable pub mod_unsigned : ℕ → ℕ → ℕ
mod_unsigned a b = a % b

-- with `unsigned __int128`
unfoldable pub mult_and_mod : ℕ → ℕ → ℕ → ℕ
mult_and_mod a b m = a * b % 2 ^ 128 % m % 2 ^ 64

-- Addition and subtraction of `uint64_t`.
abbrev pub add64 : ℕ → ℕ → ℕ
add64 a b = (a + b) % 2 ^ 64

abbrev pub sub64 : ℕ → ℕ → ℕ
sub64 a b = (a + 2 ^ 64 - b) % 2 ^ 64

-- `r += a; if (r >= n) r -= n`
unfoldable pub add_small : ℕ → ℕ → ℕ → ℕ
add_small n r a = let s = add64 r a in if leb n s then sub64 s n else s

-- `((n-r) > a) ? r+a : r+a-n`
unfoldable pub add_large : ℕ → ℕ → ℕ → ℕ
add_large n r a = if ltb a (sub64 n r) then add64 r a else sub64 (add64 r a) n

-- The two loops, which differ in how they add; `none` means that the fuel ran out.
unfoldable pub product_loop : (ℕ → ℕ → ℕ) → ℕ → ℕ → ℕ → ℕ → Option ℕ
product_loop add zero a b r = none
product_loop add (suc fuel) a b r =
    let r' = if b % 2 == 1 then add r a else r in
    let b' = b / 2 in
    let a' = if b' == 0 then a else add a a in
    let rest = product_loop add fuel a' b' r' in if b == 0 then some r else rest

-- without the 128-bit type
unfoldable pub mult_and_mod_portable : ℕ → ℕ → ℕ → Option ℕ
unfolding product_loop add_small add_large
mult_and_mod_portable a₀ b₀ n =
    let a₁ = if leb n a₀ then a₀ % n else a₀ in
    let b₁ = if leb n b₀ then b₀ % n else b₀ in
    let a = if ltb a₁ b₁ then b₁ else a₁ in
    let b = if ltb a₁ b₁ then a₁ else b₁ in
    if ltb (bit_or a₁ b₁) (2 ^ 32)
    then some (a₁ * b₁ % 2 ^ 64 % n)
    else if leb n (2 ^ 63)
    then product_loop (add_small n) 65 a b 0
    else product_loop (add_large n) 65 a b 0
