-- ===== src/Discr/Modulo.antt =====
-- include/salgo/_/discr/modulo.inl: residues modulo a 32-bit number. `H` is `uint32_t`; the
-- modulus `m` of the operations is what `MOD()` returns. `none` is a failed DCHECK.
pub mod Range
pub mod Arithmetic
pub mod Division
use salgo.Base.{
  ℕ, ◌+◌, ◌-◌, ◌*◌, ◌%◌, ◌^◌, Bool, true, false, not, ◌&&◌, Option, none, some, List, [], ◌∷◌, ltb,
  leb, ◌==◌, if◌then◌else◌, ◌>>=◌,
}
use salgo.Base.Int.{ℤ, pos, negsuc, pos_part, neg_part, ltb_ℤ, ◌+ℤ◌, ◌-ℤ◌}
use salgo.Discr.ModuloUtils.{rem}
use salgo.Discr.Primes.{is_prime}
use salgo.IntPow.{int_pow}

-- `enum class Type`
pub data Kind : Type 0 where
  static contexted local local_with_totient : Kind

-- `Params`: `modulus` is 0 if it is not static, `totient` if it is not given.
pub record Params : Type 0 where
  pub modulus : ℕ
  pub totient : ℕ
  pub kind : Kind

abbrev pub is_static : Kind → Bool
is_static Kind.static = true
is_static Kind.contexted = false
is_static Kind.local = false
is_static Kind.local_with_totient = false

-- `Params::check`
unfoldable pub check_params : Params → Bool
check_params p =
    if is_static p.kind && p.modulus == 0
    then false
    else if not (is_static p.kind) && not (p.modulus == 0)
    then false
    else true

pub record ContextNode : Type 0 where
  pub modulus : ℕ
  pub totient : ℕ

-- `g_contexts`, the last node first.
abbrev pub Contexts : Type 0
Contexts = List ContextNode

-- The constructors of `Modulo_Dynamic_Context_RAII`, with a totient and without, and the
-- destructor.
unfoldable pub enter : ℕ → ℕ → Contexts → Contexts
enter m t c = record { modulus = m; totient = t } ∷ c

unfoldable pub enter_prime : ℕ → Contexts → Contexts
enter_prime m c = record { modulus = m; totient = (m + 2 ^ 32 - 1) % 2 ^ 32 } ∷ c

unfoldable pub leave : Contexts → Option Contexts
leave [] = none
leave (n ∷ c) = some c

-- A value: its residue, and the modulus and the totient that the local kinds carry.
pub record Modulo : Type 0 where
  pub h : ℕ
  pub modulus : ℕ
  pub totient : ℕ

abbrev last : Contexts → Option ContextNode
last [] = none
last (n ∷ c) = some n

-- `MOD()`
unfoldable pub modulus_of : Params → Contexts → Modulo → Option ℕ
modulus_of p c x = elim p.kind [
  | Kind.static ↦ some p.modulus
  | Kind.contexted ↦ last c >>= λ n. some n.modulus
  | Kind.local ↦ some x.modulus
  | Kind.local_with_totient ↦ some x.modulus
]

-- `TOTIENT()`; the static kind always has one.
unfoldable pub totient_of : Params → Contexts → Modulo → Option ℕ
totient_of p c x = if not (p.totient == 0) then some p.totient else elim p.kind [
  | Kind.static ↦ none
  | Kind.contexted ↦ last c >>= λ n. some n.totient
  | Kind.local ↦ if is_prime x.modulus then some (x.modulus - 1) else none
  | Kind.local_with_totient ↦ some x.totient
]

-- Subtraction of `uint32_t`.
abbrev pub sub32 : ℕ → ℕ → ℕ
sub32 a b = (a + 2 ^ 32 - b) % 2 ^ 32

-- `_fix_range` of an unsigned argument, where no value is negative
unfoldable pub fix_range : ℕ → ℕ → ℕ
fix_range m x = if leb m x then (let y = sub32 x m in if ltb y m then y else y % m) else x

-- `_fix_range` of a signed argument
unfoldable pub fix_range_signed : ℕ → ℤ → ℕ
fix_range_signed m x =
    if not (ltb_ℤ x (pos m))
    then (let y = x -ℤ pos m in if ltb_ℤ y (pos m) then pos_part y else pos_part (rem y m))
    else if ltb_ℤ x (pos 0)
    then (let y = x +ℤ pos m in
        if not (ltb_ℤ y (pos 0))
        then pos_part y
        else (let r = (pos_part (rem y m) + 2 ^ 32 - neg_part (rem y m)) % 2 ^ 32 in
            if r == 0 then 0 else (m + r) % 2 ^ 32))
    else pos_part x

-- `operator+=`, `operator-=`, `operator*=`
unfoldable pub add : ℕ → ℕ → ℕ → ℕ
add m h o = let s = (h + o) % 2 ^ 32 in if leb m s then sub32 s m else s

unfoldable pub sub : ℕ → ℕ → ℕ → ℕ
sub m h o = let s = sub32 ((m + h) % 2 ^ 32) o in if leb m s then sub32 s m else s

unfoldable pub mul : ℕ → ℕ → ℕ → ℕ
mul m h o = h * o % 2 ^ 64 % m

-- `operator/=`: the power takes its neutral element by `operator=(1)`
unfoldable pub div : ℕ → ℕ → ℕ → ℕ → ℕ
div m t h o = mul m h (int_pow (mul m) o (sub32 t 1) (fix_range m 1))

-- `operator--` and `operator++`
unfoldable pub dec : ℕ → ℕ → ℕ
dec m h = let g = if h == 0 then m else h in sub32 g 1

unfoldable pub inc : ℕ → ℕ → ℕ
inc m h = let g = (h + 1) % 2 ^ 32 in if g == m then 0 else g
