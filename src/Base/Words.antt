-- ===== src/Base/Words.antt =====
-- Machine words: an `i32` result as an integer, the casts of the source, and checked addition.
use Prim.Native.Nat.{ℕ, zero, suc, ◌+◌, ◌-◌, ◌%◌, ◌^◌, ◌<◌}
use mathlib.Core.Path.{◌≡◌}
use mathlib.Core.Bool.{Bool, true, false}
use mathlib.Core.Option.{Option, none, some}
use native.Mathlib.Omega.{arith}
use lind_wasm_example_grates.Base.Tests.{ltb, leb, eqb, if◌then◌else◌}

-- `negsuc n` is -(n + 1).
pub data ℤ : Type 0 where
  pos : ℕ → ℤ
  negsuc : ℕ → ℤ

-- A negative errno: `neg 11` is -11.
abbrev pub neg : ℕ → ℤ
neg zero = pos zero
neg (suc n) = negsuc n

abbrev pub zeq : ℤ → ℤ → Bool
zeq (pos m) (pos n) = eqb m n
zeq (negsuc m) (negsuc n) = eqb m n
zeq _ _ = false

-- m - n
abbrev pub minus : ℕ → ℕ → ℤ
minus m n = if leb n m then pos (m - n) else negsuc (n - m - 1)

abbrev pub plus : ℤ → ℤ → ℤ
plus (pos m) (pos n) = pos (m + n)
plus (pos m) (negsuc n) = minus m (suc n)
plus (negsuc m) (pos n) = minus n (suc m)
plus (negsuc m) (negsuc n) = negsuc (suc (m + n))

abbrev pub is_neg : ℤ → Bool
is_neg (pos n) = false
is_neg (negsuc n) = true

abbrev pub u32_mod : ℕ
u32_mod = 2 ^ 32

abbrev pub u64_mod : ℕ
u64_mod = 2 ^ 64

-- `n as i32`: the low 32 bits, read in two's complement.
unfoldable pub as_i32 : ℕ → ℤ
as_i32 n = let m = n % u32_mod in if ltb m (2 ^ 31) then pos m else negsuc (u32_mod - m - 1)

pub as_i32_small : (n : ℕ) → n < 2 ^ 31 → as_i32 n ≡ pos n
unfolding as_i32
as_i32_small n h = ground arith

-- `a.checked_add(b)` on u64.
unfoldable pub checked_add : ℕ → ℕ → Option ℕ
checked_add a b = if ltb (a + b) u64_mod then some (a + b) else none
