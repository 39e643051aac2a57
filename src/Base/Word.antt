-- ===== src/Base/Word.antt =====
-- Rust's checked, saturating and wrapping arithmetic on u64 and u128, over unbounded numbers.
use Prim.Native.Nat.{ℕ, ◌+◌, ◌-◌, ◌*◌, ◌/◌, ◌%◌, ◌^◌, ◌≤◌}
use mathlib.Core.Option.{Option, none, some}
use native.Mathlib.Omega.{arith}
use percolator_vault.Base.Tests.{ltb, leb, ◌==◌, if◌then◌else◌}

abbrev pub u16_max : ℕ
u16_max = 0xffff

abbrev pub u64_max : ℕ
u64_max = 0xffff_ffff_ffff_ffff

abbrev pub u128_max : ℕ
u128_max = 0xffff_ffff_ffff_ffff_ffff_ffff_ffff_ffff

abbrev pub IsU8 : ℕ → Type 0
IsU8 n = n ≤ 255

abbrev pub IsU16 : ℕ → Type 0
IsU16 n = n ≤ u16_max

abbrev pub IsU64 : ℕ → Type 0
IsU64 n = n ≤ u64_max

abbrev pub IsU128 : ℕ → Type 0
IsU128 n = n ≤ u128_max

-- `u64::checked_add` and `u64::checked_sub`
unfoldable pub checked_add : ℕ → ℕ → Option ℕ
checked_add a b = if leb (a + b) u64_max then some (a + b) else none

unfoldable pub checked_sub : ℕ → ℕ → Option ℕ
checked_sub a b = if leb b a then some (a - b) else none

-- `u128::checked_mul` and `u128::checked_div`
unfoldable pub checked_mul : ℕ → ℕ → Option ℕ
checked_mul a b = if leb (a * b) u128_max then some (a * b) else none

unfoldable pub checked_div : ℕ → ℕ → Option ℕ
checked_div a b = if b == 0 then none else some (a / b)

-- `u64::saturating_add` and `u64::saturating_sub`
unfoldable pub saturating_add : ℕ → ℕ → ℕ
saturating_add a b = if leb (a + b) u64_max then a + b else u64_max

unfoldable pub saturating_sub : ℕ → ℕ → ℕ
saturating_sub a b = a - b

-- `+` and `*` on u128, which wrap in a release build
unfoldable pub add_u128 : ℕ → ℕ → ℕ
add_u128 a b = (a + b) % 2 ^ 128

unfoldable pub mul_u128 : ℕ → ℕ → ℕ
mul_u128 a b = a * b % 2 ^ 128

-- `as u64` on a u128
unfoldable pub as_u64 : ℕ → ℕ
as_u64 a = a % 2 ^ 64

-- `Ord::min` and `Ord::max`
unfoldable pub min_of : ℕ → ℕ → ℕ
min_of a b = if ltb b a then b else a

unfoldable pub max_of : ℕ → ℕ → ℕ
max_of a b = if ltb b a then a else b

-- The product of two u64 values fits a u128.
pub mul-IsU128 : (a b : ℕ) → IsU64 a → IsU64 b → a * b ≤ u64_max * u64_max
mul-IsU128 a b ha hb = grind arith
