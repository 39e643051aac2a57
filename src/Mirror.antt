-- ===== src/Mirror.antt =====
-- kani-proofs/src/lib.rs: the share arithmetic on u32 values, which its proof harnesses check in
-- place of the program's.
pub mod Narrow
pub mod Harness
pub mod Floor
use percolator_vault.Base.{
  ℕ, ◌+◌, ◌-◌, ◌*◌, ◌%◌, ◌^◌, ◌≤◌, Bool, true, false, ◌&&◌, ◌||◌, Option, none, some, ltb, leb,
  ◌==◌, if◌then◌else◌,
}
use percolator_vault.Base.Maybe.{◌>>=◌}
use percolator_vault.Base.Word.{u64_max, checked_sub, checked_div, saturating_sub}

abbrev pub u32_max : ℕ
u32_max = 0xffff_ffff

abbrev pub IsU32 : ℕ → Type 0
IsU32 n = n ≤ u32_max

-- `u32::checked_add` and `u32::saturating_add`
unfoldable pub checked_add_u32 : ℕ → ℕ → Option ℕ
checked_add_u32 a b = if leb (a + b) u32_max then some (a + b) else none

unfoldable pub saturating_add_u32 : ℕ → ℕ → ℕ
saturating_add_u32 a b = if leb (a + b) u32_max then a + b else u32_max

-- `u64::checked_mul`
unfoldable pub checked_mul_u64 : ℕ → ℕ → Option ℕ
checked_mul_u64 a b = if leb (a * b) u64_max then some (a * b) else none

-- The tail that the two pro-rata functions share: `(a * b) / c` in u64, refused above u32::MAX.
unfoldable pub pro_rata_u32 : ℕ → ℕ → ℕ → Option ℕ
unfolding checked_mul_u64 checked_div
pro_rata_u32 a b c = do
  product ← checked_mul_u64 a b
  quotient ← checked_div product c
  if ltb u32_max quotient then none else some (quotient % 2 ^ 32)

unfoldable pub calc_lp_for_deposit : ℕ → ℕ → ℕ → Option ℕ
unfolding pro_rata_u32
calc_lp_for_deposit supply pool_value deposit =
    if supply == 0 && pool_value == 0
    then some deposit
    else if supply == 0 || pool_value == 0
    then none
    else pro_rata_u32 deposit supply pool_value

unfoldable pub calc_collateral_for_withdraw : ℕ → ℕ → ℕ → Option ℕ
unfolding pro_rata_u32
calc_collateral_for_withdraw supply pool_value lp =
    if supply == 0 then none else pro_rata_u32 lp pool_value supply

unfoldable pub pool_value : ℕ → ℕ → Option ℕ
unfolding checked_sub
pool_value deposited withdrawn = checked_sub deposited withdrawn

unfoldable pub pool_value_with_flush : ℕ → ℕ → ℕ → ℕ → Option ℕ
unfolding checked_sub checked_add_u32
pool_value_with_flush deposited withdrawn flushed returned = do
  net ← checked_sub deposited withdrawn
  unflushed ← checked_sub net flushed
  checked_add_u32 unflushed returned

unfoldable pub flush_available : ℕ → ℕ → ℕ → ℕ
unfolding saturating_sub
flush_available deposited withdrawn flushed =
    saturating_sub (saturating_sub deposited withdrawn) flushed

unfoldable pub cooldown_elapsed : ℕ → ℕ → ℕ → Bool
unfolding saturating_add_u32
cooldown_elapsed current_slot deposit_slot cooldown_slots =
    leb (saturating_add_u32 deposit_slot cooldown_slots) current_slot

unfoldable pub exceeds_cap : ℕ → ℕ → ℕ → Bool
unfolding checked_add_u32
exceeds_cap total_deposited new_deposit cap =
    if cap == 0 then false else elim (checked_add_u32 total_deposited new_deposit) [
      | some total ↦ ltb cap total
      | none ↦ true
    ]
