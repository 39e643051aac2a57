-- ===== src/Math.antt =====
-- src/math.rs: the share arithmetic of the vault. A u64 is a number; u128 intermediates wrap.
pub mod Lp
pub mod Shares
pub mod Slot
pub mod Hwm
use percolator_vault.Base.{
  ℕ, ◌-◌, ◌/◌, Bool, true, false, ◌&&◌, Option, none, some, ltb, leb, ◌==◌, if◌then◌else◌,
}
use percolator_vault.Base.Maybe.{◌>>=◌}
use percolator_vault.Base.Word.{
  u64_max, checked_add, checked_sub, checked_mul, checked_div, saturating_add, saturating_sub,
  add_u128, mul_u128, as_u64, min_of, max_of,
}

-- The tail that the two pro-rata functions share: `(a * b) / c` in u128, refused above u64::MAX.
unfoldable pub pro_rata : ℕ → ℕ → ℕ → Option ℕ
unfolding checked_mul checked_div as_u64
pro_rata a b c = do
  product ← checked_mul a b
  quotient ← checked_div product c
  if ltb u64_max quotient then none else some (as_u64 quotient)

unfoldable pub calc_lp_for_deposit : ℕ → ℕ → ℕ → Option ℕ
calc_lp_for_deposit total_lp_supply total_pool_value deposit_amount =
    if total_lp_supply == 0 && total_pool_value == 0
    then some deposit_amount
    else if total_lp_supply == 0
    then none
    else if total_pool_value == 0
    then none
    else pro_rata deposit_amount total_lp_supply total_pool_value

unfoldable pub calc_collateral_for_withdraw : ℕ → ℕ → ℕ → Option ℕ
calc_collateral_for_withdraw total_lp_supply total_pool_value lp_amount =
    if total_lp_supply == 0 then none else pro_rata lp_amount total_pool_value total_lp_supply

unfoldable pub pool_value : ℕ → ℕ → Option ℕ
pool_value total_deposited total_withdrawn = checked_sub total_deposited total_withdrawn

unfoldable pub pool_value_with_fees : ℕ → ℕ → ℕ → Option ℕ
pool_value_with_fees total_deposited total_withdrawn total_fees_earned = do
  net ← checked_sub total_deposited total_withdrawn
  checked_add net total_fees_earned

unfoldable pub flush_available : ℕ → ℕ → ℕ → ℕ → ℕ
unfolding saturating_add saturating_sub
flush_available total_deposited total_returned total_withdrawn total_flushed =
    saturating_sub (saturating_sub (saturating_add total_deposited total_returned) total_withdrawn)
      total_flushed

-- The weighted average of the two slots, anchored at the lower of them.
unfoldable pub blended_slot : ℕ → ℕ → ℕ → ℕ → ℕ → ℕ
unfolding add_u128 mul_u128 as_u64 min_of saturating_add
blended_slot existing_lp existing_slot new_lp current_slot total_lp =
    let lo = min_of existing_slot current_slot in
    let existing_span = existing_slot - lo in
    let current_span = current_slot - lo in
    let weighted_span =
      add_u128 (mul_u128 existing_lp existing_span) (mul_u128 new_lp current_span) in
    let offset = weighted_span / total_lp in saturating_add lo (as_u64 offset)

-- The proportional freshness floor.
unfoldable pub freshness_floor : ℕ → ℕ → ℕ → ℕ → ℕ
unfolding mul_u128 as_u64 min_of saturating_sub
freshness_floor existing_lp current_slot cooldown_slots total_lp =
    let aged_credit_u128 = mul_u128 cooldown_slots existing_lp / total_lp in
    let aged_credit = as_u64 (min_of aged_credit_u128 u64_max) in
    saturating_sub current_slot aged_credit

unfoldable pub weighted_deposit_slot : ℕ → ℕ → ℕ → ℕ → ℕ → ℕ
unfolding add_u128 max_of
weighted_deposit_slot existing_lp existing_slot new_lp current_slot cooldown_slots =
    let total_lp = add_u128 existing_lp new_lp in
    let blended = blended_slot existing_lp existing_slot new_lp current_slot total_lp in
    if total_lp == 0
    then current_slot
    else if ltb 0 new_lp
    then max_of blended (freshness_floor existing_lp current_slot cooldown_slots total_lp)
    else blended

unfoldable pub hwm_floor : ℕ → ℕ → Option ℕ
unfolding pro_rata
hwm_floor epoch_high_water_tvl hwm_floor_bps = pro_rata epoch_high_water_tvl hwm_floor_bps 10_000

unfoldable pub hwm_withdrawal_allowed : ℕ → ℕ → ℕ → Bool
unfolding hwm_floor
hwm_withdrawal_allowed post_withdrawal_tvl epoch_high_water_tvl hwm_floor_bps =
    elim (hwm_floor epoch_high_water_tvl hwm_floor_bps) [
      | some floor ↦ leb floor post_withdrawal_tvl
      | none ↦ false
    ]
