-- ===== src/Tests/Rules.antt =====
-- The theorems on accruals and on the floor's configuration (src/processor.rs) at a concrete pool.
use percolator_vault.Base.{suc, ◌+◌, ◌-◌, ◌≤◌, ◌<◌, ◌≡◌, refl, ◌⊎◌, true, arith}
use percolator_vault.Base.Bytes.{from_le_bytes, to_le_bytes}
use percolator_vault.Base.Word.{checked_add, checked_sub}
use percolator_vault.Error.{ok, err, invalid_instruction_data}
use percolator_vault.State.{
  StakePool, accrual_baseline, pre_supply_vault_offset, set_pre_supply_vault_offset,
}
use percolator_vault.State.Packed.{packed}
use percolator_vault.Processor.Accrue.{accrued, noted, expected_balance}
use percolator_vault.Processor.Config.{hwm_configured}
use percolator_vault.Processor.Rules.{accrued-accrued, hwm_configured-enable}
use percolator_vault.Processor.Rules.Fees.{
  accrued-explained_balance, with_deposit, accrued-accrued_offset,
}
use percolator_vault.Tests.Handlers.{or_else, ok_or_else}
use percolator_vault.Base.Slices.{write_slice, overwrite}
use percolator_vault.Tests.Books.{trading_pool, trading_pool-IsReserved}

abbrev accrued_pool : StakePool
accrued_pool = record trading_pool {
  total_fees_earned = 700;
  last_fee_accrual_slot = 77;
  last_vault_snapshot = 5000;
}

accrued-explained_balance_example : accrued_pool ≡ record trading_pool {
  total_fees_earned = 250 + (5000 - (5000 + 250 - 700 + (packed trading_pool).vault_offset));
  last_fee_accrual_slot = 77;
  last_vault_snapshot = 5000;
}
unfolding accrued noted expected_balance accrual_baseline pre_supply_vault_offset from_le_bytes
    checked_add checked_sub
accrued-explained_balance_example =
    accrued-explained_balance trading_pool accrued_pool 5000 77 (omega arith) refl

accrued-accrued_example : suc 699 ≡ 700
unfolding accrued noted expected_balance accrual_baseline pre_supply_vault_offset from_le_bytes
    checked_add checked_sub
accrued-accrued_example =
    accrued-accrued trading_pool accrued_pool (record accrued_pool { last_fee_accrual_slot = 90 })
      5000 77 90 refl refl

-- A pool without shares whose vault holds 40, a deposit of 600 into it, and 15 more.
abbrev unsupplied_pool : StakePool
unsupplied_pool = record trading_pool {
  total_lp_supply = 0;
  total_withdrawn = 5000;
  total_fees_earned = 0;
}

unfoldable offset_pool : StakePool
offset_pool = or_else (accrued unsupplied_pool 40 77) unsupplied_pool

unfoldable gained_pool : StakePool
unfolding offset_pool
gained_pool = or_else (accrued (with_deposit offset_pool 600 600) 655 90) unsupplied_pool

offset_ok : accrued unsupplied_pool 40 77 ≡ ok offset_pool
unfolding offset_pool accrued noted set_pre_supply_vault_offset to_le_bytes write_slice overwrite
offset_ok = ok_or_else (accrued unsupplied_pool 40 77) unsupplied_pool refl

gained_ok : accrued (with_deposit offset_pool 600 600) 655 90 ≡ ok gained_pool
unfolding gained_pool offset_pool accrued noted set_pre_supply_vault_offset to_le_bytes write_slice
    overwrite expected_balance accrual_baseline pre_supply_vault_offset from_le_bytes checked_add
    checked_sub
gained_ok = ok_or_else (accrued (with_deposit offset_pool 600 600) 655 90) unsupplied_pool refl

accrued-accrued_offset_example :
    (offset_pool.total_fees_earned ≡ 0) × (gained_pool.total_fees_earned ≡ 15)
accrued-accrued_offset_example =
    accrued-accrued_offset unsupplied_pool offset_pool gained_pool 40 77 600 600 15 90 refl
      trading_pool-IsReserved (omega arith) (omega arith) offset_ok (omega arith) gained_ok

hwm_configured-enable_example :
    ((0 < 9500)
      × (9500 ≤ 10_000)
      × ((q : StakePool) × (hwm_configured trading_pool true 9500 ≡ ok q)
          × (packed q ≡ record (packed trading_pool) { enabled = true; floor_bps = 9500 })))
    ⊎ (((suc 9499 ≡ 0) ⊎ (10_000 < 9500))
        × (hwm_configured trading_pool true 9500 ≡ err invalid_instruction_data))
hwm_configured-enable_example = hwm_configured-enable trading_pool trading_pool-IsReserved 9500
