-- ===== src/Tests/Profit.antt =====
-- A deposit and the withdrawal of the tokens it minted (src/processor.rs) at concrete accounts and
-- worlds.
use percolator_vault.Base.{◌+◌, ◌≤◌, ◌≡◌, refl, arith}
use percolator_vault.Base.Bytes.{to_le_bytes, from_le_bytes}
use percolator_vault.Base.Slices.{write_slice, bytes_eq}
use percolator_vault.Base.Word.{
  checked_add, checked_sub, checked_mul, checked_div, saturating_add, saturating_sub, add_u128,
  mul_u128, as_u64, min_of, max_of,
}
use percolator_vault.Error.{ok}
use percolator_vault.Math
use percolator_vault.Math.{
  pro_rata, blended_slot, freshness_floor, weighted_deposit_slot, hwm_floor, hwm_withdrawal_allowed,
}
use percolator_vault.State.{
  validate_discriminator, is_resolved, total_pool_value, calc_lp_for_deposit,
  calc_collateral_for_withdraw, hwm_enabled, hwm_floor_bps, refresh_hwm, hwm_last_epoch,
  epoch_high_water_tvl, set_hwm_last_epoch, set_epoch_high_water_tvl, set_deposit_discriminator,
}
use percolator_vault.Runtime.{
  World, key_bytes, next_account_info, load_pool, load_deposit, store_pool, store_deposit,
  data_is_empty, invoke,
}
use percolator_vault.Runtime.Store.{pool_at}
use percolator_vault.Pda.{
  pool_seeds, vault_auth_seeds, deposit_seeds, derive_vault_authority, derive_deposit_pda,
}
use percolator_vault.Processor.Common.{verify_token_program, create_or_adopt_pda, fund_pda}
use percolator_vault.Processor.Deposit.{
  deposit_accounts, check_deposit_cap, check_deposit, move_deposit, credit_pool, mark_deposit,
  open_deposit, record_deposit, top_up_deposit, process_deposit,
}
use percolator_vault.Processor.Withdraw.{
  withdraw_accounts, check_withdraw, check_position, enforce_hwm, move_withdraw, debit_pool,
  record_withdraw, process_withdraw,
}
use percolator_vault.Tests.Model.{Blob, fit_pool, fit_deposit, bytes_fit, model, model_laws}
use percolator_vault.State.Value.{inflow, outflow}
use percolator_vault.Processor.Profit.{process_withdraw-process_deposit_no_profit}
use percolator_vault.Tests.Handlers.{
  vault_auth_key, deposit_key, deposit_infos, withdraw_infos, named, named_eq, withdraw_named,
  withdraw_named_eq, named-Apart, before, after, deposit_ok, or_else, ok_or_else,
}

-- The world after the deposit, once its cooldown is over, and what a burn of its tokens leaves.
unfoldable cooled : World Blob
cooled k = record (after k) {
  contents = record (after k).contents { time = record { slot = 2000; epoch = 3 } };
}

unfoldable paid_out : World Blob
paid_out = or_else (process_withdraw model 1 withdraw_infos 400 cooled) cooled

paid_ok : process_withdraw model 1 withdraw_infos 400 cooled ≡ ok paid_out
unfolding Math.calc_collateral_for_withdraw Math.calc_lp_for_deposit add_u128 after as_u64 before
    blended_slot bytes_eq bytes_fit calc_collateral_for_withdraw calc_lp_for_deposit check_deposit
    check_deposit_cap check_position check_withdraw checked_add checked_div checked_mul checked_sub
    cooled create_or_adopt_pda credit_pool data_is_empty debit_pool deposit_accounts deposit_key
    deposit_seeds derive_deposit_pda derive_vault_authority enforce_hwm epoch_high_water_tvl
    fit_deposit fit_pool freshness_floor from_le_bytes fund_pda hwm_enabled hwm_floor hwm_floor_bps
    hwm_last_epoch hwm_withdrawal_allowed invoke is_resolved key_bytes load_deposit load_pool
    mark_deposit max_of min_of model move_deposit move_withdraw mul_u128 next_account_info
    open_deposit paid_out pool_seeds pro_rata process_deposit process_withdraw record_deposit
    record_withdraw refresh_hwm saturating_add saturating_sub set_deposit_discriminator
    set_epoch_high_water_tvl set_hwm_last_epoch store_deposit store_pool to_le_bytes top_up_deposit
    total_pool_value validate_discriminator vault_auth_key vault_auth_seeds verify_token_program
    weighted_deposit_slot withdraw_accounts write_slice
paid_ok = ok_or_else (process_withdraw model 1 withdraw_infos 400 cooled) cooled refl

pool_kept : pool_at model cooled 30 ≡ pool_at model after 30
unfolding cooled model
pool_kept = refl

minted : (pool_at model after 30).total_lp_supply ≡ (pool_at model before 30).total_lp_supply + 400
unfolding Math.calc_lp_for_deposit add_u128 after as_u64 before blended_slot bytes_eq bytes_fit
    calc_lp_for_deposit check_deposit check_deposit_cap checked_add checked_div checked_mul
    checked_sub create_or_adopt_pda credit_pool data_is_empty deposit_accounts deposit_key
    deposit_seeds derive_deposit_pda derive_vault_authority epoch_high_water_tvl fit_deposit
    fit_pool freshness_floor from_le_bytes fund_pda hwm_enabled hwm_last_epoch invoke is_resolved
    key_bytes load_deposit load_pool mark_deposit max_of min_of model move_deposit mul_u128
    next_account_info open_deposit pool_seeds pro_rata process_deposit record_deposit refresh_hwm
    saturating_add saturating_sub set_deposit_discriminator set_epoch_high_water_tvl
    set_hwm_last_epoch store_deposit store_pool to_le_bytes top_up_deposit total_pool_value
    validate_discriminator vault_auth_key vault_auth_seeds verify_token_program
    weighted_deposit_slot write_slice
minted = refl

covered : outflow (pool_at model before 30) ≤ inflow (pool_at model before 30)
unfolding model before fit_pool bytes_fit
covered = omega arith

process_withdraw-process_deposit_no_profit_example :
    ((pool_at model paid_out 30).total_withdrawn ≤ (pool_at model before 30).total_withdrawn + 455)
    × ((pool_at model paid_out 30).total_lp_supply ≡ (pool_at model before 30).total_lp_supply)
process_withdraw-process_deposit_no_profit_example =
    process_withdraw-process_deposit_no_profit model model_laws 1 deposit_infos withdraw_infos 455
      400 before after cooled paid_out named withdraw_named named_eq covered deposit_ok pool_kept
      minted withdraw_named_eq named-Apart refl paid_ok
