-- ===== src/Tests/Exit.antt =====
-- The theorem on withdrawals that succeed (src/processor.rs) at a concrete world.
use percolator_vault.Base.{◌≡◌, refl, arith}
use percolator_vault.Base.Bytes.{to_le_bytes, from_le_bytes}
use percolator_vault.Base.Word.{
  checked_add, checked_sub, checked_mul, checked_div, saturating_add, as_u64,
}
use percolator_vault.Math
use percolator_vault.Math.{pro_rata, hwm_floor, hwm_withdrawal_allowed}
use percolator_vault.Base.Slices.{write_slice, bytes_eq}
use percolator_vault.Processor.Common.{verify_token_program}
use percolator_vault.Processor.Withdraw.{
  withdraw_accounts, check_withdraw, check_position, enforce_hwm, move_withdraw, debit_pool,
  record_withdraw, process_withdraw,
}
use percolator_vault.Error.{ok}
use percolator_vault.State.{
  validate_discriminator, total_pool_value, calc_collateral_for_withdraw, hwm_enabled,
  hwm_floor_bps, refresh_hwm, hwm_last_epoch, epoch_high_water_tvl, set_hwm_last_epoch,
  set_epoch_high_water_tvl,
}
use percolator_vault.Runtime.{
  key_bytes, next_account_info, load_pool, load_deposit, store_pool, store_deposit, invoke,
}
use percolator_vault.Pda.{
  deposit_seeds, vault_auth_seeds, derive_vault_authority, derive_deposit_pda,
}
use percolator_vault.Tests.Model.{Blob, fit_pool, fit_deposit, bytes_fit, model}
use percolator_vault.Tests.Owner.{model_owned}
use percolator_vault.Tests.Handlers.{withdraw_infos, holding, vault_auth_key, deposit_key}
use percolator_vault.State.{StakePool, StakeDeposit}
use percolator_vault.Processor.Withdraw.Exit.{process_withdraw_succeeds}
use percolator_vault.Tests.Handlers.{
  withdraw_named, withdraw_named_eq, no_deposit, or_else, ok_or_else,
}
use percolator_vault.Tests.Books.{trading_pool}
use percolator_vault.Runtime.{Clock, World}

abbrev time : Clock
time = record { slot = 1000; epoch = 3 }

abbrev holder : StakeDeposit
holder = record no_deposit {
  is_initialized = 1;
  pool = 30;
  user = 20;
  last_deposit_slot = 100;
  lp_amount = 400;
}

unfoldable marked : StakePool
marked = or_else (enforce_hwm trading_pool 227 time) trading_pool

process_withdraw_succeeds_example :
    (w' : World Blob) × (process_withdraw model 1 withdraw_infos 200 holding ≡ ok w')
unfolding marked model holding withdraw_accounts next_account_info vault_auth_key deposit_key
    load_pool load_deposit store_pool store_deposit invoke key_bytes to_le_bytes vault_auth_seeds
    deposit_seeds derive_vault_authority derive_deposit_pda verify_token_program check_withdraw
    check_position enforce_hwm move_withdraw debit_pool record_withdraw validate_discriminator
    total_pool_value calc_collateral_for_withdraw hwm_enabled hwm_floor_bps hwm_withdrawal_allowed
    hwm_floor refresh_hwm hwm_last_epoch epoch_high_water_tvl set_hwm_last_epoch
    set_epoch_high_water_tvl from_le_bytes write_slice bytes_eq checked_add checked_sub checked_mul
    checked_div as_u64 Math.calc_collateral_for_withdraw pro_rata saturating_add fit_pool
    fit_deposit bytes_fit
process_withdraw_succeeds_example =
    process_withdraw_succeeds model 1 model_owned withdraw_infos 200 227 holding holding
      withdraw_named trading_pool marked time holder refl withdraw_named_eq refl refl refl refl refl
      refl refl (omega arith) refl refl
      (ok_or_else (enforce_hwm trading_pool 227 time) trading_pool refl) refl
