-- ===== src/Processor.antt =====
-- src/processor.rs: the handlers, and their dispatch.
pub mod Common
pub mod Init
pub mod Deposit
pub mod Withdraw
pub mod Flush
pub mod Config
pub mod Admin
pub mod Accrue
pub mod Closing
pub mod Flushing
pub mod Returning
pub mod Locks
pub mod Profit
pub mod Rules
pub mod Steps
pub mod Runs
pub mod Opening
use percolator_vault.Base.{ℕ, List}
use percolator_vault.Error.{Result, ok, err, panic, ◌>>=◌}
use percolator_vault.Instruction.{StakeInstruction, unpack}
use percolator_vault.Runtime.{Pubkey, AccountInfo, World, Runtime}
use Init.{process_init_pool, process_init_trading_pool}
use Deposit.{process_deposit}
use Withdraw.{process_withdraw}
use Flush.{process_flush_to_insurance, process_admin_withdraw_insurance}
use Config.{process_update_config, process_admin_set_hwm_config}
use Admin.{
  process_transfer_admin, process_admin_set_oracle_authority, process_admin_set_risk_threshold,
  process_admin_set_maintenance_fee, process_admin_resolve_market,
  process_admin_set_insurance_policy,
}
use Accrue.{process_accrue_fees}

module _ {D : Type 0} (rt : Runtime D) (program_id : Pubkey) where
  -- The match of `process` on the decoded instruction.
  unfoldable pub dispatch : StakeInstruction → List AccountInfo → World D → Result (World D)
  dispatch (StakeInstruction.init_pool cooldown cap) accounts =
      process_init_pool rt program_id accounts cooldown cap
  dispatch (StakeInstruction.deposit amount) accounts =
      process_deposit rt program_id accounts amount
  dispatch (StakeInstruction.withdraw lp_amount) accounts =
      process_withdraw rt program_id accounts lp_amount
  dispatch (StakeInstruction.flush_to_insurance amount) accounts =
      process_flush_to_insurance rt program_id accounts amount
  dispatch (StakeInstruction.update_config cooldown cap) accounts =
      process_update_config rt accounts cooldown cap
  dispatch StakeInstruction.transfer_admin accounts = process_transfer_admin rt program_id accounts
  dispatch (StakeInstruction.admin_set_oracle_authority key) accounts =
      process_admin_set_oracle_authority rt program_id accounts key
  dispatch (StakeInstruction.admin_set_risk_threshold threshold) accounts =
      process_admin_set_risk_threshold rt program_id accounts threshold
  dispatch (StakeInstruction.admin_set_maintenance_fee fee) accounts =
      process_admin_set_maintenance_fee rt program_id accounts fee
  dispatch StakeInstruction.admin_resolve_market accounts =
      process_admin_resolve_market rt program_id accounts
  dispatch (StakeInstruction.admin_withdraw_insurance amount) accounts =
      process_admin_withdraw_insurance rt program_id accounts amount
  dispatch (StakeInstruction.admin_set_insurance_policy key base bps cooldown) accounts =
      process_admin_set_insurance_policy rt program_id accounts key base bps cooldown
  dispatch StakeInstruction.accrue_fees accounts = process_accrue_fees rt accounts
  dispatch (StakeInstruction.init_trading_pool cooldown cap) accounts =
      process_init_trading_pool rt program_id accounts cooldown cap
  dispatch (StakeInstruction.admin_set_hwm_config enabled bps) accounts =
      process_admin_set_hwm_config rt accounts enabled bps

  -- The entry point: the instruction's bytes, the accounts, and the world before and after.
  unfoldable pub process : List AccountInfo → List ℕ → World D → Result (World D)
  process accounts instruction_data w = do
    instruction ← unpack instruction_data
    dispatch instruction accounts w
