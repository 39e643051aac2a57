-- ===== src/Processor/Steps/Dispatch.antt =====
-- `process` of src/processor.rs, whatever the instruction, on an account of the program that holds a
-- pool.
use percolator_vault.Base.{ℕ, ◌≡◌, List, All}
use percolator_vault.Base.Word.{IsU8}
use percolator_vault.Error.{ok, bind_ok}
use percolator_vault.Instruction.{StakeInstruction, unpack}
use percolator_vault.Instruction.Wire.{ArgumentsFit}
use percolator_vault.Instruction.Ranges.{unpack-ArgumentsFit}
use percolator_vault.Runtime.{Pubkey, AccountInfo, World, Runtime}
use percolator_vault.Runtime.Laws.{RuntimeLaws}
use percolator_vault.Runtime.Owned.{OwnedLaws, Foreign, Held}
use percolator_vault.Processor.{dispatch, process}
use percolator_vault.Processor.Closing.{
  process_admin_set_risk_threshold_never, process_admin_set_maintenance_fee_never,
}
use percolator_vault.Processor.Steps.{Carries}
use percolator_vault.Processor.Steps.Local.{
  process_update_config-Carries, process_admin_set_hwm_config-Carries, process_accrue_fees-Carries,
}
use percolator_vault.Processor.Steps.Deposits.{NoRecord, process_deposit-Carries}
use percolator_vault.Processor.Steps.Withdraws.{process_withdraw-Carries}
use percolator_vault.Processor.Steps.Insurance.{
  process_flush_to_insurance-Carries, process_admin_withdraw_insurance-Carries,
}
use percolator_vault.Processor.Steps.Admins.{
  process_transfer_admin-Carries, process_admin_resolve_market-Carries,
  process_admin_set_oracle_authority-Carries, process_admin_set_insurance_policy-Carries,
}
use percolator_vault.Processor.Steps.Opens.{
  process_init_pool-Carries, process_init_trading_pool-Carries,
}

module _ {D : Type 0} (rt : Runtime D) (laws : RuntimeLaws rt) (program_id : Pubkey)
    (owned : OwnedLaws rt program_id) (k : Pubkey) (accounts : List AccountInfo) (w w' : World D)
    (foreign : Foreign program_id accounts) (apart : NoRecord rt program_id accounts k)
    (held : Held rt program_id w k) where
  dispatch-Carries :
      (i : StakeInstruction)
      → ArgumentsFit i
      → dispatch rt program_id i accounts w ≡ ok w'
      → Carries rt laws program_id owned k w w'
  unfolding dispatch
  dispatch-Carries (StakeInstruction.init_pool cooldown limit) fits =
      process_init_pool-Carries rt laws program_id owned k accounts cooldown limit w w' foreign held
  dispatch-Carries (StakeInstruction.deposit amount) fits =
      process_deposit-Carries rt laws program_id owned k accounts amount w w' apart held
  dispatch-Carries (StakeInstruction.withdraw lp) fits =
      process_withdraw-Carries rt laws program_id owned k accounts lp w w' apart held
  dispatch-Carries (StakeInstruction.flush_to_insurance amount) fits =
      process_flush_to_insurance-Carries rt laws program_id owned k accounts w w' foreign held
        amount
  dispatch-Carries (StakeInstruction.update_config cooldown limit) (cooldown_fits, cap_fits) =
      process_update_config-Carries rt laws program_id owned k accounts w w' held cooldown limit
        cooldown_fits cap_fits
  dispatch-Carries StakeInstruction.transfer_admin fits =
      process_transfer_admin-Carries rt laws program_id owned k accounts w w' foreign held
  dispatch-Carries (StakeInstruction.admin_set_oracle_authority key) fits =
      process_admin_set_oracle_authority-Carries rt laws program_id owned k accounts w w' foreign
        held key
  dispatch-Carries (StakeInstruction.admin_set_risk_threshold threshold) fits =
      λ h. absurd (process_admin_set_risk_threshold_never rt program_id accounts threshold w w' h)
  dispatch-Carries (StakeInstruction.admin_set_maintenance_fee fee) fits =
      λ h. absurd (process_admin_set_maintenance_fee_never rt program_id accounts fee w w' h)
  dispatch-Carries StakeInstruction.admin_resolve_market fits =
      process_admin_resolve_market-Carries rt laws program_id owned k accounts w w' foreign held
  dispatch-Carries (StakeInstruction.admin_withdraw_insurance amount) fits =
      process_admin_withdraw_insurance-Carries rt laws program_id owned k accounts w w' foreign held
        amount
  dispatch-Carries (StakeInstruction.admin_set_insurance_policy key base bps cooldown) fits =
      process_admin_set_insurance_policy-Carries rt laws program_id owned k accounts w w' foreign
        held key base bps cooldown
  dispatch-Carries StakeInstruction.accrue_fees fits =
      process_accrue_fees-Carries rt laws program_id owned k accounts w w' held
  dispatch-Carries (StakeInstruction.init_trading_pool cooldown limit) fits =
      process_init_trading_pool-Carries rt laws program_id owned k accounts cooldown limit w w'
        foreign held
  dispatch-Carries (StakeInstruction.admin_set_hwm_config enabled bps) fits =
      process_admin_set_hwm_config-Carries rt laws program_id owned k accounts w w' held enabled bps

  pub process-Carries :
      (bytes : List ℕ)
      → All IsU8 bytes
      → process rt program_id accounts bytes w ≡ ok w'
      → Carries rt laws program_id owned k w w'
  unfolding process
  process-Carries bytes typed h =
      bind_ok (unpack bytes) h
        λ i decoded h. dispatch-Carries i (unpack-ArgumentsFit bytes i typed decoded) h
