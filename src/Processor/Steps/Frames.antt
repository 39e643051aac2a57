-- ===== src/Processor/Steps/Frames.antt =====
-- The accounts that a handler of src/processor.rs is given, and the invocations that leave a pool's
-- account alone.
use percolator_vault.Base.{◌≡◌, false, List, ◌∷◌, ◌==◌, arith}
use percolator_vault.Error.{ok}
use percolator_vault.Runtime.{Pubkey, AccountInfo, World, Cpi, Seeds, Runtime, next_account_info}
use percolator_vault.Runtime.Owned.{OwnedLaws, Held, Untouched, calls, Foreign}
use percolator_vault.Processor.Flush.{
  FlushAccounts, flush_accounts, WithdrawInsuranceAccounts, withdraw_insurance_accounts,
}
use percolator_vault.Processor.Admin.{AdminAccounts, admin_accounts}
use percolator_vault.Processor.Init.{InitAccounts, init_accounts, third_account}

-- The program that a handler invokes is not this one, when the transaction is foreign to it.
pub flush_accounts-Foreign :
    (program_id : Pubkey) (accounts : List AccountInfo) (a : FlushAccounts)
    → Foreign program_id accounts
    → flush_accounts accounts ≡ ok a
    → (a.percolator_program.key == program_id) ≡ false
unfolding flush_accounts next_account_info
flush_accounts-Foreign program_id (_ ∷ _ ∷ _ ∷ _ ∷ _ ∷ _ ∷ _ ∷ _ ∷ _) a foreign h = ground arith
flush_accounts-Foreign program_id accounts a foreign h = cc

pub admin_accounts-Foreign :
    (program_id : Pubkey) (accounts : List AccountInfo) (a : AdminAccounts × List AccountInfo)
    → Foreign program_id accounts
    → admin_accounts accounts ≡ ok a
    → (a.0.percolator_program.key == program_id) ≡ false
unfolding admin_accounts next_account_info
admin_accounts-Foreign program_id accounts a foreign h = ground arith

pub withdraw_insurance_accounts-Foreign :
    (program_id : Pubkey) (accounts : List AccountInfo) (a : WithdrawInsuranceAccounts)
    → Foreign program_id accounts
    → withdraw_insurance_accounts accounts ≡ ok a
    → (a.percolator_program.key == program_id) ≡ false
unfolding withdraw_insurance_accounts next_account_info
withdraw_insurance_accounts-Foreign program_id (_ ∷ _ ∷ _ ∷ _ ∷ _ ∷ _ ∷ _ ∷ _ ∷ _ ∷ _ ∷ _) a foreign
      h =
    ground arith
withdraw_insurance_accounts-Foreign program_id accounts a foreign h = cc

pub init_accounts-Foreign :
    (program_id : Pubkey) (accounts : List AccountInfo) (a : InitAccounts)
    → Foreign program_id accounts
    → init_accounts accounts ≡ ok a
    → (a.percolator_program.key == program_id) ≡ false
unfolding init_accounts next_account_info
init_accounts-Foreign program_id (_ ∷ _ ∷ _ ∷ _ ∷ _ ∷ _ ∷ _ ∷ _ ∷ _ ∷ _ ∷ _ ∷ _) a foreign h =
    ground arith
init_accounts-Foreign program_id accounts a foreign h = cc

module _ {D : Type 0} (rt : Runtime D) (program_id : Pubkey) (owned : OwnedLaws rt program_id)
    (k : Pubkey) where
  -- An invocation of another program leaves the account.
  pub invoked-Untouched :
      (c : Cpi) (seeds : List Seeds) (w w' : World D)
      → calls program_id c ≡ false
      → Held rt program_id w k
      → rt.invoke_signed c seeds w ≡ ok w'
      → Untouched rt program_id w w' k
  invoked-Untouched c seeds w w' other held h = owned.owned_frame c seeds w w' k h other held.0

  -- The account that `process_init_trading_pool` marks is the one that was opened.
  pub init_accounts-third_account :
      (accounts : List AccountInfo) (a : InitAccounts)
      → init_accounts accounts ≡ ok a
      → third_account rt program_id accounts ≡ ok a.pool_pda
  unfolding init_accounts third_account next_account_info
  init_accounts-third_account (_ ∷ _ ∷ _ ∷ _ ∷ _ ∷ _ ∷ _ ∷ _ ∷ _ ∷ _ ∷ _ ∷ _) a h = ground arith
  init_accounts-third_account accounts a h = cc
