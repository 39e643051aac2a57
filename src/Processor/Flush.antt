-- ===== src/Processor/Flush.antt =====
-- `process_flush_to_insurance` and `process_admin_withdraw_insurance` of src/processor.rs: the two
-- ways of collateral between the vault and the insurance fund of the wrapper.
use percolator_vault.Base.{ℕ, not, List, Option, ltb, ◌==◌}
use percolator_vault.Base.Maybe.{◌>>=◌ as and_then}
use percolator_vault.Base.Word.{checked_add, checked_sub}
use percolator_vault.Error.{
  Result, ok, reject_if, fail_if, ok_or, ◌>>=◌, ◌>>◌, missing_required_signature, zero_amount,
  not_initialized, invalid_pda, unauthorized, invalid_percolator_program, overflow,
  insufficient_funds, invalid_argument,
}
use percolator_vault.State.{StakePool}
use percolator_vault.Runtime.{
  Pubkey, AccountInfo, World, Runtime, next_account_info, load_pool, store_pool,
}
use percolator_vault.Pda.{derive_vault_authority, vault_auth_seeds}
use percolator_vault.Cpi.{cpi_top_up_insurance, cpi_withdraw_insurance}
use percolator_vault.Processor.Common.{
  verify_token_program, validate_flush_pool_mode, validate_admin_cpi,
  validate_withdraw_insurance_pool_mode, validate_return_vault,
}

pub record FlushAccounts : Type 0 where
  pub caller : AccountInfo
  pub pool_pda : AccountInfo
  pub vault : AccountInfo
  pub vault_auth : AccountInfo
  pub slab : AccountInfo
  pub wrapper_vault : AccountInfo
  pub percolator_program : AccountInfo
  pub token_program : AccountInfo

unfoldable pub flush_accounts : List AccountInfo → Result FlushAccounts
flush_accounts accounts = do
  (caller, accounts) ← next_account_info accounts
  (pool_pda, accounts) ← next_account_info accounts
  (vault, accounts) ← next_account_info accounts
  (vault_auth, accounts) ← next_account_info accounts
  (slab, accounts) ← next_account_info accounts
  (wrapper_vault, accounts) ← next_account_info accounts
  (percolator_program, accounts) ← next_account_info accounts
  (token_program, accounts) ← next_account_info accounts
  ok (record {
    caller = caller;
    pool_pda = pool_pda;
    vault = vault;
    vault_auth = vault_auth;
    slab = slab;
    wrapper_vault = wrapper_vault;
    percolator_program = percolator_program;
    token_program = token_program;
  })

pub record WithdrawInsuranceAccounts : Type 0 where
  pub admin : AccountInfo
  pub pool_pda : AccountInfo
  pub slab : AccountInfo
  pub vault_auth : AccountInfo
  pub stake_vault : AccountInfo
  pub wrapper_vault : AccountInfo
  pub wrapper_vault_pda : AccountInfo
  pub percolator_program : AccountInfo
  pub token_program : AccountInfo

unfoldable pub withdraw_insurance_accounts : List AccountInfo → Result WithdrawInsuranceAccounts
withdraw_insurance_accounts accounts = do
  (admin, accounts) ← next_account_info accounts
  (pool_pda, accounts) ← next_account_info accounts
  (slab, accounts) ← next_account_info accounts
  (vault_auth, accounts) ← next_account_info accounts
  (stake_vault, accounts) ← next_account_info accounts
  (wrapper_vault, accounts) ← next_account_info accounts
  (wrapper_vault_pda, accounts) ← next_account_info accounts
  (percolator_program, accounts) ← next_account_info accounts
  (token_program, accounts) ← next_account_info accounts
  (_, accounts) ← next_account_info accounts
  ok (record {
    admin = admin;
    pool_pda = pool_pda;
    slab = slab;
    vault_auth = vault_auth;
    stake_vault = stake_vault;
    wrapper_vault = wrapper_vault;
    wrapper_vault_pda = wrapper_vault_pda;
    percolator_program = percolator_program;
    token_program = token_program;
  })

-- What may be flushed: the inflows less the outflows, each step checked.
unfoldable pub available_to_flush : StakePool → Option ℕ
available_to_flush pool =
    and_then
      (and_then (checked_add pool.total_deposited pool.total_returned)
        (λ v. checked_sub v pool.total_withdrawn))
      (λ v. checked_sub v pool.total_flushed)

module _ {D : Type 0} (rt : Runtime D) (program_id : Pubkey) where
  -- The checks on the pool and the accounts.
  unfoldable pub check_flush : FlushAccounts → StakePool → Result (Unit {0})
  check_flush a pool = do
    fail_if (not (pool.is_initialized == 1)) not_initialized
    validate_flush_pool_mode pool
    fail_if (not (pool.admin == a.caller.key)) unauthorized
    fail_if (not (pool.slab == a.slab.key)) invalid_pda
    fail_if (not (pool.vault == a.vault.key)) invalid_pda
    fail_if (not (pool.percolator_program == a.percolator_program.key)) invalid_percolator_program
    verify_token_program rt a.token_program

  unfoldable pub process_flush_to_insurance : List AccountInfo → ℕ → World D → Result (World D)
  process_flush_to_insurance accounts amount w = do
    fail_if (amount == 0) zero_amount
    a ← flush_accounts accounts
    reject_if (not a.caller.is_signer) missing_required_signature
    pool ← load_pool rt w a.pool_pda.key
    check_flush a pool
    available ← ok_or (available_to_flush pool) overflow
    reject_if (ltb available amount) insufficient_funds
    let (expected_vault_auth, vault_auth_bump) = derive_vault_authority rt program_id a.pool_pda.key
    fail_if (not (a.vault_auth.key == expected_vault_auth)) invalid_pda
    w₁ ←
        cpi_top_up_insurance rt a.percolator_program a.vault_auth a.slab a.vault a.wrapper_vault
          a.token_program amount (vault_auth_seeds a.pool_pda.key vault_auth_bump) w
    total_flushed ← ok_or (checked_add pool.total_flushed amount) overflow
    ok (store_pool rt a.pool_pda.key (record pool { total_flushed = total_flushed }) w₁)

  -- The pool is read again after the invocation, which finds it unborrowed.
  unfoldable pub process_admin_withdraw_insurance :
      List AccountInfo → ℕ → World D → Result (World D)
  process_admin_withdraw_insurance accounts amount w = do
    a ← withdraw_insurance_accounts accounts
    _ ← validate_admin_cpi rt program_id a.pool_pda a.admin a.slab a.percolator_program w
    pool ← load_pool rt w a.pool_pda.key
    validate_withdraw_insurance_pool_mode pool
    validate_return_vault pool a.stake_vault.key
    verify_token_program rt a.token_program
    let (expected_vault_auth, vault_auth_bump) = derive_vault_authority rt program_id a.pool_pda.key
    reject_if (not (a.vault_auth.key == expected_vault_auth)) invalid_argument
    w₁ ←
        cpi_withdraw_insurance rt a.percolator_program a.vault_auth a.slab a.stake_vault
          a.wrapper_vault a.wrapper_vault_pda a.token_program amount
          (vault_auth_seeds a.pool_pda.key vault_auth_bump) w
    pool₁ ← load_pool rt w₁ a.pool_pda.key
    total_returned ← ok_or (checked_add pool₁.total_returned amount) overflow
    ok (store_pool rt a.pool_pda.key (record pool₁ { total_returned = total_returned }) w₁)
