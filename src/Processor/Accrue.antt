-- ===== src/Processor/Accrue.antt =====
-- `process_accrue_fees` of src/processor.rs.
use percolator_vault.Base.{ℕ, ◌-◌, not, List, Option, ltb, ◌==◌, if◌then◌else◌}
use percolator_vault.Base.Maybe.{◌>>=◌ as and_then}
use percolator_vault.Base.Word.{checked_add}
use percolator_vault.Error.{
  Result, ok, reject_if, fail_if, ok_or, ◌>>=◌, ◌>>◌, missing_required_signature,
  uninitialized_account, invalid_account_data, account_borrow_failed, invalid_pool_mode, overflow,
}
use percolator_vault.State.{
  StakePool, accrual_baseline, pre_supply_vault_offset, set_pre_supply_vault_offset,
}
use percolator_vault.Runtime.{AccountInfo, World, Runtime, next_account_info, load_pool, store_pool}

-- The caller's signature is tested between the first account and the others.
pub record AccrueAccounts : Type 0 where
  pub pool_ai : AccountInfo
  pub vault_ai : AccountInfo
  pub clock_ai : AccountInfo

unfoldable pub accrue_accounts : List AccountInfo → Result AccrueAccounts
accrue_accounts accounts = do
  (caller, accounts) ← next_account_info accounts
  reject_if (not caller.is_signer) missing_required_signature
  (pool_ai, accounts) ← next_account_info accounts
  (vault_ai, accounts) ← next_account_info accounts
  (clock_ai, accounts) ← next_account_info accounts
  ok (record { pool_ai = pool_ai; vault_ai = vault_ai; clock_ai = clock_ai })

-- The slot and the balance are noted on every path.
unfoldable pub noted : StakePool → ℕ → ℕ → StakePool
noted pool current_balance slot = record pool {
  last_fee_accrual_slot = slot;
  last_vault_snapshot = current_balance;
}

-- The balance that the books explain.
unfoldable pub expected_balance : StakePool → Option ℕ
expected_balance pool =
    and_then (accrual_baseline pool)
      (λ baseline. checked_add baseline (pre_supply_vault_offset pool))

-- What the crank does to the pool at a vault balance.
unfoldable pub accrued : StakePool → ℕ → ℕ → Result StakePool
accrued pool current_balance slot = do
  let skipped = noted (set_pre_supply_vault_offset pool current_balance) current_balance slot
  let booked = do
    pool_value ← ok_or (expected_balance pool) overflow
    let fee_delta = current_balance - pool_value
    let with_fees = do
      total_fees_earned ← ok_or (checked_add pool.total_fees_earned fee_delta) overflow
      ok (noted (record pool { total_fees_earned = total_fees_earned }) current_balance slot)
    if ltb pool_value current_balance then with_fees else ok (noted pool current_balance slot)
  if pool.total_lp_supply == 0 then ok skipped else booked

module _ {D : Type 0} (rt : Runtime D) where
  unfoldable pub process_accrue_fees : List AccountInfo → World D → Result (World D)
  process_accrue_fees accounts w = do
    a ← accrue_accounts accounts
    pool ← load_pool rt w a.pool_ai.key
    reject_if (not (pool.is_initialized == 1)) uninitialized_account
    fail_if (not (pool.pool_mode == 1)) invalid_pool_mode
    reject_if (a.vault_ai.key == a.pool_ai.key) account_borrow_failed
    current_balance ← rt.token_amount (w a.vault_ai.key).contents
    reject_if (not (a.vault_ai.key == pool.vault)) invalid_account_data
    clock ← rt.clock_of a.clock_ai.key (w a.clock_ai.key).contents
    pool₁ ← accrued pool current_balance clock.slot
    ok (store_pool rt a.pool_ai.key pool₁ w)
