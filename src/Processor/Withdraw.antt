-- ===== src/Processor/Withdraw.antt =====
-- `process_withdraw` of src/processor.rs. The pool is borrowed from its first read to the end, as in
-- `process_deposit`.
pub mod Run
pub mod Exit
pub mod Books
pub mod Effect
pub mod Guards
use percolator_vault.Base.{ℕ, not, ◌||◌, [], ◌∷◌, List, ltb, ◌==◌, if◌then◌else◌}
use percolator_vault.Base.Maybe.{unwrap_or}
use percolator_vault.Base.Word.{checked_add, checked_sub, saturating_add}
use percolator_vault.Error.{
  Result, ok, err, reject_if, fail_if, ok_or, ◌>>=◌, ◌>>◌, missing_required_signature,
  account_borrow_failed, zero_amount, not_initialized, invalid_account, invalid_mint, invalid_pda,
  unauthorized, cooldown_not_elapsed, insufficient_lp_tokens, overflow, withdrawal_below_hwm_floor,
}
use percolator_vault.Math.{hwm_withdrawal_allowed}
use percolator_vault.State.{
  StakePool, StakeDeposit, validate_discriminator, total_pool_value, calc_collateral_for_withdraw,
  hwm_enabled, refresh_hwm, hwm_floor_bps,
}
use percolator_vault.Runtime.{
  Pubkey, AccountInfo, World, Runtime, Clock, token_transfer, burn, next_account_info, load_pool,
  load_deposit, store_pool, store_deposit, invoke,
}
use percolator_vault.Pda.{derive_vault_authority, derive_deposit_pda, vault_auth_seeds}
use percolator_vault.Processor.Common.{verify_token_program}

pub record WithdrawAccounts : Type 0 where
  pub user : AccountInfo
  pub pool_pda : AccountInfo
  pub user_lp_ata : AccountInfo
  pub lp_mint : AccountInfo
  pub vault : AccountInfo
  pub user_ata : AccountInfo
  pub vault_auth : AccountInfo
  pub deposit_pda : AccountInfo
  pub token_program : AccountInfo
  pub clock_sysvar : AccountInfo

unfoldable pub withdraw_accounts : List AccountInfo → Result WithdrawAccounts
withdraw_accounts accounts = do
  (user, accounts) ← next_account_info accounts
  (pool_pda, accounts) ← next_account_info accounts
  (user_lp_ata, accounts) ← next_account_info accounts
  (lp_mint, accounts) ← next_account_info accounts
  (vault, accounts) ← next_account_info accounts
  (user_ata, accounts) ← next_account_info accounts
  (vault_auth, accounts) ← next_account_info accounts
  (deposit_pda, accounts) ← next_account_info accounts
  (token_program, accounts) ← next_account_info accounts
  (clock_sysvar, accounts) ← next_account_info accounts
  ok (record {
    user = user;
    pool_pda = pool_pda;
    user_lp_ata = user_lp_ata;
    lp_mint = lp_mint;
    vault = vault;
    user_ata = user_ata;
    vault_auth = vault_auth;
    deposit_pda = deposit_pda;
    token_program = token_program;
    clock_sysvar = clock_sysvar;
  })

-- The checks on the depositor's record.
unfoldable pub check_position : StakeDeposit → Pubkey → Pubkey → ℕ → ℕ → ℕ → Result (Unit {0})
check_position deposit user pool lp_amount slot cooldown_slots = do
  fail_if
      (not (deposit.is_initialized == 1)
        || not (deposit.user == user)
        || not (deposit.pool == pool))
      unauthorized
  fail_if (ltb slot (saturating_add deposit.last_deposit_slot cooldown_slots)) cooldown_not_elapsed
  fail_if (ltb deposit.lp_amount lp_amount) insufficient_lp_tokens

-- The high-water mark is refreshed, and the value that remains is held to its floor.
unfoldable pub enforce_hwm : StakePool → ℕ → Clock → Result StakePool
enforce_hwm pool collateral_amount clock = do
  let current_tvl = unwrap_or (total_pool_value pool) 0
  let (marked, hwm) = refresh_hwm pool clock.epoch current_tvl
  let enforced = do
    post_tvl ← ok_or (checked_sub current_tvl collateral_amount) overflow
    fail_if (not (hwm_withdrawal_allowed post_tvl hwm (hwm_floor_bps marked)))
        withdrawal_below_hwm_floor
    ok marked
  if hwm_enabled pool then enforced else ok pool

-- The pool totals after the tokens have moved.
unfoldable pub debit_pool : StakePool → ℕ → ℕ → Result StakePool
debit_pool pool collateral_amount lp_amount = do
  total_withdrawn ← ok_or (checked_add pool.total_withdrawn collateral_amount) overflow
  total_lp_supply ← ok_or (checked_sub pool.total_lp_supply lp_amount) overflow
  ok (record pool { total_withdrawn = total_withdrawn; total_lp_supply = total_lp_supply })

module _ {D : Type 0} (rt : Runtime D) (program_id : Pubkey) where
  -- The checks between reading the pool and reading the depositor's record.
  unfoldable pub check_withdraw : WithdrawAccounts → StakePool → World D → Result (Unit {0})
  check_withdraw a pool w = do
    fail_if (not (pool.is_initialized == 1)) not_initialized
    fail_if (not (validate_discriminator pool)) invalid_account
    fail_if (not (pool.lp_mint == a.lp_mint.key)) invalid_mint
    fail_if (not (pool.vault == a.vault.key)) invalid_pda
    verify_token_program rt a.token_program
    let (expected_vault_auth, _) = derive_vault_authority rt program_id a.pool_pda.key
    fail_if (not (a.vault_auth.key == expected_vault_auth)) invalid_account
    let (expected_deposit_pda, _) = derive_deposit_pda rt program_id a.pool_pda.key a.user.key
    fail_if (not (a.deposit_pda.key == expected_deposit_pda)) invalid_pda
    fail_if (not ((w a.deposit_pda.key).owner == program_id)) invalid_account

  -- The LP tokens are burned, and the collateral goes to the user.
  unfoldable pub move_withdraw : WithdrawAccounts → ℕ → ℕ → World D → Result (World D)
  move_withdraw a lp_amount collateral_amount w = do
    w₁ ← invoke rt (burn a.token_program.key a.user_lp_ata.key a.lp_mint.key a.user.key lp_amount) w
    let (_, vault_auth_bump) = derive_vault_authority rt program_id a.pool_pda.key
    rt.invoke_signed
        (token_transfer a.token_program.key a.vault.key a.user_ata.key a.vault_auth.key
          collateral_amount)
        (vault_auth_seeds a.pool_pda.key vault_auth_bump ∷ []) w₁

  -- The record is debited, and the borrowed pool written with it.
  unfoldable pub record_withdraw : WithdrawAccounts → ℕ → StakePool → World D → Result (World D)
  record_withdraw a lp_amount pool w = do
    deposit ← load_deposit rt w a.deposit_pda.key
    remaining ← ok_or (checked_sub deposit.lp_amount lp_amount) insufficient_lp_tokens
    ok (
        store_pool rt a.pool_pda.key pool
          (store_deposit rt a.deposit_pda.key (record deposit { lp_amount = remaining }) w))

  unfoldable pub process_withdraw : List AccountInfo → ℕ → World D → Result (World D)
  process_withdraw accounts lp_amount w = do
    fail_if (lp_amount == 0) zero_amount
    a ← withdraw_accounts accounts
    reject_if (not a.user.is_signer) missing_required_signature
    pool ← load_pool rt w a.pool_pda.key
    check_withdraw a pool w
    clock ← rt.clock_of a.clock_sysvar.key (w a.clock_sysvar.key).contents
    reject_if (a.deposit_pda.key == a.pool_pda.key) account_borrow_failed
    deposit ← load_deposit rt w a.deposit_pda.key
    check_position deposit a.user.key a.pool_pda.key lp_amount clock.slot pool.cooldown_slots
    collateral_amount ← ok_or (calc_collateral_for_withdraw pool lp_amount) overflow
    fail_if (collateral_amount == 0) zero_amount
    pool₁ ← enforce_hwm pool collateral_amount clock
    w₁ ← move_withdraw a lp_amount collateral_amount w
    pool₂ ← debit_pool pool₁ collateral_amount lp_amount
    record_withdraw a lp_amount pool₂ w₁
