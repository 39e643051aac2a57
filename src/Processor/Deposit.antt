-- ===== src/Processor/Deposit.antt =====
-- `process_deposit` of src/processor.rs. The `&mut StakePool` that the handler holds to its end is a
-- value, written back to the account when the handler returns. Where the depositor's account is the
-- pool's, the source panics on the borrow in `data_is_empty`, and the model fails at the record.
pub mod Run
pub mod Books
pub mod Effect
pub mod TopUp
pub mod Position
use percolator_vault.Base.{ℕ, not, ◌&&◌, [], ◌∷◌, List, ltb, ◌==◌, if◌then◌else◌}
use percolator_vault.Base.Maybe.{unwrap_or}
use percolator_vault.Base.Word.{checked_add}
use percolator_vault.Error.{
  Result, ok, err, reject_if, fail_if, ok_or, ◌>>=◌, ◌>>◌, missing_required_signature,
  account_borrow_failed, zero_amount, not_initialized, invalid_account, invalid_mint, invalid_pda,
  admin_not_transferred, market_resolved, overflow, deposit_cap_exceeded,
}
use percolator_vault.Math.{weighted_deposit_slot}
use percolator_vault.State.{
  StakePool, StakeDeposit, stake_deposit_size, validate_discriminator, is_resolved,
  total_pool_value, calc_lp_for_deposit, hwm_enabled, refresh_hwm, set_deposit_discriminator,
}
use percolator_vault.Runtime.{
  Pubkey, AccountInfo, World, Runtime, Clock, token_transfer, mint_to, next_account_info, load_pool,
  load_deposit, store_pool, store_deposit, data_is_empty, invoke,
}
use percolator_vault.Pda.{
  derive_vault_authority, derive_deposit_pda, vault_auth_seeds, deposit_seeds,
}
use percolator_vault.Processor.Common.{verify_token_program, create_or_adopt_pda}

pub record DepositAccounts : Type 0 where
  pub user : AccountInfo
  pub pool_pda : AccountInfo
  pub user_ata : AccountInfo
  pub vault : AccountInfo
  pub lp_mint : AccountInfo
  pub user_lp_ata : AccountInfo
  pub vault_auth : AccountInfo
  pub deposit_pda : AccountInfo
  pub token_program : AccountInfo
  pub clock_sysvar : AccountInfo
  pub system_program : AccountInfo

unfoldable pub deposit_accounts : List AccountInfo → Result DepositAccounts
deposit_accounts accounts = do
  (user, accounts) ← next_account_info accounts
  (pool_pda, accounts) ← next_account_info accounts
  (user_ata, accounts) ← next_account_info accounts
  (vault, accounts) ← next_account_info accounts
  (lp_mint, accounts) ← next_account_info accounts
  (user_lp_ata, accounts) ← next_account_info accounts
  (vault_auth, accounts) ← next_account_info accounts
  (deposit_pda, accounts) ← next_account_info accounts
  (token_program, accounts) ← next_account_info accounts
  (clock_sysvar, accounts) ← next_account_info accounts
  (system_program, accounts) ← next_account_info accounts
  ok (record {
    user = user;
    pool_pda = pool_pda;
    user_ata = user_ata;
    vault = vault;
    lp_mint = lp_mint;
    user_lp_ata = user_lp_ata;
    vault_auth = vault_auth;
    deposit_pda = deposit_pda;
    token_program = token_program;
    clock_sysvar = clock_sysvar;
    system_program = system_program;
  })

-- The cap is tested against the current value; no cap is 0.
unfoldable pub check_deposit_cap : StakePool → ℕ → Result (Unit {0})
check_deposit_cap pool amount = do
  let current_value = unwrap_or (total_pool_value pool) 0
  let within = do
    new_value ← ok_or (checked_add current_value amount) overflow
    fail_if (ltb pool.deposit_cap new_value) deposit_cap_exceeded
  if ltb 0 pool.deposit_cap then within else ok tt

-- The pool totals after the tokens have moved.
unfoldable pub credit_pool : StakePool → ℕ → ℕ → Result StakePool
credit_pool pool amount lp_to_mint = do
  total_deposited ← ok_or (checked_add pool.total_deposited amount) overflow
  total_lp_supply ← ok_or (checked_add pool.total_lp_supply lp_to_mint) overflow
  ok (record pool { total_deposited = total_deposited; total_lp_supply = total_lp_supply })

-- The high-water mark after the deposit.
unfoldable pub mark_deposit : StakePool → Clock → StakePool
mark_deposit pool clock =
    let current_tvl = unwrap_or (total_pool_value pool) 0 in
    if hwm_enabled pool then (refresh_hwm pool clock.epoch current_tvl).0 else pool

-- The depositor's record after the deposit.
unfoldable pub top_up_deposit : StakeDeposit → ℕ → Pubkey → Pubkey → ℕ → ℕ → ℕ → Result StakeDeposit
top_up_deposit deposit bump pool user lp_to_mint slot cooldown_slots = do
  let stamped =
      if not (deposit.is_initialized == 1) then set_deposit_discriminator deposit else deposit
  lp_amount ← ok_or (checked_add deposit.lp_amount lp_to_mint) overflow
  ok (record stamped {
    is_initialized = 1;
    bump = bump;
    pool = pool;
    user = user;
    last_deposit_slot =
        weighted_deposit_slot deposit.lp_amount deposit.last_deposit_slot lp_to_mint slot
          cooldown_slots;
    lp_amount = lp_amount;
  })

module _ {D : Type 0} (rt : Runtime D) (program_id : Pubkey) where
  -- The checks between reading the pool and moving tokens.
  unfoldable pub check_deposit : DepositAccounts → ℕ → StakePool → Result (Unit {0})
  check_deposit a amount pool = do
    fail_if (not (pool.is_initialized == 1)) not_initialized
    fail_if (not (validate_discriminator pool)) invalid_account
    fail_if (not (pool.lp_mint == a.lp_mint.key)) invalid_mint
    fail_if (not (pool.vault == a.vault.key)) invalid_pda
    fail_if (not (pool.admin_transferred == 1)) admin_not_transferred
    fail_if (is_resolved pool) market_resolved
    let (expected_vault_auth, _) = derive_vault_authority rt program_id a.pool_pda.key
    fail_if (not (a.vault_auth.key == expected_vault_auth)) invalid_account
    check_deposit_cap pool amount
    verify_token_program rt a.token_program

  -- The collateral goes to the vault, and the LP tokens to the user.
  unfoldable pub move_deposit : DepositAccounts → ℕ → ℕ → World D → Result (World D)
  move_deposit a amount lp_to_mint w = do
    w₁ ←
        invoke rt (token_transfer a.token_program.key a.user_ata.key a.vault.key a.user.key amount)
          w
    let (_, vault_auth_bump) = derive_vault_authority rt program_id a.pool_pda.key
    rt.invoke_signed
        (mint_to a.token_program.key a.lp_mint.key a.user_lp_ata.key a.vault_auth.key lp_to_mint)
        (vault_auth_seeds a.pool_pda.key vault_auth_bump ∷ []) w₁

  -- The record's account is checked, and created on the first deposit.
  unfoldable pub open_deposit : DepositAccounts → World D → Result (World D)
  open_deposit a w = do
    let (expected_deposit_pda, deposit_bump) =
        derive_deposit_pda rt program_id a.pool_pda.key a.user.key
    fail_if (not (a.deposit_pda.key == expected_deposit_pda)) invalid_pda
    let empty = data_is_empty rt w a.deposit_pda.key
    fail_if (not empty && not ((w a.deposit_pda.key).owner == program_id)) invalid_account
    let created =
        create_or_adopt_pda rt a.deposit_pda a.user program_id stake_deposit_size
          (deposit_seeds a.pool_pda.key a.user.key deposit_bump) w
    if empty then created else ok w

  -- The record is written, and the pool, which has been borrowed all along, with it.
  unfoldable pub record_deposit :
      DepositAccounts → ℕ → Clock → StakePool → World D → Result (World D)
  record_deposit a lp_to_mint clock pool w = do
    reject_if (a.deposit_pda.key == a.pool_pda.key) account_borrow_failed
    deposit ← load_deposit rt w a.deposit_pda.key
    let (_, deposit_bump) = derive_deposit_pda rt program_id a.pool_pda.key a.user.key
    deposit ←
        top_up_deposit deposit deposit_bump a.pool_pda.key a.user.key lp_to_mint clock.slot
          pool.cooldown_slots
    ok (store_pool rt a.pool_pda.key pool (store_deposit rt a.deposit_pda.key deposit w))

  unfoldable pub process_deposit : List AccountInfo → ℕ → World D → Result (World D)
  process_deposit accounts amount w = do
    fail_if (amount == 0) zero_amount
    a ← deposit_accounts accounts
    reject_if (not a.user.is_signer) missing_required_signature
    pool ← load_pool rt w a.pool_pda.key
    check_deposit a amount pool
    lp_to_mint ← ok_or (calc_lp_for_deposit pool amount) overflow
    fail_if (lp_to_mint == 0) zero_amount
    w₁ ← move_deposit a amount lp_to_mint w
    pool₁ ← credit_pool pool amount lp_to_mint
    clock ← rt.clock_of a.clock_sysvar.key (w₁ a.clock_sysvar.key).contents
    let pool₂ = mark_deposit pool₁ clock
    w₂ ← open_deposit a w₁
    record_deposit a lp_to_mint clock pool₂ w₂
