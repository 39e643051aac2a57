-- ===== src/Processor/Init.antt =====
-- `process_init_pool` and `process_init_trading_pool` of src/processor.rs.
use percolator_vault.Base.{ℕ, not, [], ◌∷◌, List, none, ◌==◌}
use percolator_vault.Error.{
  Result, ok, reject_if, fail_if, ◌>>=◌, ◌>>◌, missing_required_signature, invalid_argument,
  invalid_pda, already_initialized, invalid_percolator_program, panic,
}
use percolator_vault.State.{StakePool, stake_pool_size, set_discriminator}
use percolator_vault.Runtime.{
  Pubkey, AccountInfo, World, Runtime, initialize_mint, initialize_account, next_account_info,
  load_pool, store_pool, data_is_empty,
}
use percolator_vault.Pda.{derive_pool_pda, derive_vault_authority, pool_seeds, vault_auth_seeds}
use percolator_vault.Cpi.{cpi_update_authority}
use percolator_vault.Processor.Common.{verify_token_program, create_or_adopt_pda}

pub record InitAccounts : Type 0 where
  pub admin : AccountInfo
  pub slab : AccountInfo
  pub pool_pda : AccountInfo
  pub lp_mint : AccountInfo
  pub vault : AccountInfo
  pub vault_auth : AccountInfo
  pub collateral_mint : AccountInfo
  pub percolator_program : AccountInfo
  pub token_program : AccountInfo

unfoldable pub init_accounts : List AccountInfo → Result InitAccounts
init_accounts accounts = do
  (admin, accounts) ← next_account_info accounts
  (slab, accounts) ← next_account_info accounts
  (pool_pda, accounts) ← next_account_info accounts
  (lp_mint, accounts) ← next_account_info accounts
  (vault, accounts) ← next_account_info accounts
  (vault_auth, accounts) ← next_account_info accounts
  (collateral_mint, accounts) ← next_account_info accounts
  (percolator_program, accounts) ← next_account_info accounts
  (token_program, accounts) ← next_account_info accounts
  (_, accounts) ← next_account_info accounts
  (_, accounts) ← next_account_info accounts
  ok (record {
    admin = admin;
    slab = slab;
    pool_pda = pool_pda;
    lp_mint = lp_mint;
    vault = vault;
    vault_auth = vault_auth;
    collateral_mint = collateral_mint;
    percolator_program = percolator_program;
    token_program = token_program;
  })

-- The state that is written over the zeroed account.
unfoldable pub initial_pool : InitAccounts → ℕ → ℕ → ℕ → ℕ → StakePool → StakePool
initial_pool a pool_bump vault_auth_bump cooldown_slots deposit_cap pool =
    set_discriminator (record pool {
      is_initialized = 1;
      bump = pool_bump;
      vault_authority_bump = vault_auth_bump;
      admin_transferred = 1;
      slab = a.slab.key;
      admin = a.admin.key;
      collateral_mint = a.collateral_mint.key;
      lp_mint = a.lp_mint.key;
      vault = a.vault.key;
      total_deposited = 0;
      total_lp_supply = 0;
      cooldown_slots = cooldown_slots;
      deposit_cap = deposit_cap;
      total_flushed = 0;
      total_returned = 0;
      total_withdrawn = 0;
      percolator_program = a.percolator_program.key;
    })

module _ {D : Type 0} (rt : Runtime D) (program_id : Pubkey) where
  -- The checks before any account is created.
  unfoldable pub check_init : InitAccounts → World D → Result (Unit {0})
  check_init a w = do
    reject_if (not a.admin.is_signer) missing_required_signature
    let (expected_pool, _) = derive_pool_pda rt program_id a.slab.key
    fail_if (not (a.pool_pda.key == expected_pool)) invalid_pda
    fail_if (not (data_is_empty rt w a.pool_pda.key)) already_initialized
    let (expected_vault_auth, _) = derive_vault_authority rt program_id expected_pool
    fail_if (not (a.vault_auth.key == expected_vault_auth)) invalid_pda
    verify_token_program rt a.token_program
    fail_if (not ((w a.slab.key).owner == a.percolator_program.key)) invalid_percolator_program
    reject_if (not a.slab.is_writable) invalid_argument

  -- The pool account, the admin hand-over, the LP mint without a freeze authority, and the vault.
  unfoldable pub create_init : InitAccounts → ℕ → ℕ → World D → Result (World D)
  create_init a pool_bump vault_auth_bump w = do
    w₁ ←
        create_or_adopt_pda rt a.pool_pda a.admin program_id stake_pool_size
          (pool_seeds a.slab.key pool_bump) w
    w₂ ←
        cpi_update_authority rt a.percolator_program a.admin a.pool_pda a.slab
          (pool_seeds a.slab.key pool_bump) w₁
    w₃ ←
        rt.invoke_signed (initialize_mint a.token_program.key a.lp_mint.key a.vault_auth.key none 6)
          (vault_auth_seeds a.pool_pda.key vault_auth_bump ∷ []) w₂
    rt.invoke_signed
        (initialize_account a.token_program.key a.vault.key a.collateral_mint.key a.vault_auth.key)
        (vault_auth_seeds a.pool_pda.key vault_auth_bump ∷ []) w₃

  unfoldable pub process_init_pool : List AccountInfo → ℕ → ℕ → World D → Result (World D)
  process_init_pool accounts cooldown_slots deposit_cap w = do
    a ← init_accounts accounts
    check_init a w
    let (expected_pool, pool_bump) = derive_pool_pda rt program_id a.slab.key
    let (_, vault_auth_bump) = derive_vault_authority rt program_id expected_pool
    w₁ ← create_init a pool_bump vault_auth_bump w
    pool ← load_pool rt w₁ a.pool_pda.key
    ok (
        store_pool rt a.pool_pda.key
          (initial_pool a pool_bump vault_auth_bump cooldown_slots deposit_cap pool) w₁)

  -- `accounts[2]` panics on a shorter slice.
  unfoldable pub third_account : List AccountInfo → Result AccountInfo
  third_account (_ ∷ _ ∷ pool_ai ∷ _) = ok pool_ai
  third_account _ = panic

  unfoldable pub process_init_trading_pool : List AccountInfo → ℕ → ℕ → World D → Result (World D)
  process_init_trading_pool accounts cooldown_slots deposit_cap w = do
    w₁ ← process_init_pool accounts cooldown_slots deposit_cap w
    pool_ai ← third_account accounts
    pool ← load_pool rt w₁ pool_ai.key
    ok (store_pool rt pool_ai.key (record pool { pool_mode = 1 }) w₁)
