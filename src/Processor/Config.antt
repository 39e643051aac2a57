-- ===== src/Processor/Config.antt =====
-- `process_update_config` and `process_admin_set_hwm_config` of src/processor.rs.
use percolator_vault.Base.{ℕ, Bool, true, false, not, ◌||◌, List, Option, ltb, ◌==◌}
use percolator_vault.Base.Maybe.{unwrap_or}
use percolator_vault.Error.{
  Result, ok, reject_if, fail_if, ◌>>=◌, ◌>>◌, missing_required_signature, not_initialized,
  unauthorized, invalid_account, invalid_instruction_data,
}
use percolator_vault.State.{StakePool, validate_discriminator, set_hwm_enabled, set_hwm_floor_bps}
use percolator_vault.Runtime.{AccountInfo, World, Runtime, next_account_info, load_pool, store_pool}

-- The two accounts of both handlers.
pub record ConfigAccounts : Type 0 where
  pub admin : AccountInfo
  pub pool_pda : AccountInfo

unfoldable pub config_accounts : List AccountInfo → Result ConfigAccounts
config_accounts accounts = do
  (admin, accounts) ← next_account_info accounts
  (pool_pda, accounts) ← next_account_info accounts
  ok (record { admin = admin; pool_pda = pool_pda })

unfoldable pub configured : StakePool → Option ℕ → Option ℕ → StakePool
configured pool new_cooldown_slots new_deposit_cap = record pool {
  cooldown_slots = unwrap_or new_cooldown_slots pool.cooldown_slots;
  deposit_cap = unwrap_or new_deposit_cap pool.deposit_cap;
}

-- The floor is written only when enabling, and must lie in 1 to 10000.
unfoldable pub hwm_configured : StakePool → Bool → ℕ → Result StakePool
hwm_configured pool true floor_bps = do
  reject_if (floor_bps == 0 || ltb 10_000 floor_bps) invalid_instruction_data
  ok (set_hwm_floor_bps (set_hwm_enabled pool true) floor_bps)
hwm_configured pool false floor_bps = ok (set_hwm_enabled pool false)

module _ {D : Type 0} (rt : Runtime D) where
  unfoldable pub process_update_config :
      List AccountInfo → Option ℕ → Option ℕ → World D → Result (World D)
  process_update_config accounts new_cooldown_slots new_deposit_cap w = do
    a ← config_accounts accounts
    reject_if (not a.admin.is_signer) missing_required_signature
    pool ← load_pool rt w a.pool_pda.key
    fail_if (not (pool.is_initialized == 1)) not_initialized
    fail_if (not (pool.admin == a.admin.key)) unauthorized
    ok (store_pool rt a.pool_pda.key (configured pool new_cooldown_slots new_deposit_cap) w)

  unfoldable pub process_admin_set_hwm_config :
      List AccountInfo → Bool → ℕ → World D → Result (World D)
  process_admin_set_hwm_config accounts enabled floor_bps w = do
    a ← config_accounts accounts
    reject_if (not a.admin.is_signer) missing_required_signature
    pool ← load_pool rt w a.pool_pda.key
    fail_if (not (pool.is_initialized == 1)) not_initialized
    fail_if (not (validate_discriminator pool)) invalid_account
    fail_if (not (pool.admin == a.admin.key)) unauthorized
    pool₁ ← hwm_configured pool enabled floor_bps
    ok (store_pool rt a.pool_pda.key pool₁ w)
