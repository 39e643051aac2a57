-- ===== src/Processor/Admin.antt =====
-- The handlers of src/processor.rs that forward an admin's wish to the wrapper: the transfer of the
-- wrapper's admin, the two authorities of asset 0, the two retired settings, and the resolution.
use percolator_vault.Base.{ℕ, not, ◌||◌, [], ◌∷◌, List, ◌==◌}
use percolator_vault.Error.{
  Result, ok, reject_if, fail_if, ◌>>=◌, ◌>>◌, missing_required_signature, not_initialized,
  unauthorized, admin_already_transferred, invalid_pda, invalid_account, invalid_percolator_program,
  invalid_instruction_data,
}
use percolator_vault.State.{set_resolved}
use percolator_vault.Runtime.{
  Pubkey, AccountInfo, World, Runtime, next_account_info, load_pool, store_pool,
}
use percolator_vault.Pda.{derive_pool_pda, pool_seeds, vault_auth_seeds}
use percolator_vault.Cpi.{
  cpi_update_authority, cpi_update_asset_authority, cpi_set_risk_threshold, cpi_set_maintenance_fee,
  cpi_resolve_market, asset_auth_oracle, asset_auth_insurance,
}
use percolator_vault.Processor.Common.{validate_admin_cpi, validate_vault_insurance_authority}

-- The four accounts that begin every one of these handlers.
pub record AdminAccounts : Type 0 where
  pub admin : AccountInfo
  pub pool_pda : AccountInfo
  pub slab : AccountInfo
  pub percolator_program : AccountInfo

-- With what is left of the accounts.
unfoldable pub admin_accounts : List AccountInfo → Result (AdminAccounts × List AccountInfo)
admin_accounts accounts = do
  (admin, accounts) ← next_account_info accounts
  (pool_pda, accounts) ← next_account_info accounts
  (slab, accounts) ← next_account_info accounts
  (percolator_program, accounts) ← next_account_info accounts
  ok (
    record {
      admin = admin;
      pool_pda = pool_pda;
      slab = slab;
      percolator_program = percolator_program;
    },
    accounts,
  )

module _ {D : Type 0} (rt : Runtime D) (program_id : Pubkey) where
  unfoldable pub process_transfer_admin : List AccountInfo → World D → Result (World D)
  process_transfer_admin accounts w = do
    (a, _) ← admin_accounts accounts
    reject_if (not a.admin.is_signer) missing_required_signature
    let (expected_pool, pool_bump) = derive_pool_pda rt program_id a.slab.key
    fail_if (not (a.pool_pda.key == expected_pool)) invalid_pda
    pool ← load_pool rt w a.pool_pda.key
    fail_if (not (pool.is_initialized == 1)) not_initialized
    fail_if (not (pool.admin == a.admin.key)) unauthorized
    fail_if (pool.admin_transferred == 1) admin_already_transferred
    fail_if (not (pool.slab == a.slab.key)) invalid_pda
    fail_if (not (pool.percolator_program == a.percolator_program.key)) invalid_percolator_program
    w₁ ←
        cpi_update_authority rt a.percolator_program a.admin a.pool_pda a.slab
          (pool_seeds a.slab.key pool_bump) w
    pool₁ ← load_pool rt w₁ a.pool_pda.key
    ok (store_pool rt a.pool_pda.key (record pool₁ { admin_transferred = 1 }) w₁)

  unfoldable pub process_admin_set_oracle_authority :
      List AccountInfo → Pubkey → World D → Result (World D)
  process_admin_set_oracle_authority accounts new_authority w = do
    (a, accounts) ← admin_accounts accounts
    (new_authority_ai, _) ← next_account_info accounts
    fail_if (not (new_authority_ai.key == new_authority)) invalid_account
    reject_if (not new_authority_ai.is_signer) missing_required_signature
    bump ← validate_admin_cpi rt program_id a.pool_pda a.admin a.slab a.percolator_program w
    cpi_update_asset_authority rt a.percolator_program a.pool_pda new_authority_ai a.slab 0
        asset_auth_oracle (pool_seeds a.slab.key bump ∷ []) w

  unfoldable pub process_admin_set_risk_threshold :
      List AccountInfo → ℕ → World D → Result (World D)
  process_admin_set_risk_threshold accounts new_threshold w = do
    (a, _) ← admin_accounts accounts
    bump ← validate_admin_cpi rt program_id a.pool_pda a.admin a.slab a.percolator_program w
    cpi_set_risk_threshold rt a.percolator_program a.pool_pda a.slab new_threshold
        (pool_seeds a.slab.key bump) w

  unfoldable pub process_admin_set_maintenance_fee :
      List AccountInfo → ℕ → World D → Result (World D)
  process_admin_set_maintenance_fee accounts new_fee w = do
    (a, _) ← admin_accounts accounts
    bump ← validate_admin_cpi rt program_id a.pool_pda a.admin a.slab a.percolator_program w
    cpi_set_maintenance_fee rt a.percolator_program a.pool_pda a.slab new_fee
        (pool_seeds a.slab.key bump) w

  unfoldable pub process_admin_resolve_market : List AccountInfo → World D → Result (World D)
  process_admin_resolve_market accounts w = do
    (a, _) ← admin_accounts accounts
    bump ← validate_admin_cpi rt program_id a.pool_pda a.admin a.slab a.percolator_program w
    w₁ ← cpi_resolve_market rt a.percolator_program a.pool_pda a.slab (pool_seeds a.slab.key bump) w
    pool ← load_pool rt w₁ a.pool_pda.key
    ok (store_pool rt a.pool_pda.key (set_resolved pool) w₁)

  unfoldable pub process_admin_set_insurance_policy :
      List AccountInfo → Pubkey → ℕ → ℕ → ℕ → World D → Result (World D)
  process_admin_set_insurance_policy accounts authority min_withdraw_base max_withdraw_bps
        cooldown_slots w =
      do
        (a, accounts) ← admin_accounts accounts
        (authority_ai, _) ← next_account_info accounts
        vault_auth_bump ←
            validate_vault_insurance_authority rt program_id a.pool_pda.key authority_ai.key
              authority
        reject_if
            (not (min_withdraw_base == 0)
              || not (max_withdraw_bps == 0)
              || not (cooldown_slots == 0))
            invalid_instruction_data
        bump ← validate_admin_cpi rt program_id a.pool_pda a.admin a.slab a.percolator_program w
        cpi_update_asset_authority rt a.percolator_program a.pool_pda authority_ai a.slab 0
            asset_auth_insurance
            (pool_seeds a.slab.key bump ∷ vault_auth_seeds a.pool_pda.key vault_auth_bump ∷ []) w
