-- ===== src/Processor/Common.antt =====
-- The helpers of src/processor.rs.
use percolator_vault.Base.{ℕ, ◌-◌, not, [], ◌∷◌, ltb, ◌==◌, if◌then◌else◌}
use percolator_vault.Error.{
  Result, ok, missing_required_signature, incorrect_program_id, reject_if, fail_if, ◌>>=◌, ◌>>◌,
  not_initialized, unauthorized, admin_not_transferred, invalid_pda, invalid_percolator_program,
  invalid_pool_mode, invalid_account,
}
use percolator_vault.State.{StakePool}
use percolator_vault.Runtime.{
  Pubkey, AccountInfo, World, Runtime, Seeds, create_account, system_transfer, allocate, assign,
  load_pool, invoke,
}
use percolator_vault.Pda.{derive_pool_pda, derive_vault_authority}

module _ {D : Type 0} (rt : Runtime D) where
  unfoldable pub verify_token_program : AccountInfo → Result (Unit {0})
  verify_token_program token_program =
      reject_if (not (token_program.key == rt.spl_token_id)) incorrect_program_id

  -- The transfer that tops a squatted address up to the rent it needs.
  unfoldable pub fund_pda : AccountInfo → AccountInfo → ℕ → ℕ → World D → Result (World D)
  fund_pda target payer have need w =
      if ltb have need
      then invoke rt (system_transfer payer.key target.key (need - have)) w
      else ok w

  unfoldable pub create_or_adopt_pda :
      AccountInfo → AccountInfo → Pubkey → ℕ → Seeds → World D → Result (World D)
  create_or_adopt_pda target payer owner space signer_seeds w = do
    need ← rt.minimum_balance space
    let have = (w target.key).lamports
    let adopt = do
      w₁ ← fund_pda target payer have need w
      w₂ ← rt.invoke_signed (allocate target.key space) (signer_seeds ∷ []) w₁
      rt.invoke_signed (assign target.key owner) (signer_seeds ∷ []) w₂
    let create =
        rt.invoke_signed (create_account payer.key target.key need space owner) (signer_seeds ∷ [])
          w
    if have == 0 then create else adopt

  -- The checks on the pool itself, then the bump of the pool's address.
  unfoldable pub validate_admin_cpi :
      Pubkey → AccountInfo → AccountInfo → AccountInfo → AccountInfo → World D → Result ℕ
  validate_admin_cpi program_id pool_pda admin slab percolator_program w = do
    reject_if (not admin.is_signer) missing_required_signature
    pool ← load_pool rt w pool_pda.key
    fail_if (not (pool.is_initialized == 1)) not_initialized
    fail_if (not (pool.admin == admin.key)) unauthorized
    fail_if (not (pool.admin_transferred == 1)) admin_not_transferred
    fail_if (not (pool.slab == slab.key)) invalid_pda
    fail_if (not (pool.percolator_program == percolator_program.key)) invalid_percolator_program
    let (expected_pool, bump) = derive_pool_pda rt program_id slab.key
    fail_if (not (pool_pda.key == expected_pool)) invalid_pda
    ok bump

  unfoldable pub validate_vault_insurance_authority : Pubkey → Pubkey → Pubkey → Pubkey → Result ℕ
  validate_vault_insurance_authority program_id pool_key authority_key requested_authority = do
    fail_if (not (authority_key == requested_authority)) invalid_account
    let (expected_vault_auth, vault_auth_bump) = derive_vault_authority rt program_id pool_key
    reject_if (not (authority_key == expected_vault_auth)) missing_required_signature
    ok vault_auth_bump

unfoldable pub validate_flush_pool_mode : StakePool → Result (Unit {0})
validate_flush_pool_mode pool = fail_if (not (pool.pool_mode == 0)) invalid_pool_mode

unfoldable pub validate_withdraw_insurance_pool_mode : StakePool → Result (Unit {0})
validate_withdraw_insurance_pool_mode pool = fail_if (not (pool.pool_mode == 0)) invalid_pool_mode

unfoldable pub validate_return_vault : StakePool → Pubkey → Result (Unit {0})
validate_return_vault pool stake_vault_key =
    fail_if (not (pool.vault == stake_vault_key)) invalid_pda
