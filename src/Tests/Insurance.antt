-- ===== src/Tests/Insurance.antt =====
-- The theorems on the return of insurance (src/processor.rs) at concrete accounts and worlds.
use percolator_vault.Base.{◌≡◌, refl, List, [], ◌∷◌}
use percolator_vault.Base.Bytes.{to_le_bytes}
use percolator_vault.Base.Word.{checked_add}
use percolator_vault.Error.{ok}
use percolator_vault.Runtime.{
  AccountInfo, World, key_bytes, next_account_info, load_pool, store_pool,
}
use percolator_vault.Pda.{pool_seeds, vault_auth_seeds, derive_pool_pda, derive_vault_authority}
use percolator_vault.Cpi.{
  push_u128_from_u64, withdraw_insurance_instruction, cpi_withdraw_insurance,
}
use percolator_vault.Processor.Common.{
  verify_token_program, validate_admin_cpi, validate_withdraw_insurance_pool_mode,
  validate_return_vault,
}
use percolator_vault.Processor.Flush.{
  WithdrawInsuranceAccounts, withdraw_insurance_accounts, process_admin_withdraw_insurance,
}
use percolator_vault.Processor.Returning.{
  PoolApart, ReturnDone, process_admin_withdraw_insurance-ReturnDone,
}
use percolator_vault.Tests.Model.{Blob, fit_pool, bytes_fit, model, model_laws}
use percolator_vault.Tests.Handlers.{info, or_else, ok_or_else}
use percolator_vault.Tests.Admin.{admin, pool_key, authority_key, before}

abbrev infos : List AccountInfo
infos =
    admin
    ∷ info pool_key
    ∷ info 11
    ∷ info authority_key
    ∷ info 15
    ∷ info 17
    ∷ info 18
    ∷ info 16
    ∷ info 900
    ∷ info 40
    ∷ []

abbrev named : WithdrawInsuranceAccounts
named = record {
  admin = admin;
  pool_pda = info pool_key;
  slab = info 11;
  vault_auth = info authority_key;
  stake_vault = info 15;
  wrapper_vault = info 17;
  wrapper_vault_pda = info 18;
  percolator_program = info 16;
  token_program = info 900;
}

named_eq : withdraw_insurance_accounts infos ≡ ok named
unfolding withdraw_insurance_accounts next_account_info
named_eq = refl

unfoldable returned : World Blob
returned = or_else (process_admin_withdraw_insurance model 1 infos 600 before) before

return_ok : process_admin_withdraw_insurance model 1 infos 600 before ≡ ok returned
unfolding returned process_admin_withdraw_insurance model before withdraw_insurance_accounts
    next_account_info pool_key authority_key load_pool store_pool validate_admin_cpi
    validate_withdraw_insurance_pool_mode validate_return_vault verify_token_program checked_add
    derive_vault_authority vault_auth_seeds key_bytes to_le_bytes derive_pool_pda pool_seeds
    cpi_withdraw_insurance withdraw_insurance_instruction push_u128_from_u64 fit_pool bytes_fit
return_ok = ok_or_else (process_admin_withdraw_insurance model 1 infos 600 before) before refl

named-PoolApart : PoolApart named
unfolding pool_key derive_pool_pda pool_seeds key_bytes to_le_bytes model
named-PoolApart = record { slab_apart = refl; stake_vault_apart = refl; wrapper_vault_apart = refl }

process_admin_withdraw_insurance-ReturnDone_example :
    ReturnDone model model_laws 1 named 600 before returned
process_admin_withdraw_insurance-ReturnDone_example =
    process_admin_withdraw_insurance-ReturnDone model model_laws 1 infos 600 before returned named
      named_eq named-PoolApart return_ok
