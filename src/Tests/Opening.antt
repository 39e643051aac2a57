-- ===== src/Tests/Opening.antt =====
-- The theorems on the opening of pools (src/processor.rs) at concrete accounts and worlds.
use percolator_vault.Base.{◌≡◌, refl, List, [], ◌∷◌, All, ◌==◌, if◌then◌else◌, arith}
use percolator_vault.Base.Bytes.{to_le_bytes}
use percolator_vault.Base.Slices.{write_slice, overwrite}
use percolator_vault.Error.{ok}
use percolator_vault.State.{IsKey, set_discriminator}
use percolator_vault.Runtime.{
  AccountInfo, World, key_bytes, next_account_info, load_pool, store_pool, data_is_empty, invoke,
}
use percolator_vault.Runtime.Owned.{Foreign}
use percolator_vault.Pda.{pool_seeds, vault_auth_seeds, derive_pool_pda, derive_vault_authority}
use percolator_vault.Cpi.{cpi_update_authority, update_authority_instruction}
use percolator_vault.Processor.Common.{verify_token_program, create_or_adopt_pda, fund_pda}
use percolator_vault.Processor.Init.{
  InitAccounts, init_accounts, check_init, create_init, initial_pool, third_account,
  process_init_pool, process_init_trading_pool,
}
use percolator_vault.Processor.Opening.Accounts.{
  Opened, process_init_pool-Opened, process_init_trading_pool-Opened,
}
use percolator_vault.Tests.Model.{Blob, fit_pool, bytes_fit, model, model_laws}
use percolator_vault.Tests.Owner.{model_owned}
use percolator_vault.Tests.Handlers.{info, blob, no_deposit, or_else, ok_or_else}
use percolator_vault.Tests.Runs.{each-All}
use percolator_vault.Tests.Admin.{admin, pool_key, authority_key}

abbrev init_infos : List AccountInfo
init_infos =
    admin
    ∷ info 11
    ∷ info pool_key
    ∷ info 14
    ∷ info 15
    ∷ info authority_key
    ∷ info 13
    ∷ info 16
    ∷ info 900
    ∷ info 41
    ∷ info 42
    ∷ []

abbrev init_named : InitAccounts
init_named = record {
  admin = admin;
  slab = info 11;
  pool_pda = info pool_key;
  lp_mint = info 14;
  vault = info 15;
  vault_auth = info authority_key;
  collateral_mint = info 13;
  percolator_program = info 16;
  token_program = info 900;
}

init_named_eq : init_accounts init_infos ≡ ok init_named
unfolding init_accounts next_account_info
init_named_eq = refl

-- A world in which the slab is the wrapper's, and no other account is anyone's.
unfoldable unopened : World Blob
unopened k = record {
  owner = if k == 11 then 16 else 0;
  lamports = 0;
  contents = blob 0 no_deposit;
}

unfoldable opened : World Blob
opened = or_else (process_init_pool model 1 init_infos 100 9000 unopened) unopened

opened_ok : process_init_pool model 1 init_infos 100 9000 unopened ≡ ok opened
unfolding opened process_init_pool model unopened init_accounts next_account_info pool_key
    authority_key load_pool store_pool data_is_empty invoke check_init create_init initial_pool
    derive_pool_pda derive_vault_authority pool_seeds vault_auth_seeds key_bytes to_le_bytes
    verify_token_program create_or_adopt_pda fund_pda cpi_update_authority
    update_authority_instruction set_discriminator write_slice overwrite fit_pool bytes_fit
opened_ok = ok_or_else (process_init_pool model 1 init_infos 100 9000 unopened) unopened refl

unfoldable trading : World Blob
trading = or_else (process_init_trading_pool model 1 init_infos 100 9000 unopened) unopened

trading_ok : process_init_trading_pool model 1 init_infos 100 9000 unopened ≡ ok trading
unfolding trading process_init_trading_pool process_init_pool third_account model unopened
    init_accounts next_account_info pool_key authority_key load_pool store_pool data_is_empty invoke
    check_init create_init initial_pool derive_pool_pda derive_vault_authority pool_seeds
    vault_auth_seeds key_bytes to_le_bytes verify_token_program create_or_adopt_pda fund_pda
    cpi_update_authority update_authority_instruction set_discriminator write_slice overwrite
    fit_pool bytes_fit
trading_ok =
    ok_or_else (process_init_trading_pool model 1 init_infos 100 9000 unopened) unopened refl

foreign : Foreign 1 init_infos
unfolding pool_key authority_key derive_pool_pda derive_vault_authority pool_seeds vault_auth_seeds
    key_bytes to_le_bytes model
foreign = each-All (λ i. i.key == 1) init_infos refl

keys : All (λ (i : AccountInfo). IsKey i.key) init_infos
unfolding pool_key authority_key derive_pool_pda derive_vault_authority pool_seeds vault_auth_seeds
    key_bytes to_le_bytes model
keys = ground arith

process_init_pool-Opened_example :
    Opened model model_laws 1 model_owned init_named 100 9000 0 opened
process_init_pool-Opened_example =
    process_init_pool-Opened model model_laws 1 model_owned init_infos 100 9000 unopened opened
      init_named foreign keys (omega arith) (omega arith) init_named_eq opened_ok

process_init_trading_pool-Opened_example :
    Opened model model_laws 1 model_owned init_named 100 9000 1 trading
process_init_trading_pool-Opened_example =
    process_init_trading_pool-Opened model model_laws 1 model_owned init_infos 100 9000 unopened
      trading init_named foreign keys (omega arith) (omega arith) init_named_eq trading_ok
