-- ===== src/Tests/Handlers.antt =====
-- The theorems on deposits and withdrawals (src/processor.rs) at concrete accounts and worlds.
use percolator_vault.Base.{
  ℕ, ◌≡◌, refl, Bool, true, false, some, List, [], ◌∷◌, replicate, ◌==◌, if◌then◌else◌, arith,
}
use percolator_vault.Base.Bytes.{to_le_bytes, from_le_bytes}
use percolator_vault.Base.Slices.{write_slice, bytes_eq}
use percolator_vault.Base.Word.{
  checked_add, checked_sub, checked_mul, checked_div, saturating_add, saturating_sub, add_u128,
  mul_u128, as_u64, min_of, max_of,
}
use percolator_vault.Error.{Result, ok, err, panic}
use percolator_vault.Math
use percolator_vault.Math.{
  pro_rata, blended_slot, freshness_floor, weighted_deposit_slot, hwm_floor, hwm_withdrawal_allowed,
}
use percolator_vault.State.{
  StakeDeposit, validate_discriminator, is_resolved, total_pool_value, calc_lp_for_deposit,
  calc_collateral_for_withdraw, hwm_enabled, hwm_floor_bps, refresh_hwm, hwm_last_epoch,
  epoch_high_water_tvl, set_hwm_last_epoch, set_epoch_high_water_tvl, set_deposit_discriminator,
}
use percolator_vault.Runtime.{
  AccountInfo, World, key_bytes, next_account_info, load_pool, load_deposit, store_pool,
  store_deposit, data_is_empty, invoke,
}
use percolator_vault.Runtime.Store.{pool_at, deposit_at}
use percolator_vault.Pda.{
  pool_seeds, vault_auth_seeds, deposit_seeds, derive_vault_authority, derive_deposit_pda,
}
use percolator_vault.Processor.Common.{verify_token_program, create_or_adopt_pda, fund_pda}
use percolator_vault.Processor.Deposit.{
  DepositAccounts, deposit_accounts, check_deposit_cap, check_deposit, move_deposit, credit_pool,
  mark_deposit, open_deposit, record_deposit, top_up_deposit, process_deposit,
}
use percolator_vault.Processor.Deposit.Effect.{
  Minted, process_deposit-Minted, process_deposit-value,
}
use percolator_vault.Processor.Deposit.Position.{ClockApart, process_deposit-Locked}
use percolator_vault.Processor.Deposit.TopUp.{Locked}
use percolator_vault.Processor.Withdraw.{
  WithdrawAccounts, withdraw_accounts, check_withdraw, check_position, enforce_hwm, move_withdraw,
  debit_pool, record_withdraw, process_withdraw,
}
use percolator_vault.Processor.Withdraw.Effect.{Apart, Withdrawn, process_withdraw-Withdrawn}
use percolator_vault.Processor.Withdraw.Guards.{
  Entitled, Held, process_withdraw-Entitled, process_withdraw-floor,
}
use percolator_vault.Processor.Locks.{process_withdraw-process_deposit}
use percolator_vault.Tests.Model.{Blob, fit_pool, fit_deposit, bytes_fit, model, model_laws}
use percolator_vault.Tests.Books.{trading_pool}

abbrev pub info : ℕ → AccountInfo
info key = record { key = key; is_signer = false; is_writable = true }

abbrev pub user : AccountInfo
user = record { key = 20; is_signer = true; is_writable = true }

-- The addresses that the program derives.
unfoldable pub vault_auth_key : ℕ
unfolding derive_vault_authority vault_auth_seeds key_bytes to_le_bytes model
vault_auth_key = (derive_vault_authority model 1 30).0

unfoldable pub deposit_key : ℕ
unfolding derive_deposit_pda deposit_seeds key_bytes to_le_bytes model
deposit_key = (derive_deposit_pda model 1 30 20).0

abbrev pub deposit_infos : List AccountInfo
deposit_infos =
    user
    ∷ info 30
    ∷ info 21
    ∷ info 15
    ∷ info 14
    ∷ info 22
    ∷ info vault_auth_key
    ∷ info deposit_key
    ∷ info 900
    ∷ info 40
    ∷ info 41
    ∷ []

abbrev pub named : DepositAccounts
named = record {
  user = user;
  pool_pda = info 30;
  user_ata = info 21;
  vault = info 15;
  lp_mint = info 14;
  user_lp_ata = info 22;
  vault_auth = info vault_auth_key;
  deposit_pda = info deposit_key;
  token_program = info 900;
  clock_sysvar = info 40;
  system_program = info 41;
}

abbrev pub no_deposit : StakeDeposit
no_deposit = record {
  is_initialized = 0;
  bump = 0;
  padding = replicate 6 0;
  pool = 0;
  user = 0;
  last_deposit_slot = 0;
  lp_amount = 0;
  reserved = replicate 64 0;
}

abbrev pub blob : ℕ → StakeDeposit → Blob
blob size d = record {
  size = size;
  pool = trading_pool;
  deposit = d;
  tokens = 4550;
  time = record { slot = 1000; epoch = 3 };
}

-- A world in which the user has no record yet.
unfoldable pub before : World Blob
before k = record {
  owner = 0;
  lamports = 0;
  contents = blob (if k == 30 then 352 else 0) no_deposit;
}

abbrev pub is_ok : {A : Type 0} → Result A → Bool
is_ok (ok a) = true
is_ok (err e) = false
is_ok panic = false

abbrev pub or_else : {A : Type 0} → Result A → A → A
or_else (ok a) b = a
or_else (err e) b = b
or_else panic b = b

pub ok_or_else : {A : Type 0} (m : Result A) (b : A) → is_ok m ≡ true → m ≡ ok (or_else m b)
ok_or_else m b h = ground arith

-- The world after a deposit of 455.
unfoldable pub after : World Blob
after = or_else (process_deposit model 1 deposit_infos 455 before) before

pub named_eq : deposit_accounts deposit_infos ≡ ok named
unfolding deposit_accounts next_account_info
named_eq = refl

pub deposit_ok : process_deposit model 1 deposit_infos 455 before ≡ ok after
unfolding after process_deposit model before deposit_accounts next_account_info vault_auth_key
    deposit_key load_pool load_deposit store_pool store_deposit data_is_empty invoke key_bytes
    to_le_bytes pool_seeds vault_auth_seeds deposit_seeds derive_vault_authority derive_deposit_pda
    verify_token_program create_or_adopt_pda fund_pda check_deposit_cap check_deposit move_deposit
    credit_pool mark_deposit open_deposit record_deposit top_up_deposit validate_discriminator
    is_resolved total_pool_value calc_lp_for_deposit hwm_enabled refresh_hwm hwm_last_epoch
    epoch_high_water_tvl set_hwm_last_epoch set_epoch_high_water_tvl set_deposit_discriminator
    from_le_bytes write_slice bytes_eq checked_add checked_sub checked_mul checked_div as_u64
    Math.calc_lp_for_deposit pro_rata weighted_deposit_slot blended_slot freshness_floor add_u128
    mul_u128 min_of max_of saturating_add saturating_sub fit_pool fit_deposit bytes_fit
deposit_ok = ok_or_else (process_deposit model 1 deposit_infos 455 before) before refl

process_deposit-Minted_example : Minted model model_laws 1 named 455 before after
process_deposit-Minted_example =
    process_deposit-Minted model model_laws 1 deposit_infos 455 before after named named_eq
      deposit_ok

process_deposit-value_example : total_pool_value (pool_at model after 30) ≡ some 5005
unfolding model before fit_pool bytes_fit total_pool_value checked_add checked_sub
process_deposit-value_example =
    process_deposit-value model model_laws 1 deposit_infos 455 4550 before after named named_eq
      deposit_ok refl (omega arith)

clock_apart : ClockApart named
clock_apart = record {
  ata_apart = refl;
  vault_apart = refl;
  mint_apart = refl;
  lp_ata_apart = refl;
}

process_deposit-Locked_example : Locked (deposit_at model after deposit_key) 30 20 1000 100
unfolding model before fit_pool bytes_fit
process_deposit-Locked_example =
    process_deposit-Locked model model_laws 1 deposit_infos 455 before after named
      (record { slot = 1000; epoch = 3 }) named_eq clock_apart refl (omega arith) (omega arith)
      (omega arith) deposit_ok

abbrev pub withdraw_infos : List AccountInfo
withdraw_infos =
    user
    ∷ info 30
    ∷ info 22
    ∷ info 14
    ∷ info 15
    ∷ info 21
    ∷ info vault_auth_key
    ∷ info deposit_key
    ∷ info 900
    ∷ info 40
    ∷ []

abbrev pub withdraw_named : WithdrawAccounts
withdraw_named = record {
  user = user;
  pool_pda = info 30;
  user_lp_ata = info 22;
  lp_mint = info 14;
  vault = info 15;
  user_ata = info 21;
  vault_auth = info vault_auth_key;
  deposit_pda = info deposit_key;
  token_program = info 900;
  clock_sysvar = info 40;
}

pub withdraw_named_eq : withdraw_accounts withdraw_infos ≡ ok withdraw_named
unfolding withdraw_accounts next_account_info
withdraw_named_eq = refl

-- A world in which the user holds 400 LP tokens since slot 100, and what a burn of 200 leaves.
unfoldable pub holding : World Blob
holding k = record {
  owner = 1;
  lamports = 5000;
  contents = blob 352 (record no_deposit {
    is_initialized = 1;
    pool = 30;
    user = 20;
    last_deposit_slot = 100;
    lp_amount = 400;
  });
}

unfoldable pub burned : World Blob
burned = or_else (process_withdraw model 1 withdraw_infos 200 holding) holding

pub withdraw_ok : process_withdraw model 1 withdraw_infos 200 holding ≡ ok burned
unfolding burned process_withdraw model holding withdraw_accounts next_account_info vault_auth_key
    deposit_key load_pool load_deposit store_pool store_deposit invoke key_bytes to_le_bytes
    vault_auth_seeds deposit_seeds derive_vault_authority derive_deposit_pda verify_token_program
    check_withdraw check_position enforce_hwm move_withdraw debit_pool record_withdraw
    validate_discriminator total_pool_value calc_collateral_for_withdraw hwm_enabled hwm_floor_bps
    hwm_withdrawal_allowed hwm_floor refresh_hwm hwm_last_epoch epoch_high_water_tvl
    set_hwm_last_epoch set_epoch_high_water_tvl from_le_bytes write_slice bytes_eq checked_add
    checked_sub checked_mul checked_div as_u64 Math.calc_collateral_for_withdraw pro_rata
    saturating_add fit_pool fit_deposit bytes_fit
withdraw_ok = ok_or_else (process_withdraw model 1 withdraw_infos 200 holding) holding refl

pub named-Apart : Apart withdraw_named
unfolding deposit_key derive_deposit_pda deposit_seeds key_bytes to_le_bytes model
named-Apart = record {
  lp_ata_apart = refl;
  mint_apart = refl;
  vault_apart = refl;
  ata_apart = refl;
}

process_withdraw-Withdrawn_example : Withdrawn model model_laws 1 withdraw_named 200 holding burned
process_withdraw-Withdrawn_example =
    process_withdraw-Withdrawn model model_laws 1 withdraw_infos 200 holding burned withdraw_named
      withdraw_named_eq named-Apart withdraw_ok

process_withdraw-Entitled_example :
    Entitled withdraw_named
      (pool_at model holding 30)
      (deposit_at model holding deposit_key)
      200
      1000
unfolding model holding
process_withdraw-Entitled_example =
    process_withdraw-Entitled model model_laws 1 withdraw_infos 200 holding burned withdraw_named
      (record { slot = 1000; epoch = 3 }) withdraw_named_eq refl withdraw_ok

process_withdraw-floor_example : Held (pool_at model holding 30) (pool_at model burned 30) 3
unfolding model holding hwm_enabled fit_pool bytes_fit
process_withdraw-floor_example =
    process_withdraw-floor model model_laws 1 withdraw_infos 200 holding burned withdraw_named
      (record { slot = 1000; epoch = 3 }) withdraw_named_eq refl refl named-Apart withdraw_ok

clock_kept : model.clock_of 40 (after 40).contents ≡ ok (record { slot = 1000; epoch = 3 })
unfolding after process_deposit model before deposit_accounts next_account_info vault_auth_key
    deposit_key load_pool load_deposit store_pool store_deposit data_is_empty invoke key_bytes
    to_le_bytes pool_seeds vault_auth_seeds deposit_seeds derive_vault_authority derive_deposit_pda
    verify_token_program create_or_adopt_pda fund_pda check_deposit_cap check_deposit move_deposit
    credit_pool mark_deposit open_deposit record_deposit top_up_deposit validate_discriminator
    is_resolved total_pool_value calc_lp_for_deposit hwm_enabled refresh_hwm hwm_last_epoch
    epoch_high_water_tvl set_hwm_last_epoch set_epoch_high_water_tvl set_deposit_discriminator
    from_le_bytes write_slice bytes_eq checked_add checked_sub checked_mul checked_div as_u64
    Math.calc_lp_for_deposit pro_rata weighted_deposit_slot blended_slot freshness_floor add_u128
    mul_u128 min_of max_of saturating_add saturating_sub fit_pool fit_deposit bytes_fit
clock_kept = refl

process_withdraw-process_deposit_example :
    ¬ (process_withdraw model 1 withdraw_infos 200 after ≡ ok before)
unfolding model before fit_pool bytes_fit
process_withdraw-process_deposit_example =
    process_withdraw-process_deposit model model_laws 1 deposit_infos withdraw_infos 455 200 before
      after before named withdraw_named (record { slot = 1000; epoch = 3 })
      (record { slot = 1000; epoch = 3 }) named_eq clock_apart refl (omega arith) (omega arith)
      (omega arith) deposit_ok withdraw_named_eq refl refl clock_kept (omega arith) (omega arith)
