-- ===== src/Tests/Runs.antt =====
-- The theorems on openings and on runs of the program (src/processor.rs) at concrete accounts and
-- worlds.
use percolator_vault.Base.{
  ℕ, ◌*◌, ◌-◌, ◌≤◌, ◌<◌, ◌≡◌, refl, inr, Bool, true, false, not, ◌&&◌, List, [], ◌∷◌, All, ◌==◌,
  arith,
}
use percolator_vault.Base.Bytes.{to_le_bytes, from_le_bytes}
use percolator_vault.Base.Word.{
  IsU8, IsU64, checked_add, checked_sub, checked_mul, checked_div, saturating_add, as_u64,
}
use percolator_vault.Math
use percolator_vault.Math.{pro_rata, hwm_floor, hwm_withdrawal_allowed}
use percolator_vault.Base.Slices.{write_slice, bytes_eq}
use percolator_vault.Processor.Common.{verify_token_program}
use percolator_vault.Processor.Withdraw.{
  withdraw_accounts, check_withdraw, check_position, enforce_hwm, move_withdraw, debit_pool,
  record_withdraw, process_withdraw,
}
use percolator_vault.Error.{ok}
use percolator_vault.Instruction.{unpack, unpack_tag}
use percolator_vault.State.{
  validate_discriminator, total_pool_value, calc_collateral_for_withdraw, hwm_enabled,
  hwm_floor_bps, refresh_hwm, hwm_last_epoch, epoch_high_water_tvl, set_hwm_last_epoch,
  set_epoch_high_water_tvl,
}
use percolator_vault.State.Value.{inflow, outflow}
use percolator_vault.Runtime.{
  AccountInfo, key_bytes, next_account_info, load_pool, load_deposit, store_pool, store_deposit,
  invoke,
}
use percolator_vault.Runtime.Owned.{Foreign, Held}
use percolator_vault.Runtime.Store.{pool_at}
use percolator_vault.Pda.{
  deposit_seeds, vault_auth_seeds, derive_vault_authority, derive_deposit_pda,
}
use percolator_vault.Ledger.{Booked}
use percolator_vault.Processor.{dispatch, process}
use percolator_vault.Processor.Steps.Deposits.{NoRecord}
use percolator_vault.Processor.Runs.{call, outside, Run, start, then_step}
use percolator_vault.Processor.Runs.Prices.{Run-price}
use percolator_vault.Tests.Model.{fit_pool, fit_deposit, bytes_fit, model, model_laws}
use percolator_vault.Tests.Owner.{model_owned}
use percolator_vault.Tests.Handlers.{
  withdraw_infos, holding, burned, withdraw_ok, vault_auth_key, deposit_key,
}

abbrev pub each : (AccountInfo → Bool) → List AccountInfo → Bool
each test [] = true
each test (i ∷ is) = test i && each test is

pub each-All :
    (test : AccountInfo → Bool) (is : List AccountInfo)
    → each (λ i. not (test i)) is ≡ true
    → All (λ (i : AccountInfo). test i ≡ false) is
each-All test [] h = tt
each-All test (i ∷ is) h = ground (arith, each-All test is)

abbrev clear_of : ℕ → AccountInfo → AccountInfo → Bool
clear_of k pool owner = not (k == (derive_deposit_pda model 1 pool.key owner.key).0)

clear-NoRecord :
    (k : ℕ) (pools users : List AccountInfo)
    → each (λ pool. each (clear_of k pool) users) pools ≡ true
    → All
        (λ (pool : AccountInfo).
          All
            (λ (owner : AccountInfo).
              (k == (derive_deposit_pda model 1 pool.key owner.key).0) ≡ false)
            users)
        pools
clear-NoRecord k [] users h = tt
clear-NoRecord k (pool ∷ pools) users h = ground (
  arith,
  clear-NoRecord k pools users,
  each-All (λ owner. k == (derive_deposit_pda model 1 pool.key owner.key).0) users,
)

abbrev withdraw_bytes : List ℕ
withdraw_bytes = 2 ∷ to_le_bytes 8 200

foreign : Foreign 1 withdraw_infos
unfolding vault_auth_key deposit_key derive_vault_authority derive_deposit_pda deposit_seeds
    vault_auth_seeds key_bytes to_le_bytes model
foreign = each-All (λ i. i.key == 1) withdraw_infos refl

apart : NoRecord model 1 withdraw_infos 30
unfolding vault_auth_key deposit_key derive_vault_authority derive_deposit_pda deposit_seeds
    vault_auth_seeds key_bytes to_le_bytes model
apart = clear-NoRecord 30 withdraw_infos withdraw_infos refl

typed_bytes : All IsU8 withdraw_bytes
unfolding to_le_bytes
typed_bytes = ground arith

called : process model 1 withdraw_infos withdraw_bytes holding ≡ ok burned
unfolding process dispatch unpack unpack_tag to_le_bytes from_le_bytes
called = withdraw_ok

-- A withdrawal, and then a transaction of other programs.
abbrev steps : Run model 1 30 holding burned
steps =
    then_step burned burned
      (then_step holding burned start
        (call withdraw_infos withdraw_bytes foreign apart typed_bytes called))
      (outside (λ j owner. (refl, owner)))

pub run : Run model 1 30 holding burned
run = steps

pub held : Held model 1 holding 30
unfolding holding model
held = (refl, omega arith)

pub booked : Booked (pool_at model holding 30)
unfolding holding model fit_pool bytes_fit
booked = record {
  opened = refl;
  transferred = refl;
  covered = omega arith;
  mode = inr (refl, refl, refl);
}

burned_books :
    (inflow (pool_at model burned 30) ≡ 5250) × ((pool_at model burned 30).total_lp_supply ≡ 3800)
unfolding burned process_withdraw model holding withdraw_accounts next_account_info vault_auth_key
    deposit_key load_pool load_deposit store_pool store_deposit invoke key_bytes to_le_bytes
    vault_auth_seeds deposit_seeds derive_vault_authority derive_deposit_pda verify_token_program
    check_withdraw check_position enforce_hwm move_withdraw debit_pool record_withdraw
    validate_discriminator total_pool_value calc_collateral_for_withdraw hwm_enabled hwm_floor_bps
    hwm_withdrawal_allowed hwm_floor refresh_hwm hwm_last_epoch epoch_high_water_tvl
    set_hwm_last_epoch set_epoch_high_water_tvl from_le_bytes write_slice bytes_eq checked_add
    checked_sub checked_mul checked_div as_u64 Math.calc_collateral_for_withdraw pro_rata
    saturating_add fit_pool fit_deposit bytes_fit
burned_books = (refl, refl)

inflow_fits : IsU64 (inflow (pool_at model burned 30))
inflow_fits = omega (arith, burned_books.0)

shares_left : 0 < (pool_at model burned 30).total_lp_supply
shares_left = omega (arith, burned_books.1)

Run-price_example :
    (inflow (pool_at model holding 30) - outflow (pool_at model holding 30))
      * (pool_at model burned 30).total_lp_supply
    ≤ (inflow (pool_at model burned 30) - outflow (pool_at model burned 30))
      * (pool_at model holding 30).total_lp_supply
unfolding model holding fit_pool bytes_fit
Run-price_example =
    Run-price model model_laws 1 model_owned 30 holding burned steps held booked refl
      ((omega arith, shares_left), shares_left) inflow_fits
