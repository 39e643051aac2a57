-- ===== src/Tests/Shares.antt =====
-- The theorems on shares and values (src/math.rs) at concrete inputs.
use percolator_vault.Base.{◌+◌, ◌*◌, ◌≤◌, ◌<◌, ◌≡◌, refl, inr, some, true, arith}
use percolator_vault.Math.{
  pro_rata, calc_lp_for_deposit, calc_collateral_for_withdraw, hwm_withdrawal_allowed,
}
use percolator_vault.Math.Lp.{calc_lp_for_deposit_of_Issues}
use percolator_vault.Math.Shares.{
  deposit_no_dilution, withdraw-deposit_no_profit, withdraw_no_dilution, withdraw_split,
}
use percolator_vault.Math.Hwm.{hwm_withdrawal_allowed_iff}
use mathlib.Core.Logic.{◌↔◌}

deposit_no_dilution_example : 150 ≤ 150
unfolding calc_lp_for_deposit calc_collateral_for_withdraw pro_rata
deposit_no_dilution_example =
    deposit_no_dilution 1000 1500 301 200 100 150 150 (omega arith) refl refl refl

withdraw-deposit_no_profit_example : 300 ≤ 301
unfolding calc_lp_for_deposit calc_collateral_for_withdraw pro_rata
withdraw-deposit_no_profit_example = withdraw-deposit_no_profit 1000 1500 301 200 300 refl refl

withdraw_no_dilution_example : 150 ≤ 150
unfolding calc_collateral_for_withdraw pro_rata
withdraw_no_dilution_example =
    withdraw_no_dilution 1000 1500 333 499 100 150 150 (omega arith) refl refl refl

withdraw_split_example : 499 + 499 ≤ 999
unfolding calc_collateral_for_withdraw pro_rata
withdraw_split_example = withdraw_split 1000 1500 333 333 499 499 999 (omega arith) refl refl refl

calc_lp_for_deposit_of_Issues_example : calc_lp_for_deposit 1000 1500 301 ≡ some 200
calc_lp_for_deposit_of_Issues_example =
    calc_lp_for_deposit_of_Issues 1000 1500 301 200 (omega arith) (omega arith) (
      inr (
        omega arith,
        record {
          divisor = omega arith;
          below = omega arith;
          above = omega arith;
          fits = omega arith;
        },
      ))

hwm_withdrawal_allowed_iff_example :
    (hwm_withdrawal_allowed 600 1000 5000 ≡ true) ↔ (1000 * 5000 < (600 + 1) * 10_000)
hwm_withdrawal_allowed_iff_example =
    hwm_withdrawal_allowed_iff 600 1000 5000 (omega arith) (omega arith) (omega arith)
