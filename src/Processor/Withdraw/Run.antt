-- ===== src/Processor/Withdraw/Run.antt =====
-- The stages that a successful `process_withdraw` (src/processor.rs) has gone through.
use percolator_vault.Base.{ℕ, ◌≡◌, not, false, List, some, ◌==◌}
use percolator_vault.Error.{
  ok, overflow, guard_ok, bind_ok, option_ok, zero_amount, missing_required_signature,
  account_borrow_failed, from_stake_error,
}
use percolator_vault.State.{StakePool, StakeDeposit, calc_collateral_for_withdraw}
use percolator_vault.Runtime.{Pubkey, AccountInfo, World, Runtime, Clock, load_pool, load_deposit}
use percolator_vault.Processor.Withdraw.{
  WithdrawAccounts, withdraw_accounts, check_withdraw, check_position, enforce_hwm, move_withdraw,
  debit_pool, record_withdraw, process_withdraw,
}

module _ {D : Type 0} (rt : Runtime D) (program_id : Pubkey) where
  -- The stages of a successful withdrawal.
  pub record WithdrawRun (accounts : List AccountInfo) (lp_amount : ℕ) (w w' : World D)
      : Type 0 where
    pub a : WithdrawAccounts
    pub pool : StakePool
    pub clock : Clock
    pub deposit : StakeDeposit
    pub paid : ℕ
    pub marked : StakePool
    pub moved : World D
    pub debited : StakePool
    pub some_lp : (lp_amount == 0) ≡ false
    pub accounts_eq : withdraw_accounts accounts ≡ ok a
    pub signed : not a.user.is_signer ≡ false
    pub pool_eq : load_pool rt w a.pool_pda.key ≡ ok pool
    pub checked : check_withdraw rt program_id a pool w ≡ ok tt
    pub clock_eq : rt.clock_of a.clock_sysvar.key (w a.clock_sysvar.key).contents ≡ ok clock
    pub apart : (a.deposit_pda.key == a.pool_pda.key) ≡ false
    pub deposit_eq : load_deposit rt w a.deposit_pda.key ≡ ok deposit
    pub position :
        check_position deposit a.user.key a.pool_pda.key lp_amount clock.slot pool.cooldown_slots
        ≡ ok tt
    pub paid_eq : calc_collateral_for_withdraw pool lp_amount ≡ some paid
    pub some_paid : (paid == 0) ≡ false
    pub marked_eq : enforce_hwm pool paid clock ≡ ok marked
    pub moved_eq : move_withdraw rt program_id a lp_amount paid w ≡ ok moved
    pub debited_eq : debit_pool marked paid lp_amount ≡ ok debited
    pub recorded_eq : record_withdraw rt program_id a lp_amount debited moved ≡ ok w'

  pub process_withdraw-WithdrawRun :
      (accounts : List AccountInfo) (lp_amount : ℕ) (w w' : World D)
      → process_withdraw rt program_id accounts lp_amount w ≡ ok w'
      → WithdrawRun accounts lp_amount w w'
  unfolding process_withdraw
  process_withdraw-WithdrawRun accounts lp_amount w w' h =
      guard_ok (lp_amount == 0) (from_stake_error zero_amount) h λ some_lp h.
        bind_ok (withdraw_accounts accounts) h λ a accounts_eq h.
          guard_ok (not a.user.is_signer) missing_required_signature h λ signed h.
            bind_ok (load_pool rt w a.pool_pda.key) h λ pool pool_eq h.
              bind_ok (check_withdraw rt program_id a pool w) h λ _ checked h.
                bind_ok (rt.clock_of a.clock_sysvar.key (w a.clock_sysvar.key).contents) h
                  λ clock clock_eq h.
                    guard_ok (a.deposit_pda.key == a.pool_pda.key) account_borrow_failed h
                      λ apart h.
                        bind_ok (load_deposit rt w a.deposit_pda.key) h λ deposit deposit_eq h.
                          bind_ok
                            (check_position deposit a.user.key a.pool_pda.key lp_amount clock.slot
                              pool.cooldown_slots)
                            h
                            λ _ position h.
                              option_ok (calc_collateral_for_withdraw pool lp_amount) overflow h
                                λ paid paid_eq h.
                                  guard_ok (paid == 0) (from_stake_error zero_amount) h
                                    λ some_paid h.
                                      bind_ok (enforce_hwm pool paid clock) h λ marked marked_eq h.
                                        bind_ok (move_withdraw rt program_id a lp_amount paid w) h
                                          λ moved moved_eq h.
                                            bind_ok (debit_pool marked paid lp_amount) h
                                              λ debited debited_eq h. record {
                                                a = a;
                                                pool = pool;
                                                clock = clock;
                                                deposit = deposit;
                                                paid = paid;
                                                marked = marked;
                                                moved = moved;
                                                debited = debited;
                                                some_lp = some_lp;
                                                accounts_eq = accounts_eq;
                                                signed = signed;
                                                pool_eq = pool_eq;
                                                checked = checked;
                                                clock_eq = clock_eq;
                                                apart = apart;
                                                deposit_eq = deposit_eq;
                                                position = position;
                                                paid_eq = paid_eq;
                                                some_paid = some_paid;
                                                marked_eq = marked_eq;
                                                moved_eq = moved_eq;
                                                debited_eq = debited_eq;
                                                recorded_eq = h;
                                              }
