-- ===== src/Processor/Deposit/Run.antt =====
-- The stages that a successful `process_deposit` (src/processor.rs) has gone through.
use percolator_vault.Base.{ℕ, ◌≡◌, not, false, List, some, ◌==◌}
use percolator_vault.Error.{
  ok, overflow, guard_ok, bind_ok, option_ok, zero_amount, missing_required_signature,
  from_stake_error,
}
use percolator_vault.State.{StakePool, calc_lp_for_deposit}
use percolator_vault.Runtime.{Pubkey, AccountInfo, World, Runtime, Clock, load_pool}
use percolator_vault.Processor.Deposit.{
  DepositAccounts, deposit_accounts, check_deposit, move_deposit, credit_pool, mark_deposit,
  open_deposit, record_deposit, process_deposit,
}

module _ {D : Type 0} (rt : Runtime D) (program_id : Pubkey) where
  -- The stages of a successful deposit.
  pub record DepositRun (accounts : List AccountInfo) (amount : ℕ) (w w' : World D) : Type 0 where
    pub a : DepositAccounts
    pub pool : StakePool
    pub lp : ℕ
    pub moved : World D
    pub credited : StakePool
    pub clock : Clock
    pub opened : World D
    pub some_amount : (amount == 0) ≡ false
    pub accounts_eq : deposit_accounts accounts ≡ ok a
    pub signed : not a.user.is_signer ≡ false
    pub pool_eq : load_pool rt w a.pool_pda.key ≡ ok pool
    pub checked : check_deposit rt program_id a amount pool ≡ ok tt
    pub lp_eq : calc_lp_for_deposit pool amount ≡ some lp
    pub some_lp : (lp == 0) ≡ false
    pub moved_eq : move_deposit rt program_id a amount lp w ≡ ok moved
    pub credited_eq : credit_pool pool amount lp ≡ ok credited
    pub clock_eq : rt.clock_of a.clock_sysvar.key (moved a.clock_sysvar.key).contents ≡ ok clock
    pub opened_eq : open_deposit rt program_id a moved ≡ ok opened
    pub recorded_eq :
        record_deposit rt program_id a lp clock (mark_deposit credited clock) opened ≡ ok w'

  pub process_deposit-DepositRun :
      (accounts : List AccountInfo) (amount : ℕ) (w w' : World D)
      → process_deposit rt program_id accounts amount w ≡ ok w'
      → DepositRun accounts amount w w'
  unfolding process_deposit
  process_deposit-DepositRun accounts amount w w' h =
      guard_ok (amount == 0) (from_stake_error zero_amount) h λ some_amount h.
        bind_ok (deposit_accounts accounts) h λ a accounts_eq h.
          guard_ok (not a.user.is_signer) missing_required_signature h λ signed h.
            bind_ok (load_pool rt w a.pool_pda.key) h λ pool pool_eq h.
              bind_ok (check_deposit rt program_id a amount pool) h λ _ checked h.
                option_ok (calc_lp_for_deposit pool amount) overflow h λ lp lp_eq h.
                  guard_ok (lp == 0) (from_stake_error zero_amount) h λ some_lp h.
                    bind_ok (move_deposit rt program_id a amount lp w) h λ moved moved_eq h.
                      bind_ok (credit_pool pool amount lp) h λ credited credited_eq h.
                        bind_ok (rt.clock_of a.clock_sysvar.key (moved a.clock_sysvar.key).contents)
                          h
                          λ clock clock_eq h.
                            bind_ok (open_deposit rt program_id a moved) h λ opened opened_eq h.
                              record {
                                a = a;
                                pool = pool;
                                lp = lp;
                                moved = moved;
                                credited = credited;
                                clock = clock;
                                opened = opened;
                                some_amount = some_amount;
                                accounts_eq = accounts_eq;
                                signed = signed;
                                pool_eq = pool_eq;
                                checked = checked;
                                lp_eq = lp_eq;
                                some_lp = some_lp;
                                moved_eq = moved_eq;
                                credited_eq = credited_eq;
                                clock_eq = clock_eq;
                                opened_eq = opened_eq;
                                recorded_eq = h;
                              }
