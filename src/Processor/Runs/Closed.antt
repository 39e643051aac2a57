-- ===== src/Processor/Runs/Closed.antt =====
-- What the instructions of src/processor.rs can no longer do after a run of the program.
use percolator_vault.Base.{ℕ, ◌≡◌, sym, subst, true, false, not, List, ◌==◌, arith}
use percolator_vault.Error.{
  ok, same_ok, guard_ok, bind_ok, missing_required_signature, invalid_pda, not_initialized,
  unauthorized, admin_already_transferred, from_stake_error,
}
use percolator_vault.State.{StakePool, is_resolved}
use percolator_vault.Runtime.{Pubkey, AccountInfo, World, Runtime, load_pool}
use percolator_vault.Runtime.Laws.{RuntimeLaws}
use percolator_vault.Runtime.Owned.{OwnedLaws, Held}
use percolator_vault.Runtime.Store.{pool_at, load_pool-pool_at}
use percolator_vault.Pda.{derive_pool_pda}
use percolator_vault.Ledger.{Booked}
use percolator_vault.Ledger.History.{Later}
use percolator_vault.Processor.Admin.{AdminAccounts, admin_accounts, process_transfer_admin}
use percolator_vault.Processor.Deposit.{DepositAccounts, deposit_accounts, process_deposit}
use percolator_vault.Processor.Closing.{process_deposit-is_resolved}
use percolator_vault.Processor.Runs.{Run, Run-Kept}

module _ {D : Type 0} (rt : Runtime D) (program_id : Pubkey) where
  process_transfer_admin-untransferred :
      (accounts : List AccountInfo) (w w' : World D) (a : AdminAccounts) (rest : List AccountInfo)
      → admin_accounts accounts ≡ ok (a, rest)
      → process_transfer_admin rt program_id accounts w ≡ ok w'
      → ((pool_at rt w a.pool_pda.key).admin_transferred == 1) ≡ false
  unfolding process_transfer_admin
  process_transfer_admin-untransferred accounts w w' a rest named h =
      bind_ok (admin_accounts accounts) h λ b b_eq h.
        guard_ok (not b.0.admin.is_signer) missing_required_signature h λ _ h.
          guard_ok (not (b.0.pool_pda.key == (derive_pool_pda rt program_id b.0.slab.key).0))
            (from_stake_error invalid_pda) h
            λ _ h. bind_ok (load_pool rt w b.0.pool_pda.key) h λ p read h.
              guard_ok (not (p.is_initialized == 1)) (from_stake_error not_initialized) h λ _ h.
                guard_ok (not (p.admin == b.0.admin.key)) (from_stake_error unauthorized) h λ _ h.
                  guard_ok (p.admin_transferred == 1) (from_stake_error admin_already_transferred) h
                    λ kept _.
                      subst
                        (λ (c : AdminAccounts × List AccountInfo).
                          ((pool_at rt w c.0.pool_pda.key).admin_transferred == 1) ≡ false)
                        (same_ok (admin_accounts accounts) b_eq named)
                        (subst (λ (q : StakePool). (q.admin_transferred == 1) ≡ false)
                          (load_pool-pool_at rt w b.0.pool_pda.key p read) kept)

module _ {D : Type 0} (rt : Runtime D) (laws : RuntimeLaws rt) (program_id : Pubkey)
    (owned : OwnedLaws rt program_id) (k : Pubkey) (w w' : World D) (held : Held rt program_id w k)
    (booked : Booked (pool_at rt w k)) (run : Run rt program_id k w w') where
  -- After every run from a world in which the account is the program's and its pool is `Booked`, no
  -- `process_transfer_admin` of that pool succeeds.
  pub Run-process_transfer_admin :
      (w'' : World D) (accounts : List AccountInfo) (a : AdminAccounts) (rest : List AccountInfo)
      → admin_accounts accounts ≡ ok (a, rest)
      → a.pool_pda.key ≡ k
      → ¬ (process_transfer_admin rt program_id accounts w' ≡ ok w'')
  Run-process_transfer_admin w'' accounts a rest named same h =
      let kept = Run-Kept rt laws program_id owned k w w' held booked run in
      let open_flag : ((pool_at rt w' k).admin_transferred == 1) ≡ false =
        subst (λ (x : Pubkey). ((pool_at rt w' x).admin_transferred == 1) ≡ false) same
          (process_transfer_admin-untransferred rt program_id accounts w' w'' a rest named h) in
      closed (pool_at rt w' k) kept.booked open_flag
    where
      closed : (p : StakePool) → Booked p → (p.admin_transferred == 1) ≡ false → ⊥
      closed p b h = ground arith

  still_resolved : (p q : StakePool) → Later p q → is_resolved p ≡ true → is_resolved q ≡ true
  still_resolved p q l h = ground arith

  -- After every run from a world in which the account is the program's and its pool is `Booked` and
  -- resolved, no `process_deposit` into that pool succeeds.
  pub Run-process_deposit :
      (w'' : World D) (accounts : List AccountInfo) (amount : ℕ) (a : DepositAccounts)
      → is_resolved (pool_at rt w k) ≡ true
      → deposit_accounts accounts ≡ ok a
      → a.pool_pda.key ≡ k
      → ¬ (process_deposit rt program_id accounts amount w' ≡ ok w'')
  Run-process_deposit w'' accounts amount a resolved named same =
      let kept = Run-Kept rt laws program_id owned k w w' held booked run in
      process_deposit-is_resolved rt program_id accounts amount w' w'' a named (
        subst (λ (x : Pubkey). is_resolved (pool_at rt w' x) ≡ true) (sym same)
          (still_resolved (pool_at rt w k) (pool_at rt w' k) kept.later resolved))
