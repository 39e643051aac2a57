-- ===== src/Processor/Steps/Withdraws.antt =====
-- `process_withdraw` of src/processor.rs on an account of the program that holds a pool.
use percolator_vault.Base.{subst, ℕ, ◌≡◌, refl, ap, ◌∙◌, false, List, [], ◌∷◌, All, ◌==◌, arith}
use percolator_vault.Base.Word.{IsU64, checked_sub}
use percolator_vault.Error.{ok, bind_ok, option_ok, insufficient_lp_tokens}
use percolator_vault.State.{StakePool, IsPool, IsReserved, is_resolved}
use percolator_vault.Runtime.{
  Pubkey, AccountInfo, World, Runtime, Clock, burn, load_deposit, invoke, store_deposit,
  next_account_info,
}
use percolator_vault.Runtime.Laws.{RuntimeLaws}
use percolator_vault.Runtime.Owned.{OwnedLaws, Held, calls, store_deposit-Untouched}
use percolator_vault.Runtime.Store.{pool_at, load_pool-pool_at}
use percolator_vault.Pda.{derive_deposit_pda}
use percolator_vault.Ledger.{Move, withdraws}
use percolator_vault.Ledger.History.{flag_kept}
use percolator_vault.Processor.Common.{verify_token_program}
use percolator_vault.Processor.Withdraw.{
  WithdrawAccounts, withdraw_accounts, check_withdraw, enforce_hwm, move_withdraw, record_withdraw,
  process_withdraw,
}
use percolator_vault.Processor.Withdraw.Run.{WithdrawRun, process_withdraw-WithdrawRun}
use percolator_vault.Processor.Withdraw.Books.{Debited, debit_pool-Debited, debit_pool_fields}
use percolator_vault.Processor.Steps.{Carries, stored-Carries}
use percolator_vault.Processor.Steps.Creation.{Spared, then-Untouched}
use percolator_vault.Processor.Steps.Deposits.{NoRecord, refresh_hwm_flag}
use percolator_vault.Processor.Steps.Frames.{invoked-Untouched}

enforce_hwm_flag :
    (p q : StakePool) (paid : ℕ) (clock : Clock)
    → IsReserved p.reserved
    → IsU64 clock.epoch
    → enforce_hwm p paid clock ≡ ok q
    → is_resolved q ≡ is_resolved p
unfolding enforce_hwm
enforce_hwm_flag p q paid clock wf fits h = ground (arith, refresh_hwm_flag p clock.epoch wf fits)

withdraw_accounts-All :
    (P : AccountInfo → Type 0) (accounts : List AccountInfo) (a : WithdrawAccounts)
    → All P accounts
    → withdraw_accounts accounts ≡ ok a
    → P a.user × P a.pool_pda
unfolding withdraw_accounts next_account_info
withdraw_accounts-All P (i ∷ j ∷ _ ∷ _ ∷ _ ∷ _ ∷ _ ∷ _ ∷ _ ∷ _) a all h = ground arith
withdraw_accounts-All P accounts a all h = cc

module _ {D : Type 0} (rt : Runtime D) (program_id : Pubkey) where
  withdraw_accounts-NoRecord :
      (accounts : List AccountInfo) (a : WithdrawAccounts) (k : Pubkey)
      → NoRecord rt program_id accounts k
      → withdraw_accounts accounts ≡ ok a
      → (k == (derive_deposit_pda rt program_id a.pool_pda.key a.user.key).0) ≡ false
  withdraw_accounts-NoRecord accounts a k apart h =
      (withdraw_accounts-All
        (λ (user : AccountInfo).
          (k == (derive_deposit_pda rt program_id a.pool_pda.key user.key).0) ≡ false)
        accounts a
        (withdraw_accounts-All
          (λ (pool : AccountInfo).
            All
              (λ (user : AccountInfo).
                (k == (derive_deposit_pda rt program_id pool.key user.key).0) ≡ false)
              accounts)
          accounts a apart h).1
        h).0

  check_withdraw-derived :
      (a : WithdrawAccounts) (p : StakePool) (w : World D)
      → check_withdraw rt program_id a p w ≡ ok tt
      → a.deposit_pda.key ≡ (derive_deposit_pda rt program_id a.pool_pda.key a.user.key).0
  unfolding check_withdraw verify_token_program
  check_withdraw-derived a p w h = ground arith

module _ {D : Type 0} (rt : Runtime D) (laws : RuntimeLaws rt) (program_id : Pubkey)
    (owned : OwnedLaws rt program_id) (k : Pubkey) where
  move_withdraw-Untouched :
      (a : WithdrawAccounts) (lp paid : ℕ) (w w' : World D)
      → Held rt program_id w k
      → move_withdraw rt program_id a lp paid w ≡ ok w'
      → Spared rt program_id owned k w w'
  unfolding move_withdraw invoke calls
  move_withdraw-Untouched a lp paid w w' held h =
      bind_ok
        (rt.invoke_signed (burn a.token_program.key a.user_lp_ata.key a.lp_mint.key a.user.key lp)
          [] w)
        h
        λ w₁ burned h.
          then-Untouched rt program_id owned k w w₁ w' held
            (invoked-Untouched rt program_id owned k _ [] w w₁ refl held burned)
            (λ held₁. invoked-Untouched rt program_id owned k _ _ w₁ w' refl held₁ h)

  record_withdraw-Carries :
      (a : WithdrawAccounts) (lp : ℕ) (q : StakePool) (w w₁ w' : World D)
      → (k == (derive_deposit_pda rt program_id a.pool_pda.key a.user.key).0) ≡ false
      → Held rt program_id w k
      → Spared rt program_id owned k w w₁
      → a.deposit_pda.key ≡ (derive_deposit_pda rt program_id a.pool_pda.key a.user.key).0
      → IsPool q
      → Move (pool_at rt w a.pool_pda.key) q
      → record_withdraw rt program_id a lp q w₁ ≡ ok w'
      → Carries rt laws program_id owned k w w'
  unfolding record_withdraw
  record_withdraw-Carries a lp q w w₁ w' apart held u derived typed move h =
      bind_ok (load_deposit rt w₁ a.deposit_pda.key) h λ d _ h.
        option_ok (checked_sub d.lp_amount lp) insufficient_lp_tokens h λ left _ h.
          stored-Carries rt laws program_id owned k w w
            (store_deposit rt a.deposit_pda.key (record d { lp_amount = left }) w₁) w'
            a.pool_pda.key q held (refl, held.0)
            (then-Untouched rt program_id owned k w w₁
              (store_deposit rt a.deposit_pda.key (record d { lp_amount = left }) w₁) held u
              (λ held₁.
                store_deposit-Untouched rt program_id w₁ a.deposit_pda.key k
                  (record d { lp_amount = left }) (rw derived apart) held₁.0))
            typed move h

  WithdrawRun-Carries :
      (accounts : List AccountInfo) (lp : ℕ) (w w' : World D)
      → NoRecord rt program_id accounts k
      → Held rt program_id w k
      → WithdrawRun rt program_id accounts lp w w'
      → Carries rt laws program_id owned k w w'
  WithdrawRun-Carries accounts lp w w' apart held r =
      let read : r.pool ≡ pool_at rt w r.a.pool_pda.key =
        load_pool-pool_at rt w r.a.pool_pda.key r.pool r.pool_eq in
      let typed : IsPool r.pool = rw read (laws.pool_of-IsPool (w r.a.pool_pda.key).contents) in
      let epoch_fits : IsU64 r.clock.epoch =
        (laws.clock_fits r.a.clock_sysvar.key (w r.a.clock_sysvar.key).contents r.clock
          r.clock_eq).1 in
      let debit : Debited r.pool r.debited r.paid lp =
        debit_pool-Debited r.pool r.marked r.debited r.paid lp r.clock typed r.marked_eq
          r.debited_eq in
      let kept : r.debited.reserved ≡ r.marked.reserved =
        ap (λ (p : StakePool). p.reserved)
          (debit_pool_fields r.marked r.debited r.paid lp r.debited_eq).0 in
      let flag : is_resolved r.debited ≡ is_resolved r.pool =
        flag_kept r.marked r.debited kept
        ∙ enforce_hwm_flag r.pool r.marked r.paid r.clock
            (typed.reserved_length, typed.reserved_bytes) epoch_fits r.marked_eq in
      record_withdraw-Carries r.a lp r.debited w r.moved w'
        (withdraw_accounts-NoRecord rt program_id accounts r.a k apart r.accounts_eq) held
        (move_withdraw-Untouched r.a lp r.paid w r.moved held r.moved_eq)
        (check_withdraw-derived rt program_id r.a r.pool w r.checked) debit.typed
        (subst (λ (p : StakePool). Move p r.debited) read
          (withdraws lp r.paid r.paid_eq (ground (arith, r.some_paid)) flag debit))
        r.recorded_eq

  pub process_withdraw-Carries :
      (accounts : List AccountInfo) (lp : ℕ) (w w' : World D)
      → NoRecord rt program_id accounts k
      → Held rt program_id w k
      → process_withdraw rt program_id accounts lp w ≡ ok w'
      → Carries rt laws program_id owned k w w'
  process_withdraw-Carries accounts lp w w' apart held h =
      WithdrawRun-Carries accounts lp w w' apart held
        (process_withdraw-WithdrawRun rt program_id accounts lp w w' h)
