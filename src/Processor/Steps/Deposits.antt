-- ===== src/Processor/Steps/Deposits.antt =====
-- `process_deposit` of src/processor.rs on an account of the program that holds a pool.
use percolator_vault.Base.{
  subst, ℕ, ◌≡◌, refl, ap, ◌∙◌, inl, inr, ◌&&◌, false, not, List, [], ◌∷◌, All, Option-cases,
  Bool-cases, ◌==◌, arith,
}
use percolator_vault.Base.Maybe.{unwrap_or}
use percolator_vault.Base.Word.{IsU64}
use percolator_vault.Error.{
  ok, same_ok, guard_ok, bind_ok, account_borrow_failed, invalid_pda, invalid_account,
  from_stake_error,
}
use percolator_vault.State.{
  StakePool, IsPool, IsReserved, is_resolved, total_pool_value, refresh_hwm, stake_deposit_size,
}
use percolator_vault.State.Packed.{Packed}
use percolator_vault.State.Refresh.{refresh_hwm-packed}
use percolator_vault.State.Value.{total_pool_value-parts}
use percolator_vault.Runtime.{
  Pubkey, AccountInfo, World, Runtime, Clock, token_transfer, load_deposit, data_is_empty, invoke,
  store_deposit, next_account_info,
}
use percolator_vault.Runtime.Laws.{RuntimeLaws}
use percolator_vault.Runtime.Owned.{OwnedLaws, Held, Untouched-Held, calls, store_deposit-Untouched}
use percolator_vault.Runtime.Store.{pool_at, load_pool-pool_at}
use percolator_vault.Pda.{derive_deposit_pda, deposit_seeds}
use percolator_vault.Ledger.{Move, deposits}
use percolator_vault.Ledger.History.{flag_kept}
use percolator_vault.Processor.Closing.{check_deposit-open}
use percolator_vault.Processor.Deposit.{
  DepositAccounts, deposit_accounts, mark_deposit, move_deposit, open_deposit, record_deposit,
  top_up_deposit, process_deposit,
}
use percolator_vault.Processor.Deposit.Run.{DepositRun, process_deposit-DepositRun}
use percolator_vault.Processor.Deposit.Books.{Credited, credit_pool_fields, mark_deposit-Credited}
use percolator_vault.Processor.Steps.{Carries, stored-Carries}
use percolator_vault.Processor.Steps.Local.{kept_flag}
use percolator_vault.Processor.Steps.Frames.{invoked-Untouched}
use percolator_vault.Processor.Steps.Creation.{
  Spared, then-Untouched, create_or_adopt_pda-Untouched,
}

-- A refresh keeps the resolved flag.
pub refresh_hwm_flag :
    (p : StakePool) (epoch : ℕ)
    → IsReserved p.reserved
    → IsU64 epoch
    → is_resolved (refresh_hwm p epoch (unwrap_or (total_pool_value p) 0)).0 ≡ is_resolved p
refresh_hwm_flag p epoch wf fits =
    kept_flag p (refresh_hwm p epoch (unwrap_or (total_pool_value p) 0)).0 (
      ap (λ (b : Packed). b.resolved)
        (refresh_hwm-packed p epoch (unwrap_or (total_pool_value p) 0) wf fits tvl_fits))
  where
    tvl_fits : IsU64 (unwrap_or (total_pool_value p) 0)
    tvl_fits = elim (Option-cases (total_pool_value p)) [
      | inl e ↦ rw e (omega arith)
      | inr (v, e) ↦ rw e (omega (arith, total_pool_value-parts p v e))
    ]

mark_deposit_flag :
    (p : StakePool) (clock : Clock)
    → IsReserved p.reserved
    → IsU64 clock.epoch
    → is_resolved (mark_deposit p clock) ≡ is_resolved p
unfolding mark_deposit
mark_deposit_flag p clock wf fits = ground (arith, refresh_hwm_flag p clock.epoch wf fits)

module _ {D : Type 0} (rt : Runtime D) (program_id : Pubkey) (owned : OwnedLaws rt program_id)
    (k : Pubkey) where
  move_deposit-Untouched :
      (a : DepositAccounts) (amount lp : ℕ) (w w' : World D)
      → Held rt program_id w k
      → move_deposit rt program_id a amount lp w ≡ ok w'
      → Spared rt program_id owned k w w'
  unfolding move_deposit invoke calls
  move_deposit-Untouched a amount lp w w' held h =
      bind_ok
        (rt.invoke_signed
          (token_transfer a.token_program.key a.user_ata.key a.vault.key a.user.key amount) [] w)
        h
        λ w₁ sent h.
          then-Untouched rt program_id owned k w w₁ w' held
            (invoked-Untouched rt program_id owned k _ [] w w₁ refl held sent)
            (λ held₁. invoked-Untouched rt program_id owned k _ _ w₁ w' refl held₁ h)

  open_deposit-Untouched :
      (a : DepositAccounts) (w w' : World D)
      → Held rt program_id w k
      → open_deposit rt program_id a w ≡ ok w'
      → Spared rt program_id owned k w w'
        × (a.deposit_pda.key ≡ (derive_deposit_pda rt program_id a.pool_pda.key a.user.key).0)
  unfolding open_deposit
  open_deposit-Untouched a w w' held h =
      guard_ok
        (not (a.deposit_pda.key == (derive_deposit_pda rt program_id a.pool_pda.key a.user.key).0))
        (from_stake_error invalid_pda) h
        λ derived h.
          guard_ok
            (not (data_is_empty rt w a.deposit_pda.key)
              && not ((w a.deposit_pda.key).owner == program_id))
            (from_stake_error invalid_account) h
            λ _ h. (
              elim (Bool-cases (data_is_empty rt w a.deposit_pda.key)) [
                | inl empty ↦
                    create_or_adopt_pda-Untouched rt program_id owned k a.deposit_pda a.user
                      program_id stake_deposit_size
                      (deposit_seeds a.pool_pda.key a.user.key
                        (derive_deposit_pda rt program_id a.pool_pda.key a.user.key).1)
                      w w' held (rw empty at h)
                | inr full ↦
                    subst (λ (s : World D). Spared rt program_id owned k w s)
                      (same_ok (ok w) refl (rw full at h)) (refl, held.0)
              ],
              ground (arith, derived),
            )

-- An address that is not the record of any depositor and pool among the accounts.
abbrev pub NoRecord : {D : Type 0} → Runtime D → Pubkey → List AccountInfo → Pubkey → Type 0
NoRecord rt program_id accounts k =
    All
      (λ (pool : AccountInfo).
        All
          (λ (user : AccountInfo).
            (k == (derive_deposit_pda rt program_id pool.key user.key).0) ≡ false)
          accounts)
      accounts

deposit_accounts-All :
    (P : AccountInfo → Type 0) (accounts : List AccountInfo) (a : DepositAccounts)
    → All P accounts
    → deposit_accounts accounts ≡ ok a
    → P a.user × P a.pool_pda
unfolding deposit_accounts next_account_info
deposit_accounts-All P (i ∷ j ∷ _ ∷ _ ∷ _ ∷ _ ∷ _ ∷ _ ∷ _ ∷ _ ∷ _) a all h = ground arith
deposit_accounts-All P accounts a all h = cc

deposit_accounts-NoRecord :
    {D : Type 0} (rt : Runtime D) (program_id : Pubkey) (accounts : List AccountInfo)
    (a : DepositAccounts) (k : Pubkey)
    → NoRecord rt program_id accounts k
    → deposit_accounts accounts ≡ ok a
    → (k == (derive_deposit_pda rt program_id a.pool_pda.key a.user.key).0) ≡ false
deposit_accounts-NoRecord rt program_id accounts a k apart h =
    (deposit_accounts-All
      (λ (user : AccountInfo).
        (k == (derive_deposit_pda rt program_id a.pool_pda.key user.key).0) ≡ false)
      accounts a
      (deposit_accounts-All
        (λ (pool : AccountInfo).
          All
            (λ (user : AccountInfo).
              (k == (derive_deposit_pda rt program_id pool.key user.key).0) ≡ false)
            accounts)
        accounts a apart h).1
      h).0

module _ {D : Type 0} (rt : Runtime D) (laws : RuntimeLaws rt) (program_id : Pubkey)
    (owned : OwnedLaws rt program_id) (k : Pubkey) where
  record_deposit-Carries :
      (a : DepositAccounts) (lp : ℕ) (clock : Clock) (q : StakePool) (w w₁ w' : World D)
      → (k == (derive_deposit_pda rt program_id a.pool_pda.key a.user.key).0) ≡ false
      → Held rt program_id w k
      → Spared rt program_id owned k w w₁
      → a.deposit_pda.key ≡ (derive_deposit_pda rt program_id a.pool_pda.key a.user.key).0
      → IsPool q
      → Move (pool_at rt w a.pool_pda.key) q
      → record_deposit rt program_id a lp clock q w₁ ≡ ok w'
      → Carries rt laws program_id owned k w w'
  unfolding record_deposit
  record_deposit-Carries a lp clock q w w₁ w' apart held u derived typed move h =
      guard_ok (a.deposit_pda.key == a.pool_pda.key) account_borrow_failed h λ _ h.
        bind_ok (load_deposit rt w₁ a.deposit_pda.key) h λ d _ h.
          bind_ok
            (top_up_deposit d (derive_deposit_pda rt program_id a.pool_pda.key a.user.key).1
              a.pool_pda.key a.user.key lp clock.slot q.cooldown_slots)
            h
            λ d' _ h.
              stored-Carries rt laws program_id owned k w w
                (store_deposit rt a.deposit_pda.key d' w₁) w' a.pool_pda.key q held (refl, held.0)
                (then-Untouched rt program_id owned k w w₁
                  (store_deposit rt a.deposit_pda.key d' w₁) held u
                  (λ held₁.
                    store_deposit-Untouched rt program_id w₁ a.deposit_pda.key k d'
                      (rw derived apart) held₁.0))
                typed move h

  DepositRun-Carries :
      (accounts : List AccountInfo) (amount : ℕ) (w w' : World D)
      → NoRecord rt program_id accounts k
      → Held rt program_id w k
      → DepositRun rt program_id accounts amount w w'
      → Carries rt laws program_id owned k w w'
  DepositRun-Carries accounts amount w w' apart held r =
      let read : r.pool ≡ pool_at rt w r.a.pool_pda.key =
        load_pool-pool_at rt w r.a.pool_pda.key r.pool r.pool_eq in
      let typed : IsPool r.pool = rw read (laws.pool_of-IsPool (w r.a.pool_pda.key).contents) in
      let epoch_fits : IsU64 r.clock.epoch =
        (laws.clock_fits r.a.clock_sysvar.key (r.moved r.a.clock_sysvar.key).contents r.clock
          r.clock_eq).1 in
      let credit : Credited r.pool (mark_deposit r.credited r.clock) amount r.lp =
        mark_deposit-Credited r.pool r.credited amount r.lp r.clock typed r.credited_eq in
      let kept : r.credited.reserved ≡ r.pool.reserved =
        ap (λ (p : StakePool). p.reserved)
          (credit_pool_fields r.pool r.credited amount r.lp r.credited_eq) in
      let wf : IsReserved r.credited.reserved =
        rw kept (typed.reserved_length, typed.reserved_bytes) in
      let flag : is_resolved (mark_deposit r.credited r.clock) ≡ is_resolved r.pool =
        mark_deposit_flag r.credited r.clock wf epoch_fits ∙ flag_kept r.pool r.credited kept in
      let moved : Spared rt program_id owned k w r.moved =
        move_deposit-Untouched rt program_id owned k r.a amount r.lp w r.moved held r.moved_eq in
      let opening =
        open_deposit-Untouched rt program_id owned k r.a r.moved r.opened
          (Untouched-Held rt program_id w r.moved k held moved) r.opened_eq in
      record_deposit-Carries r.a r.lp r.clock (mark_deposit r.credited r.clock) w r.opened w'
        (deposit_accounts-NoRecord rt program_id accounts r.a k apart r.accounts_eq) held
        (then-Untouched rt program_id owned k w r.moved r.opened held moved (λ _. opening.0))
        opening.1 credit.typed
        (subst (λ (p : StakePool). Move p (mark_deposit r.credited r.clock)) read
          (deposits amount r.lp r.lp_eq (ground (arith, r.some_lp))
            (check_deposit-open rt program_id r.a amount r.pool r.checked) flag credit))
        r.recorded_eq

  pub process_deposit-Carries :
      (accounts : List AccountInfo) (amount : ℕ) (w w' : World D)
      → NoRecord rt program_id accounts k
      → Held rt program_id w k
      → process_deposit rt program_id accounts amount w ≡ ok w'
      → Carries rt laws program_id owned k w w'
  process_deposit-Carries accounts amount w w' apart held h =
      DepositRun-Carries accounts amount w w' apart held
        (process_deposit-DepositRun rt program_id accounts amount w w' h)
