-- ===== src/Processor/Withdraw/Guards.antt =====
-- What `process_withdraw` (src/processor.rs) asks of the user, of the record and of the clock.
use percolator_vault.Base.{subst, ℕ, ◌+◌, ◌-◌, ◌*◌, ◌<◌, ◌≡◌, sym, true, List, Option, some, arith}
use percolator_vault.Base.Word.{IsU64}
use percolator_vault.Error.{ok, same_ok}
use percolator_vault.State.{
  StakePool, StakeDeposit, calc_collateral_for_withdraw, total_pool_value, hwm_enabled,
}
use percolator_vault.State.Packed.{packed}
use percolator_vault.State.Refresh.{refreshed}
use percolator_vault.Runtime.{Pubkey, AccountInfo, World, Runtime, Clock}
use percolator_vault.Runtime.Laws.{RuntimeLaws}
use percolator_vault.Runtime.Store.{pool_at, deposit_at, load_pool-pool_at, load_deposit-deposit_at}
use percolator_vault.Processor.Withdraw.{
  WithdrawAccounts, withdraw_accounts, enforce_hwm, process_withdraw,
}
use percolator_vault.Processor.Withdraw.Run.{WithdrawRun, process_withdraw-WithdrawRun}
use percolator_vault.Processor.Withdraw.Effect.{Apart, Withdrawn, WithdrawRun-Withdrawn}
use percolator_vault.Processor.Withdraw.Books.{enforce_hwm-floor, Position, check_position-Position}

-- What a withdrawal that goes through has been asked for.
abbrev pub Entitled : WithdrawAccounts → StakePool → StakeDeposit → ℕ → ℕ → Type 0
Entitled a p d lp slot =
    (a.user.is_signer ≡ true) × Position d a.user.key a.pool_pda.key lp slot p.cooldown_slots

-- The pool is worth at least the floor after a withdrawal.
abbrev pub Held : StakePool → StakePool → ℕ → Type 0
Held p q epoch =
    (before : ℕ) × (after : ℕ) × (total_pool_value p ≡ some before)
    × (total_pool_value q ≡ some after)
    × ((refreshed (packed p) epoch before).high_water * (packed p).floor_bps < (after + 1) * 10_000)

same_some {ℓ} : {A : Type ℓ} {a b : A} (o : Option A) → o ≡ some a → o ≡ some b → a ≡ b
same_some o h h' = ground arith

module _ {D : Type 0} (rt : Runtime D) (laws : RuntimeLaws rt) (program_id : Pubkey) where
  WithdrawRun-Entitled :
      (accounts : List AccountInfo) (lp : ℕ) (w w' : World D)
      (r : WithdrawRun rt program_id accounts lp w w')
      → Entitled r.a
          (pool_at rt w r.a.pool_pda.key)
          (deposit_at rt w r.a.deposit_pda.key)
          lp
          r.clock.slot
  WithdrawRun-Entitled accounts lp w w' r =
      let position =
        check_position-Position r.deposit r.a.user.key r.a.pool_pda.key lp r.clock.slot
          r.pool.cooldown_slots
          (laws.clock_fits r.a.clock_sysvar.key (w r.a.clock_sysvar.key).contents r.clock
            r.clock_eq).0
          r.position in
      subst
        (λ (p : StakePool). Entitled r.a p (deposit_at rt w r.a.deposit_pda.key) lp r.clock.slot)
        (load_pool-pool_at rt w r.a.pool_pda.key r.pool r.pool_eq)
        (subst (λ (d : StakeDeposit). Entitled r.a r.pool d lp r.clock.slot)
          (load_deposit-deposit_at rt w r.a.deposit_pda.key r.deposit r.deposit_eq)
          (ground (arith, r.signed), position))

  -- The clock of a run is the one that the sysvar holds.
  run_clock :
      (accounts : List AccountInfo) (lp : ℕ) (w w' : World D) (a : WithdrawAccounts) (clock : Clock)
      (r : WithdrawRun rt program_id accounts lp w w')
      → r.a ≡ a
      → rt.clock_of a.clock_sysvar.key (w a.clock_sysvar.key).contents ≡ ok clock
      → r.clock ≡ clock
  run_clock accounts lp w w' a clock r same time =
      same_ok (rt.clock_of a.clock_sysvar.key (w a.clock_sysvar.key).contents)
        (subst
          (λ (b : WithdrawAccounts).
            rt.clock_of b.clock_sysvar.key (w b.clock_sysvar.key).contents ≡ ok r.clock)
          same r.clock_eq)
        time

  -- A withdrawal goes through only when the user has signed, the record is the user's in this pool,
  -- the cooldown counted from the record's slot is over, and the record holds the tokens. The sum of
  -- slot and cooldown saturates, so at the last u64 slot every cooldown is over.
  pub process_withdraw-Entitled :
      (accounts : List AccountInfo) (lp : ℕ) (w w' : World D) (a : WithdrawAccounts) (clock : Clock)
      → withdraw_accounts accounts ≡ ok a
      → rt.clock_of a.clock_sysvar.key (w a.clock_sysvar.key).contents ≡ ok clock
      → process_withdraw rt program_id accounts lp w ≡ ok w'
      → Entitled a (pool_at rt w a.pool_pda.key) (deposit_at rt w a.deposit_pda.key) lp clock.slot
  process_withdraw-Entitled accounts lp w w' a clock named time h =
      let r : WithdrawRun rt program_id accounts lp w w' =
        process_withdraw-WithdrawRun rt program_id accounts lp w w' h in
      let same : r.a ≡ a = same_ok (withdraw_accounts accounts) r.accounts_eq named in
      subst
        (λ (b : WithdrawAccounts).
          Entitled b (pool_at rt w b.pool_pda.key) (deposit_at rt w b.deposit_pda.key) lp
            clock.slot)
        same
        (subst
          (λ (c : Clock).
            Entitled r.a (pool_at rt w r.a.pool_pda.key) (deposit_at rt w r.a.deposit_pda.key) lp
              c.slot)
          (run_clock accounts lp w w' a clock r same time)
          (WithdrawRun-Entitled accounts lp w w' r))

  WithdrawRun-floor :
      (accounts : List AccountInfo) (lp : ℕ) (w w' : World D)
      (r : WithdrawRun rt program_id accounts lp w w')
      → Apart r.a
      → hwm_enabled (pool_at rt w r.a.pool_pda.key) ≡ true
      → Held (pool_at rt w r.a.pool_pda.key) (pool_at rt w' r.a.pool_pda.key) r.clock.epoch
  WithdrawRun-floor accounts lp w w' r apart enabled =
      let p : StakePool = pool_at rt w r.a.pool_pda.key in
      let t : Withdrawn rt laws program_id r.a lp w w' =
        WithdrawRun-Withdrawn rt laws program_id accounts lp w w' r apart in
      let read : r.pool ≡ p = load_pool-pool_at rt w r.a.pool_pda.key r.pool r.pool_eq in
      let same_paid : r.paid ≡ t.paid =
        same_some (calc_collateral_for_withdraw p lp) (rw (sym read) r.paid_eq) t.price in
      let passed : enforce_hwm p t.paid r.clock ≡ ok r.marked =
        subst (λ (n : ℕ). enforce_hwm p n r.clock ≡ ok r.marked) same_paid
          (subst (λ (q : StakePool). enforce_hwm q r.paid r.clock ≡ ok r.marked) read
            r.marked_eq) in
      let epoch_fits : IsU64 r.clock.epoch =
        (laws.clock_fits r.a.clock_sysvar.key (w r.a.clock_sysvar.key).contents r.clock
          r.clock_eq).1 in
      (
        t.value,
        t.value - t.paid,
        t.worth,
        t.left,
        (enforce_hwm-floor p r.marked t.paid t.value r.clock
            (laws.pool_of-IsPool (w r.a.pool_pda.key).contents) epoch_fits t.worth enabled
            passed).1,
      )

  -- While the pool's floor is enabled, a successful withdrawal from a record that lies apart from
  -- the token accounts leaves the pool worth at least the floor: the share of the high-water mark,
  -- refreshed at the clock's epoch with the value before the withdrawal, that the floor's
  -- ten-thousandths give, rounded down.
  pub process_withdraw-floor :
      (accounts : List AccountInfo) (lp : ℕ) (w w' : World D) (a : WithdrawAccounts) (clock : Clock)
      → withdraw_accounts accounts ≡ ok a
      → rt.clock_of a.clock_sysvar.key (w a.clock_sysvar.key).contents ≡ ok clock
      → hwm_enabled (pool_at rt w a.pool_pda.key) ≡ true
      → Apart a
      → process_withdraw rt program_id accounts lp w ≡ ok w'
      → Held (pool_at rt w a.pool_pda.key) (pool_at rt w' a.pool_pda.key) clock.epoch
  process_withdraw-floor accounts lp w w' a clock named time enabled apart h =
      let r : WithdrawRun rt program_id accounts lp w w' =
        process_withdraw-WithdrawRun rt program_id accounts lp w w' h in
      let same : r.a ≡ a = same_ok (withdraw_accounts accounts) r.accounts_eq named in
      subst
        (λ (b : WithdrawAccounts).
          Held (pool_at rt w b.pool_pda.key) (pool_at rt w' b.pool_pda.key) clock.epoch)
        same
        (subst
          (λ (c : Clock).
            Held (pool_at rt w r.a.pool_pda.key) (pool_at rt w' r.a.pool_pda.key) c.epoch)
          (run_clock accounts lp w w' a clock r same time)
          (WithdrawRun-floor accounts lp w w' r (rw same apart) (rw same enabled)))
