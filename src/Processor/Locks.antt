-- ===== src/Processor/Locks.antt =====
-- A withdrawal after a deposit (`process_deposit` and `process_withdraw` of src/processor.rs).
use percolator_vault.Base.{ℕ, ◌≤◌, ◌<◌, ◌≡◌, ap, sym, subst, List, arith}
use percolator_vault.Base.Word.{u64_max}
use percolator_vault.Error.{ok}
use percolator_vault.State.{StakePool, StakeDeposit, IsKey}
use percolator_vault.Runtime.{Pubkey, AccountInfo, World, Runtime, Clock}
use percolator_vault.Runtime.Laws.{RuntimeLaws}
use percolator_vault.Runtime.Store.{pool_at, deposit_at}
use percolator_vault.Processor.Deposit.{DepositAccounts, deposit_accounts, process_deposit}
use percolator_vault.Processor.Deposit.Effect.{process_deposit-Credited}
use percolator_vault.Processor.Deposit.Position.{ClockApart, process_deposit-Locked}
use percolator_vault.Processor.Deposit.TopUp.{Locked}
use percolator_vault.Processor.Withdraw.{WithdrawAccounts, withdraw_accounts, process_withdraw}
use percolator_vault.Processor.Withdraw.Guards.{Entitled, process_withdraw-Entitled}

Locked-Entitled :
    (a : WithdrawAccounts) (p : StakePool) (d : StakeDeposit) (pool user lp slot now cooldown : ℕ)
    → Locked d pool user slot cooldown
    → Entitled a p d lp now
    → p.cooldown_slots ≡ cooldown
    → now ≤ slot
    → now < u64_max
    → ⊥
Locked-Entitled a p d pool user lp slot now cooldown locked entitled same past early =
    ground (arith, locked.locked)

module _ {D : Type 0} (rt : Runtime D) (laws : RuntimeLaws rt) (program_id : Pubkey) where
  -- In a pool with a cooldown, once a deposit has succeeded, with keys of 32 bytes and a clock
  -- sysvar apart from the token accounts, no withdrawal of any size from the same record succeeds
  -- at the deposit's slot or before, the last u64 slot excepted.
  pub process_withdraw-process_deposit :
      (accounts accounts' : List AccountInfo) (amount lp : ℕ) (w w' w'' : World D)
      (a : DepositAccounts) (a' : WithdrawAccounts) (clock clock' : Clock)
      → deposit_accounts accounts ≡ ok a
      → ClockApart a
      → rt.clock_of a.clock_sysvar.key (w a.clock_sysvar.key).contents ≡ ok clock
      → IsKey a.pool_pda.key
      → IsKey a.user.key
      → 0 < (pool_at rt w a.pool_pda.key).cooldown_slots
      → process_deposit rt program_id accounts amount w ≡ ok w'
      → withdraw_accounts accounts' ≡ ok a'
      → a'.pool_pda.key ≡ a.pool_pda.key
      → a'.deposit_pda.key ≡ a.deposit_pda.key
      → rt.clock_of a'.clock_sysvar.key (w' a'.clock_sysvar.key).contents ≡ ok clock'
      → clock'.slot ≤ clock.slot
      → clock'.slot < u64_max
      → ¬ (process_withdraw rt program_id accounts' lp w' ≡ ok w'')
  process_withdraw-process_deposit accounts accounts' amount lp w w' w'' a a' clock clock' named
        apart time pool_fits user_fits some_cooldown h named' same_pool same_deposit time' past
        early h' =
      let locked =
        process_deposit-Locked rt laws program_id accounts amount w w' a clock named apart time
          pool_fits user_fits some_cooldown h in
      let (minted, _, _, credit) =
        process_deposit-Credited rt laws program_id accounts amount w w' a named h in
      let entitled =
        process_withdraw-Entitled rt laws program_id accounts' lp w' w'' a' clock' named' time'
          h' in
      let cooldown_kept = ap (λ (p : StakePool). p.cooldown_slots) credit.same in
      Locked-Entitled a' (pool_at rt w' a'.pool_pda.key) (deposit_at rt w' a'.deposit_pda.key)
        a.pool_pda.key a.user.key lp clock.slot clock'.slot
        (pool_at rt w a.pool_pda.key).cooldown_slots
        (subst
          (λ (k : Pubkey).
            Locked (deposit_at rt w' k) a.pool_pda.key a.user.key clock.slot
              (pool_at rt w a.pool_pda.key).cooldown_slots)
          (sym same_deposit) locked)
        entitled
        (subst
          (λ (k : Pubkey).
            (pool_at rt w' k).cooldown_slots ≡ (pool_at rt w a.pool_pda.key).cooldown_slots)
          (sym same_pool) cooldown_kept)
        past early
