-- ===== src/Processor/Deposit/Position.antt =====
-- The depositor's record after a successful `process_deposit` (src/processor.rs).
use percolator_vault.Base.{
  subst, ℕ, ◌<◌, ◌≡◌, refl, sym, ap, ◌∙◌, false, List, [], ◌∷◌, ◌==◌, arith,
}
use percolator_vault.Base.Word.{IsU64}
use percolator_vault.Error.{ok, same_ok, guard_ok, bind_ok, account_borrow_failed}
use percolator_vault.State.{StakePool, StakeDeposit, IsKey, IsPool}
use percolator_vault.Runtime.{
  Pubkey, AccountInfo, World, Runtime, Clock, token_transfer, mint_to, load_deposit, invoke,
}
use percolator_vault.Runtime.Laws.{RuntimeLaws, writes}
use percolator_vault.Runtime.Store.{
  pool_at, deposit_at, load_pool-pool_at, load_deposit-deposit_at, stores_read,
}
use percolator_vault.Pda.{derive_deposit_pda, derive_vault_authority, vault_auth_seeds}
use percolator_vault.Processor.Deposit.{
  DepositAccounts, deposit_accounts, credit_pool, mark_deposit, move_deposit, record_deposit,
  top_up_deposit, process_deposit,
}
use percolator_vault.Processor.Deposit.Run.{DepositRun, process_deposit-DepositRun}
use percolator_vault.Processor.Deposit.Books.{Credited, mark_deposit-Credited}
use percolator_vault.Processor.Deposit.TopUp.{
  ToppedUp, top_up_deposit-ToppedUp, Locked, ToppedUp-Locked,
}

-- The sysvar lies apart from the accounts that the token program writes.
pub record ClockApart (a : DepositAccounts) : Type 0 where
  pub ata_apart : (a.user_ata.key == a.clock_sysvar.key) ≡ false
  pub vault_apart : (a.vault.key == a.clock_sysvar.key) ≡ false
  pub mint_apart : (a.lp_mint.key == a.clock_sysvar.key) ≡ false
  pub lp_ata_apart : (a.user_lp_ata.key == a.clock_sysvar.key) ≡ false

module _ {D : Type 0} (rt : Runtime D) (laws : RuntimeLaws rt) (program_id : Pubkey) where
  move_deposit_frame :
      (a : DepositAccounts) (amount lp : ℕ) (w w' : World D)
      → ClockApart a
      → move_deposit rt program_id a amount lp w ≡ ok w'
      → (w' a.clock_sysvar.key).contents ≡ (w a.clock_sysvar.key).contents
  unfolding move_deposit invoke writes
  move_deposit_frame a amount lp w w' apart h =
      bind_ok
        (rt.invoke_signed
          (token_transfer a.token_program.key a.user_ata.key a.vault.key a.user.key amount) [] w)
        h
        λ w₁ sent h.
          laws.invoke_signed_frame
            (mint_to a.token_program.key a.lp_mint.key a.user_lp_ata.key a.vault_auth.key lp)
            (vault_auth_seeds a.pool_pda.key (derive_vault_authority rt program_id a.pool_pda.key).1
              ∷ [])
            w₁ w' a.clock_sysvar.key h (rw (apart.mint_apart, apart.lp_ata_apart) refl)
          ∙ laws.invoke_signed_frame
              (token_transfer a.token_program.key a.user_ata.key a.vault.key a.user.key amount) [] w
              w₁ a.clock_sysvar.key sent (rw (apart.ata_apart, apart.vault_apart) refl)

  record_deposit_writes :
      (a : DepositAccounts) (lp : ℕ) (clock : Clock) (p : StakePool) (w w' : World D)
      → IsPool p
      → IsKey a.pool_pda.key
      → IsKey a.user.key
      → IsU64 clock.slot
      → record_deposit rt program_id a lp clock p w ≡ ok w'
      → ToppedUp
          (deposit_at rt w a.deposit_pda.key)
          (deposit_at rt w' a.deposit_pda.key)
          a.pool_pda.key
          a.user.key
          lp
          clock.slot
          p.cooldown_slots
  unfolding record_deposit derive_deposit_pda
  record_deposit_writes a lp clock p w w' v pool_fits user_fits slot_fits h =
      guard_ok (a.deposit_pda.key == a.pool_pda.key) account_borrow_failed h λ apart h.
        bind_ok (load_deposit rt w a.deposit_pda.key) h λ d d_eq h.
          bind_ok
            (top_up_deposit d (derive_deposit_pda rt program_id a.pool_pda.key a.user.key).1
              a.pool_pda.key a.user.key lp clock.slot p.cooldown_slots)
            h
            λ d' d'_eq h.
              let read : d ≡ deposit_at rt w a.deposit_pda.key =
                load_deposit-deposit_at rt w a.deposit_pda.key d d_eq in
              let topped : ToppedUp d d' a.pool_pda.key a.user.key lp clock.slot p.cooldown_slots =
                top_up_deposit-ToppedUp d d' _ a.pool_pda.key a.user.key lp clock.slot
                  p.cooldown_slots (rw read (laws.deposit_of-IsDeposit _)) (laws.address_fits _ _).1
                  pool_fits user_fits slot_fits d'_eq in
              let (_, written) =
                stores_read rt laws w w' a.pool_pda.key a.deposit_pda.key p d' v topped.typed apart
                  h in
              subst
                (λ (x : StakeDeposit).
                  ToppedUp x (deposit_at rt w' a.deposit_pda.key) a.pool_pda.key a.user.key lp
                    clock.slot p.cooldown_slots)
                read
                (subst
                  (λ (x : StakeDeposit).
                    ToppedUp d x a.pool_pda.key a.user.key lp clock.slot p.cooldown_slots)
                  (sym written) topped)

  DepositRun-Locked :
      (accounts : List AccountInfo) (amount : ℕ) (w w' : World D)
      (r : DepositRun rt program_id accounts amount w w')
      → IsKey r.a.pool_pda.key
      → IsKey r.a.user.key
      → 0 < (pool_at rt w r.a.pool_pda.key).cooldown_slots
      → Locked
          (deposit_at rt w' r.a.deposit_pda.key)
          r.a.pool_pda.key
          r.a.user.key
          r.clock.slot
          (pool_at rt w r.a.pool_pda.key).cooldown_slots
  DepositRun-Locked accounts amount w w' r pool_fits user_fits some_cooldown =
      let p : StakePool = pool_at rt w r.a.pool_pda.key in
      let m : StakePool = mark_deposit r.credited r.clock in
      let read : r.pool ≡ p = load_pool-pool_at rt w r.a.pool_pda.key r.pool r.pool_eq in
      let typed : IsPool p = laws.pool_of-IsPool (w r.a.pool_pda.key).contents in
      let credit : Credited p m amount r.lp =
        mark_deposit-Credited p r.credited amount r.lp r.clock typed (
          subst (λ (q : StakePool). credit_pool q amount r.lp ≡ ok r.credited) read
            r.credited_eq) in
      let slot_fits : IsU64 r.clock.slot =
        (laws.clock_fits r.a.clock_sysvar.key (r.moved r.a.clock_sysvar.key).contents r.clock
          r.clock_eq).0 in
      let lp_fits : IsU64 r.lp =
        omega (
          arith,
          credit.typed.supply_fits,
          ap (λ (q : StakePool). q.total_lp_supply) credit.same,
        ) in
      let topped =
        record_deposit_writes r.a r.lp r.clock m r.opened w' credit.typed pool_fits user_fits
          slot_fits r.recorded_eq in
      ToppedUp-Locked (deposit_at rt r.opened r.a.deposit_pda.key)
        (deposit_at rt w' r.a.deposit_pda.key) r.a.pool_pda.key r.a.user.key r.lp r.clock.slot
        p.cooldown_slots
        (subst
          (λ (c : ℕ).
            ToppedUp (deposit_at rt r.opened r.a.deposit_pda.key)
              (deposit_at rt w' r.a.deposit_pda.key) r.a.pool_pda.key r.a.user.key r.lp r.clock.slot
              c)
          (ap (λ (q : StakePool). q.cooldown_slots) credit.same) topped)
        (laws.deposit_of-IsDeposit _) lp_fits slot_fits typed.cooldown_fits
        (ground (arith, r.some_lp)) some_cooldown

  -- In a pool with a cooldown, a successful deposit, with keys of 32 bytes and a clock sysvar apart
  -- from the token accounts, leaves the depositor's record open, bound to the pool and to the user,
  -- and still in its cooldown at the slot of the deposit.
  pub process_deposit-Locked :
      (accounts : List AccountInfo) (amount : ℕ) (w w' : World D) (a : DepositAccounts)
      (clock : Clock)
      → deposit_accounts accounts ≡ ok a
      → ClockApart a
      → rt.clock_of a.clock_sysvar.key (w a.clock_sysvar.key).contents ≡ ok clock
      → IsKey a.pool_pda.key
      → IsKey a.user.key
      → 0 < (pool_at rt w a.pool_pda.key).cooldown_slots
      → process_deposit rt program_id accounts amount w ≡ ok w'
      → Locked
          (deposit_at rt w' a.deposit_pda.key)
          a.pool_pda.key
          a.user.key
          clock.slot
          (pool_at rt w a.pool_pda.key).cooldown_slots
  process_deposit-Locked accounts amount w w' a clock named apart time pool_fits user_fits
        some_cooldown h =
      let r : DepositRun rt program_id accounts amount w w' =
        process_deposit-DepositRun rt program_id accounts amount w w' h in
      let same : r.a ≡ a = same_ok (deposit_accounts accounts) r.accounts_eq named in
      let kept : (r.moved a.clock_sysvar.key).contents ≡ (w a.clock_sysvar.key).contents =
        subst
          (λ (b : DepositAccounts).
            (r.moved b.clock_sysvar.key).contents ≡ (w b.clock_sysvar.key).contents)
          same (move_deposit_frame r.a amount r.lp w r.moved (rw same apart) r.moved_eq) in
      let same_clock : r.clock ≡ clock =
        same_ok (rt.clock_of a.clock_sysvar.key (r.moved a.clock_sysvar.key).contents)
          (subst
            (λ (b : DepositAccounts).
              rt.clock_of b.clock_sysvar.key (r.moved b.clock_sysvar.key).contents ≡ ok r.clock)
            same r.clock_eq)
          (rw kept time) in
      subst
        (λ (b : DepositAccounts).
          Locked (deposit_at rt w' b.deposit_pda.key) b.pool_pda.key b.user.key clock.slot
            (pool_at rt w b.pool_pda.key).cooldown_slots)
        same
        (subst
          (λ (c : Clock).
            Locked (deposit_at rt w' r.a.deposit_pda.key) r.a.pool_pda.key r.a.user.key c.slot
              (pool_at rt w r.a.pool_pda.key).cooldown_slots)
          same_clock
          (DepositRun-Locked accounts amount w w' r (rw same pool_fits) (rw same user_fits)
            (rw same some_cooldown)))
