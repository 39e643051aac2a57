-- ===== src/Processor/Withdraw/Exit.antt =====
-- Withdrawals of src/processor.rs that nothing can stop once the tokens have moved.
use percolator_vault.Base.{
  ℕ, ◌+◌, ◌-◌, ◌≤◌, ◌≡◌, refl, ap, ◌∙◌, true, false, not, List, [], some, leb, ◌==◌, arith,
}
use percolator_vault.Base.Word.{u64_max, checked_add, checked_sub}
use percolator_vault.Math.Shares.{withdraw-le_value}
use percolator_vault.Processor.Common.{verify_token_program}
use percolator_vault.Processor.Withdraw.Books.{calc_collateral-value, enforce_hwm_fields}
use percolator_vault.Error.{bind_ok, ok}
use percolator_vault.State.{StakePool, StakeDeposit, calc_collateral_for_withdraw}
use percolator_vault.State.Value.{total_pool_value-parts}
use percolator_vault.Runtime.{
  Pubkey, AccountInfo, World, Runtime, Clock, burn, load_pool, load_deposit, store_pool,
  store_deposit, invoke,
}
use percolator_vault.Runtime.Owned.{OwnedLaws, calls}
use percolator_vault.Processor.Withdraw.{
  WithdrawAccounts, withdraw_accounts, check_withdraw, check_position, enforce_hwm, debit_pool,
  move_withdraw, record_withdraw, process_withdraw,
}

-- A payout and the tokens burned can always be booked.
debit_pool_succeeds :
    (p m : StakePool) (lp paid : ℕ) (clock : Clock)
    → lp ≤ p.total_lp_supply
    → calc_collateral_for_withdraw p lp ≡ some paid
    → enforce_hwm p paid clock ≡ ok m
    → debit_pool m paid lp
      ≡ ok (record m {
        total_withdrawn = m.total_withdrawn + paid;
        total_lp_supply = m.total_lp_supply - lp;
      })
unfolding debit_pool checked_add checked_sub
debit_pool_succeeds p m lp paid clock covered answer marked =
    let (v, worth, price) = calc_collateral-value p lp paid answer in
    let within : paid ≤ v = withdraw-le_value p.total_lp_supply v lp paid covered price in
    let (sum, fits) = total_pool_value-parts p v worth in
    let same = enforce_hwm_fields p m paid clock marked in
    let kept_withdrawn : m.total_withdrawn ≡ p.total_withdrawn =
      ap (λ (q : StakePool). q.total_withdrawn) same in
    let kept_supply : m.total_lp_supply ≡ p.total_lp_supply =
      ap (λ (q : StakePool). q.total_lp_supply) same in
    let room : m.total_withdrawn + paid ≤ u64_max =
      omega (arith, sum, fits, within, kept_withdrawn) in
    let burnable : lp ≤ m.total_lp_supply = omega (arith, covered, kept_supply) in
    ground (arith, room, burnable)

check_position_enough :
    (d : StakeDeposit) (user pool lp slot cooldown : ℕ)
    → check_position d user pool lp slot cooldown ≡ ok tt
    → lp ≤ d.lp_amount
unfolding check_position
check_position_enough d user pool lp slot cooldown h = ground arith

module _ {D : Type 0} (rt : Runtime D) (program_id : Pubkey) where
  check_withdraw-owner :
      (a : WithdrawAccounts) (p : StakePool) (w : World D)
      → check_withdraw rt program_id a p w ≡ ok tt
      → (w a.deposit_pda.key).owner ≡ program_id
  unfolding check_withdraw verify_token_program
  check_withdraw-owner a p w h = ground arith

  load_deposit_same :
      (w w' : World D) (k : Pubkey) (d : StakeDeposit)
      → (w' k).contents ≡ (w k).contents
      → load_deposit rt w k ≡ ok d
      → load_deposit rt w' k ≡ ok d
  unfolding load_deposit
  load_deposit_same w w' k d same h = rw same h

  record_withdraw_succeeds :
      (a : WithdrawAccounts) (lp : ℕ) (q : StakePool) (d : StakeDeposit) (w : World D)
      → load_deposit rt w a.deposit_pda.key ≡ ok d
      → lp ≤ d.lp_amount
      → (w' : World D) × (record_withdraw rt program_id a lp q w ≡ ok w')
  unfolding record_withdraw checked_sub
  record_withdraw_succeeds a lp q d w read enough =
      let enough_test : leb lp d.lp_amount ≡ true = ground arith in
      (
        store_pool rt a.pool_pda.key q
            (store_deposit rt a.deposit_pda.key (record d { lp_amount = d.lp_amount - lp }) w),
        rw (read, enough_test) refl,
      )

  module _ (owned : OwnedLaws rt program_id) where
    -- The token program does not touch the depositor's record.
    move_withdraw-record :
        (a : WithdrawAccounts) (lp paid : ℕ) (w w' : World D)
        → (w a.deposit_pda.key).owner ≡ program_id
        → move_withdraw rt program_id a lp paid w ≡ ok w'
        → (w' a.deposit_pda.key).contents ≡ (w a.deposit_pda.key).contents
    unfolding move_withdraw invoke calls
    move_withdraw-record a lp paid w w' owner h =
        bind_ok
          (rt.invoke_signed (burn a.token_program.key a.user_lp_ata.key a.lp_mint.key a.user.key lp)
            [] w)
          h
          λ w₁ burned h.
            let (first, owner₁) = owned.owned_frame _ _ w w₁ a.deposit_pda.key burned refl owner in
            let (second, _) = owned.owned_frame _ _ w₁ w' a.deposit_pda.key h refl owner₁ in
            second ∙ first

    -- A withdrawal succeeds when its amount is not 0, its user has signed, the pool, the clock and the
    -- record are read and pass the checks, the shares burned are at most the supply, a payout that is
    -- not 0 is computed and passes the high-water mark, and the two invocations of the token program
    -- succeed: nothing that follows them can fail.
    pub process_withdraw_succeeds :
        (accounts : List AccountInfo) (lp paid : ℕ) (w moved : World D) (a : WithdrawAccounts)
        (pool marked : StakePool) (clock : Clock) (deposit : StakeDeposit)
        → (lp == 0) ≡ false
        → withdraw_accounts accounts ≡ ok a
        → not a.user.is_signer ≡ false
        → load_pool rt w a.pool_pda.key ≡ ok pool
        → check_withdraw rt program_id a pool w ≡ ok tt
        → rt.clock_of a.clock_sysvar.key (w a.clock_sysvar.key).contents ≡ ok clock
        → (a.deposit_pda.key == a.pool_pda.key) ≡ false
        → load_deposit rt w a.deposit_pda.key ≡ ok deposit
        → check_position deposit a.user.key a.pool_pda.key lp clock.slot pool.cooldown_slots ≡ ok tt
        → lp ≤ pool.total_lp_supply
        → calc_collateral_for_withdraw pool lp ≡ some paid
        → (paid == 0) ≡ false
        → enforce_hwm pool paid clock ≡ ok marked
        → move_withdraw rt program_id a lp paid w ≡ ok moved
        → (w' : World D) × (process_withdraw rt program_id accounts lp w ≡ ok w')
    unfolding process_withdraw
    process_withdraw_succeeds accounts lp paid w moved a pool marked clock deposit some_lp named
          signed read checked time apart found position covered answer some_paid mark sent =
        let (w', recorded) =
          record_withdraw_succeeds a lp
            (record marked {
              total_withdrawn = marked.total_withdrawn + paid;
              total_lp_supply = marked.total_lp_supply - lp;
            })
            deposit moved
            (load_deposit_same w moved a.deposit_pda.key deposit
              (move_withdraw-record a lp paid w moved (check_withdraw-owner a pool w checked) sent)
              found)
            (check_position_enough deposit a.user.key a.pool_pda.key lp clock.slot
              pool.cooldown_slots position) in
        (
          w',
          rw
              (
                some_lp,
                named,
                signed,
                read,
                checked,
                time,
                apart,
                found,
                position,
                answer,
                some_paid,
                mark,
                sent,
                debit_pool_succeeds pool marked lp paid clock covered answer mark,
              )
              recorded,
        )
