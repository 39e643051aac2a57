-- ===== src/Processor/Withdraw/Effect.antt =====
-- What a successful `process_withdraw` (src/processor.rs) has checked, and what it leaves in the
-- pool's account and in the depositor's.
use percolator_vault.Base.{
  subst, ℕ, ◌-◌, ◌≤◌, ◌<◌, ◌≡◌, refl, sym, ap, ◌∙◌, false, List, some, [], ◌∷◌, ◌==◌, arith,
}
use percolator_vault.Base.Word.{checked_sub}
use percolator_vault.Error.{ok, same_ok, bind_ok, option_ok, insufficient_lp_tokens}
use percolator_vault.State.{
  StakePool, StakeDeposit, IsPool, IsDeposit, total_pool_value, calc_collateral_for_withdraw,
}
use percolator_vault.Runtime.{
  Pubkey, AccountInfo, World, Runtime, burn, token_transfer, load_deposit, invoke, store_pool,
  store_deposit,
}
use percolator_vault.Runtime.Laws.{RuntimeLaws, writes}
use percolator_vault.Runtime.Store.{
  pool_at, deposit_at, load_pool-pool_at, load_deposit-deposit_at, stores_read,
}
use percolator_vault.Pda.{derive_vault_authority, vault_auth_seeds}
use percolator_vault.Processor.Common.{verify_token_program}
use percolator_vault.Processor.Withdraw.{
  WithdrawAccounts, withdraw_accounts, check_withdraw, move_withdraw, record_withdraw,
  process_withdraw,
}
use percolator_vault.Processor.Withdraw.Run.{WithdrawRun, process_withdraw-WithdrawRun}
use percolator_vault.Processor.Withdraw.Books.{
  Debited, debit_pool-Debited, Debited-value, check_position-Position,
}

-- The user's record lies apart from the accounts that the token program writes.
pub record Apart (a : WithdrawAccounts) : Type 0 where
  pub lp_ata_apart : (a.user_lp_ata.key == a.deposit_pda.key) ≡ false
  pub mint_apart : (a.lp_mint.key == a.deposit_pda.key) ≡ false
  pub vault_apart : (a.vault.key == a.deposit_pda.key) ≡ false
  pub ata_apart : (a.user_ata.key == a.deposit_pda.key) ≡ false

abbrev pub lower : StakeDeposit → ℕ → StakeDeposit
lower d lp = record d { lp_amount = d.lp_amount - lp }

lower_of_checked :
    (d : StakeDeposit) (lp left : ℕ)
    → checked_sub d.lp_amount lp ≡ some left
    → record d { lp_amount = left } ≡ lower d lp
unfolding checked_sub
lower_of_checked d lp left h = ground arith

lower-IsDeposit : (d : StakeDeposit) (lp : ℕ) → IsDeposit d → IsDeposit (lower d lp)
lower-IsDeposit d lp v = ground arith

module _ {D : Type 0} (rt : Runtime D) (program_id : Pubkey) where
  check_withdraw-own :
      (a : WithdrawAccounts) (p : StakePool) (w : World D)
      → check_withdraw rt program_id a p w ≡ ok tt
      → (p.vault ≡ a.vault.key) × (p.lp_mint ≡ a.lp_mint.key)
  unfolding check_withdraw verify_token_program
  check_withdraw-own a p w h = ground arith

module _ {D : Type 0} (rt : Runtime D) (laws : RuntimeLaws rt) (program_id : Pubkey) where
  move_withdraw_frame :
      (a : WithdrawAccounts) (lp paid : ℕ) (w w' : World D)
      → Apart a
      → move_withdraw rt program_id a lp paid w ≡ ok w'
      → (w' a.deposit_pda.key).contents ≡ (w a.deposit_pda.key).contents
  unfolding move_withdraw invoke writes
  move_withdraw_frame a lp paid w w' apart h =
      bind_ok
        (rt.invoke_signed (burn a.token_program.key a.user_lp_ata.key a.lp_mint.key a.user.key lp)
          [] w)
        h
        λ w₁ burned h.
          laws.invoke_signed_frame
            (token_transfer a.token_program.key a.vault.key a.user_ata.key a.vault_auth.key paid)
            (vault_auth_seeds a.pool_pda.key (derive_vault_authority rt program_id a.pool_pda.key).1
              ∷ [])
            w₁ w' a.deposit_pda.key h (rw (apart.vault_apart, apart.ata_apart) refl)
          ∙ laws.invoke_signed_frame
              (burn a.token_program.key a.user_lp_ata.key a.lp_mint.key a.user.key lp) [] w w₁
              a.deposit_pda.key burned (rw (apart.lp_ata_apart, apart.mint_apart) refl)

  -- The two invocations that move the tokens.
  move_withdraw_invocations :
      (a : WithdrawAccounts) (lp paid : ℕ) (w w' : World D)
      → move_withdraw rt program_id a lp paid w ≡ ok w'
      → (w₁ : World D) × (rt.invoke_signed
            (burn a.token_program.key a.user_lp_ata.key a.lp_mint.key a.user.key lp)
            []
            w
          ≡ ok w₁)
        × (rt.invoke_signed
              (token_transfer a.token_program.key a.vault.key a.user_ata.key a.vault_auth.key paid)
              (vault_auth_seeds a.pool_pda.key
                  (derive_vault_authority rt program_id a.pool_pda.key).1
                ∷ [])
              w₁
            ≡ ok w')
  unfolding move_withdraw invoke
  move_withdraw_invocations a lp paid w w' h =
      bind_ok
        (rt.invoke_signed (burn a.token_program.key a.user_lp_ata.key a.lp_mint.key a.user.key lp)
          [] w)
        h λ w₁ burned h. (w₁, burned, h)

  record_withdraw_world :
      (a : WithdrawAccounts) (lp : ℕ) (p : StakePool) (w w' : World D)
      → record_withdraw rt program_id a lp p w ≡ ok w'
      → w'
        ≡ store_pool rt a.pool_pda.key p
            (store_deposit rt a.deposit_pda.key (lower (deposit_at rt w a.deposit_pda.key) lp) w)
  unfolding record_withdraw
  record_withdraw_world a lp p w w' h = bind_ok (load_deposit rt w a.deposit_pda.key) h λ d d_eq h.
      option_ok (checked_sub d.lp_amount lp) insufficient_lp_tokens h λ left left_eq h.
        same_ok (ok w') refl (sym h)
        ∙ ap
            (λ (x : StakeDeposit).
              store_pool rt a.pool_pda.key p (store_deposit rt a.deposit_pda.key x w))
            (lower_of_checked d lp left left_eq
              ∙ ap (λ (x : StakeDeposit). lower x lp)
                  (load_deposit-deposit_at rt w a.deposit_pda.key d d_eq))

  -- The last step writes the pool that it is given, and takes the tokens off the record.
  record_withdraw_writes :
      (a : WithdrawAccounts) (lp : ℕ) (p : StakePool) (w w' : World D)
      → IsPool p
      → (a.deposit_pda.key == a.pool_pda.key) ≡ false
      → record_withdraw rt program_id a lp p w ≡ ok w'
      → (pool_at rt w' a.pool_pda.key ≡ p)
        × (deposit_at rt w' a.deposit_pda.key ≡ lower (deposit_at rt w a.deposit_pda.key) lp)
  unfolding record_withdraw
  record_withdraw_writes a lp p w w' v apart h =
      bind_ok (load_deposit rt w a.deposit_pda.key) h λ d d_eq h.
        option_ok (checked_sub d.lp_amount lp) insufficient_lp_tokens h λ left left_eq h.
          let read : d ≡ deposit_at rt w a.deposit_pda.key =
            load_deposit-deposit_at rt w a.deposit_pda.key d d_eq in
          let lowered : record d { lp_amount = left } ≡ lower d lp =
            lower_of_checked d lp left left_eq in
          let (pool_read, deposit_read) =
            stores_read rt laws w w' a.pool_pda.key a.deposit_pda.key p
              (record d { lp_amount = left }) v
              (rw (lowered, read) (lower-IsDeposit _ lp (laws.deposit_of-IsDeposit _))) apart h in
          (pool_read, deposit_read ∙ lowered ∙ ap (λ (x : StakeDeposit). lower x lp) read)

  -- What a withdrawal of `lp` tokens does: it burns the user's tokens and sends the payout from the
  -- pool's vault to the user's account, and then writes the pool and the record and nothing else. The
  -- payout is what the pool's formula gives and not nothing, the pool and the record are debited, and
  -- the pool is worth less by exactly the payout.
  pub record Withdrawn (a : WithdrawAccounts) (lp : ℕ) (w w' : World D) : Type 0 where
    pub paid : ℕ
    pub value : ℕ
    pub price : calc_collateral_for_withdraw (pool_at rt w a.pool_pda.key) lp ≡ some paid
    pub some_paid : 0 < paid
    pub worth : total_pool_value (pool_at rt w a.pool_pda.key) ≡ some value
    pub within : paid ≤ value
    pub left : total_pool_value (pool_at rt w' a.pool_pda.key) ≡ some (value - paid)
    pub debited : Debited (pool_at rt w a.pool_pda.key) (pool_at rt w' a.pool_pda.key) paid lp
    pub taken : deposit_at rt w' a.deposit_pda.key ≡ lower (deposit_at rt w a.deposit_pda.key) lp
    pub held : lp ≤ (deposit_at rt w a.deposit_pda.key).lp_amount
    pub own_vault : (pool_at rt w a.pool_pda.key).vault ≡ a.vault.key
    pub own_mint : (pool_at rt w a.pool_pda.key).lp_mint ≡ a.lp_mint.key
    pub burned : World D
    pub moved : World D
    pub burns :
        rt.invoke_signed
          (burn a.token_program.key a.user_lp_ata.key a.lp_mint.key a.user.key lp)
          []
          w
        ≡ ok burned
    pub pays :
        rt.invoke_signed
          (token_transfer a.token_program.key a.vault.key a.user_ata.key a.vault_auth.key paid)
          (vault_auth_seeds a.pool_pda.key (derive_vault_authority rt program_id a.pool_pda.key).1
            ∷ [])
          burned
        ≡ ok moved
    pub books :
        w'
        ≡ store_pool rt a.pool_pda.key
            (pool_at rt w' a.pool_pda.key)
            (store_deposit rt a.deposit_pda.key (deposit_at rt w' a.deposit_pda.key) moved)

  pub WithdrawRun-Withdrawn :
      (accounts : List AccountInfo) (lp : ℕ) (w w' : World D)
      (r : WithdrawRun rt program_id accounts lp w w')
      → Apart r.a
      → Withdrawn r.a lp w w'
  WithdrawRun-Withdrawn accounts lp w w' r apart =
      let read : r.pool ≡ pool_at rt w r.a.pool_pda.key =
        load_pool-pool_at rt w r.a.pool_pda.key r.pool r.pool_eq in
      let typed : IsPool r.pool = rw read (laws.pool_of-IsPool (w r.a.pool_pda.key).contents) in
      let debit : Debited r.pool r.debited r.paid lp =
        debit_pool-Debited r.pool r.marked r.debited r.paid lp r.clock typed r.marked_eq
          r.debited_eq in
      let (pool_read, deposit_read) =
        record_withdraw_writes r.a lp r.debited r.moved w' debit.typed r.apart r.recorded_eq in
      let (value, worth, within, left) =
        Debited-value r.pool r.debited r.paid lp typed debit r.paid_eq in
      let kept : deposit_at rt r.moved r.a.deposit_pda.key ≡ deposit_at rt w r.a.deposit_pda.key =
        ap rt.deposit_of (move_withdraw_frame r.a lp r.paid w r.moved apart r.moved_eq) in
      let position =
        check_position-Position r.deposit r.a.user.key r.a.pool_pda.key lp r.clock.slot
          r.pool.cooldown_slots
          (laws.clock_fits r.a.clock_sysvar.key (w r.a.clock_sysvar.key).contents r.clock
            r.clock_eq).0
          r.position in
      let (burned, burns, pays) = move_withdraw_invocations r.a lp r.paid w r.moved r.moved_eq in
      let accounts_of = check_withdraw-own rt program_id r.a r.pool w r.checked in
      record {
        paid = r.paid;
        value = value;
        price = rw (sym read) r.paid_eq;
        some_paid = ground (arith, r.some_paid);
        worth = rw (sym read) worth;
        within = within;
        left = rw pool_read left;
        debited =
            subst (λ (p : StakePool). Debited p (pool_at rt w' r.a.pool_pda.key) r.paid lp) read
              (subst (λ (q : StakePool). Debited r.pool q r.paid lp) (sym pool_read) debit);
        taken = deposit_read ∙ ap (λ (x : StakeDeposit). lower x lp) kept;
        held =
            subst (λ (d : StakeDeposit). lp ≤ d.lp_amount)
              (load_deposit-deposit_at rt w r.a.deposit_pda.key r.deposit r.deposit_eq) position.4;
        own_vault = ap (λ (p : StakePool). p.vault) (sym read) ∙ accounts_of.0;
        own_mint = ap (λ (p : StakePool). p.lp_mint) (sym read) ∙ accounts_of.1;
        burned = burned;
        moved = r.moved;
        burns = burns;
        pays = pays;
        books =
            record_withdraw_world r.a lp r.debited r.moved w' r.recorded_eq
            ∙ ap
                (λ (p : StakePool). store_pool rt r.a.pool_pda.key p (
                  store_deposit rt r.a.deposit_pda.key
                    (lower (deposit_at rt r.moved r.a.deposit_pda.key) lp) r.moved))
                (sym pool_read)
            ∙ ap
                (λ (d : StakeDeposit).
                  store_pool rt r.a.pool_pda.key (pool_at rt w' r.a.pool_pda.key)
                    (store_deposit rt r.a.deposit_pda.key d r.moved))
                (sym deposit_read);
      }

  -- A successful withdrawal from a user's record that lies apart from the token accounts burns the
  -- user's tokens of the pool's mint, no more than the record holds, and then transfers from the
  -- pool's own vault to the user's account what the pool's formula gives, and never nothing. Besides
  -- these two invocations it only writes the pool and the record: both are debited, and the pool's
  -- value falls by exactly the payout.
  pub process_withdraw-Withdrawn :
      (accounts : List AccountInfo) (lp : ℕ) (w w' : World D) (a : WithdrawAccounts)
      → withdraw_accounts accounts ≡ ok a
      → Apart a
      → process_withdraw rt program_id accounts lp w ≡ ok w'
      → Withdrawn a lp w w'
  process_withdraw-Withdrawn accounts lp w w' a named apart h =
      let r : WithdrawRun rt program_id accounts lp w w' =
        process_withdraw-WithdrawRun rt program_id accounts lp w w' h in
      let same : r.a ≡ a = same_ok (withdraw_accounts accounts) r.accounts_eq named in
      subst (λ (b : WithdrawAccounts). Withdrawn b lp w w') same
        (WithdrawRun-Withdrawn accounts lp w w' r (rw same apart))
