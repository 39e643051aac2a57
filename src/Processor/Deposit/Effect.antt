-- ===== src/Processor/Deposit/Effect.antt =====
-- What a successful `process_deposit` (src/processor.rs) leaves in the pool's account and in the
-- depositor's.
use percolator_vault.Base.{
  subst, ℕ, ◌+◌, ◌<◌, ◌≡◌, refl, sym, ap, ◌∙◌, List, [], ◌∷◌, some, ◌==◌, arith,
}
use percolator_vault.Base.Word.{IsU64}
use percolator_vault.Error.{ok, same_ok, guard_ok, bind_ok, account_borrow_failed}
use percolator_vault.State.{StakePool, IsPool, total_pool_value, calc_lp_for_deposit}
use percolator_vault.State.Value.{inflow}
use percolator_vault.Runtime.{
  Pubkey, AccountInfo, World, Runtime, Clock, load_deposit, store_deposit, token_transfer, mint_to,
  invoke,
}
use percolator_vault.Runtime.Laws.{RuntimeLaws}
use percolator_vault.Runtime.Store.{pool_at, load_pool-pool_at, pool_at-store_pool}
use percolator_vault.Pda.{derive_deposit_pda, derive_vault_authority, vault_auth_seeds}
use percolator_vault.Processor.Common.{verify_token_program}
use percolator_vault.Processor.Deposit.{
  DepositAccounts, deposit_accounts, check_deposit, check_deposit_cap, move_deposit, mark_deposit,
  record_deposit, top_up_deposit, process_deposit,
}
use percolator_vault.Processor.Deposit.Run.{DepositRun, process_deposit-DepositRun}
use percolator_vault.Processor.Deposit.Books.{Credited, mark_deposit-Credited, Credited-value}

module _ {D : Type 0} (rt : Runtime D) (laws : RuntimeLaws rt) (program_id : Pubkey) where
  -- The last step writes the pool that it is given.
  record_deposit-pool_at :
      (a : DepositAccounts) (lp : ℕ) (clock : Clock) (p : StakePool) (w w' : World D)
      → IsPool p
      → record_deposit rt program_id a lp clock p w ≡ ok w'
      → pool_at rt w' a.pool_pda.key ≡ p
  unfolding record_deposit
  record_deposit-pool_at a lp clock p w w' v h =
      guard_ok (a.deposit_pda.key == a.pool_pda.key) account_borrow_failed h λ apart h.
        bind_ok (load_deposit rt w a.deposit_pda.key) h λ d d_eq h.
          bind_ok
            (top_up_deposit d (derive_deposit_pda rt program_id a.pool_pda.key a.user.key).1
              a.pool_pda.key a.user.key lp clock.slot p.cooldown_slots)
            h
            λ d' d'_eq h. rw (sym (same_ok _ refl h)) (
              pool_at-store_pool rt laws (store_deposit rt a.deposit_pda.key d' w) a.pool_pda.key p
                v)

  Deposited : (a : DepositAccounts) (amount : ℕ) (w w' : World D) → Type 0
  Deposited a amount w w' =
      (lp : ℕ) × (calc_lp_for_deposit (pool_at rt w a.pool_pda.key) amount ≡ some lp)
      × (0 < lp)
      × Credited (pool_at rt w a.pool_pda.key) (pool_at rt w' a.pool_pda.key) amount lp

  DepositRun-Deposited :
      (accounts : List AccountInfo) (amount : ℕ) (w w' : World D)
      (r : DepositRun rt program_id accounts amount w w')
      → Deposited r.a amount w w'
  unfolding Deposited
  DepositRun-Deposited accounts amount w w' r =
      let read : r.pool ≡ pool_at rt w r.a.pool_pda.key =
        load_pool-pool_at rt w r.a.pool_pda.key r.pool r.pool_eq in
      let credit : Credited r.pool (mark_deposit r.credited r.clock) amount r.lp =
        mark_deposit-Credited r.pool r.credited amount r.lp r.clock
          (rw read (laws.pool_of-IsPool (w r.a.pool_pda.key).contents)) r.credited_eq in
      let written : pool_at rt w' r.a.pool_pda.key ≡ mark_deposit r.credited r.clock =
        record_deposit-pool_at r.a r.lp r.clock (mark_deposit r.credited r.clock) r.opened w'
          credit.typed r.recorded_eq in
      (
        r.lp,
        rw (sym read) r.lp_eq,
        (ground (arith, r.some_lp)),
        subst (λ (p : StakePool). Credited p (pool_at rt w' r.a.pool_pda.key) amount r.lp) read
            (subst (λ (q : StakePool). Credited r.pool q amount r.lp) (sym written) credit),
      )

  move_deposit_invocations :
      (a : DepositAccounts) (amount lp : ℕ) (w w' : World D)
      → move_deposit rt program_id a amount lp w ≡ ok w'
      → (w₁ : World D) × (rt.invoke_signed
            (token_transfer a.token_program.key a.user_ata.key a.vault.key a.user.key amount)
            []
            w
          ≡ ok w₁)
        × (rt.invoke_signed
              (mint_to a.token_program.key a.lp_mint.key a.user_lp_ata.key a.vault_auth.key lp)
              (vault_auth_seeds a.pool_pda.key
                  (derive_vault_authority rt program_id a.pool_pda.key).1
                ∷ [])
              w₁
            ≡ ok w')
  unfolding move_deposit invoke
  move_deposit_invocations a amount lp w w' h =
      bind_ok
        (rt.invoke_signed
          (token_transfer a.token_program.key a.user_ata.key a.vault.key a.user.key amount) [] w)
        h λ w₁ sent h. (w₁, sent, h)

  check_deposit-own :
      (a : DepositAccounts) (amount : ℕ) (p : StakePool)
      → check_deposit rt program_id a amount p ≡ ok tt
      → (p.vault ≡ a.vault.key) × (p.lp_mint ≡ a.lp_mint.key)
  unfolding check_deposit check_deposit_cap verify_token_program
  check_deposit-own a amount p h = ground arith

  -- What a deposit does: it sends the collateral from the user's account to the pool's vault, mints
  -- what the pool's formula gives to the user's account, and credits the pool with both.
  pub record Minted (a : DepositAccounts) (amount : ℕ) (w w' : World D) : Type 0 where
    pub lp : ℕ
    pub price : calc_lp_for_deposit (pool_at rt w a.pool_pda.key) amount ≡ some lp
    pub some_amount : 0 < amount
    pub some_lp : 0 < lp
    pub own_vault : (pool_at rt w a.pool_pda.key).vault ≡ a.vault.key
    pub own_mint : (pool_at rt w a.pool_pda.key).lp_mint ≡ a.lp_mint.key
    pub sent : World D
    pub minted : World D
    pub sends :
        rt.invoke_signed
          (token_transfer a.token_program.key a.user_ata.key a.vault.key a.user.key amount)
          []
          w
        ≡ ok sent
    pub mints :
        rt.invoke_signed
          (mint_to a.token_program.key a.lp_mint.key a.user_lp_ata.key a.vault_auth.key lp)
          (vault_auth_seeds a.pool_pda.key (derive_vault_authority rt program_id a.pool_pda.key).1
            ∷ [])
          sent
        ≡ ok minted
    pub credited : Credited (pool_at rt w a.pool_pda.key) (pool_at rt w' a.pool_pda.key) amount lp

  DepositRun-Minted :
      (accounts : List AccountInfo) (amount : ℕ) (w w' : World D)
      (r : DepositRun rt program_id accounts amount w w')
      → Minted r.a amount w w'
  unfolding Deposited
  DepositRun-Minted accounts amount w w' r =
      let read : r.pool ≡ pool_at rt w r.a.pool_pda.key =
        load_pool-pool_at rt w r.a.pool_pda.key r.pool r.pool_eq in
      let (sent, sends, mints) = move_deposit_invocations r.a amount r.lp w r.moved r.moved_eq in
      let own = check_deposit-own r.a amount r.pool r.checked in
      let (lp, price, some_lp, credit) = DepositRun-Deposited accounts amount w w' r in
      let same : lp ≡ r.lp = ground (
        arith,
        price,
        subst (λ (p : StakePool). calc_lp_for_deposit p amount ≡ some r.lp) read r.lp_eq,
      ) in
      record {
        lp = r.lp;
        price = subst (λ (p : StakePool). calc_lp_for_deposit p amount ≡ some r.lp) read r.lp_eq;
        some_amount = ground (arith, r.some_amount);
        some_lp = ground (arith, r.some_lp);
        own_vault = ap (λ (p : StakePool). p.vault) (sym read) ∙ own.0;
        own_mint = ap (λ (p : StakePool). p.lp_mint) (sym read) ∙ own.1;
        sent = sent;
        minted = r.moved;
        sends = sends;
        mints = mints;
        credited =
            subst
              (λ (n : ℕ).
                Credited (pool_at rt w r.a.pool_pda.key) (pool_at rt w' r.a.pool_pda.key) amount n)
              same credit;
      }

  -- A successful deposit transfers the collateral from the user's account to the pool's own vault,
  -- mints to the user's account the tokens of the pool's mint that the pool's formula gives, at least
  -- one, and grows the pool's totals by the collateral and by those tokens; but for the totals and the
  -- reserved bytes the pool's record is as it was, and its fields still fit their types.
  pub process_deposit-Minted :
      (accounts : List AccountInfo) (amount : ℕ) (w w' : World D) (a : DepositAccounts)
      → deposit_accounts accounts ≡ ok a
      → process_deposit rt program_id accounts amount w ≡ ok w'
      → Minted a amount w w'
  process_deposit-Minted accounts amount w w' a named h =
      let r : DepositRun rt program_id accounts amount w w' =
        process_deposit-DepositRun rt program_id accounts amount w w' h in
      subst (λ (b : DepositAccounts). Minted b amount w w')
        (same_ok (deposit_accounts accounts) r.accounts_eq named)
        (DepositRun-Minted accounts amount w w' r)

  pub process_deposit-Credited :
      (accounts : List AccountInfo) (amount : ℕ) (w w' : World D) (a : DepositAccounts)
      → deposit_accounts accounts ≡ ok a
      → process_deposit rt program_id accounts amount w ≡ ok w'
      → (lp : ℕ) × (calc_lp_for_deposit (pool_at rt w a.pool_pda.key) amount ≡ some lp)
        × (0 < lp)
        × Credited (pool_at rt w a.pool_pda.key) (pool_at rt w' a.pool_pda.key) amount lp
  unfolding Deposited
  process_deposit-Credited accounts amount w w' a named h =
      let r : DepositRun rt program_id accounts amount w w' =
        process_deposit-DepositRun rt program_id accounts amount w w' h in
      subst (λ (b : DepositAccounts). Deposited b amount w w')
        (same_ok (deposit_accounts accounts) r.accounts_eq named)
        (DepositRun-Deposited accounts amount w w' r)

  -- A successful deposit into a pool whose value is computed raises that value by the collateral,
  -- as long as the pool's inflows with it fit a u64.
  pub process_deposit-value :
      (accounts : List AccountInfo) (amount v : ℕ) (w w' : World D) (a : DepositAccounts)
      → deposit_accounts accounts ≡ ok a
      → process_deposit rt program_id accounts amount w ≡ ok w'
      → total_pool_value (pool_at rt w a.pool_pda.key) ≡ some v
      → IsU64 (inflow (pool_at rt w a.pool_pda.key) + amount)
      → total_pool_value (pool_at rt w' a.pool_pda.key) ≡ some (v + amount)
  process_deposit-value accounts amount v w w' a named h worth fits =
      let (lp, _, _, c) = process_deposit-Credited accounts amount w w' a named h in
      Credited-value (pool_at rt w a.pool_pda.key) (pool_at rt w' a.pool_pda.key) amount lp v c
        worth fits
