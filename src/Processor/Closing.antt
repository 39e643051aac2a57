-- ===== src/Processor/Closing.antt =====
-- What the admin's handlers of src/processor.rs forbid: the retired settings, and deposits after
-- the resolution of the market.
use percolator_vault.Base.{subst, ℕ, ◌≡◌, refl, sym, ap, ◌∙◌, true, false, List, arith}
use percolator_vault.Error.{ok, same_ok, bind_ok}
use percolator_vault.State.{StakePool, IsPool, is_resolved, set_resolved}
use percolator_vault.State.Packed.{Packed, packed}
use percolator_vault.State.Reserved.{set_resolved-packed, set_resolved-IsReserved}
use percolator_vault.Runtime.{Pubkey, AccountInfo, World, Runtime, load_pool, store_pool}
use percolator_vault.Runtime.Laws.{RuntimeLaws}
use percolator_vault.Runtime.Store.{pool_at, load_pool-pool_at, pool_at-store_pool}
use percolator_vault.Pda.{pool_seeds}
use percolator_vault.Cpi.{cpi_set_risk_threshold, cpi_set_maintenance_fee, cpi_resolve_market}
use percolator_vault.Processor.Common.{validate_admin_cpi}
use percolator_vault.Processor.Admin.{
  AdminAccounts, admin_accounts, process_admin_set_risk_threshold,
  process_admin_set_maintenance_fee, process_admin_resolve_market,
}
use percolator_vault.Processor.Deposit.{
  DepositAccounts, deposit_accounts, check_deposit, process_deposit,
}
use percolator_vault.Processor.Deposit.Run.{DepositRun, process_deposit-DepositRun}

pub resolved_lem : (p : StakePool) → is_resolved p ≡ (packed p).resolved
unfolding is_resolved packed
resolved_lem p = refl

pub set_resolved-IsPool : (p : StakePool) → IsPool p → IsPool (set_resolved p)
unfolding set_resolved
set_resolved-IsPool p v =
    ground (arith, set_resolved-IsReserved p (v.reserved_length, v.reserved_bytes))

pub set_resolved-resolves : (p : StakePool) → IsPool p → is_resolved (set_resolved p) ≡ true
set_resolved-resolves p v =
    resolved_lem (set_resolved p)
    ∙ ap (λ (b : Packed). b.resolved) (set_resolved-packed p (v.reserved_length, v.reserved_bytes))

module _ {D : Type 0} (rt : Runtime D) (program_id : Pubkey) where
  -- The risk threshold has no live counterpart: whatever the accounts and the world, its handler
  -- never succeeds.
  pub process_admin_set_risk_threshold_never :
      (accounts : List AccountInfo) (threshold : ℕ) (w w' : World D)
      → ¬ (process_admin_set_risk_threshold rt program_id accounts threshold w ≡ ok w')
  unfolding process_admin_set_risk_threshold cpi_set_risk_threshold
  process_admin_set_risk_threshold_never accounts threshold w w' h =
      bind_ok (admin_accounts accounts) h λ a _ h.
        bind_ok
          (validate_admin_cpi rt program_id a.0.pool_pda a.0.admin a.0.slab a.0.percolator_program
            w)
          h λ bump _ h. cc

  -- The maintenance fee has no live counterpart either: whatever the accounts and the world, its
  -- handler never succeeds.
  pub process_admin_set_maintenance_fee_never :
      (accounts : List AccountInfo) (fee : ℕ) (w w' : World D)
      → ¬ (process_admin_set_maintenance_fee rt program_id accounts fee w ≡ ok w')
  unfolding process_admin_set_maintenance_fee cpi_set_maintenance_fee
  process_admin_set_maintenance_fee_never accounts fee w w' h =
      bind_ok (admin_accounts accounts) h λ a _ h.
        bind_ok
          (validate_admin_cpi rt program_id a.0.pool_pda a.0.admin a.0.slab a.0.percolator_program
            w)
          h λ bump _ h. cc

  pub check_deposit-open :
      (a : DepositAccounts) (amount : ℕ) (p : StakePool)
      → check_deposit rt program_id a amount p ≡ ok tt
      → is_resolved p ≡ false
  unfolding check_deposit
  check_deposit-open a amount p h = ground arith

  -- A pool whose market is resolved takes no deposit.
  pub process_deposit-is_resolved :
      (accounts : List AccountInfo) (amount : ℕ) (w w' : World D) (a : DepositAccounts)
      → deposit_accounts accounts ≡ ok a
      → is_resolved (pool_at rt w a.pool_pda.key) ≡ true
      → ¬ (process_deposit rt program_id accounts amount w ≡ ok w')
  process_deposit-is_resolved accounts amount w w' a named resolved h =
      let r : DepositRun rt program_id accounts amount w w' =
        process_deposit-DepositRun rt program_id accounts amount w w' h in
      let same : r.a ≡ a = same_ok (deposit_accounts accounts) r.accounts_eq named in
      let open_pool : is_resolved (pool_at rt w r.a.pool_pda.key) ≡ false =
        subst (λ (p : StakePool). is_resolved p ≡ false)
          (load_pool-pool_at rt w r.a.pool_pda.key r.pool r.pool_eq)
          (check_deposit-open r.a amount r.pool r.checked) in
      let open_named : is_resolved (pool_at rt w a.pool_pda.key) ≡ false =
        subst (λ (b : DepositAccounts). is_resolved (pool_at rt w b.pool_pda.key) ≡ false) same
          open_pool in
      cc

  module _ (laws : RuntimeLaws rt) where
    store_resolves :
        (w w' : World D) (key : Pubkey) (p : StakePool)
        → load_pool rt w key ≡ ok p
        → ok (store_pool rt key (set_resolved p) w) ≡ ok w'
        → is_resolved (pool_at rt w' key) ≡ true
    store_resolves w w' key p read h =
        let typed : IsPool p =
          rw (load_pool-pool_at rt w key p read) (laws.pool_of-IsPool (w key).contents) in
        subst (λ (s : World D). is_resolved (pool_at rt s key) ≡ true)
          (same_ok (ok w') (sym h) refl)
          (rw (pool_at-store_pool rt laws w key (set_resolved p) (set_resolved-IsPool p typed))
            (set_resolved-resolves p typed))

    -- A successful resolution leaves the pool resolved.
    pub process_admin_resolve_market-resolves :
        (accounts : List AccountInfo) (w w' : World D) (a : AdminAccounts) (rest : List AccountInfo)
        → admin_accounts accounts ≡ ok (a, rest)
        → process_admin_resolve_market rt program_id accounts w ≡ ok w'
        → is_resolved (pool_at rt w' a.pool_pda.key) ≡ true
    unfolding process_admin_resolve_market
    process_admin_resolve_market-resolves accounts w w' a rest named h =
        bind_ok (admin_accounts accounts) h λ b b_eq h.
          bind_ok
            (validate_admin_cpi rt program_id b.0.pool_pda b.0.admin b.0.slab b.0.percolator_program
              w)
            h
            λ bump _ h.
              bind_ok
                (cpi_resolve_market rt b.0.percolator_program b.0.pool_pda b.0.slab
                  (pool_seeds b.0.slab.key bump) w)
                h
                λ w₁ _ h. bind_ok (load_pool rt w₁ b.0.pool_pda.key) h λ p read h.
                  subst
                    (λ (c : AdminAccounts × List AccountInfo).
                      is_resolved (pool_at rt w' c.0.pool_pda.key) ≡ true)
                    (same_ok (admin_accounts accounts) b_eq named)
                    (store_resolves w₁ w' b.0.pool_pda.key p read h)

    -- In the world that a successful resolution of the market leaves, no deposit of any size into its
    -- pool succeeds.
    pub process_deposit-process_admin_resolve_market :
        (accounts accounts' : List AccountInfo) (amount : ℕ) (w w' w'' : World D)
        (a : AdminAccounts) (rest : List AccountInfo) (a' : DepositAccounts)
        → admin_accounts accounts ≡ ok (a, rest)
        → process_admin_resolve_market rt program_id accounts w ≡ ok w'
        → deposit_accounts accounts' ≡ ok a'
        → a'.pool_pda.key ≡ a.pool_pda.key
        → ¬ (process_deposit rt program_id accounts' amount w' ≡ ok w'')
    process_deposit-process_admin_resolve_market accounts accounts' amount w w' w'' a rest a' named
          h named' same =
        process_deposit-is_resolved accounts' amount w' w'' a' named' (
          subst (λ (k : Pubkey). is_resolved (pool_at rt w' k) ≡ true) (sym same)
            (process_admin_resolve_market-resolves accounts w w' a rest named h))
