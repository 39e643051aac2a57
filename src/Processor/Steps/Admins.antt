-- ===== src/Processor/Steps/Admins.antt =====
-- The handlers of src/processor.rs that forward an admin's wish, on an account of the program that
-- holds a pool.
use percolator_vault.Base.{subst, ℕ, ◌≡◌, refl, ◌||◌, not, List, ◌==◌, arith}
use percolator_vault.Error.{
  ok, guard_ok, bind_ok, missing_required_signature, not_initialized, unauthorized,
  admin_already_transferred, invalid_pda, invalid_account, invalid_percolator_program,
  invalid_instruction_data, from_stake_error,
}
use percolator_vault.State.{StakePool, IsPool, set_resolved}
use percolator_vault.Runtime.{Pubkey, AccountInfo, World, Runtime, next_account_info, load_pool}
use percolator_vault.Runtime.Laws.{RuntimeLaws}
use percolator_vault.Runtime.Owned.{OwnedLaws, Held, Foreign, calls}
use percolator_vault.Runtime.Store.{pool_at, load_pool-pool_at}
use percolator_vault.Pda.{derive_pool_pda, pool_seeds}
use percolator_vault.Cpi.{
  cpi_update_authority, cpi_update_asset_authority, cpi_resolve_market,
  update_authority_instruction, update_asset_authority_instruction, resolve_market_instruction,
}
use percolator_vault.Ledger.{Move, hands_over, resolves}
use percolator_vault.Processor.Common.{validate_admin_cpi, validate_vault_insurance_authority}
use percolator_vault.Processor.Admin.{
  AdminAccounts, admin_accounts, process_transfer_admin, process_admin_set_oracle_authority,
  process_admin_resolve_market, process_admin_set_insurance_policy,
}
use percolator_vault.Processor.Closing.{set_resolved-IsPool, set_resolved-resolves}
use percolator_vault.Processor.Steps.{Carries, stored-Carries, Untouched-Carries}
use percolator_vault.Processor.Steps.Frames.{admin_accounts-Foreign, invoked-Untouched}

resolved-Move : (p : StakePool) → IsPool p → Move p (set_resolved p)
unfolding set_resolved
resolved-Move p v = resolves (set_resolved-resolves p v) refl

handed_over-IsPool : (p : StakePool) → IsPool p → IsPool (record p { admin_transferred = 1 })
handed_over-IsPool p v = ground arith

module _ {D : Type 0} (rt : Runtime D) (laws : RuntimeLaws rt) (program_id : Pubkey)
    (owned : OwnedLaws rt program_id) (k : Pubkey) (accounts : List AccountInfo) (w w' : World D)
    (foreign : Foreign program_id accounts) (held : Held rt program_id w k) where
  pub process_transfer_admin-Carries :
      process_transfer_admin rt program_id accounts w ≡ ok w'
      → Carries rt laws program_id owned k w w'
  unfolding process_transfer_admin cpi_update_authority update_authority_instruction calls
  process_transfer_admin-Carries h = bind_ok (admin_accounts accounts) h λ b b_eq h.
      let a : AdminAccounts = b.0 in
      guard_ok (not a.admin.is_signer) missing_required_signature h λ _ h.
        guard_ok (not (a.pool_pda.key == (derive_pool_pda rt program_id a.slab.key).0))
          (from_stake_error invalid_pda) h
          λ _ h. bind_ok (load_pool rt w a.pool_pda.key) h λ p _ h.
            guard_ok (not (p.is_initialized == 1)) (from_stake_error not_initialized) h λ _ h.
              guard_ok (not (p.admin == a.admin.key)) (from_stake_error unauthorized) h λ _ h.
                guard_ok (p.admin_transferred == 1) (from_stake_error admin_already_transferred) h
                  λ _ h.
                    guard_ok (not (p.slab == a.slab.key)) (from_stake_error invalid_pda) h λ _ h.
                      guard_ok (not (p.percolator_program == a.percolator_program.key))
                        (from_stake_error invalid_percolator_program) h
                        λ _ h.
                          bind_ok
                            (cpi_update_authority rt a.percolator_program a.admin a.pool_pda a.slab
                              (pool_seeds a.slab.key (derive_pool_pda rt program_id a.slab.key).1)
                              w)
                            h
                            λ w₁ called h. bind_ok (load_pool rt w₁ a.pool_pda.key) h λ p₁ read₁ h.
                              let spared =
                                invoked-Untouched rt program_id owned k _ _ w w₁
                                  (admin_accounts-Foreign program_id accounts b foreign b_eq) held
                                  called in
                              let read_at₁ : p₁ ≡ pool_at rt w₁ a.pool_pda.key =
                                load_pool-pool_at rt w₁ a.pool_pda.key p₁ read₁ in
                              stored-Carries rt laws program_id owned k w w₁ w₁ w' a.pool_pda.key
                                (record p₁ { admin_transferred = 1 }) held spared spared
                                (handed_over-IsPool p₁
                                  (rw read_at₁ (laws.pool_of-IsPool (w₁ a.pool_pda.key).contents)))
                                (subst
                                  (λ (q : StakePool). Move q (record p₁ { admin_transferred = 1 }))
                                  read_at₁ (hands_over refl))
                                h

  pub process_admin_resolve_market-Carries :
      process_admin_resolve_market rt program_id accounts w ≡ ok w'
      → Carries rt laws program_id owned k w w'
  unfolding process_admin_resolve_market cpi_resolve_market resolve_market_instruction calls
  process_admin_resolve_market-Carries h = bind_ok (admin_accounts accounts) h λ b b_eq h.
      let a : AdminAccounts = b.0 in
      bind_ok (validate_admin_cpi rt program_id a.pool_pda a.admin a.slab a.percolator_program w) h
        λ bump _ h.
          bind_ok
            (cpi_resolve_market rt a.percolator_program a.pool_pda a.slab
              (pool_seeds a.slab.key bump) w)
            h
            λ w₁ called h. bind_ok (load_pool rt w₁ a.pool_pda.key) h λ p read h.
              let spared =
                invoked-Untouched rt program_id owned k _ _ w w₁
                  (admin_accounts-Foreign program_id accounts b foreign b_eq) held called in
              let read_at : p ≡ pool_at rt w₁ a.pool_pda.key =
                load_pool-pool_at rt w₁ a.pool_pda.key p read in
              let v : IsPool p = rw read_at (laws.pool_of-IsPool (w₁ a.pool_pda.key).contents) in
              stored-Carries rt laws program_id owned k w w₁ w₁ w' a.pool_pda.key (set_resolved p)
                held spared spared (set_resolved-IsPool p v)
                (subst (λ (q : StakePool). Move q (set_resolved p)) read_at (resolved-Move p v)) h

  pub process_admin_set_oracle_authority-Carries :
      (key : Pubkey)
      → process_admin_set_oracle_authority rt program_id accounts key w ≡ ok w'
      → Carries rt laws program_id owned k w w'
  unfolding process_admin_set_oracle_authority cpi_update_asset_authority
      update_asset_authority_instruction calls
  process_admin_set_oracle_authority-Carries key h = bind_ok (admin_accounts accounts) h λ b b_eq h.
      let a : AdminAccounts = b.0 in
      bind_ok (next_account_info b.1) h λ n _ h.
        guard_ok (not (n.0.key == key)) (from_stake_error invalid_account) h λ _ h.
          guard_ok (not n.0.is_signer) missing_required_signature h λ _ h.
            bind_ok
              (validate_admin_cpi rt program_id a.pool_pda a.admin a.slab a.percolator_program w) h
              λ bump _ h. Untouched-Carries rt laws program_id owned k w w' held (
                invoked-Untouched rt program_id owned k _ _ w w'
                  (admin_accounts-Foreign program_id accounts b foreign b_eq) held h)

  pub process_admin_set_insurance_policy-Carries :
      (key : Pubkey) (base bps cooldown : ℕ)
      → process_admin_set_insurance_policy rt program_id accounts key base bps cooldown w ≡ ok w'
      → Carries rt laws program_id owned k w w'
  unfolding process_admin_set_insurance_policy cpi_update_asset_authority
      update_asset_authority_instruction calls
  process_admin_set_insurance_policy-Carries key base bps cooldown h =
      bind_ok (admin_accounts accounts) h λ b b_eq h.
        let a : AdminAccounts = b.0 in
        bind_ok (next_account_info b.1) h λ n _ h.
          bind_ok (validate_vault_insurance_authority rt program_id a.pool_pda.key n.0.key key) h
            λ vault_bump _ h.
              guard_ok (not (base == 0) || not (bps == 0) || not (cooldown == 0))
                invalid_instruction_data h
                λ _ h.
                  bind_ok
                    (validate_admin_cpi rt program_id a.pool_pda a.admin a.slab a.percolator_program
                      w)
                    h
                    λ bump _ h. Untouched-Carries rt laws program_id owned k w w' held (
                      invoked-Untouched rt program_id owned k _ _ w w'
                        (admin_accounts-Foreign program_id accounts b foreign b_eq) held h)
