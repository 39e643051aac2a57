-- ===== src/Processor/Steps/Insurance.antt =====
-- The two ways of collateral between vault and insurance fund, in src/processor.rs, on an account of
-- the program that holds a pool.
use percolator_vault.Base.{subst, ℕ, ◌≡◌, refl, sym, ap, ◌∙◌, false, not, List, some, ltb, ◌==◌}
use percolator_vault.Base.Word.{checked_add}
use percolator_vault.Error.{
  ok, guard_ok, bind_ok, option_ok, overflow, zero_amount, missing_required_signature,
  insufficient_funds, invalid_pda, invalid_argument, from_stake_error,
}
use percolator_vault.State.{StakePool, IsPool}
use percolator_vault.Runtime.{Pubkey, AccountInfo, World, Runtime, load_pool}
use percolator_vault.Runtime.Laws.{RuntimeLaws}
use percolator_vault.Runtime.Owned.{OwnedLaws, Held, Foreign, calls}
use percolator_vault.Runtime.Store.{pool_at, load_pool-pool_at}
use percolator_vault.Pda.{derive_vault_authority, vault_auth_seeds}
use percolator_vault.Cpi.{
  cpi_top_up_insurance, cpi_withdraw_insurance, top_up_insurance_instruction,
  withdraw_insurance_instruction,
}
use percolator_vault.Ledger.{Move, flushes, returns}
use percolator_vault.Processor.Common.{
  validate_admin_cpi, validate_withdraw_insurance_pool_mode, validate_return_vault,
  verify_token_program,
}
use percolator_vault.Processor.Flush.{
  flush_accounts, available_to_flush, check_flush, process_flush_to_insurance,
  withdraw_insurance_accounts, process_admin_withdraw_insurance,
}
use percolator_vault.Processor.Flushing.{
  available_room, flushed-IsPool, checked_add-sum, check_flush-admitted,
}
use percolator_vault.Processor.Returning.{mode_lem, returned-IsPool}
use percolator_vault.Processor.Steps.{Carries, stored-Carries, stored_own-Carries}
use percolator_vault.Processor.Steps.Frames.{
  flush_accounts-Foreign, withdraw_insurance_accounts-Foreign, invoked-Untouched,
}

flushed-Move :
    (p : StakePool) (amount available total : ℕ)
    → IsPool p
    → p.pool_mode ≡ 0
    → available_to_flush p ≡ some available
    → ltb available amount ≡ false
    → checked_add p.total_flushed amount ≡ some total
    → Move p (record p { total_flushed = total }) × IsPool (record p { total_flushed = total })
flushed-Move p amount available total v mode found room added =
    let (sum, fits) = checked_add-sum p.total_flushed amount total added in
    (
      flushes amount mode (available_room p available amount found room)
          (ap (λ (n : ℕ). record p { total_flushed = n }) sum),
      flushed-IsPool p total v fits,
    )

returned-Move :
    (p : StakePool) (amount total : ℕ)
    → IsPool p
    → p.pool_mode ≡ 0
    → checked_add p.total_returned amount ≡ some total
    → Move p (record p { total_returned = total }) × IsPool (record p { total_returned = total })
returned-Move p amount total v mode added =
    let (sum, fits) = checked_add-sum p.total_returned amount total added in
    (
      returns amount mode (ap (λ (n : ℕ). record p { total_returned = n }) sum),
      returned-IsPool p total v fits,
    )

module _ {D : Type 0} (rt : Runtime D) (laws : RuntimeLaws rt) (program_id : Pubkey)
    (owned : OwnedLaws rt program_id) (k : Pubkey) (accounts : List AccountInfo) (w w' : World D)
    (foreign : Foreign program_id accounts) (held : Held rt program_id w k) where
  -- Where the pool read before and after the invocation is the account's, it is one pool.
  own_return :
      (key : Pubkey) (p p₁ : StakePool) (w₁ : World D) (amount total : ℕ)
      → k ≡ key
      → p ≡ pool_at rt w key
      → p₁ ≡ pool_at rt w₁ key
      → pool_at rt w₁ k ≡ pool_at rt w k
      → IsPool p₁
      → p.pool_mode ≡ 0
      → checked_add p₁.total_returned amount ≡ some total
      → Move (pool_at rt w₁ k) (record p₁ { total_returned = total })
  own_return key p p₁ w₁ amount total e read read₁ kept v mode added =
      let same₁ : p₁ ≡ pool_at rt w₁ k = read₁ ∙ ap (λ (x : Pubkey). pool_at rt w₁ x) (sym e) in
      let same : p₁ ≡ p = same₁ ∙ kept ∙ ap (λ (x : Pubkey). pool_at rt w x) e ∙ sym read in
      subst (λ (q : StakePool). Move q (record p₁ { total_returned = total })) same₁
        (returned-Move p₁ amount total v
          (subst (λ (q : StakePool). q.pool_mode ≡ 0) (sym same) mode) added).0

  pub process_flush_to_insurance-Carries :
      (amount : ℕ)
      → process_flush_to_insurance rt program_id accounts amount w ≡ ok w'
      → Carries rt laws program_id owned k w w'
  unfolding process_flush_to_insurance cpi_top_up_insurance calls top_up_insurance_instruction
  process_flush_to_insurance-Carries amount h =
      guard_ok (amount == 0) (from_stake_error zero_amount) h λ some_amount h.
        bind_ok (flush_accounts accounts) h λ a a_eq h.
          guard_ok (not a.caller.is_signer) missing_required_signature h λ signed h.
            bind_ok (load_pool rt w a.pool_pda.key) h λ p read h.
              bind_ok (check_flush rt program_id a p) h λ _ checked h.
                option_ok (available_to_flush p) overflow h λ available found h.
                  guard_ok (ltb available amount) insufficient_funds h λ room h.
                    guard_ok
                      (not (
                        a.vault_auth.key
                        == (derive_vault_authority rt program_id a.pool_pda.key).0))
                      (from_stake_error invalid_pda) h
                      λ _ h.
                        bind_ok
                          (cpi_top_up_insurance rt a.percolator_program a.vault_auth a.slab a.vault
                            a.wrapper_vault a.token_program amount
                            (vault_auth_seeds a.pool_pda.key
                              (derive_vault_authority rt program_id a.pool_pda.key).1)
                            w)
                          h
                          λ w₁ called h.
                            option_ok (checked_add p.total_flushed amount) overflow h
                              λ total added h.
                                let read_at : p ≡ pool_at rt w a.pool_pda.key =
                                  load_pool-pool_at rt w a.pool_pda.key p read in
                                let (move, typed) =
                                  flushed-Move p amount available total
                                    (rw read_at (laws.pool_of-IsPool (w a.pool_pda.key).contents))
                                    (check_flush-admitted rt laws program_id a p checked).1 found
                                    room added in
                                stored-Carries rt laws program_id owned k w w w₁ w' a.pool_pda.key
                                  (record p { total_flushed = total }) held (refl, held.0)
                                  (invoked-Untouched rt program_id owned k _ _ w w₁
                                    (flush_accounts-Foreign program_id accounts a foreign a_eq) held
                                    called)
                                  typed
                                  (subst
                                    (λ (q : StakePool). Move q (record p { total_flushed = total }))
                                    read_at move)
                                  h

  pub process_admin_withdraw_insurance-Carries :
      (amount : ℕ)
      → process_admin_withdraw_insurance rt program_id accounts amount w ≡ ok w'
      → Carries rt laws program_id owned k w w'
  unfolding process_admin_withdraw_insurance cpi_withdraw_insurance calls
      withdraw_insurance_instruction
  process_admin_withdraw_insurance-Carries amount h =
      bind_ok (withdraw_insurance_accounts accounts) h λ a a_eq h.
        bind_ok (validate_admin_cpi rt program_id a.pool_pda a.admin a.slab a.percolator_program w)
          h
          λ bump _ h. bind_ok (load_pool rt w a.pool_pda.key) h λ p read h.
            bind_ok (validate_withdraw_insurance_pool_mode p) h λ _ mode h.
              bind_ok (validate_return_vault p a.stake_vault.key) h λ _ _ h.
                bind_ok (verify_token_program rt a.token_program) h λ _ _ h.
                  guard_ok
                    (not
                      (a.vault_auth.key == (derive_vault_authority rt program_id a.pool_pda.key).0))
                    invalid_argument h
                    λ _ h.
                      bind_ok
                        (cpi_withdraw_insurance rt a.percolator_program a.vault_auth a.slab
                          a.stake_vault a.wrapper_vault a.wrapper_vault_pda a.token_program amount
                          (vault_auth_seeds a.pool_pda.key
                            (derive_vault_authority rt program_id a.pool_pda.key).1)
                          w)
                        h
                        λ w₁ called h. bind_ok (load_pool rt w₁ a.pool_pda.key) h λ p₁ read₁ h.
                          option_ok (checked_add p₁.total_returned amount) overflow h
                            λ total added h.
                              let spared =
                                invoked-Untouched rt program_id owned k _ _ w w₁
                                  (withdraw_insurance_accounts-Foreign program_id accounts a foreign
                                    a_eq)
                                  held called in
                              let read_at : p ≡ pool_at rt w a.pool_pda.key =
                                load_pool-pool_at rt w a.pool_pda.key p read in
                              let read_at₁ : p₁ ≡ pool_at rt w₁ a.pool_pda.key =
                                load_pool-pool_at rt w₁ a.pool_pda.key p₁ read₁ in
                              let v : IsPool p₁ =
                                rw read_at₁ (laws.pool_of-IsPool (w₁ a.pool_pda.key).contents) in
                              let (sum, fits) =
                                checked_add-sum p₁.total_returned amount total added in
                              stored_own-Carries rt laws program_id owned k w w₁ w₁ w'
                                a.pool_pda.key (record p₁ { total_returned = total }) held spared
                                spared (returned-IsPool p₁ total v fits)
                                (λ e.
                                  own_return a.pool_pda.key p p₁ w₁ amount total e read_at read_at₁
                                    (ap rt.pool_of spared.0) v (mode_lem p mode) added)
                                h
