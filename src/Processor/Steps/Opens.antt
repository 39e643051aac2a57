-- ===== src/Processor/Steps/Opens.antt =====
-- `process_init_pool` and `process_init_trading_pool` of src/processor.rs on an account of the
-- program that already holds a pool: they open another one.
use percolator_vault.Base.{
  subst, ℕ, ◌≤◌, ◌≡◌, refl, sym, inl, inr, true, false, not, List, [], ◌∷◌, Bool-cases, none, ◌==◌,
  arith,
}
use percolator_vault.Error.{
  ok, same_ok, guard_ok, bind_ok, missing_required_signature, invalid_pda, already_initialized,
  from_stake_error,
}
use percolator_vault.State.{StakePool, stake_pool_size}
use percolator_vault.Runtime.{
  Pubkey, AccountInfo, World, Runtime, load_pool, store_pool, data_is_empty, initialize_mint,
}
use percolator_vault.Runtime.Laws.{RuntimeLaws}
use percolator_vault.Runtime.Owned.{OwnedLaws, Foreign, Held, calls, store_pool-Untouched}
use percolator_vault.Pda.{derive_pool_pda, derive_vault_authority, pool_seeds, vault_auth_seeds}
use percolator_vault.Cpi.{cpi_update_authority, update_authority_instruction}
use percolator_vault.Processor.Common.{create_or_adopt_pda}
use percolator_vault.Processor.Init.{
  InitAccounts, init_accounts, check_init, create_init, third_account, process_init_pool,
  process_init_trading_pool,
}
use percolator_vault.Processor.Steps.{Carries, Untouched-Carries}
use percolator_vault.Processor.Steps.Creation.{
  Spared, then-Untouched, create_or_adopt_pda-Untouched,
}
use percolator_vault.Processor.Steps.Frames.{
  init_accounts-Foreign, init_accounts-third_account, invoked-Untouched,
}

apart_of_size : (a b size : ℕ) → (a ≡ b → 352 ≤ size) → (size == 0) ≡ true → (a == b) ≡ false
apart_of_size a b size big empty = elim (Bool-cases (a == b)) [
  | inl same ↦ absurd (big_not a b size (big (eq_of a b same)) empty)
  | inr other ↦ other
]
  where
    eq_of : (a b : ℕ) → (a == b) ≡ true → a ≡ b
    eq_of a b h = ground arith

    big_not : (a b size : ℕ) → 352 ≤ size → (size == 0) ≡ true → ⊥
    big_not a b size h e = ground arith

module _ {D : Type 0} (rt : Runtime D) (program_id : Pubkey) where
  check_init-empty :
      (a : InitAccounts) (w : World D)
      → check_init rt program_id a w ≡ ok tt
      → (rt.data_len (w a.pool_pda.key).contents == 0) ≡ true
  unfolding check_init data_is_empty
  check_init-empty a w h = guard_ok (not a.admin.is_signer) missing_required_signature h λ _ h.
      guard_ok (not (a.pool_pda.key == (derive_pool_pda rt program_id a.slab.key).0))
        (from_stake_error invalid_pda) h
        λ _ h.
          guard_ok (not (data_is_empty rt w a.pool_pda.key)) (from_stake_error already_initialized)
            h λ e h. ground arith

  check_init-apart :
      (a : InitAccounts) (w : World D) (k : Pubkey)
      → Held rt program_id w k
      → check_init rt program_id a w ≡ ok tt
      → (k == a.pool_pda.key) ≡ false
  check_init-apart a w k held h =
      apart_of_size k a.pool_pda.key (rt.data_len (w a.pool_pda.key).contents)
        (λ e. subst (λ (x : Pubkey). stake_pool_size ≤ rt.data_len (w x).contents) e held.1)
        (check_init-empty a w h)

module _ {D : Type 0} (rt : Runtime D) (laws : RuntimeLaws rt) (program_id : Pubkey)
    (owned : OwnedLaws rt program_id) (k : Pubkey) where
  create_init-Untouched :
      (a : InitAccounts) (pool_bump vault_auth_bump : ℕ) (w w' : World D)
      → (a.percolator_program.key == program_id) ≡ false
      → Held rt program_id w k
      → create_init rt program_id a pool_bump vault_auth_bump w ≡ ok w'
      → Spared rt program_id owned k w w'
  unfolding create_init cpi_update_authority update_authority_instruction calls
  create_init-Untouched a pool_bump vault_auth_bump w w' other held h =
      bind_ok
        (create_or_adopt_pda rt a.pool_pda a.admin program_id stake_pool_size
          (pool_seeds a.slab.key pool_bump) w)
        h
        λ w₁ opened h.
          bind_ok
            (cpi_update_authority rt a.percolator_program a.admin a.pool_pda a.slab
              (pool_seeds a.slab.key pool_bump) w₁)
            h
            λ w₂ updated h.
              bind_ok
                (rt.invoke_signed
                  (initialize_mint a.token_program.key a.lp_mint.key a.vault_auth.key none 6)
                  (vault_auth_seeds a.pool_pda.key vault_auth_bump ∷ []) w₂)
                h
                λ w₃ minted h.
                  then-Untouched rt program_id owned k w w₁ w' held
                    (create_or_adopt_pda-Untouched rt program_id owned k _ _ _ _ _ w w₁ held opened)
                    (λ held₁.
                      then-Untouched rt program_id owned k w₁ w₂ w' held₁
                        (invoked-Untouched rt program_id owned k _ _ w₁ w₂ other held₁ updated)
                        (λ held₂.
                          then-Untouched rt program_id owned k w₂ w₃ w' held₂
                            (invoked-Untouched rt program_id owned k _ _ w₂ w₃ refl held₂ minted)
                            (λ held₃.
                              invoked-Untouched rt program_id owned k _ _ w₃ w' refl held₃ h)))

  stored-Untouched :
      (w w' : World D) (key : Pubkey) (p : StakePool)
      → (k == key) ≡ false
      → Held rt program_id w k
      → ok (store_pool rt key p w) ≡ ok w'
      → Spared rt program_id owned k w w'
  stored-Untouched w w' key p apart held h =
      subst (λ (s : World D). Spared rt program_id owned k w s) (same_ok (ok w') (sym h) refl)
        (store_pool-Untouched rt program_id w key k p apart held.0)

  opened-Untouched :
      (accounts : List AccountInfo) (cooldown cap : ℕ) (w w' : World D)
      → Foreign program_id accounts
      → Held rt program_id w k
      → process_init_pool rt program_id accounts cooldown cap w ≡ ok w'
      → Spared rt program_id owned k w w'
        × ((pool_ai : AccountInfo)
            → third_account rt program_id accounts ≡ ok pool_ai
            → (k == pool_ai.key) ≡ false)
  unfolding process_init_pool
  opened-Untouched accounts cooldown cap w w' foreign held h =
      bind_ok (init_accounts accounts) h λ a a_eq h.
        bind_ok (check_init rt program_id a w) h λ _ checked h.
          bind_ok
            (create_init rt program_id a (derive_pool_pda rt program_id a.slab.key).1
              (derive_vault_authority rt program_id (derive_pool_pda rt program_id a.slab.key).0).1
              w)
            h
            λ w₁ created h. bind_ok (load_pool rt w₁ a.pool_pda.key) h λ p _ h.
              let apart = check_init-apart rt program_id a w k held checked in
              (
                then-Untouched rt program_id owned k w w₁ w' held
                    (create_init-Untouched a _ _ w w₁
                      (init_accounts-Foreign program_id accounts a foreign a_eq) held created)
                    (λ held₁. stored-Untouched w₁ w' a.pool_pda.key _ apart held₁ h),
                λ pool_ai e.
                    subst (λ (i : AccountInfo). (k == i.key) ≡ false)
                      (same_ok (third_account rt program_id accounts)
                        (init_accounts-third_account rt program_id owned k accounts a a_eq) e)
                      apart,
              )

  pub process_init_pool-Carries :
      (accounts : List AccountInfo) (cooldown cap : ℕ) (w w' : World D)
      → Foreign program_id accounts
      → Held rt program_id w k
      → process_init_pool rt program_id accounts cooldown cap w ≡ ok w'
      → Carries rt laws program_id owned k w w'
  process_init_pool-Carries accounts cooldown cap w w' foreign held h =
      Untouched-Carries rt laws program_id owned k w w' held
        (opened-Untouched accounts cooldown cap w w' foreign held h).0

  pub process_init_trading_pool-Carries :
      (accounts : List AccountInfo) (cooldown cap : ℕ) (w w' : World D)
      → Foreign program_id accounts
      → Held rt program_id w k
      → process_init_trading_pool rt program_id accounts cooldown cap w ≡ ok w'
      → Carries rt laws program_id owned k w w'
  unfolding process_init_trading_pool
  process_init_trading_pool-Carries accounts cooldown cap w w' foreign held h =
      bind_ok (process_init_pool rt program_id accounts cooldown cap w) h λ w₁ opened h.
        bind_ok (third_account rt program_id accounts) h λ pool_ai named h.
          bind_ok (load_pool rt w₁ pool_ai.key) h λ p _ h.
            let (spared, apart) = opened-Untouched accounts cooldown cap w w₁ foreign held opened in
            Untouched-Carries rt laws program_id owned k w w' held (
              then-Untouched rt program_id owned k w w₁ w' held spared
                (λ held₁. stored-Untouched w₁ w' pool_ai.key _ (apart pool_ai named) held₁ h))
