-- ===== src/Processor/Returning.antt =====
-- What a successful `process_admin_withdraw_insurance` (src/processor.rs) has checked and booked.
use percolator_vault.Base.{
  subst, ℕ, ◌+◌, ◌≡◌, refl, sym, ap, ◌∙◌, not, true, false, List, [], ◌∷◌, some, ◌==◌, arith,
}
use percolator_vault.Base.Word.{IsU64, checked_add}
use percolator_vault.Error.{ok, same_ok, guard_ok, bind_ok, option_ok, overflow, invalid_argument}
use percolator_vault.State.{StakePool, IsPool}
use percolator_vault.Runtime.{Pubkey, AccountInfo, World, Runtime, wrapper, load_pool, store_pool}
use percolator_vault.Runtime.Laws.{RuntimeLaws, writes}
use percolator_vault.Runtime.Store.{pool_at, load_pool-pool_at, pool_at-store_pool}
use percolator_vault.Pda.{derive_vault_authority, derive_pool_pda, vault_auth_seeds}
use percolator_vault.Cpi.{
  cpi_withdraw_insurance, withdraw_insurance_instruction, push_u128_from_u64, readonly_meta,
  writable_meta,
}
use percolator_vault.Processor.Common.{
  validate_admin_cpi, validate_withdraw_insurance_pool_mode, validate_return_vault,
  verify_token_program,
}
use percolator_vault.Base.Bytes.{to_le_bytes}
use percolator_vault.Processor.Flushing.{checked_add-sum, stored_world}
use percolator_vault.Processor.Flush.{
  WithdrawInsuranceAccounts, withdraw_insurance_accounts, process_admin_withdraw_insurance,
}

-- The pool's account lies apart from those that the wrapper writes.
pub record PoolApart (a : WithdrawInsuranceAccounts) : Type 0 where
  pub slab_apart : (a.slab.key == a.pool_pda.key) ≡ false
  pub stake_vault_apart : (a.stake_vault.key == a.pool_pda.key) ≡ false
  pub wrapper_vault_apart : (a.wrapper_vault.key == a.pool_pda.key) ≡ false

-- What the checks of an admin's instruction say of the pool.
abbrev pub Administered : AccountInfo → AccountInfo → AccountInfo → StakePool → Type 0
Administered admin slab percolator_program p =
    (admin.is_signer ≡ true)
    × (p.is_initialized ≡ 1)
    × (p.admin ≡ admin.key)
    × (p.admin_transferred ≡ 1)
    × (p.slab ≡ slab.key)
    × (p.percolator_program ≡ percolator_program.key)

module _ {D : Type 0} (rt : Runtime D) (program_id : Pubkey) where
  -- The checks of an admin's instruction pass only for the signing admin of an initialised pool that
  -- has the wrapper's authority, at the pool's own slab, program and address.
  pub validate_admin_cpi-Administered :
      (pool_pda admin slab percolator_program : AccountInfo) (w : World D) (bump : ℕ)
      → validate_admin_cpi rt program_id pool_pda admin slab percolator_program w ≡ ok bump
      → Administered admin slab percolator_program (pool_at rt w pool_pda.key)
        × (pool_pda.key ≡ (derive_pool_pda rt program_id slab.key).0)
        × (bump ≡ (derive_pool_pda rt program_id slab.key).1)
  unfolding validate_admin_cpi load_pool
  validate_admin_cpi-Administered pool_pda admin slab percolator_program w bump h = ground arith

-- What a return of insurance has asked of the accounts and the pool, and what it makes of the pool.
abbrev pub Returned : WithdrawInsuranceAccounts → ℕ → StakePool → StakePool → Type 0
Returned a amount p q =
    Administered a.admin a.slab a.percolator_program p
    × (p.pool_mode ≡ 0)
    × (p.vault ≡ a.stake_vault.key)
    × (q ≡ record p { total_returned = p.total_returned + amount })

pub returned-IsPool :
    (p : StakePool) (total : ℕ)
    → IsPool p
    → IsU64 total
    → IsPool (record p { total_returned = total })
returned-IsPool p total v h = ground arith

pub mode_lem : (p : StakePool) → validate_withdraw_insurance_pool_mode p ≡ ok tt → p.pool_mode ≡ 0
unfolding validate_withdraw_insurance_pool_mode
mode_lem p h = ground arith

vault_lem : (p : StakePool) (key : Pubkey) → validate_return_vault p key ≡ ok tt → p.vault ≡ key
unfolding validate_return_vault
vault_lem p key h = ground arith

module _ {D : Type 0} (rt : Runtime D) (laws : RuntimeLaws rt) (program_id : Pubkey) where
  cpi_frame :
      (a : WithdrawInsuranceAccounts) (amount : ℕ) (w w' : World D)
      → PoolApart a
      → cpi_withdraw_insurance rt a.percolator_program a.vault_auth a.slab a.stake_vault
          a.wrapper_vault a.wrapper_vault_pda a.token_program amount
          (vault_auth_seeds a.pool_pda.key (derive_vault_authority rt program_id a.pool_pda.key).1)
          w
        ≡ ok w'
      → pool_at rt w' a.pool_pda.key ≡ pool_at rt w a.pool_pda.key
  unfolding cpi_withdraw_insurance writes withdraw_insurance_instruction
  cpi_frame a amount w w' apart h = ap rt.pool_of (
      laws.invoke_signed_frame _ _ w w' a.pool_pda.key h
        (rw (apart.slab_apart, apart.stake_vault_apart, apart.wrapper_vault_apart) refl))

  return_books :
      (a : WithdrawInsuranceAccounts) (amount total bump : ℕ) (p p₁ : StakePool) (w w₁ w' : World D)
      → validate_admin_cpi rt program_id a.pool_pda a.admin a.slab a.percolator_program w ≡ ok bump
      → load_pool rt w a.pool_pda.key ≡ ok p
      → validate_withdraw_insurance_pool_mode p ≡ ok tt
      → validate_return_vault p a.stake_vault.key ≡ ok tt
      → pool_at rt w₁ a.pool_pda.key ≡ pool_at rt w a.pool_pda.key
      → load_pool rt w₁ a.pool_pda.key ≡ ok p₁
      → checked_add p₁.total_returned amount ≡ some total
      → ok (store_pool rt a.pool_pda.key (record p₁ { total_returned = total }) w₁) ≡ ok w'
      → Returned a amount (pool_at rt w a.pool_pda.key) (pool_at rt w' a.pool_pda.key)
  return_books a amount total bump p p₁ w w₁ w' admitted read mode vault kept read₁ added h =
      let read_at : p ≡ pool_at rt w a.pool_pda.key =
        load_pool-pool_at rt w a.pool_pda.key p read in
      let read_at₁ : p₁ ≡ pool_at rt w₁ a.pool_pda.key =
        load_pool-pool_at rt w₁ a.pool_pda.key p₁ read₁ in
      let typed : IsPool p₁ = rw read_at₁ (laws.pool_of-IsPool (w₁ a.pool_pda.key).contents) in
      let (sum, fits) = checked_add-sum p₁.total_returned amount total added in
      let written : pool_at rt w' a.pool_pda.key ≡ record p₁ { total_returned = total } =
        subst (λ (s : World D). pool_at rt s a.pool_pda.key ≡ record p₁ { total_returned = total })
          (same_ok (ok w') (sym h) refl)
          (pool_at-store_pool rt laws w₁ a.pool_pda.key (record p₁ { total_returned = total })
            (returned-IsPool p₁ total typed fits)) in
      (
        (validate_admin_cpi-Administered rt program_id a.pool_pda a.admin a.slab
            a.percolator_program w bump admitted).0,
        subst (λ (q : StakePool). q.pool_mode ≡ 0) read_at (mode_lem p mode),
        subst (λ (q : StakePool). q.vault ≡ a.stake_vault.key) read_at
            (vault_lem p a.stake_vault.key vault),
        written
            ∙ ap (λ (n : ℕ). record p₁ { total_returned = n }) sum
            ∙ ap (λ (q : StakePool). record q { total_returned = q.total_returned + amount })
                (read_at₁ ∙ kept),
      )

  -- The invocation of the wrapper, spelled out: its tag 41 and the amount in 16 bytes, from the
  -- wrapper's vault to the one named, signed by the vault's authority.
  abbrev pub PaysBack : WithdrawInsuranceAccounts → ℕ → World D → World D → Type 0
  PaysBack a amount w w₁ =
      rt.invoke_signed
        (wrapper (record {
          program_id = a.percolator_program.key;
          accounts =
              readonly_meta a.vault_auth.key true
              ∷ writable_meta a.slab.key false
              ∷ writable_meta a.stake_vault.key false
              ∷ writable_meta a.wrapper_vault.key false
              ∷ readonly_meta a.wrapper_vault_pda.key false
              ∷ readonly_meta a.token_program.key false
              ∷ [];
          payload = 41 ∷ to_le_bytes 16 amount;
        }))
        (vault_auth_seeds a.pool_pda.key (derive_vault_authority rt program_id a.pool_pda.key).1
          ∷ [])
        w
      ≡ ok w₁

  cpi_withdraw_insurance-PaysBack :
      (a : WithdrawInsuranceAccounts) (amount : ℕ) (w w₁ : World D)
      → cpi_withdraw_insurance rt a.percolator_program a.vault_auth a.slab a.stake_vault
          a.wrapper_vault a.wrapper_vault_pda a.token_program amount
          (vault_auth_seeds a.pool_pda.key (derive_vault_authority rt program_id a.pool_pda.key).1)
          w
        ≡ ok w₁
      → PaysBack a amount w w₁
  unfolding cpi_withdraw_insurance withdraw_insurance_instruction push_u128_from_u64
  cpi_withdraw_insurance-PaysBack a amount w w₁ h = h

  -- What a return has asked of the accounts and the pool, what it has the wrapper move, and what it
  -- writes: the pool's record, and nothing else.
  abbrev pub ReturnDone : WithdrawInsuranceAccounts → ℕ → World D → World D → Type 0
  ReturnDone a amount w w' =
      Returned a amount (pool_at rt w a.pool_pda.key) (pool_at rt w' a.pool_pda.key)
      × ((w₁ : World D) × PaysBack a amount w w₁
          × (w' ≡ store_pool rt a.pool_pda.key (pool_at rt w' a.pool_pda.key) w₁))

  return_typed :
      (w : World D) (key : Pubkey) (p : StakePool) (amount total : ℕ)
      → load_pool rt w key ≡ ok p
      → checked_add p.total_returned amount ≡ some total
      → IsPool (record p { total_returned = total })
  return_typed w key p amount total read added =
      returned-IsPool p total
        (rw (load_pool-pool_at rt w key p read) (laws.pool_of-IsPool (w key).contents))
        (checked_add-sum p.total_returned amount total added).1

  -- A successful return of insurance, with the pool's account apart from those that the wrapper
  -- writes, was asked for by the signing admin of an initialised pool that has the wrapper's
  -- authority and is not a trading pool, has the wrapper's program move the amount from the wrapper's
  -- vault into the pool's own, and wrote nothing but the returned total in the pool's record, which
  -- grew by the amount.
  pub process_admin_withdraw_insurance-ReturnDone :
      (accounts : List AccountInfo) (amount : ℕ) (w w' : World D) (a : WithdrawInsuranceAccounts)
      → withdraw_insurance_accounts accounts ≡ ok a
      → PoolApart a
      → process_admin_withdraw_insurance rt program_id accounts amount w ≡ ok w'
      → ReturnDone a amount w w'
  unfolding process_admin_withdraw_insurance
  process_admin_withdraw_insurance-ReturnDone accounts amount w w' a named apart h =
      bind_ok (withdraw_insurance_accounts accounts) h λ b b_eq h.
        bind_ok (validate_admin_cpi rt program_id b.pool_pda b.admin b.slab b.percolator_program w)
          h
          λ bump admitted h. bind_ok (load_pool rt w b.pool_pda.key) h λ p read h.
            bind_ok (validate_withdraw_insurance_pool_mode p) h λ _ mode h.
              bind_ok (validate_return_vault p b.stake_vault.key) h λ _ vault h.
                bind_ok (verify_token_program rt b.token_program) h λ _ _ h.
                  guard_ok
                    (not
                      (b.vault_auth.key == (derive_vault_authority rt program_id b.pool_pda.key).0))
                    invalid_argument h
                    λ _ h.
                      bind_ok
                        (cpi_withdraw_insurance rt b.percolator_program b.vault_auth b.slab
                          b.stake_vault b.wrapper_vault b.wrapper_vault_pda b.token_program amount
                          (vault_auth_seeds b.pool_pda.key
                            (derive_vault_authority rt program_id b.pool_pda.key).1)
                          w)
                        h
                        λ w₁ called h. bind_ok (load_pool rt w₁ b.pool_pda.key) h λ p₁ read₁ h.
                          option_ok (checked_add p₁.total_returned amount) overflow h
                            λ total added h.
                              let same : b ≡ a =
                                same_ok (withdraw_insurance_accounts accounts) b_eq named in
                              subst (λ (c : WithdrawInsuranceAccounts). ReturnDone c amount w w')
                                same
                                (
                                  return_books b amount total bump p p₁ w w₁ w' admitted read mode
                                      vault (cpi_frame b amount w w₁ (rw same apart) called) read₁
                                      added h,
                                  (
                                    w₁,
                                    cpi_withdraw_insurance-PaysBack b amount w w₁ called,
                                    stored_world rt laws program_id w₁ w' b.pool_pda.key
                                        (record p₁ { total_returned = total })
                                        (return_typed w₁ b.pool_pda.key p₁ amount total read₁ added)
                                        h,
                                  ),
                                )
