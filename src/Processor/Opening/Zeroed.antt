-- ===== src/Processor/Opening/Zeroed.antt =====
-- The account that `create_or_adopt_pda` of src/processor.rs creates for a pool.
use percolator_vault.Base.{
  subst, ℕ, ◌≤◌, ◌≡◌, refl, sym, ap, ◌∙◌, inl, inr, false, [], ◌∷◌, Bool-cases, none, ◌==◌, arith,
}
use percolator_vault.Error.{ok, bind_ok}
use percolator_vault.State.{stake_pool_size}
use percolator_vault.Runtime.{Pubkey, AccountInfo, World, Runtime, Seeds, initialize_mint, allocate}
use percolator_vault.Runtime.Owned.{OwnedLaws, Held, Untouched, Untouched-Held, calls, zero_pool}
use percolator_vault.Runtime.Store.{pool_at}
use percolator_vault.Pda.{pool_seeds, vault_auth_seeds}
use percolator_vault.Cpi.{cpi_update_authority, update_authority_instruction}
use percolator_vault.Processor.Common.{create_or_adopt_pda, fund_pda}
use percolator_vault.Processor.Init.{InitAccounts, create_init}
use percolator_vault.Processor.Steps.Creation.{then-Untouched}
use percolator_vault.Processor.Steps.Frames.{invoked-Untouched}

module _ {D : Type 0} (rt : Runtime D) (program_id : Pubkey) (owned : OwnedLaws rt program_id) where
  -- A created account is the program's, and holds zeroes.
  abbrev pub Zeroed : World D → Pubkey → Type 0
  Zeroed w k = Held rt program_id w k × (pool_at rt w k ≡ zero_pool)

  Zeroed-Untouched :
      (w w' : World D) (k : Pubkey) → Zeroed w k → Untouched rt program_id w w' k → Zeroed w' k
  Zeroed-Untouched w w' k (held, zeroed) u =
      (Untouched-Held rt program_id w w' k held u, ap rt.pool_of u.0 ∙ zeroed)

  create_or_adopt_pda-Zeroed :
      (target payer : AccountInfo) (seeds : Seeds) (w w' : World D)
      → create_or_adopt_pda rt target payer program_id stake_pool_size seeds w ≡ ok w'
      → Zeroed w' target.key
  unfolding create_or_adopt_pda
  create_or_adopt_pda-Zeroed target payer seeds w w' h =
      bind_ok (rt.minimum_balance stake_pool_size) h λ need _ h.
        elim (Bool-cases ((w target.key).lamports == 0)) [
          | inl fresh ↦
              let (owner, size, zeroed) =
                owned.created payer.key target.key need stake_pool_size program_id _ w w'
                  (omega arith) (rw fresh at h) in
              ((owner, omega (arith, size)), zeroed)
          | inr squatted ↦
              bind_ok (fund_pda rt target payer (w target.key).lamports need w) (rw squatted at h)
                λ w₁ _ h.
                  bind_ok (rt.invoke_signed (allocate target.key stake_pool_size) (seeds ∷ []) w₁) h
                    λ w₂ sized h.
                      let (size, zeroed) =
                        owned.allocated target.key stake_pool_size _ w₁ w₂ (omega arith) sized in
                      let (owner, kept) = owned.assigned target.key program_id _ w₂ w' h in
                      (
                        (
                          owner,
                          subst (λ (d : D). stake_pool_size ≤ rt.data_len d) (sym kept)
                              (omega (arith, size)),
                        ),
                        ap rt.pool_of kept ∙ zeroed,
                      )
        ]

  pub create_init-Zeroed :
      (a : InitAccounts) (pool_bump vault_auth_bump : ℕ) (w w' : World D)
      → (a.percolator_program.key == program_id) ≡ false
      → create_init rt program_id a pool_bump vault_auth_bump w ≡ ok w'
      → Zeroed w' a.pool_pda.key
  unfolding create_init cpi_update_authority update_authority_instruction calls
  create_init-Zeroed a pool_bump vault_auth_bump w w' other h =
      let k = a.pool_pda.key in
      bind_ok
        (create_or_adopt_pda rt a.pool_pda a.admin program_id stake_pool_size
          (pool_seeds a.slab.key pool_bump) w)
        h
        λ w₁ opened h.
          bind_ok
            (cpi_update_authority rt a.percolator_program a.admin a.pool_pda a.slab
              (pool_seeds a.slab.key pool_bump) w₁)
            h
            λ w₂ updated h.
              bind_ok
                (rt.invoke_signed
                  (initialize_mint a.token_program.key a.lp_mint.key a.vault_auth.key none 6)
                  (vault_auth_seeds a.pool_pda.key vault_auth_bump ∷ []) w₂)
                h
                λ w₃ minted h.
                  let fresh = create_or_adopt_pda-Zeroed a.pool_pda a.admin _ w w₁ opened in
                  Zeroed-Untouched w₁ w' k fresh (
                    then-Untouched rt program_id owned k w₁ w₂ w' fresh.0
                      (invoked-Untouched rt program_id owned k _ _ w₁ w₂ other fresh.0 updated)
                      (λ held₂.
                        then-Untouched rt program_id owned k w₂ w₃ w' held₂
                          (invoked-Untouched rt program_id owned k _ _ w₂ w₃ refl held₂ minted)
                          (λ held₃.
                            invoked-Untouched rt program_id owned k _ _ w₃ w' refl held₃ h)))
