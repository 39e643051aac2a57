-- ===== src/Processor/Steps/Creation.antt =====
-- The creation of an address, in src/processor.rs, leaves every account of the program.
use percolator_vault.Base.{subst, ℕ, ◌≡◌, refl, inl, inr, [], ◌∷◌, Bool-cases, ltb, ◌==◌}
use percolator_vault.Error.{ok, same_ok, bind_ok}
use percolator_vault.Runtime.{Pubkey, AccountInfo, World, Runtime, Seeds, allocate, invoke}
use percolator_vault.Runtime.Owned.{
  OwnedLaws, Held, Untouched, Untouched-Untouched, Untouched-Held, calls,
}
use percolator_vault.Processor.Common.{create_or_adopt_pda, fund_pda}
use percolator_vault.Processor.Steps.Frames.{invoked-Untouched}

module _ {D : Type 0} (rt : Runtime D) (program_id : Pubkey) (owned : OwnedLaws rt program_id)
    (k : Pubkey) where
  abbrev pub Spared : World D → World D → Type 0
  Spared w w' = Untouched rt program_id w w' k

  -- Two invocations of other programs, one after the other.
  pub then-Untouched :
      (w w₁ w' : World D)
      → Held rt program_id w k
      → Spared w w₁
      → (Held rt program_id w₁ k → Spared w₁ w')
      → Spared w w'
  then-Untouched w w₁ w' held u next =
      Untouched-Untouched rt program_id w w₁ w' k u
        (next (Untouched-Held rt program_id w w₁ k held u))

  fund_pda-Untouched :
      (target payer : AccountInfo) (have need : ℕ) (w w' : World D)
      → Held rt program_id w k
      → fund_pda rt target payer have need w ≡ ok w'
      → Spared w w'
  unfolding fund_pda invoke calls
  fund_pda-Untouched target payer have need w w' held h = elim (Bool-cases (ltb have need)) [
    | inl short ↦ invoked-Untouched rt program_id owned k _ [] w w' refl held (rw short at h)
    | inr enough ↦
        subst (λ (s : World D). Spared w s) (same_ok (ok w) refl (rw enough at h)) (refl, held.0)
  ]

  pub create_or_adopt_pda-Untouched :
      (target payer : AccountInfo) (owner : Pubkey) (space : ℕ) (seeds : Seeds) (w w' : World D)
      → Held rt program_id w k
      → create_or_adopt_pda rt target payer owner space seeds w ≡ ok w'
      → Spared w w'
  unfolding create_or_adopt_pda calls
  create_or_adopt_pda-Untouched target payer owner space seeds w w' held h =
      bind_ok (rt.minimum_balance space) h λ need _ h.
        elim (Bool-cases ((w target.key).lamports == 0)) [
          | inl fresh ↦ invoked-Untouched rt program_id owned k _ _ w w' refl held (rw fresh at h)
          | inr squatted ↦
              bind_ok (fund_pda rt target payer (w target.key).lamports need w) (rw squatted at h)
                λ w₁ funded h.
                  bind_ok (rt.invoke_signed (allocate target.key space) (seeds ∷ []) w₁) h
                    λ w₂ sized h.
                      then-Untouched w w₁ w' held
                        (fund_pda-Untouched target payer (w target.key).lamports need w w₁ held
                          funded)
                        (λ held₁.
                          then-Untouched w₁ w₂ w' held₁
                            (invoked-Untouched rt program_id owned k _ _ w₁ w₂ refl held₁ sized)
                            (λ held₂.
                              invoked-Untouched rt program_id owned k _ _ w₂ w' refl held₂ h))
        ]
