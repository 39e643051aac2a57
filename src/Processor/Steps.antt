-- ===== src/Processor/Steps.antt =====
-- The handlers of src/processor.rs on an account of the program that holds a pool: each makes a move
-- of the ledger with it, and leaves it the program's.
pub mod Frames
pub mod Creation
pub mod Local
pub mod Deposits
pub mod Withdraws
pub mod Insurance
pub mod Admins
pub mod Opens
pub mod Dispatch
use percolator_vault.Base.{
  subst, ℕ, ◌≤◌, ◌≡◌, refl, sym, ap, ◌∙◌, ◌⊎◌, inl, inr, Bool, true, false, List, Bool-cases, ltb,
  ◌==◌, if◌then◌else◌, arith,
}
use percolator_vault.Error.{Result, ok, same_ok}
use percolator_vault.State.{StakePool, IsPool, stake_pool_size}
use percolator_vault.Runtime.{Pubkey, World, Runtime, store_pool}
use percolator_vault.Runtime.Laws.{RuntimeLaws}
use percolator_vault.Runtime.Owned.{
  OwnedLaws, Held, Untouched, Untouched-Held, Untouched-Untouched, store_pool-Untouched,
  store_pool-owner,
}
use percolator_vault.Runtime.Store.{pool_at, pool_at-store_pool}
use percolator_vault.Ledger.{Move, still}

eq_of_test : (a b : ℕ) → (a == b) ≡ true → a ≡ b
eq_of_test a b h = ground arith

module _ {D : Type 0} (rt : Runtime D) (laws : RuntimeLaws rt) (program_id : Pubkey)
    (owned : OwnedLaws rt program_id) (k : Pubkey) where
  abbrev pub Carries : World D → World D → Type 0
  Carries w w' = Move (pool_at rt w k) (pool_at rt w' k) × Held rt program_id w' k

  pub Untouched-Carries :
      (w w' : World D) → Held rt program_id w k → Untouched rt program_id w w' k → Carries w w'
  Untouched-Carries w w' held u =
      (still (ap rt.pool_of u.0), Untouched-Held rt program_id w w' k held u)

  stored_self :
      (w w₀ w₁ : World D) (q : StakePool)
      → Held rt program_id w k
      → Untouched rt program_id w w₀ k
      → Untouched rt program_id w w₁ k
      → IsPool q
      → Move (pool_at rt w₀ k) q
      → Carries w (store_pool rt k q w₁)
  stored_self w w₀ w₁ q held u₀ u₁ typed move =
      let (owner_kept, written) = store_pool-owner rt program_id w₁ k q in
      let held₁ = Untouched-Held rt program_id w w₁ k held u₁ in
      (
        subst (λ (p : StakePool). Move p (pool_at rt (store_pool rt k q w₁) k)) (ap rt.pool_of u₀.0)
            (subst (λ (r : StakePool). Move (pool_at rt w₀ k) r)
              (sym (pool_at-store_pool rt laws w₁ k q typed)) move),
        (
          owner_kept ∙ held₁.0,
          subst (λ (n : ℕ). stake_pool_size ≤ n)
              (sym (ap rt.data_len written ∙ owned.data_len-with_pool q (w₁ k).contents)) held₁.1,
        ),
      )

  -- A handler that ends by writing a pool moves that pool, and no other.
  pub stored_own-Carries :
      (w w₀ w₁ w' : World D) (key : Pubkey) (q : StakePool)
      → Held rt program_id w k
      → Untouched rt program_id w w₀ k
      → Untouched rt program_id w w₁ k
      → IsPool q
      → (k ≡ key → Move (pool_at rt w₀ k) q)
      → ok (store_pool rt key q w₁) ≡ ok w'
      → Carries w w'
  stored_own-Carries w w₀ w₁ w' key q held u₀ u₁ typed move h =
      subst (λ (s : World D). Carries w s) (same_ok (ok w') (sym h) refl)
        (elim (Bool-cases (k == key)) [
          | inl here ↦
              let e : k ≡ key = eq_of_test k key here in
              subst (λ (x : Pubkey). Carries w (store_pool rt x q w₁)) e
                (stored_self w w₀ w₁ q held u₀ u₁ typed (move e))
          | inr apart ↦ Untouched-Carries w (store_pool rt key q w₁) held (
              Untouched-Untouched rt program_id w w₁ (store_pool rt key q w₁) k u₁
                (store_pool-Untouched rt program_id w₁ key k q apart u₁.1))
        ])

  pub stored-Carries :
      (w w₀ w₁ w' : World D) (key : Pubkey) (q : StakePool)
      → Held rt program_id w k
      → Untouched rt program_id w w₀ k
      → Untouched rt program_id w w₁ k
      → IsPool q
      → Move (pool_at rt w₀ key) q
      → ok (store_pool rt key q w₁) ≡ ok w'
      → Carries w w'
  stored-Carries w w₀ w₁ w' key q held u₀ u₁ typed move =
      stored_own-Carries w w₀ w₁ w' key q held u₀ u₁ typed
        (λ e. subst (λ (x : Pubkey). Move (pool_at rt w₀ x) q) (sym e) move)
