-- ===== src/Processor/Runs/Prices.antt =====
-- What a run of the program of src/processor.rs does to the price of a pool's shares.
use percolator_vault.Base.{◌*◌, ◌-◌, ◌≤◌, ◌<◌, ◌≡◌, ◌∙◌, false, arith}
use percolator_vault.Base.Word.{IsU64}
use percolator_vault.State.{StakePool}
use percolator_vault.State.Value.{inflow, outflow}
use percolator_vault.Runtime.{Pubkey, World, Runtime}
use percolator_vault.Runtime.Laws.{RuntimeLaws}
use percolator_vault.Runtime.Owned.{OwnedLaws, Held}
use percolator_vault.Runtime.Store.{pool_at}
use percolator_vault.Ledger.{Booked}
use percolator_vault.Ledger.Vault.{Vault, vault_of, Transact, Transact-price, price_trans}
use percolator_vault.Ledger.Refine.{Move-Transact, inflow-le}
use percolator_vault.Processor.Runs.{
  Step, Run, start, then_step, HasShares, Shared, Step-Carries, typed_at, Kept, Step-Kept, Run-Kept,
}

module _ {D : Type 0} (rt : Runtime D) (laws : RuntimeLaws rt) (program_id : Pubkey)
    (owned : OwnedLaws rt program_id) (k : Pubkey) where
  abbrev vault_at : World D → Vault
  vault_at w = vault_of (pool_at rt w k)

  Step-Transact :
      (w w' : World D)
      → Held rt program_id w k
      → Booked (pool_at rt w k)
      → IsU64 (inflow (pool_at rt w' k))
      → Step rt program_id k w w'
      → Transact (vault_at w) (vault_at w')
  Step-Transact w w' held b fits step =
      Move-Transact (pool_at rt w k) (pool_at rt w' k) (typed_at rt laws program_id owned k w) b
        fits (Step-Carries rt laws program_id owned k w w' held step).0

  earlier_inflow_fits :
      (w₁ w₂ : World D)
      → Kept rt laws program_id owned k w₁ w₂
      → IsU64 (inflow (pool_at rt w₂ k))
      → IsU64 (inflow (pool_at rt w₁ k))
  earlier_inflow_fits w₁ w₂ kept fits =
      omega (arith, fits, inflow-le (pool_at rt w₁ k) (pool_at rt w₂ k) kept.later)

  Shared-last :
      (w w' : World D) (run : Run rt program_id k w w')
      → Shared rt program_id k w w' run
      → HasShares rt program_id w' k
  Shared-last w w' start h = h
  Shared-last w w' (then_step w₁ w₂ run step) (_, h) = h

  vault_keeps : (p : StakePool) → p.pool_mode ≡ 1 → (vault_of p).lending ≡ false
  unfolding vault_of
  vault_keeps p mode = ground arith

  trading_price :
      (p q : StakePool)
      → p.pool_mode ≡ 1
      → 0 < p.total_lp_supply
      → Transact (vault_of p) (vault_of q)
      → (inflow p - outflow p) * q.total_lp_supply ≤ (inflow q - outflow q) * p.total_lp_supply
  unfolding vault_of
  trading_price p q mode pos t = Transact-price (vault_of p) (vault_of q) (vault_keeps p mode) pos t

  -- Over a run in which the pool is a trading pool and always has shares, from a world in which the
  -- account is the program's and its pool is `Booked` to one in which what came into the pool fits a
  -- u64, the price of a share does not fall: the value of the pool over its supply of shares is at
  -- the end at least what it was.
  pub Run-price :
      (w w' : World D) (run : Run rt program_id k w w')
      → Held rt program_id w k
      → Booked (pool_at rt w k)
      → (pool_at rt w k).pool_mode ≡ 1
      → Shared rt program_id k w w' run
      → IsU64 (inflow (pool_at rt w' k))
      → (inflow (pool_at rt w k) - outflow (pool_at rt w k)) * (pool_at rt w' k).total_lp_supply
        ≤ (inflow (pool_at rt w' k) - outflow (pool_at rt w' k)) * (pool_at rt w k).total_lp_supply
  Run-price w w' start held b mode shared fits = omega arith
  Run-price w w' (then_step w₁ w₂ run step) held b mode (shared, _) fits =
      let before = Run-Kept rt laws program_id owned k w w₁ held b run in
      let earlier =
        earlier_inflow_fits w₁ w'
          (Step-Kept rt laws program_id owned k w₁ w' before.held before.booked step) fits in
      let pos = Shared-last w w₁ run shared in
      price_trans _ _ _ _ _ _ pos (Run-price w w₁ run held b mode shared earlier) (
        trading_price (pool_at rt w₁ k) (pool_at rt w' k) (before.later.mode_fixed ∙ mode) pos
          (Step-Transact w₁ w' before.held before.booked fits step))
