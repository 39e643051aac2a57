-- ===== src/Processor/Runs.antt =====
-- Runs of the program of src/processor.rs, as one pool sees them: calls of `process`, between what
-- other programs do.
pub mod Prices
pub mod Closed
use percolator_vault.Base.{
  subst, ℕ, ◌*◌, ◌≤◌, ◌<◌, ◌≡◌, refl, sym, ap, ◌∙◌, Bool, true, false, List, All, arith,
}
use percolator_vault.Base.Word.{IsU8, IsU64}
use percolator_vault.Error.{Result, ok}
use percolator_vault.State.{StakePool, IsPool}
use percolator_vault.State.Value.{inflow}
use percolator_vault.Runtime.{Pubkey, AccountInfo, World, Runtime}
use percolator_vault.Runtime.Laws.{RuntimeLaws}
use percolator_vault.Runtime.Owned.{OwnedLaws, Foreign, Held, Untouched}
use percolator_vault.Runtime.Store.{pool_at}
use percolator_vault.Ledger.{Move, Booked, Move-Booked}
use percolator_vault.Ledger.History.{Later, Later-refl, Later-trans, Move-Later}
use percolator_vault.Ledger.Vault.{
  Vault, vault_of, Transact, Transact-price, Transact-lending, price_trans,
}
use percolator_vault.Ledger.Refine.{Move-Transact}
use percolator_vault.Processor.{process}
use percolator_vault.Processor.Steps.{Carries, Untouched-Carries}
use percolator_vault.Processor.Steps.Deposits.{NoRecord}
use percolator_vault.Processor.Steps.Dispatch.{process-Carries}

module _ {D : Type 0} (rt : Runtime D) (program_id : Pubkey) where
  -- One transaction: a call of the program with the accounts and the bytes it is given, or one in
  -- which the program has no part.
  pub data Step (k : Pubkey) (w w' : World D) : Type 0 where
    call :
        (accounts : List AccountInfo) (bytes : List ℕ)
        → Foreign program_id accounts
        → NoRecord rt program_id accounts k
        → All IsU8 bytes
        → process rt program_id accounts bytes w ≡ ok w'
        → Step k w w'
    outside :
        ((j : Pubkey) → (w j).owner ≡ program_id → Untouched rt program_id w w' j) → Step k w w'

  pub data Run (k : Pubkey) (w : World D) : World D → Type 0 where
    start : Run k w w
    then_step : (w₁ w₂ : World D) → Run k w w₁ → Step k w₁ w₂ → Run k w w₂

  -- The pool has shares in every world of the run.
  abbrev pub HasShares : World D → Pubkey → Type 0
  HasShares w k = 0 < (pool_at rt w k).total_lp_supply

  abbrev pub Shared : (k : Pubkey) (w w' : World D) → Run k w w' → Type 0
  Shared k w w' start = HasShares w k
  Shared k w w' (then_step w₁ w₂ run step) = Shared k w w₁ run × HasShares w₂ k

module _ {D : Type 0} (rt : Runtime D) (laws : RuntimeLaws rt) (program_id : Pubkey)
    (owned : OwnedLaws rt program_id) (k : Pubkey) where
  pub Step-Carries :
      (w w' : World D)
      → Held rt program_id w k
      → Step rt program_id k w w'
      → Carries rt laws program_id owned k w w'
  Step-Carries w w' held (call accounts bytes foreign apart typed h) =
      process-Carries rt laws program_id owned k accounts w w' foreign apart held bytes typed h
  Step-Carries w w' held (outside spared) =
      Untouched-Carries rt laws program_id owned k w w' held (spared k held.0)

  pub typed_at : (w : World D) → IsPool (pool_at rt w k)
  typed_at w = laws.pool_of-IsPool (w k).contents

  pub record Kept (w w' : World D) : Type 0 where
    pub held : Held rt program_id w' k
    pub booked : Booked (pool_at rt w' k)
    pub later : Later (pool_at rt w k) (pool_at rt w' k)

  pub Step-Kept :
      (w w' : World D)
      → Held rt program_id w k
      → Booked (pool_at rt w k)
      → Step rt program_id k w w'
      → Kept w w'
  Step-Kept w w' held b step =
      let (move, held') = Step-Carries w w' held step in
      record {
        held = held';
        booked = Move-Booked (pool_at rt w k) (pool_at rt w' k) (typed_at w) move b;
        later = Move-Later (pool_at rt w k) (pool_at rt w' k) move;
      }

  pub Run-Kept :
      (w w' : World D)
      → Held rt program_id w k
      → Booked (pool_at rt w k)
      → Run rt program_id k w w'
      → Kept w w'
  Run-Kept w w' held b start = record {
    held = held;
    booked = b;
    later = Later-refl (pool_at rt w k);
  }
  Run-Kept w w' held b (then_step w₁ w₂ run step) =
      let before = Run-Kept w w₁ held b run in
      let after = Step-Kept w₁ w' before.held before.booked step in
      record {
        held = after.held;
        booked = after.booked;
        later =
            Later-trans (pool_at rt w k) (pool_at rt w₁ k) (pool_at rt w' k) before.later
              after.later;
      }
