-- ===== src/Ledger.antt =====
-- What the instructions of src/processor.rs may do to one pool, as a relation between its record
-- before and after, and the invariant and the history that the relation carries.
pub mod History
pub mod Vault
pub mod Refine
use percolator_vault.Base.{
  ℕ, ◌+◌, ◌-◌, ◌≤◌, ◌<◌, ◌≡◌, refl, ap, ◌⊎◌, inl, inr, Bool, true, false, Option, some, ◌==◌,
  if◌then◌else◌, arith,
}
use percolator_vault.State.{
  StakePool, IsPool, is_resolved, calc_lp_for_deposit, calc_collateral_for_withdraw,
  total_pool_value,
}
use percolator_vault.State.Value.{inflow, outflow, total_pool_value-parts}
use percolator_vault.Processor.Deposit.Books.{Credited}
use percolator_vault.Processor.Withdraw.Books.{Debited, Debited-value}

pub data Move (p q : StakePool) : Type 0 where
  still : q ≡ p → Move p q
  deposits :
      (amount lp : ℕ)
      → calc_lp_for_deposit p amount ≡ some lp
      → 0 < lp
      → is_resolved p ≡ false
      → is_resolved q ≡ is_resolved p
      → Credited p q amount lp
      → Move p q
  withdraws :
      (lp paid : ℕ)
      → calc_collateral_for_withdraw p lp ≡ some paid
      → 0 < paid
      → is_resolved q ≡ is_resolved p
      → Debited p q paid lp
      → Move p q
  flushes :
      (amount : ℕ)
      → p.pool_mode ≡ 0
      → p.total_withdrawn + p.total_flushed + amount ≤ p.total_deposited + p.total_returned
      → q ≡ record p { total_flushed = p.total_flushed + amount }
      → Move p q
  returns :
      (amount : ℕ)
      → p.pool_mode ≡ 0
      → q ≡ record p { total_returned = p.total_returned + amount }
      → Move p q
  accrues :
      (fees : ℕ)
      → p.pool_mode ≡ 1
      → is_resolved q ≡ is_resolved p
      → q ≡ record p {
        total_fees_earned = p.total_fees_earned + fees;
        last_fee_accrual_slot = q.last_fee_accrual_slot;
        last_vault_snapshot = q.last_vault_snapshot;
        reserved = q.reserved;
      }
      → Move p q
  configures :
      q ≡ record p { cooldown_slots = q.cooldown_slots; deposit_cap = q.deposit_cap } → Move p q
  marks : is_resolved q ≡ is_resolved p → q ≡ record p { reserved = q.reserved } → Move p q
  resolves : is_resolved q ≡ true → q ≡ record p { reserved = q.reserved } → Move p q
  hands_over : q ≡ record p { admin_transferred = 1 } → Move p q

-- What holds of a pool between two instructions: it is open and has the wrapper's authority, no more
-- has left than came in, and a trading pool has neither flushed nor been returned insurance.
pub record Booked (p : StakePool) : Type 0 where
  pub opened : p.is_initialized ≡ 1
  pub transferred : p.admin_transferred ≡ 1
  pub covered : outflow p ≤ inflow p
  pub mode :
      (p.pool_mode ≡ 0) ⊎ ((p.pool_mode ≡ 1) × (p.total_flushed ≡ 0) × (p.total_returned ≡ 0))

Credited-Booked : (p q : StakePool) (amount lp : ℕ) → Credited p q amount lp → Booked p → Booked q
Credited-Booked p q amount lp c b = ground (arith, c.same)

Debited-Booked :
    (p q : StakePool) (paid lp : ℕ)
    → IsPool p
    → Debited p q paid lp
    → calc_collateral_for_withdraw p lp ≡ some paid
    → Booked p
    → Booked q
Debited-Booked p q paid lp typed d price b =
    let (v, worth, within, _) = Debited-value p q paid lp typed d price in
    ground (arith, d.same, total_pool_value-parts p v worth)

-- Every move keeps the books.
pub Move-Booked : (p q : StakePool) → IsPool p → Move p q → Booked p → Booked q
Move-Booked p q typed (still e) b = rw e b
Move-Booked p q typed (deposits amount lp _ _ _ _ c) b = Credited-Booked p q amount lp c b
Move-Booked p q typed (withdraws lp paid price _ _ d) b = Debited-Booked p q paid lp typed d price b
Move-Booked p q typed (flushes amount mode room e) b = ground arith
Move-Booked p q typed (returns amount mode e) b = ground arith
Move-Booked p q typed (accrues fees mode _ e) b = ground arith
Move-Booked p q typed (configures e) b = ground arith
Move-Booked p q typed (marks _ e) b = ground arith
Move-Booked p q typed (resolves _ e) b = ground arith
Move-Booked p q typed (hands_over e) b = ground arith
