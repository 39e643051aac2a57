-- ===== src/Ledger/History.antt =====
-- What a pool's record (src/state.rs) tells of its past.
use percolator_vault.Base.{ℕ, ◌≤◌, ◌≡◌, refl, ap, ◌⊎◌, true, false, arith}
use percolator_vault.State.{StakePool, is_resolved}
use percolator_vault.Processor.Deposit.Books.{Credited}
use percolator_vault.Processor.Withdraw.Books.{Debited}
use percolator_vault.Ledger.{
  Move, still, deposits, withdraws, flushes, returns, accrues, configures, marks, resolves,
  hands_over,
}

-- A later state of a pool: who and what it belongs to is fixed, no total ever falls, and a resolved
-- pool stays resolved and takes no more deposits.
pub record Later (p q : StakePool) : Type 0 where
  pub slab_fixed : q.slab ≡ p.slab
  pub admin_fixed : q.admin ≡ p.admin
  pub collateral_fixed : q.collateral_mint ≡ p.collateral_mint
  pub mint_fixed : q.lp_mint ≡ p.lp_mint
  pub vault_fixed : q.vault ≡ p.vault
  pub program_fixed : q.percolator_program ≡ p.percolator_program
  pub mode_fixed : q.pool_mode ≡ p.pool_mode
  pub deposited_grows : p.total_deposited ≤ q.total_deposited
  pub withdrawn_grows : p.total_withdrawn ≤ q.total_withdrawn
  pub flushed_grows : p.total_flushed ≤ q.total_flushed
  pub returned_grows : p.total_returned ≤ q.total_returned
  pub fees_grow : p.total_fees_earned ≤ q.total_fees_earned
  pub closing :
      (is_resolved p ≡ false) ⊎ ((is_resolved q ≡ true) × (q.total_deposited ≡ p.total_deposited))

pub Later-refl : (p : StakePool) → Later p p
Later-refl p = ground arith

pub Later-trans : (p q r : StakePool) → Later p q → Later q r → Later p r
Later-trans p q r l m = ground arith

Credited-Later :
    (p q : StakePool) (amount lp : ℕ) → is_resolved p ≡ false → Credited p q amount lp → Later p q
Credited-Later p q amount lp open_pool c = ground (arith, c.same)

Debited-Later :
    (p q : StakePool) (paid lp : ℕ)
    → is_resolved q ≡ is_resolved p
    → Debited p q paid lp
    → Later p q
Debited-Later p q paid lp flag d = ground (arith, d.same)

-- Only the reserved bytes hold the flag.
pub flag_kept : (p q : StakePool) → q.reserved ≡ p.reserved → is_resolved q ≡ is_resolved p
unfolding is_resolved
flag_kept p q e = rw e refl

flushed-Later :
    (p q : StakePool) (total : ℕ)
    → p.total_flushed ≤ total
    → q ≡ record p { total_flushed = total }
    → Later p q
flushed-Later p q total grows e =
    ground (arith, flag_kept p q (ap (λ (r : StakePool). r.reserved) e))

returned-Later :
    (p q : StakePool) (total : ℕ)
    → p.total_returned ≤ total
    → q ≡ record p { total_returned = total }
    → Later p q
returned-Later p q total grows e =
    ground (arith, flag_kept p q (ap (λ (r : StakePool). r.reserved) e))

configured-Later :
    (p q : StakePool)
    → q ≡ record p { cooldown_slots = q.cooldown_slots; deposit_cap = q.deposit_cap }
    → Later p q
configured-Later p q e = ground (arith, flag_kept p q (ap (λ (r : StakePool). r.reserved) e))

handed_over-Later : (p q : StakePool) → q ≡ record p { admin_transferred = 1 } → Later p q
handed_over-Later p q e = ground (arith, flag_kept p q (ap (λ (r : StakePool). r.reserved) e))

-- Every move makes the pool a later state of itself.
pub Move-Later : (p q : StakePool) → Move p q → Later p q
Move-Later p q (still e) = rw e (Later-refl p)
Move-Later p q (deposits amount lp _ _ open_pool _ c) = Credited-Later p q amount lp open_pool c
Move-Later p q (withdraws lp paid _ _ flag d) = Debited-Later p q paid lp flag d
Move-Later p q (flushes amount _ _ e) = flushed-Later p q _ (omega arith) e
Move-Later p q (returns amount _ e) = returned-Later p q _ (omega arith) e
Move-Later p q (accrues fees _ flag e) = ground arith
Move-Later p q (configures e) = configured-Later p q e
Move-Later p q (marks flag e) = ground arith
Move-Later p q (resolves flag e) = ground arith
Move-Later p q (hands_over e) = handed_over-Later p q e
