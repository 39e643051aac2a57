-- ===== src/Ledger/Refine.antt =====
-- The moves of a pool's record (src/state.rs) as what may happen to its vault.
use percolator_vault.Base.{
  subst, ℕ, ◌+◌, ◌-◌, ◌≤◌, ◌≡◌, refl, ap, ◌∙◌, Bool, true, Option, some, arith,
}
use percolator_vault.Base.Maybe.{unwrap_or}
use percolator_vault.Base.Word.{IsU64}
use percolator_vault.Math
use percolator_vault.Math.Lp.{
  IsFloor, Issues, calc_lp_for_deposit-Issues, calc_collateral_for_withdraw-IsFloor,
}
use percolator_vault.State.{
  StakePool, IsPool, is_resolved, calc_lp_for_deposit, calc_collateral_for_withdraw,
  total_pool_value,
}
use percolator_vault.State.Value.{
  inflow, outflow, total_pool_value-parts, total_pool_value_of_parts,
}
use percolator_vault.Processor.Deposit.Books.{Credited}
use percolator_vault.Processor.Withdraw.Books.{Debited, calc_collateral-value}
use percolator_vault.Ledger.{
  Move, still, deposits, withdraws, flushes, returns, accrues, configures, marks, resolves,
  hands_over, Booked,
}
use percolator_vault.Ledger.History.{Later, Move-Later, flag_kept}
use percolator_vault.Ledger.Vault.{vault_of, Transact, idle, deposit, withdraw, lend, gain, resolve}

-- While the inflows fit a u64, the program reads the vault's value.
worth_lem :
    (p : StakePool)
    → outflow p ≤ inflow p
    → IsU64 (inflow p)
    → total_pool_value p ≡ some (inflow p - outflow p)
worth_lem p covered fits = total_pool_value_of_parts p (inflow p - outflow p) (omega arith) fits

pub inflow-le : (p q : StakePool) → Later p q → inflow p ≤ inflow q
inflow-le p q l = ground arith

deposit-Issues :
    (p : StakePool) (amount lp : ℕ)
    → outflow p ≤ inflow p
    → IsU64 (inflow p)
    → calc_lp_for_deposit p amount ≡ some lp
    → Issues p.total_lp_supply (inflow p - outflow p) amount lp
unfolding calc_lp_for_deposit
deposit-Issues p amount lp covered fits h =
    calc_lp_for_deposit-Issues p.total_lp_supply (inflow p - outflow p) amount (
      subst
        (λ (o : Option ℕ).
          Math.calc_lp_for_deposit p.total_lp_supply (unwrap_or o 0) amount ≡ some lp)
        (worth_lem p covered fits) h)

Credited-vault :
    (p q : StakePool) (amount lp : ℕ)
    → outflow p ≤ inflow p
    → is_resolved q ≡ is_resolved p
    → Credited p q amount lp
    → vault_of q ≡ record (vault_of p) {
      value = (vault_of p).value + amount;
      shares = (vault_of p).shares + lp;
    }
unfolding vault_of
Credited-vault p q amount lp covered flag c = ground (arith, c.same)

withdraw-IsFloor :
    (p : StakePool) (lp paid : ℕ)
    → calc_collateral_for_withdraw p lp ≡ some paid
    → IsFloor lp (inflow p - outflow p) p.total_lp_supply paid
withdraw-IsFloor p lp paid h =
    let (v, worth, price) = calc_collateral-value p lp paid h in
    let e : v ≡ inflow p - outflow p = omega (arith, total_pool_value-parts p v worth) in
    subst (λ (n : ℕ). IsFloor lp n p.total_lp_supply paid) e
      (calc_collateral_for_withdraw-IsFloor p.total_lp_supply v lp price)

Debited-vault :
    (p q : StakePool) (lp paid : ℕ)
    → is_resolved q ≡ is_resolved p
    → Debited p q paid lp
    → vault_of q
      ≡ record (vault_of p) { value = (vault_of p).value - paid; shares = (vault_of p).shares - lp }
unfolding vault_of
Debited-vault p q lp paid flag d = ground (arith, d.same)

flushed-vault :
    (p q : StakePool) (amount : ℕ)
    → q ≡ record p { total_flushed = p.total_flushed + amount }
    → vault_of q ≡ record (vault_of p) { value = (vault_of p).value - amount }
unfolding vault_of
flushed-vault p q amount e = ground (arith, flag_kept p q (ap (λ (r : StakePool). r.reserved) e))

returned-vault :
    (p q : StakePool) (amount : ℕ)
    → outflow p ≤ inflow p
    → q ≡ record p { total_returned = p.total_returned + amount }
    → vault_of q ≡ record (vault_of p) { value = (vault_of p).value + amount }
unfolding vault_of
returned-vault p q amount covered e =
    ground (arith, flag_kept p q (ap (λ (r : StakePool). r.reserved) e))

accrued-vault :
    (p q : StakePool) (fees : ℕ)
    → outflow p ≤ inflow p
    → p.pool_mode ≡ 1
    → is_resolved q ≡ is_resolved p
    → q ≡ record p {
      total_fees_earned = p.total_fees_earned + fees;
      last_fee_accrual_slot = q.last_fee_accrual_slot;
      last_vault_snapshot = q.last_vault_snapshot;
      reserved = q.reserved;
    }
    → vault_of q ≡ record (vault_of p) { value = (vault_of p).value + fees }
unfolding vault_of
accrued-vault p q fees covered mode flag e = ground arith

configured-vault :
    (p q : StakePool)
    → q ≡ record p { cooldown_slots = q.cooldown_slots; deposit_cap = q.deposit_cap }
    → vault_of q ≡ vault_of p
unfolding vault_of
configured-vault p q e = ground (arith, flag_kept p q (ap (λ (r : StakePool). r.reserved) e))

marked-vault :
    (p q : StakePool)
    → q ≡ record p { reserved = q.reserved }
    → vault_of q ≡ record (vault_of p) { resolved = is_resolved q }
unfolding vault_of
marked-vault p q e = ground arith

handed_over-vault :
    (p q : StakePool) → q ≡ record p { admin_transferred = 1 } → vault_of q ≡ vault_of p
unfolding vault_of
handed_over-vault p q e = ground (arith, flag_kept p q (ap (λ (r : StakePool). r.reserved) e))

pub vault_value : (p : StakePool) → (vault_of p).value ≡ inflow p - outflow p
unfolding vault_of
vault_value p = refl

vault_lending : (p : StakePool) → p.pool_mode ≡ 0 → (vault_of p).lending ≡ true
unfolding vault_of
vault_lending p mode = ground arith

flush_within :
    (p : StakePool) (amount : ℕ)
    → p.pool_mode ≡ 0
    → p.total_withdrawn + p.total_flushed + amount ≤ p.total_deposited + p.total_returned
    → amount ≤ (vault_of p).value
unfolding vault_of
flush_within p amount mode room = ground arith

marked_kept :
    (p q : StakePool)
    → is_resolved q ≡ is_resolved p
    → q ≡ record p { reserved = q.reserved }
    → vault_of q ≡ vault_of p
unfolding vault_of
marked_kept p q flag e = ground arith

-- Every move of a well-booked pool is a transaction of its vault, while the inflows fit a u64.
pub Move-Transact :
    (p q : StakePool)
    → IsPool p
    → Booked p
    → IsU64 (inflow q)
    → Move p q
    → Transact (vault_of p) (vault_of q)
unfolding vault_of
Move-Transact p q typed b fits (still e) = idle (ap vault_of e)
Move-Transact p q typed b fits (deposits amount lp answer some_lp open_pool flag c) =
    deposit amount lp open_pool some_lp
      (deposit-Issues p amount lp b.covered
        (omega (
          arith,
          fits,
          inflow-le p q (Move-Later p q (deposits amount lp answer some_lp open_pool flag c)),
        ))
        answer)
      (Credited-vault p q amount lp b.covered flag c)
Move-Transact p q typed b fits (withdraws lp paid price some_paid flag d) =
    withdraw lp paid d.covered some_paid (withdraw-IsFloor p lp paid price)
      (Debited-vault p q lp paid flag d)
Move-Transact p q typed b fits (flushes amount mode room e) =
    lend amount (vault_lending p mode) (flush_within p amount mode room)
      (flushed-vault p q amount e)
Move-Transact p q typed b fits (returns amount mode e) =
    gain amount (returned-vault p q amount b.covered e)
Move-Transact p q typed b fits (accrues fees mode flag e) =
    gain fees (accrued-vault p q fees b.covered mode flag e)
Move-Transact p q typed b fits (configures e) = idle (configured-vault p q e)
Move-Transact p q typed b fits (marks flag e) = idle (marked_kept p q flag e)
Move-Transact p q typed b fits (resolves flag e) =
    resolve (marked-vault p q e ∙ ap (λ (f : Bool). record (vault_of p) { resolved = f }) flag)
Move-Transact p q typed b fits (hands_over e) = idle (handed_over-vault p q e)
