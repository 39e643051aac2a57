-- ===== src/Processor/Profit.antt =====
-- A deposit and the withdrawal of the tokens it minted (`process_deposit` and `process_withdraw` of
-- src/processor.rs).
use percolator_vault.Base.{subst, ℕ, ◌+◌, ◌-◌, ◌≤◌, ◌≡◌, ap, sym, some, List, Option, arith}
use percolator_vault.Base.Maybe.{unwrap_or}
use percolator_vault.Base.Word.{IsU64}
use percolator_vault.Error.{ok}
use percolator_vault.Math
use percolator_vault.Math.Shares.{withdraw-deposit_no_profit}
use percolator_vault.State.{StakePool, calc_lp_for_deposit, calc_collateral_for_withdraw}
use percolator_vault.State.Value.{
  inflow, outflow, total_pool_value-parts, total_pool_value_of_parts,
}
use percolator_vault.Runtime.{Pubkey, AccountInfo, World, Runtime}
use percolator_vault.Runtime.Laws.{RuntimeLaws}
use percolator_vault.Runtime.Store.{pool_at}
use percolator_vault.Processor.Deposit.{DepositAccounts, deposit_accounts, process_deposit}
use percolator_vault.Processor.Deposit.Books.{Credited}
use percolator_vault.Processor.Deposit.Effect.{process_deposit-Credited}
use percolator_vault.Processor.Withdraw.{WithdrawAccounts, withdraw_accounts, process_withdraw}
use percolator_vault.Processor.Withdraw.Books.{Debited, calc_collateral-value}
use percolator_vault.Processor.Withdraw.Effect.{Apart, process_withdraw-Withdrawn}

-- While the inflows fit a u64, the program prices a deposit by the vault's value.
priced_at :
    (p : StakePool) (amount lp : ℕ)
    → outflow p ≤ inflow p
    → IsU64 (inflow p)
    → calc_lp_for_deposit p amount ≡ some lp
    → Math.calc_lp_for_deposit p.total_lp_supply (inflow p - outflow p) amount ≡ some lp
unfolding calc_lp_for_deposit
priced_at p amount lp covered fits h =
    subst
      (λ (o : Option ℕ).
        Math.calc_lp_for_deposit p.total_lp_supply (unwrap_or o 0) amount ≡ some lp)
      (total_pool_value_of_parts p (inflow p - outflow p) (omega arith) fits) h

sums_after :
    (p q : StakePool) (amount lp : ℕ)
    → Credited p q amount lp
    → (inflow q ≡ inflow p + amount)
      × (outflow q ≡ outflow p)
      × (q.total_lp_supply ≡ p.total_lp_supply + lp)
      × (q.total_withdrawn ≡ p.total_withdrawn)
sums_after p q amount lp c = ground (arith, c.same)

-- What a pool gives back for the tokens of a deposit that it has just taken.
no_profit :
    (p q : StakePool) (amount lp back : ℕ)
    → outflow p ≤ inflow p
    → calc_lp_for_deposit p amount ≡ some lp
    → Credited p q amount lp
    → calc_collateral_for_withdraw q lp ≡ some back
    → back ≤ amount
no_profit p q amount lp back covered issued c returned =
    let (v, worth, price) = calc_collateral-value q lp back returned in
    let (sum, fits) = total_pool_value-parts q v worth in
    let (inflows, outflows, supply, _) = sums_after p q amount lp c in
    let value : v ≡ inflow p - outflow p + amount =
      omega (arith, sum, inflows, outflows, covered) in
    withdraw-deposit_no_profit p.total_lp_supply (inflow p - outflow p) amount lp back
      (priced_at p amount lp covered (omega (arith, fits, inflows)) issued)
      (subst
        (λ (n : ℕ).
          Math.calc_collateral_for_withdraw n (inflow p - outflow p + amount) lp ≡ some back)
        supply
        (subst (λ (n : ℕ). Math.calc_collateral_for_withdraw q.total_lp_supply n lp ≡ some back)
          value price))

books_no_profit :
    (p q r : StakePool) (amount lp minted back : ℕ)
    → outflow p ≤ inflow p
    → calc_lp_for_deposit p amount ≡ some minted
    → Credited p q amount minted
    → q.total_lp_supply ≡ p.total_lp_supply + lp
    → calc_collateral_for_withdraw q lp ≡ some back
    → Debited q r back lp
    → (r.total_withdrawn ≤ p.total_withdrawn + amount) × (r.total_lp_supply ≡ p.total_lp_supply)
books_no_profit p q r amount lp minted back covered issued c supply returned d =
    let (_, _, grown, withdrawn) = sums_after p q amount minted c in
    let same : lp ≡ minted = omega (arith, grown, supply) in
    let within =
      no_profit p q amount minted back covered issued c
        (subst (λ (n : ℕ). calc_collateral_for_withdraw q n ≡ some back) same returned) in
    (
      omega (arith, within, withdrawn, ap (λ (s : StakePool). s.total_withdrawn) d.same),
      omega (arith, supply, ap (λ (s : StakePool). s.total_lp_supply) d.same),
    )

module _ {D : Type 0} (rt : Runtime D) (laws : RuntimeLaws rt) (program_id : Pubkey) where
  -- Whoever deposits into a pool that has let no more out than came in, and later burns the tokens
  -- that the deposit minted, with the pool as the deposit left it and the record apart from the
  -- token accounts, is paid no more than the deposit: the pool's withdrawn total grows by at most the
  -- collateral, and its supply is what it was before the deposit.
  pub process_withdraw-process_deposit_no_profit :
      (accounts accounts' : List AccountInfo) (amount lp : ℕ) (w w₁ w₂ w₃ : World D)
      (a : DepositAccounts) (a' : WithdrawAccounts)
      → deposit_accounts accounts ≡ ok a
      → outflow (pool_at rt w a.pool_pda.key) ≤ inflow (pool_at rt w a.pool_pda.key)
      → process_deposit rt program_id accounts amount w ≡ ok w₁
      → pool_at rt w₂ a.pool_pda.key ≡ pool_at rt w₁ a.pool_pda.key
      → (pool_at rt w₁ a.pool_pda.key).total_lp_supply
        ≡ (pool_at rt w a.pool_pda.key).total_lp_supply + lp
      → withdraw_accounts accounts' ≡ ok a'
      → Apart a'
      → a'.pool_pda.key ≡ a.pool_pda.key
      → process_withdraw rt program_id accounts' lp w₂ ≡ ok w₃
      → ((pool_at rt w₃ a.pool_pda.key).total_withdrawn
          ≤ (pool_at rt w a.pool_pda.key).total_withdrawn + amount)
        × ((pool_at rt w₃ a.pool_pda.key).total_lp_supply
            ≡ (pool_at rt w a.pool_pda.key).total_lp_supply)
  process_withdraw-process_deposit_no_profit accounts accounts' amount lp w w₁ w₂ w₃ a a' named
        covered h kept minted named' apart same h' =
      let (issued, price, _, credit) =
        process_deposit-Credited rt laws program_id accounts amount w w₁ a named h in
      let out =
        process_withdraw-Withdrawn rt laws program_id accounts' lp w₂ w₃ a' named' apart h' in
      let left =
        subst (λ (k : Pubkey). pool_at rt w₂ k ≡ pool_at rt w₁ a.pool_pda.key) (sym same) kept in
      let priced =
        subst (λ (p : StakePool). calc_collateral_for_withdraw p lp ≡ some out.paid) left
          out.price in
      let debited =
        subst (λ (p : StakePool). Debited p (pool_at rt w₃ a'.pool_pda.key) out.paid lp) left
          out.debited in
      books_no_profit (pool_at rt w a.pool_pda.key) (pool_at rt w₁ a.pool_pda.key)
        (pool_at rt w₃ a.pool_pda.key) amount lp issued out.paid covered price credit minted priced
        (subst
          (λ (k : Pubkey). Debited (pool_at rt w₁ a.pool_pda.key) (pool_at rt w₃ k) out.paid lp)
          same debited)
