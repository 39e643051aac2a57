-- ===== src/Processor/Deposit/Books.antt =====
-- The books of the pool after a successful `process_deposit` (src/processor.rs).
use percolator_vault.Base.{ℕ, ◌+◌, ◌≡◌, ap, ◌∙◌, List, some, arith}
use percolator_vault.Base.Maybe.{unwrap_or}
use percolator_vault.Base.Word.{IsU64, checked_add}
use percolator_vault.Error.{ok}
use percolator_vault.State.{
  StakePool, IsPool, IsReserved, total_pool_value, refresh_hwm, set_hwm_last_epoch,
  set_epoch_high_water_tvl,
}
use percolator_vault.State.Value.{inflow, total_pool_value-parts, total_pool_value_of_parts}
use percolator_vault.State.Reserved.{
  set_epoch_high_water_tvl-IsReserved, set_hwm_last_epoch-IsReserved,
}
use percolator_vault.Runtime.{Clock}
use percolator_vault.Processor.Deposit.{credit_pool, mark_deposit}

pub refresh_hwm_fields :
    (p : StakePool) (epoch tvl : ℕ)
    → (refresh_hwm p epoch tvl).0 ≡ record p { reserved = (refresh_hwm p epoch tvl).0.reserved }
unfolding refresh_hwm set_hwm_last_epoch set_epoch_high_water_tvl
refresh_hwm_fields p epoch tvl = ground arith

-- A refresh keeps 64 bytes.
pub refresh_hwm_bytes :
    (p : StakePool) (epoch tvl : ℕ)
    → IsReserved p.reserved
    → IsReserved (refresh_hwm p epoch tvl).0.reserved
unfolding refresh_hwm
refresh_hwm_bytes p epoch tvl wf =
    ground
      (arith, raised, set_hwm_last_epoch-IsReserved (set_epoch_high_water_tvl p tvl) raised epoch)
  where
    raised : IsReserved (set_epoch_high_water_tvl p tvl).reserved
    raised = set_epoch_high_water_tvl-IsReserved p wf tvl

pub with_reserved-IsPool :
    (p : StakePool) (r : List ℕ) → IsPool p → IsReserved r → IsPool (record p { reserved = r })
with_reserved-IsPool p r v wf = ground arith

pub refresh_hwm-IsPool :
    (p : StakePool) (epoch tvl : ℕ) → IsPool p → IsPool (refresh_hwm p epoch tvl).0
refresh_hwm-IsPool p epoch tvl v = rw (refresh_hwm_fields p epoch tvl) (
    with_reserved-IsPool p (refresh_hwm p epoch tvl).0.reserved v
      (refresh_hwm_bytes p epoch tvl (v.reserved_length, v.reserved_bytes)))

-- A mark changes the reserved bytes alone.
pub mark_deposit_fields :
    (p : StakePool) (clock : Clock)
    → mark_deposit p clock ≡ record p { reserved = (mark_deposit p clock).reserved }
unfolding mark_deposit
mark_deposit_fields p clock =
    ground (arith, refresh_hwm_fields p clock.epoch (unwrap_or (total_pool_value p) 0))

mark_deposit-IsPool : (p : StakePool) (clock : Clock) → IsPool p → IsPool (mark_deposit p clock)
unfolding mark_deposit
mark_deposit-IsPool p clock v =
    ground (arith, refresh_hwm-IsPool p clock.epoch (unwrap_or (total_pool_value p) 0) v)

pub credit_pool-IsPool :
    (p q : StakePool) (amount lp : ℕ) → IsPool p → credit_pool p amount lp ≡ ok q → IsPool q
unfolding credit_pool checked_add
credit_pool-IsPool p q amount lp v h = ground arith

-- What the pool's record is after a deposit: the totals grow by the collateral and the tokens, and
-- but for them and the reserved bytes nothing changes.
pub record Credited (p q : StakePool) (amount lp : ℕ) : Type 0 where
  pub same : q ≡ record p {
    total_deposited = p.total_deposited + amount;
    total_lp_supply = p.total_lp_supply + lp;
    reserved = q.reserved;
  }
  pub typed : IsPool q

pub credit_pool_fields :
    (p q : StakePool) (amount lp : ℕ)
    → credit_pool p amount lp ≡ ok q
    → q ≡ record p {
      total_deposited = p.total_deposited + amount;
      total_lp_supply = p.total_lp_supply + lp;
    }
unfolding credit_pool checked_add
credit_pool_fields p q amount lp h = ground arith

pub mark_deposit-Credited :
    (p q : StakePool) (amount lp : ℕ) (clock : Clock)
    → IsPool p
    → credit_pool p amount lp ≡ ok q
    → Credited p (mark_deposit q clock) amount lp
mark_deposit-Credited p q amount lp clock v h = record {
  same =
      mark_deposit_fields q clock
      ∙ ap (λ (s : StakePool). record s { reserved = (mark_deposit q clock).reserved })
          (credit_pool_fields p q amount lp h);
  typed = mark_deposit-IsPool q clock (credit_pool-IsPool p q amount lp v h);
}

-- A credited pool is worth its old value and the collateral, as long as the inflows fit a u64.
pub Credited-value :
    (p q : StakePool) (amount lp v : ℕ)
    → Credited p q amount lp
    → total_pool_value p ≡ some v
    → IsU64 (inflow p + amount)
    → total_pool_value q ≡ some (v + amount)
Credited-value p q amount lp v c worth fits = rw (c.same) (
    total_pool_value_of_parts
      (record p {
        total_deposited = p.total_deposited + amount;
        total_lp_supply = p.total_lp_supply + lp;
        reserved = q.reserved;
      })
      (v + amount) (omega (arith, (total_pool_value-parts p v worth).0)) (omega arith))
