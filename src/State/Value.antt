-- ===== src/State/Value.antt =====
-- The value of a pool, and the baseline of its fee accrual.
use percolator_vault.Base.{ℕ, ◌+◌, ◌≡◌, some, ◌==◌, if◌then◌else◌, arith}
use percolator_vault.Base.Word.{IsU64, checked_add, checked_sub}
use percolator_vault.State.{StakePool, total_pool_value, accrual_baseline}

-- All that came into the pool, and all that left it.
abbrev pub inflow : StakePool → ℕ
inflow p =
    p.total_deposited + p.total_returned + (if p.pool_mode == 1 then p.total_fees_earned else 0)

abbrev pub outflow : StakePool → ℕ
outflow p = p.total_withdrawn + p.total_flushed

pub total_pool_value-parts :
    (p : StakePool) (v : ℕ)
    → total_pool_value p ≡ some v
    → (v + outflow p ≡ inflow p) × IsU64 (inflow p)
unfolding total_pool_value checked_add checked_sub
total_pool_value-parts p v h = ground arith

pub total_pool_value_of_parts :
    (p : StakePool) (v : ℕ)
    → v + outflow p ≡ inflow p
    → IsU64 (inflow p)
    → total_pool_value p ≡ some v
unfolding total_pool_value checked_add checked_sub
total_pool_value_of_parts p v h fits = ground arith

-- On a trading pool that has never flushed or been returned insurance, and whose withdrawn total
-- fits a u64, the baseline of the accrual is the pool's value.
pub accrual_baseline-total_pool_value :
    (p : StakePool)
    → p.pool_mode ≡ 1
    → p.total_flushed ≡ 0
    → p.total_returned ≡ 0
    → IsU64 p.total_withdrawn
    → accrual_baseline p ≡ total_pool_value p
unfolding accrual_baseline total_pool_value checked_add checked_sub
accrual_baseline-total_pool_value p mode flushed returned fits = ground arith
