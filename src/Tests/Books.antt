-- ===== src/Tests/Books.antt =====
-- The theorems on the pool's record (src/state.rs) at a concrete pool.
use percolator_vault.Base.{◌≡◌, refl, replicate, set, arith}
use percolator_vault.State.{StakePool, IsReserved, total_pool_value, accrual_baseline, refresh_hwm}
use percolator_vault.State.Packed.{packed}
use percolator_vault.State.Refresh.{refreshed, refresh_hwm-packed}
use percolator_vault.State.Value.{accrual_baseline-total_pool_value}

-- A trading pool with flags set in its reserved bytes.
abbrev pub trading_pool : StakePool
trading_pool = record {
  is_initialized = 1;
  bump = 254;
  vault_authority_bump = 255;
  admin_transferred = 1;
  padding = replicate 4 0;
  slab = 11;
  admin = 12;
  collateral_mint = 13;
  lp_mint = 14;
  vault = 15;
  total_deposited = 5000;
  total_lp_supply = 4000;
  cooldown_slots = 100;
  deposit_cap = 0;
  total_flushed = 0;
  total_returned = 0;
  total_withdrawn = 700;
  percolator_program = 16;
  total_fees_earned = 250;
  last_fee_accrual_slot = 9;
  last_vault_snapshot = 4550;
  pool_mode = 1;
  mode_padding = replicate 7 0;
  reserved = set (replicate 64 0) 9 2;
}

pub trading_pool-IsReserved : IsReserved trading_pool.reserved
trading_pool-IsReserved = (refl, ground arith)

accrual_baseline_example : accrual_baseline trading_pool ≡ total_pool_value trading_pool
accrual_baseline_example =
    accrual_baseline-total_pool_value trading_pool refl refl refl (omega arith)

refresh_hwm-packed_example :
    packed (refresh_hwm trading_pool 3 4550).0 ≡ refreshed (packed trading_pool) 3 4550
refresh_hwm-packed_example =
    refresh_hwm-packed trading_pool 3 4550 trading_pool-IsReserved (omega arith) (omega arith)
