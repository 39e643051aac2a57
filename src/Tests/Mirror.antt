-- ===== src/Tests/Mirror.antt =====
-- The theorems on the u32 arithmetic (kani-proofs/src/lib.rs) at concrete inputs.
use percolator_vault.Base.{◌≡◌, refl, some, arith}
use percolator_vault.Base.Maybe.{◌>>=◌}
use percolator_vault.Base.Word.{checked_sub}
use percolator_vault.Math
use percolator_vault.State.{total_pool_value}
use percolator_vault.Mirror
use percolator_vault.Mirror.{pool_value_with_flush, checked_add_u32}
use percolator_vault.Mirror.Narrow.{narrow, mirror-narrow, mirror-total_pool_value}
use percolator_vault.Tests.Books.{trading_pool}

mirror-narrow_example :
    (Mirror.calc_lp_for_deposit 70_000 1 70_000
      ≡ (Math.calc_lp_for_deposit 70_000 1 70_000 >>= narrow))
    × (Mirror.calc_collateral_for_withdraw 70_000 1 70_000
        ≡ (Math.calc_collateral_for_withdraw 70_000 1 70_000 >>= narrow))
mirror-narrow_example = mirror-narrow 70_000 1 70_000 (omega arith) (omega arith) (omega arith)

mirror-total_pool_value_example :
    (total_pool_value (record trading_pool { pool_mode = 0 }) ≡ some 4300)
    × (Mirror.flush_available 5000 700 0 ≡ Math.flush_available 5000 0 700 0)
unfolding pool_value_with_flush checked_sub checked_add_u32
mirror-total_pool_value_example =
    mirror-total_pool_value (record trading_pool { pool_mode = 0 }) 4300 refl (omega arith)
      (omega arith) refl
