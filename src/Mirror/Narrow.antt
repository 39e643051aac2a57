-- ===== src/Mirror/Narrow.antt =====
-- The u32 arithmetic of kani-proofs/src/lib.rs against the u64 arithmetic of src/math.rs and
-- src/state.rs.
use percolator_vault.Base.{ℕ, ◌*◌, ◌≤◌, ◌≡◌, Option, none, some, ltb, if◌then◌else◌, arith}
use percolator_vault.Base.Maybe.{◌>>=◌}
use percolator_vault.Base.Word.{
  checked_add, checked_sub, checked_mul, checked_div, saturating_add, saturating_sub, as_u64,
}
use percolator_vault.Math
use percolator_vault.Math.{pro_rata}
use percolator_vault.State.{StakePool, total_pool_value}
use percolator_vault.Mirror.{
  u32_max, IsU32, checked_add_u32, checked_mul_u64, pro_rata_u32, calc_lp_for_deposit,
  calc_collateral_for_withdraw, pool_value_with_flush, flush_available,
}

-- A result that fits a u32.
abbrev pub narrow : ℕ → Option ℕ
narrow n = if ltb u32_max n then none else some n

product_fits : (a b : ℕ) → IsU32 a → IsU32 b → a * b ≤ u32_max * u32_max
product_fits a b ha hb = grind arith

pro_rata-narrow : (a b c : ℕ) → IsU32 a → IsU32 b → pro_rata_u32 a b c ≡ (pro_rata a b c >>= narrow)
unfolding pro_rata_u32 pro_rata checked_mul_u64 checked_mul checked_div as_u64
pro_rata-narrow a b c ha hb = ground (arith, product_fits a b ha hb)

-- On u32 arguments the checked functions are those of the program with results above u32::MAX
-- refused: the two share calculations answer what the program's answer, where that fits a u32.
pub mirror-narrow :
    (supply value amount : ℕ)
    → IsU32 supply
    → IsU32 value
    → IsU32 amount
    → (calc_lp_for_deposit supply value amount
        ≡ (Math.calc_lp_for_deposit supply value amount >>= narrow))
      × (calc_collateral_for_withdraw supply value amount
          ≡ (Math.calc_collateral_for_withdraw supply value amount >>= narrow))
unfolding calc_lp_for_deposit calc_collateral_for_withdraw Math.calc_lp_for_deposit
    Math.calc_collateral_for_withdraw
mirror-narrow supply value amount hs hv ha = (
  ground (arith, pro_rata-narrow amount supply value ha hs),
  ground (arith, pro_rata-narrow amount value supply ha hv),
)

-- A value that the mirror finds from u32 totals is the value of a pool of mode 0 with those totals,
-- and its room for a flush is the program's room for a pool that was returned nothing.
pub mirror-total_pool_value :
    (p : StakePool) (value : ℕ)
    → p.pool_mode ≡ 0
    → IsU32 p.total_deposited
    → IsU32 p.total_returned
    → pool_value_with_flush p.total_deposited p.total_withdrawn p.total_flushed p.total_returned
      ≡ some value
    → (total_pool_value p ≡ some value)
      × (flush_available p.total_deposited p.total_withdrawn p.total_flushed
          ≡ Math.flush_available p.total_deposited 0 p.total_withdrawn p.total_flushed)
unfolding pool_value_with_flush total_pool_value checked_sub checked_add checked_add_u32
    flush_available Math.flush_available saturating_add saturating_sub
mirror-total_pool_value p value mode hd hr h = ground arith
