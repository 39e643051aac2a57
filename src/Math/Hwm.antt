-- ===== src/Math/Hwm.antt =====
-- The high-water mark floor of a withdrawal.
use percolator_vault.Base.{ℕ, ◌+◌, ◌*◌, ◌≤◌, ◌<◌, ◌≡◌, true, arith}
use percolator_vault.Base.Word.{IsU64, IsU16}
use percolator_vault.Math.{hwm_withdrawal_allowed}
use mathlib.Core.Logic.{◌↔◌}

-- At a u64 remaining value and mark and a u16 `bps`, a withdrawal is allowed exactly when the value
-- that remains is at least the mark's share of `bps` ten-thousandths, rounded down.
pub hwm_withdrawal_allowed_iff :
    (remaining mark bps : ℕ)
    → IsU64 remaining
    → IsU64 mark
    → IsU16 bps
    → (hwm_withdrawal_allowed remaining mark bps ≡ true) ↔ (mark * bps < (remaining + 1) * 10_000)
unfolding hwm_withdrawal_allowed
hwm_withdrawal_allowed_iff remaining mark bps hr hm hb = ground (arith, product_fits)
  where
    product_fits : mark * bps ≤ 0xffff_ffff_ffff_ffff * 0xffff
    product_fits = grind arith
