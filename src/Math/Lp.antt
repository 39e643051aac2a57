-- ===== src/Math/Lp.antt =====
-- The pro-rata functions against exact division.
use native.Mathlib.Nat.{div-mul-le_self, lt-div-mul-add, div-eq_of_lt-le}
use percolator_vault.Base.{ℕ, ◌+◌, ◌*◌, ◌/◌, ◌≤◌, ◌<◌, ◌≡◌, ◌⊎◌, inl, inr, some, arith}
use percolator_vault.Base.Word.{IsU64, mul-IsU128}
use percolator_vault.Math.{pro_rata, calc_lp_for_deposit, calc_collateral_for_withdraw}

-- `q` is `a * b / c` rounded down.
pub record IsFloor (a b c q : ℕ) : Type 0 where
  pub divisor : 0 < c
  pub below : q * c ≤ a * b
  pub above : a * b < q * c + c
  pub fits : IsU64 q

-- At u64 inputs the u128 product does not overflow, so nothing but the divisor and the size of the
-- quotient can make the division fail.
pub pro_rata-IsFloor : (a b c q : ℕ) → pro_rata a b c ≡ some q → IsFloor a b c q
unfolding pro_rata
pro_rata-IsFloor a b c q h =
    ground (arith, div-mul-le_self (a * b) c, lt-div-mul-add {a = a * b} {b = c})

pub pro_rata_of_IsFloor :
    (a b c q : ℕ) → IsU64 a → IsU64 b → IsFloor a b c q → pro_rata a b c ≡ some q
unfolding pro_rata
pro_rata_of_IsFloor a b c q ha hb f = ground (arith, mul-IsU128 a b ha hb, quotient)
  where
    quotient : a * b / c ≡ q
    quotient = div-eq_of_lt-le {k = q} c {m = a * b} f.below (omega (arith, f.above))

-- What a deposit may be answered with.
abbrev pub Issues : ℕ → ℕ → ℕ → ℕ → Type 0
Issues supply value amount lp =
    ((supply ≡ 0) × (value ≡ 0) × (lp ≡ amount)) ⊎ ((0 < supply) × IsFloor amount supply value lp)

pub calc_lp_for_deposit-Issues :
    (supply value amount : ℕ) {lp : ℕ}
    → calc_lp_for_deposit supply value amount ≡ some lp
    → Issues supply value amount lp
unfolding calc_lp_for_deposit
calc_lp_for_deposit-Issues supply value amount {lp} h =
    ground (arith, pro_rata-IsFloor amount supply value lp)

-- At a u64 supply and deposit, a deposit is answered whenever it may be: one for one in an empty pool
-- without value, and otherwise the deposit times the supply over the value, rounded down, where that
-- fits a u64.
pub calc_lp_for_deposit_of_Issues :
    (supply value amount lp : ℕ)
    → IsU64 supply
    → IsU64 amount
    → Issues supply value amount lp
    → calc_lp_for_deposit supply value amount ≡ some lp
unfolding calc_lp_for_deposit
calc_lp_for_deposit_of_Issues supply value amount lp hs ha (inl first) = ground arith
calc_lp_for_deposit_of_Issues supply value amount lp hs ha (inr (pos, f)) =
    ground (arith, pro_rata_of_IsFloor amount supply value lp ha hs f, f.divisor)

pub calc_collateral_for_withdraw-IsFloor :
    (supply value lp : ℕ) {collateral : ℕ}
    → calc_collateral_for_withdraw supply value lp ≡ some collateral
    → IsFloor lp value supply collateral
unfolding calc_collateral_for_withdraw
calc_collateral_for_withdraw-IsFloor supply value lp {collateral} h =
    ground (arith, pro_rata-IsFloor lp value supply collateral)

pub calc_collateral_for_withdraw_of_IsFloor :
    (supply value lp collateral : ℕ)
    → IsU64 value
    → IsU64 lp
    → IsFloor lp value supply collateral
    → calc_collateral_for_withdraw supply value lp ≡ some collateral
unfolding calc_collateral_for_withdraw
calc_collateral_for_withdraw_of_IsFloor supply value lp collateral hv hl f =
    ground (arith, pro_rata_of_IsFloor lp value supply collateral hl hv f, f.divisor)
