-- ===== src/Math/Slot.antt =====
-- The slot from which a topped-up position counts its cooldown.
use native.Mathlib.Nat.{
  div-mul-le_self, div-le_of_le-mul, mul-le-mul_left, mul-lt-mul_of_pos_left,
  le_of_mul-le-mul_right,
}
use percolator_vault.Base.{ℕ, ◌+◌, ◌-◌, ◌*◌, ◌/◌, ◌≤◌, ◌<◌, ◌≡◌, arith}
use percolator_vault.Base.Word.{IsU64, mul-IsU128}
use percolator_vault.Math.{blended_slot, freshness_floor, weighted_deposit_slot}

-- Two quotients by `t` add up to at most `m` when the dividends add up to at most `m * t`.
div_sum-le : (a b m t : ℕ) → 0 < t → a + b ≤ m * t → a / t + b / t ≤ m
div_sum-le a b m t pos h =
    le_of_mul-le-mul_right {k = t} (omega (arith, div-mul-le_self a t, div-mul-le_self b t)) pos

div_part-lt : (a m t : ℕ) → 0 < t → a < m * t → a / t < m
div_part-lt a m t pos h = lt_of_scaled (a / t) m t (omega (arith, div-mul-le_self a t))
  where
    lt_of_scaled : (a b c : ℕ) → a * c < b * c → a < b
    lt_of_scaled a b c h = grind arith

module _ (existing_lp existing_slot new_lp current_slot cooldown : ℕ) (lp_fits : IsU64 existing_lp)
    (new_fits : IsU64 new_lp) (slot_fits : IsU64 current_slot)
    (cooldown_fits : IsU64 cooldown) where
  span-le :
      existing_slot ≤ current_slot
      → new_lp * (current_slot - existing_slot) / (existing_lp + new_lp)
        ≤ current_slot - existing_slot
  span-le past = div-le_of_le-mul _ (omega arith)

  -- At u64 inputs no u128 operation wraps, and the blend is the average without the anchor.
  blended_slot_eq :
      existing_slot ≤ current_slot
      → 0 < existing_lp + new_lp
      → blended_slot existing_lp existing_slot new_lp current_slot (existing_lp + new_lp)
        ≡ existing_slot + new_lp * (current_slot - existing_slot) / (existing_lp + new_lp)
  unfolding blended_slot
  blended_slot_eq past pos =
      ground (
        arith,
        span-le past,
        mul-IsU128 new_lp (current_slot - existing_slot) new_fits (omega arith),
      )

  credit-le : 0 < existing_lp + new_lp → cooldown * existing_lp / (existing_lp + new_lp) ≤ cooldown
  credit-le pos = div-le_of_le-mul _ (omega arith)

  freshness_floor_eq :
      0 < existing_lp + new_lp
      → freshness_floor existing_lp current_slot cooldown (existing_lp + new_lp)
        ≡ current_slot - cooldown * existing_lp / (existing_lp + new_lp)
  unfolding freshness_floor
  freshness_floor_eq pos =
      ground (arith, credit-le pos, mul-IsU128 cooldown existing_lp cooldown_fits lp_fits)

  shares-le :
      0 < new_lp
      → cooldown * existing_lp / (existing_lp + new_lp) + cooldown * new_lp / (existing_lp + new_lp)
        ≤ cooldown
  shares-le fresh = div_sum-le _ _ cooldown (existing_lp + new_lp) (omega arith) (omega arith)

  credit-lt : 0 < new_lp → 0 < cooldown → cooldown * existing_lp / (existing_lp + new_lp) < cooldown
  credit-lt fresh some_cooldown = div_part-lt _ cooldown (existing_lp + new_lp) (omega arith) (
      mul-lt-mul_of_pos_left {m = existing_lp} {n = existing_lp + new_lp} (omega arith)
        some_cooldown)

  aged_parts-le :
      existing_slot + cooldown ≤ current_slot
      → 0 < new_lp
      → cooldown * existing_lp / (existing_lp + new_lp)
          + new_lp * (current_slot - existing_slot) / (existing_lp + new_lp)
        ≤ current_slot - existing_slot
  aged_parts-le aged fresh =
      div_sum-le _ _ (current_slot - existing_slot) (existing_lp + new_lp) (omega arith) (
        omega (
          arith,
          mul-le-mul_left {m = cooldown} {n = current_slot - existing_slot} existing_lp
              (omega arith),
        ))

  -- At u64 inputs and a slot not in the future, the new slot lies between the old one and the
  -- present: a top-up never sets the clock back, and never puts it in the future.
  pub weighted_deposit_slot_bounds :
      existing_slot ≤ current_slot
      → let slot = weighted_deposit_slot existing_lp existing_slot new_lp current_slot cooldown in
        (existing_slot ≤ slot) × (slot ≤ current_slot)
  unfolding weighted_deposit_slot
  weighted_deposit_slot_bounds past =
      ground (arith, span-le past, blended_slot_eq past, freshness_floor_eq)

  -- At u64 inputs, with new tokens and a cooldown, the position waits after a top-up at least the
  -- cooldown's share of the new tokens, and at least one slot.
  pub weighted_deposit_slot_locks :
      0 < new_lp
      → 0 < cooldown
      → let slot = weighted_deposit_slot existing_lp existing_slot new_lp current_slot cooldown in
        (current_slot + cooldown * new_lp / (existing_lp + new_lp) ≤ slot + cooldown)
        × (current_slot < slot + cooldown)
  unfolding weighted_deposit_slot
  weighted_deposit_slot_locks fresh some_cooldown =
      ground (arith, freshness_floor_eq, shares-le fresh, credit-lt fresh some_cooldown)

  -- At u64 inputs, a position that has served its cooldown counts, after a top-up with new tokens,
  -- from the present less the share of the cooldown that the old tokens have earned.
  pub weighted_deposit_slot_aged :
      existing_slot + cooldown ≤ current_slot
      → 0 < new_lp
      → weighted_deposit_slot existing_lp existing_slot new_lp current_slot cooldown
        ≡ current_slot - cooldown * existing_lp / (existing_lp + new_lp)
  unfolding weighted_deposit_slot
  weighted_deposit_slot_aged aged fresh =
      ground (arith, blended_slot_eq, freshness_floor_eq, aged_parts-le aged fresh)
