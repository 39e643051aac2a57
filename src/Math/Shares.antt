-- ===== src/Math/Shares.antt =====
-- What the rounding of deposits and withdrawals means for the holders of LP tokens.
use native.Mathlib.Nat.{mul-le-mul_left, mul-le-mul_right, le_of_mul-le-mul_right, le_antisymm}
use percolator_vault.Base.{ℕ, ◌+◌, ◌-◌, ◌*◌, ◌≤◌, ◌<◌, ◌≡◌, inl, inr, some, arith}
use percolator_vault.Math.{calc_lp_for_deposit, calc_collateral_for_withdraw}
use percolator_vault.Math.Lp.{
  IsFloor, Issues, calc_lp_for_deposit-Issues, calc_collateral_for_withdraw-IsFloor,
}

-- A burn after a deposit, at the pool with the deposit in it.
round_trip-le :
    (supply value amount lp back : ℕ)
    → 0 < supply + lp
    → lp * value ≤ amount * supply
    → back * (supply + lp) ≤ lp * (value + amount)
    → back ≤ amount
round_trip-le supply value amount lp back pos issued returned =
    le_of_mul-le-mul_right {k = supply + lp} (omega arith) pos

-- Depositing and burning the tokens received at once, where both are answered, returns at most the
-- deposit.
pub withdraw-deposit_no_profit :
    (supply value amount lp back : ℕ)
    → calc_lp_for_deposit supply value amount ≡ some lp
    → calc_collateral_for_withdraw (supply + lp) (value + amount) lp ≡ some back
    → back ≤ amount
withdraw-deposit_no_profit supply value amount lp back issued returned =
    elim (calc_lp_for_deposit-Issues supply value amount issued) [
      | inl (no_supply, no_value, same) ↦
          round_trip-le supply value amount lp back g.divisor (rw no_value (omega arith)) g.below
      | inr (some_supply, f) ↦ round_trip-le supply value amount lp back g.divisor f.below g.below
    ]
  where
    g : IsFloor lp (value + amount) (supply + lp) back
    g = calc_collateral_for_withdraw-IsFloor (supply + lp) (value + amount) lp returned

lt_of_mul-lt-mul : (a b c : ℕ) → a * c < b * c → a < b
lt_of_mul-lt-mul a b c h = grind arith

le_of_lt-suc : (a b : ℕ) → a < b + 1 → a ≤ b
le_of_lt-suc a b h = omega arith

-- The share price, value over supply, does not fall when tokens are issued.
pub issue_price :
    (supply value amount lp : ℕ)
    → 0 < supply
    → Issues supply value amount lp
    → value * (supply + lp) ≤ (value + amount) * supply
issue_price supply value amount lp pos (inl (no_supply, _, _)) = absurd (omega arith)
issue_price supply value amount lp pos (inr (_, f)) = omega (arith, f.below)

le_value :
    (supply value burned paid : ℕ)
    → burned ≤ supply
    → IsFloor burned value supply paid
    → paid ≤ value
le_value supply value burned paid within f =
    le_of_mul-le-mul_right {k = supply} (omega (arith, f.below, mul-le-mul_right value within))
      f.divisor

whole : (supply value paid : ℕ) → IsFloor supply value supply paid → paid ≡ value
whole supply value paid f =
    le_antisymm (le_of_mul-le-mul_right {k = supply} (omega (arith, f.below)) f.divisor)
      (le_of_lt-suc value paid (lt_of_mul-lt-mul value (paid + 1) supply (omega (arith, f.above))))

payout_sum :
    (burned rest paid left : ℕ)
    → paid * (burned + rest) ≤ burned * (paid + left)
    → (paid + left) * rest ≤ left * (burned + rest)
payout_sum burned rest paid left h = omega arith

-- Nor when a burn is paid out.
pub payout_price :
    (supply value burned paid : ℕ)
    → burned ≤ supply
    → IsFloor burned value supply paid
    → value * (supply - burned) ≤ (value - paid) * supply
payout_price supply value burned paid within f =
    let e : burned + (supply - burned) ≡ supply = omega arith in
    let e' : paid + (value - paid) ≡ value =
      omega (arith, le_value supply value burned paid within f) in
    rw (e, e') at (payout_sum burned (supply - burned) paid (value - paid) (rw (e, e') f.below))

split_sum :
    (first spare second paid_first paid_second left : ℕ)
    → 0 < second + spare
    → paid_first * (first + (second + spare)) ≤ first * (paid_first + left)
    → paid_second * (second + spare) ≤ second * left
    → (paid_first + paid_second) * (first + (second + spare))
      ≤ (first + second) * (paid_first + left)
split_sum first spare second paid_first paid_second left pos f g =
    le_of_mul-le-mul_right {k = second + spare}
      (omega (
        arith,
        mul-le-mul_right spare remaining,
        mul-le-mul_right first g,
        mul-le-mul_right (second + spare) g,
      ))
      pos
  where
    remaining : paid_first * (second + spare) ≤ first * left
    remaining = omega arith

-- A holding is worth no less at a share price that is no lower.
floor_mono :
    (held s v s' v' before after : ℕ)
    → v * s' ≤ v' * s
    → IsFloor held v s before
    → IsFloor held v' s' after
    → before ≤ after
floor_mono held s v s' v' before after price f g =
    le_of_lt-suc before after
      (lt_of_mul-lt-mul before (after + 1) s' (omega (arith, g.above, scaled)))
  where
    scaled : before * s' ≤ held * v'
    scaled =
        le_of_mul-le-mul_right {k = s}
          (omega (arith, mul-le-mul_right s' f.below, mul-le-mul_left held price)) f.divisor

-- With LP tokens outstanding, a deposit that is answered leaves every holding worth at least what
-- it was, wherever both worths are computed.
pub deposit_no_dilution :
    (supply value amount lp held before after : ℕ)
    → 0 < supply
    → calc_lp_for_deposit supply value amount ≡ some lp
    → calc_collateral_for_withdraw supply value held ≡ some before
    → calc_collateral_for_withdraw (supply + lp) (value + amount) held ≡ some after
    → before ≤ after
deposit_no_dilution supply value amount lp held before after pos issued b a =
    floor_mono held supply value (supply + lp) (value + amount) before after
      (issue_price supply value amount lp pos
        (calc_lp_for_deposit-Issues supply value amount issued))
      (calc_collateral_for_withdraw-IsFloor supply value held b)
      (calc_collateral_for_withdraw-IsFloor (supply + lp) (value + amount) held a)

-- A withdrawal of at most the supply leaves every holding worth at least what it was, wherever both
-- worths are computed.
pub withdraw_no_dilution :
    (supply value burned paid held before after : ℕ)
    → burned ≤ supply
    → calc_collateral_for_withdraw supply value burned ≡ some paid
    → calc_collateral_for_withdraw supply value held ≡ some before
    → calc_collateral_for_withdraw (supply - burned) (value - paid) held ≡ some after
    → before ≤ after
withdraw_no_dilution supply value burned paid held before after within p b a =
    floor_mono held supply value (supply - burned) (value - paid) before after
      (payout_price supply value burned paid within
        (calc_collateral_for_withdraw-IsFloor supply value burned p))
      (calc_collateral_for_withdraw-IsFloor supply value held b)
      (calc_collateral_for_withdraw-IsFloor (supply - burned) (value - paid) held a)

-- A burn of at most the supply, where it is answered, is paid out of the pool value.
pub withdraw-le_value :
    (supply value burned paid : ℕ)
    → burned ≤ supply
    → calc_collateral_for_withdraw supply value burned ≡ some paid
    → paid ≤ value
withdraw-le_value supply value burned paid within p =
    le_value supply value burned paid within
      (calc_collateral_for_withdraw-IsFloor supply value burned p)

-- A burn of the whole supply, where it is answered, takes exactly all of the pool value.
pub withdraw_whole :
    (supply value paid : ℕ)
    → calc_collateral_for_withdraw supply value supply ≡ some paid
    → paid ≡ value
withdraw_whole supply value paid p =
    whole supply value paid (calc_collateral_for_withdraw-IsFloor supply value supply p)

-- Splitting a burn of at most the supply in two, where each is answered, never pays more than
-- burning at once.
pub withdraw_split :
    (supply value first second paid_first paid_second paid_once : ℕ)
    → first + second ≤ supply
    → calc_collateral_for_withdraw supply value first ≡ some paid_first
    → calc_collateral_for_withdraw (supply - first) (value - paid_first) second ≡ some paid_second
    → calc_collateral_for_withdraw supply value (first + second) ≡ some paid_once
    → paid_first + paid_second ≤ paid_once
withdraw_split supply value first second paid_first paid_second paid_once within p q o =
    le_of_lt-suc (paid_first + paid_second) paid_once (
      lt_of_mul-lt-mul (paid_first + paid_second) (paid_once + 1) supply
        (omega (arith, h.above, total)))
  where
    f : IsFloor first value supply paid_first
    f = calc_collateral_for_withdraw-IsFloor supply value first p

    g : IsFloor second (value - paid_first) (supply - first) paid_second
    g = calc_collateral_for_withdraw-IsFloor (supply - first) (value - paid_first) second q

    h : IsFloor (first + second) value supply paid_once
    h = calc_collateral_for_withdraw-IsFloor supply value (first + second) o

    supply_parts : first + (second + (supply - first - second)) ≡ supply
    supply_parts = omega arith

    rest_parts : second + (supply - first - second) ≡ supply - first
    rest_parts = omega arith

    value_parts : paid_first + (value - paid_first) ≡ value
    value_parts = omega (arith, le_value supply value first paid_first (omega arith) f)

    total : (paid_first + paid_second) * supply ≤ (first + second) * value
    total =
        rw (supply_parts, value_parts) at
          (split_sum first (supply - first - second) second paid_first paid_second
            (value - paid_first) (rw rest_parts g.divisor) (rw (supply_parts, value_parts) f.below)
            (rw rest_parts g.below))
