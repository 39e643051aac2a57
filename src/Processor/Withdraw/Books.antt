-- ===== src/Processor/Withdraw/Books.antt =====
-- The books of the pool and of the position in a successful `process_withdraw` (src/processor.rs).
use percolator_vault.Base.{ℕ, ◌+◌, ◌-◌, ◌*◌, ◌≤◌, ◌<◌, ◌≡◌, refl, ap, ◌∙◌, ◌⊎◌, true, some, arith}
use percolator_vault.Base.Maybe.{unwrap_or}
use percolator_vault.Base.Word.{
  IsU16, max_of, IsU64, checked_add, checked_sub, saturating_add, u64_max,
}
use percolator_vault.Error.{ok}
use percolator_vault.Math
use percolator_vault.Math.Shares.{withdraw-le_value}
use percolator_vault.State.{
  StakePool, StakeDeposit, IsPool, IsReserved, total_pool_value, calc_collateral_for_withdraw,
  hwm_enabled, refresh_hwm, hwm_floor_bps,
}
use percolator_vault.State.Packed.{Packed, packed}
use percolator_vault.Base.Bytes.{from_le_bytes, from_le_bytes-read_slice}
use percolator_vault.Base.Slices.{get_or-IsU8}
use percolator_vault.State.Refresh.{refreshed, refresh_hwm-packed, refresh_hwm-mark}
use percolator_vault.Math.{hwm_withdrawal_allowed}
use percolator_vault.Math.Hwm.{hwm_withdrawal_allowed_iff}
use percolator_vault.State.Value.{total_pool_value-parts, total_pool_value_of_parts}
use percolator_vault.Runtime.{Clock}
use percolator_vault.Processor.Deposit.Books.{refresh_hwm_fields, refresh_hwm-IsPool}
use percolator_vault.Processor.Withdraw.{check_position, enforce_hwm, debit_pool}

pub enforce_hwm_fields :
    (p q : StakePool) (paid : ℕ) (clock : Clock)
    → enforce_hwm p paid clock ≡ ok q
    → q ≡ record p { reserved = q.reserved }
unfolding enforce_hwm
enforce_hwm_fields p q paid clock h =
    ground (arith, refresh_hwm_fields p clock.epoch (unwrap_or (total_pool_value p) 0))

enforce_hwm-IsPool :
    (p q : StakePool) (paid : ℕ) (clock : Clock)
    → IsPool p
    → enforce_hwm p paid clock ≡ ok q
    → IsPool q
unfolding enforce_hwm
enforce_hwm-IsPool p q paid clock v h =
    ground (arith, refresh_hwm-IsPool p clock.epoch (unwrap_or (total_pool_value p) 0) v)

debit_pool-IsPool :
    (p q : StakePool) (paid lp : ℕ) → IsPool p → debit_pool p paid lp ≡ ok q → IsPool q
unfolding debit_pool checked_add checked_sub
debit_pool-IsPool p q paid lp v h = ground arith

-- What the pool's record is after a withdrawal: the withdrawn total grows by the payout, the supply
-- shrinks by the tokens burned, and but for these and the reserved bytes nothing changes.
pub record Debited (p q : StakePool) (paid lp : ℕ) : Type 0 where
  pub same : q ≡ record p {
    total_withdrawn = p.total_withdrawn + paid;
    total_lp_supply = p.total_lp_supply - lp;
    reserved = q.reserved;
  }
  pub covered : lp ≤ p.total_lp_supply
  pub typed : IsPool q

pub debit_pool_fields :
    (p q : StakePool) (paid lp : ℕ)
    → debit_pool p paid lp ≡ ok q
    → (q ≡ record p {
      total_withdrawn = p.total_withdrawn + paid;
      total_lp_supply = p.total_lp_supply - lp;
    })
      × (lp ≤ p.total_lp_supply)
unfolding debit_pool checked_add checked_sub
debit_pool_fields p q paid lp h = ground arith

pub debit_pool-Debited :
    (p m q : StakePool) (paid lp : ℕ) (clock : Clock)
    → IsPool p
    → enforce_hwm p paid clock ≡ ok m
    → debit_pool m paid lp ≡ ok q
    → Debited p q paid lp
debit_pool-Debited p m q paid lp clock v marked h = record {
  same =
      ground (arith, enforce_hwm_fields p m paid clock marked, (debit_pool_fields m q paid lp h).0);
  covered =
      ground (arith, enforce_hwm_fields p m paid clock marked, (debit_pool_fields m q paid lp h).1);
  typed = debit_pool-IsPool m q paid lp (enforce_hwm-IsPool p m paid clock v marked) h;
}

pub calc_collateral-value :
    (p : StakePool) (lp paid : ℕ)
    → calc_collateral_for_withdraw p lp ≡ some paid
    → (v : ℕ) × (total_pool_value p ≡ some v)
      × (Math.calc_collateral_for_withdraw p.total_lp_supply v lp ≡ some paid)
unfolding calc_collateral_for_withdraw
calc_collateral-value p lp paid h = ground arith

-- A payout is at most the pool's value, and lowers it by exactly the payout.
pub Debited-value :
    (p q : StakePool) (paid lp : ℕ)
    → IsPool p
    → Debited p q paid lp
    → calc_collateral_for_withdraw p lp ≡ some paid
    → (v : ℕ) × (total_pool_value p ≡ some v) × (paid ≤ v) × (total_pool_value q ≡ some (v - paid))
Debited-value p q paid lp typed d answer =
    let (v, worth, price) = calc_collateral-value p lp paid answer in
    let within : paid ≤ v = withdraw-le_value p.total_lp_supply v lp paid d.covered price in
    let (sum, fits) = total_pool_value-parts p v worth in
    (
      v,
      worth,
      within,
      rw (d.same) (
          total_pool_value_of_parts
            (record p {
              total_withdrawn = p.total_withdrawn + paid;
              total_lp_supply = p.total_lp_supply - lp;
              reserved = q.reserved;
            })
            (v - paid) (omega (arith, sum, within)) (omega (arith, fits))),
    )

-- The record belongs to the user and to the pool, its cooldown is over, and it covers the burn.
abbrev pub Position : StakeDeposit → ℕ → ℕ → ℕ → ℕ → ℕ → Type 0
Position d user pool lp slot cooldown =
    (d.is_initialized ≡ 1)
    × (d.user ≡ user)
    × (d.pool ≡ pool)
    × ((d.last_deposit_slot + cooldown ≤ slot) ⊎ (slot ≡ u64_max))
    × (lp ≤ d.lp_amount)

pub check_position-Position :
    (d : StakeDeposit) (user pool lp slot cooldown : ℕ)
    → IsU64 slot
    → check_position d user pool lp slot cooldown ≡ ok tt
    → Position d user pool lp slot cooldown
unfolding check_position saturating_add
check_position-Position d user pool lp slot cooldown fits h = ground arith

floor_bps_lem : (p : StakePool) → hwm_floor_bps p ≡ (packed p).floor_bps
unfolding hwm_floor_bps packed
floor_bps_lem p = refl

floor_bps_fits : (p : StakePool) → IsPool p → IsU16 (packed p).floor_bps
unfolding packed from_le_bytes
floor_bps_fits p v =
    ground (
      arith,
      get_or-IsU8 p.reserved 10 v.reserved_bytes,
      get_or-IsU8 p.reserved 11 v.reserved_bytes,
    )

high_water_fits : (p : StakePool) → IsPool p → IsU64 (packed p).high_water
unfolding packed
high_water_fits p v = omega (arith, from_le_bytes-read_slice 16 8 p.reserved v.reserved_bytes)

refreshed_fits :
    (b : Packed) (epoch tvl : ℕ)
    → IsU64 b.high_water
    → IsU64 tvl
    → IsU64 (refreshed b epoch tvl).high_water
unfolding max_of
refreshed_fits b epoch tvl h h' = ground arith

passed_floor :
    (p q : StakePool) (paid v : ℕ) (clock : Clock)
    → total_pool_value p ≡ some v
    → hwm_enabled p ≡ true
    → enforce_hwm p paid clock ≡ ok q
    → (paid ≤ v)
      × (hwm_withdrawal_allowed
            (v - paid)
            (refresh_hwm p clock.epoch v).1
            (hwm_floor_bps (refresh_hwm p clock.epoch v).0)
          ≡ true)
unfolding enforce_hwm checked_sub
passed_floor p q paid v clock worth enabled h = ground arith

-- When the floor is enabled, a withdrawal that passes leaves at least the floor: the mark of the
-- current epoch's largest value, times the floor's ten-thousandths, rounded down.
pub enforce_hwm-floor :
    (p q : StakePool) (paid v : ℕ) (clock : Clock)
    → IsPool p
    → IsU64 clock.epoch
    → total_pool_value p ≡ some v
    → hwm_enabled p ≡ true
    → enforce_hwm p paid clock ≡ ok q
    → (paid ≤ v)
      × ((refreshed (packed p) clock.epoch v).high_water * (packed p).floor_bps
          < (v - paid + 1) * 10_000)
enforce_hwm-floor p q paid v clock typed epoch_fits worth enabled h =
    let (within, allowed) = passed_floor p q paid v clock worth enabled h in
    (
      within,
      (hwm_withdrawal_allowed_iff (v - paid) (refreshed (packed p) clock.epoch v).high_water
            (packed p).floor_bps (omega (arith, value_fits)) mark_fits (floor_bps_fits p typed)).0
          (rw (mark_eq, bps_eq) at allowed),
    )
  where
    value_fits : IsU64 v
    value_fits = omega (arith, total_pool_value-parts p v worth)

    wf : IsReserved p.reserved
    wf = (typed.reserved_length, typed.reserved_bytes)

    mark_eq : (refresh_hwm p clock.epoch v).1 ≡ (refreshed (packed p) clock.epoch v).high_water
    mark_eq = refresh_hwm-mark p clock.epoch v wf epoch_fits value_fits

    bps_eq : hwm_floor_bps (refresh_hwm p clock.epoch v).0 ≡ (packed p).floor_bps
    bps_eq =
        floor_bps_lem (refresh_hwm p clock.epoch v).0
        ∙ ap (λ (b : Packed). b.floor_bps)
            (refresh_hwm-packed p clock.epoch v wf epoch_fits value_fits)

    mark_fits : IsU64 (refreshed (packed p) clock.epoch v).high_water
    mark_fits = refreshed_fits (packed p) clock.epoch v (high_water_fits p typed) value_fits
