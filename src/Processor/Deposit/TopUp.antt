-- ===== src/Processor/Deposit/TopUp.antt =====
-- A position under `top_up_deposit`, the last part of `process_deposit` (src/processor.rs).
use percolator_vault.Base.{ℕ, ◌+◌, ◌<◌, ◌≡◌, ◌∙◌, length, All, arith}
use percolator_vault.Base.Slices.{write_slice-IsU8, length-write_slice}
use percolator_vault.Base.Word.{
  IsU8, IsU64, checked_add, saturating_add, saturating_sub, add_u128, as_u64, max_of, min_of,
}
use percolator_vault.Error.{ok}
use percolator_vault.Math.{weighted_deposit_slot, blended_slot, freshness_floor}
use percolator_vault.Math.Slot.{weighted_deposit_slot_locks}
use percolator_vault.State.{
  StakeDeposit, IsKey, IsDeposit, set_deposit_discriminator, stake_deposit_discriminator,
}
use percolator_vault.Processor.Deposit.{top_up_deposit}

blended_slot-IsU64 :
    (lp slot new_lp now total : ℕ) → IsU64 slot → IsU64 (blended_slot lp slot new_lp now total)
unfolding blended_slot saturating_add min_of as_u64
blended_slot-IsU64 lp slot new_lp now total h = ground arith

freshness_floor-IsU64 :
    (lp now cooldown total : ℕ) → IsU64 now → IsU64 (freshness_floor lp now cooldown total)
unfolding freshness_floor saturating_sub
freshness_floor-IsU64 lp now cooldown total h = ground arith

weighted_deposit_slot-IsU64 :
    (lp slot new_lp now cooldown : ℕ)
    → IsU64 slot
    → IsU64 now
    → IsU64 (weighted_deposit_slot lp slot new_lp now cooldown)
unfolding weighted_deposit_slot max_of
weighted_deposit_slot-IsU64 lp slot new_lp now cooldown h h' = ground (
  arith,
  blended_slot-IsU64 lp slot new_lp now (add_u128 lp new_lp) h,
  freshness_floor-IsU64 lp now cooldown (add_u128 lp new_lp) h',
)

stamped_bytes :
    (d : StakeDeposit)
    → IsDeposit d
    → (length (set_deposit_discriminator d).reserved ≡ 64)
      × All IsU8 (set_deposit_discriminator d).reserved
unfolding set_deposit_discriminator
stamped_bytes d v = (
  length-write_slice 0 stake_deposit_discriminator d.reserved ∙ v.reserved_length,
  write_slice-IsU8 0 stake_deposit_discriminator d.reserved (ground arith) v.reserved_bytes,
)

-- A position after a deposit of `lp` tokens at `slot`.
pub record ToppedUp (d d' : StakeDeposit) (pool user lp slot cooldown : ℕ) : Type 0 where
  pub opened : d'.is_initialized ≡ 1
  pub pool_eq : d'.pool ≡ pool
  pub user_eq : d'.user ≡ user
  pub lp_eq : d'.lp_amount ≡ d.lp_amount + lp
  pub slot_eq :
      d'.last_deposit_slot ≡ weighted_deposit_slot d.lp_amount d.last_deposit_slot lp slot cooldown
  pub typed : IsDeposit d'

pub top_up_deposit-ToppedUp :
    (d d' : StakeDeposit) (bump pool user lp slot cooldown : ℕ)
    → IsDeposit d
    → IsU8 bump
    → IsKey pool
    → IsKey user
    → IsU64 slot
    → top_up_deposit d bump pool user lp slot cooldown ≡ ok d'
    → ToppedUp d d' pool user lp slot cooldown
unfolding top_up_deposit checked_add set_deposit_discriminator
top_up_deposit-ToppedUp d d' bump pool user lp slot cooldown v hb hp hu hs h = ground (
  arith,
  stamped_bytes d v,
  weighted_deposit_slot-IsU64 d.lp_amount d.last_deposit_slot lp slot cooldown v.slot_fits hs,
)

-- A position of the user in the pool that cannot be withdrawn from at `slot`.
pub record Locked (d : StakeDeposit) (pool user slot cooldown : ℕ) : Type 0 where
  pub opened : d.is_initialized ≡ 1
  pub pool_eq : d.pool ≡ pool
  pub user_eq : d.user ≡ user
  pub locked : slot < d.last_deposit_slot + cooldown

pub ToppedUp-Locked :
    (d d' : StakeDeposit) (pool user lp slot cooldown : ℕ)
    → ToppedUp d d' pool user lp slot cooldown
    → IsDeposit d
    → IsU64 lp
    → IsU64 slot
    → IsU64 cooldown
    → 0 < lp
    → 0 < cooldown
    → Locked d' pool user slot cooldown
ToppedUp-Locked d d' pool user lp slot cooldown t v hl hs hc some_lp some_cooldown = record {
  opened = t.opened;
  pool_eq = t.pool_eq;
  user_eq = t.user_eq;
  locked =
      rw (t.slot_eq)
        (weighted_deposit_slot_locks d.lp_amount d.last_deposit_slot lp slot cooldown v.lp_fits hl
          hs hc some_lp some_cooldown).1;
}
