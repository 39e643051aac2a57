-- ===== src/State/Refresh.antt =====
-- `StakePool::refresh_hwm` of src/state.rs on the packed record.
use percolator_vault.Base.{ℕ, ◌≡◌, refl, arith, if◌then◌else◌, ◌==◌}
use percolator_vault.Base.Word.{IsU64, max_of}
use percolator_vault.State.{
  StakePool, IsReserved, hwm_last_epoch, epoch_high_water_tvl, set_epoch_high_water_tvl,
  refresh_hwm,
}
use percolator_vault.State.Packed.{Packed, packed}
use percolator_vault.State.Reserved.{
  set_hwm_last_epoch-packed, set_epoch_high_water_tvl-packed, set_hwm_last_epoch-IsReserved,
  set_epoch_high_water_tvl-IsReserved,
}

-- A new epoch begins at the current value; within an epoch the mark is the larger of the two.
abbrev pub refreshed : Packed → ℕ → ℕ → Packed
refreshed v epoch tvl = record v {
  high_water = if epoch == v.last_epoch then max_of v.high_water tvl else tvl;
  last_epoch = epoch;
}

last_epoch_lem : (p : StakePool) → hwm_last_epoch p ≡ (packed p).last_epoch
unfolding hwm_last_epoch packed
last_epoch_lem p = refl

high_water_lem : (p : StakePool) → epoch_high_water_tvl p ≡ (packed p).high_water
unfolding epoch_high_water_tvl packed
high_water_lem p = refl

module _ (p : StakePool) (epoch tvl : ℕ) (wf : IsReserved p.reserved) (epoch_fits : IsU64 epoch)
    (tvl_fits : IsU64 tvl) where
  raised : StakePool
  raised = set_epoch_high_water_tvl p tvl

  -- On a pool with 64 reserved bytes, at a u64 epoch and value, a refresh starts the mark at the
  -- value in a new epoch, keeps the larger of the two within an epoch, notes the epoch, and changes
  -- no other field that the bytes hold.
  pub refresh_hwm-packed : packed (refresh_hwm p epoch tvl).0 ≡ refreshed (packed p) epoch tvl
  unfolding refresh_hwm max_of raised
  refresh_hwm-packed = ground (
    arith,
    set_epoch_high_water_tvl-packed p wf tvl tvl_fits,
    set_hwm_last_epoch-packed raised (set_epoch_high_water_tvl-IsReserved p wf tvl) epoch
        epoch_fits,
    last_epoch_lem p,
    high_water_lem p,
  )

  pub refresh_hwm-mark : (refresh_hwm p epoch tvl).1 ≡ (refreshed (packed p) epoch tvl).high_water
  unfolding refresh_hwm
  refresh_hwm-mark = rw (high_water_lem (refresh_hwm p epoch tvl).0) (rw refresh_hwm-packed refl)

  pub refresh_hwm-IsReserved : IsReserved (refresh_hwm p epoch tvl).0.reserved
  unfolding refresh_hwm raised
  refresh_hwm-IsReserved = ground (
    arith,
    set_epoch_high_water_tvl-IsReserved p wf tvl,
    set_hwm_last_epoch-IsReserved raised (set_epoch_high_water_tvl-IsReserved p wf tvl) epoch,
  )
