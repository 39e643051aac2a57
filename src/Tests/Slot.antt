-- ===== src/Tests/Slot.antt =====
-- The theorems on the cooldown of a topped-up position (src/math.rs) at concrete inputs.
use percolator_vault.Base.{◌+◌, ◌-◌, ◌*◌, ◌/◌, ◌≤◌, ◌<◌, ◌≡◌, arith}
use percolator_vault.Math.{weighted_deposit_slot}
use percolator_vault.Math.Slot.{weighted_deposit_slot_locks, weighted_deposit_slot_aged}

weighted_deposit_slot_locks_example :
    let slot = weighted_deposit_slot 300 1000 100 1040 100 in
    (1040 + 100 * 100 / (300 + 100) ≤ slot + 100) × (1040 < slot + 100)
weighted_deposit_slot_locks_example =
    weighted_deposit_slot_locks 300 1000 100 1040 100 (omega arith) (omega arith) (omega arith)
      (omega arith) (omega arith) (omega arith)

weighted_deposit_slot_aged_example :
    weighted_deposit_slot 300 1000 100 1240 100 ≡ 1240 - 100 * 300 / (300 + 100)
weighted_deposit_slot_aged_example =
    weighted_deposit_slot_aged 300 1000 100 1240 100 (omega arith) (omega arith) (omega arith)
      (omega arith) (omega arith) (omega arith)
