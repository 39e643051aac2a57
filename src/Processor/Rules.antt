-- ===== src/Processor/Rules.antt =====
-- What the smaller pieces of src/processor.rs do to a pool: the accrual of fees, the configuration
-- of the floor, and the checks of an admin's instruction.
pub mod Fees
use percolator_vault.Base.{
  subst, ℕ, ◌+◌, ◌-◌, ◌≤◌, ◌<◌, ◌≡◌, refl, ap, ◌∙◌, ◌⊎◌, inl, inr, true, false, some, arith,
}
use percolator_vault.Base.Word.{IsU16, IsU64, checked_add, checked_sub}
use percolator_vault.Error.{ok, err, invalid_instruction_data}
use percolator_vault.State.{
  StakePool, IsReserved, accrual_baseline, set_pre_supply_vault_offset, pre_supply_vault_offset,
  set_hwm_enabled, set_hwm_floor_bps,
}
use percolator_vault.State.Packed.{Packed, packed}
use percolator_vault.State.Reserved.{
  set_hwm_enabled-packed, set_hwm_floor_bps-packed, set_hwm_enabled-IsReserved,
  set_pre_supply_vault_offset-packed,
}
use percolator_vault.Processor.Accrue.{accrued, noted, expected_balance}
use percolator_vault.Processor.Config.{hwm_configured}

module _ (p : StakePool) (balance slot : ℕ) where
  -- With LP tokens outstanding, an accrual that succeeds books as fees what the vault holds beyond
  -- the balance that the books explain, and changes nothing else but the slot and the balance that
  -- it notes.
  pub accrued-fees :
      (q : StakePool) (explained : ℕ)
      → 0 < p.total_lp_supply
      → expected_balance p ≡ some explained
      → accrued p balance slot ≡ ok q
      → q ≡ record p {
        total_fees_earned = p.total_fees_earned + (balance - explained);
        last_fee_accrual_slot = slot;
        last_vault_snapshot = balance;
      }
  unfolding accrued noted checked_add
  accrued-fees q explained supply expected h = ground arith

supply_cases : (n : ℕ) → (n ≡ 0) ⊎ (0 < n)
supply_cases n = ground arith

-- An accrual with LP tokens outstanding has found an explained balance.
pub explained_of :
    (p q : StakePool) (balance slot : ℕ)
    → 0 < p.total_lp_supply
    → accrued p balance slot ≡ ok q
    → (explained : ℕ) × (expected_balance p ≡ some explained)
unfolding accrued
explained_of p q balance slot supply h = ground arith

-- Booking the surplus explains all of the balance.
booked_covers :
    (p : StakePool) (balance slot explained explained' : ℕ)
    → expected_balance p ≡ some explained
    → expected_balance (record p {
      total_fees_earned = p.total_fees_earned + (balance - explained);
      last_fee_accrual_slot = slot;
      last_vault_snapshot = balance;
    })
      ≡ some explained'
    → balance ≤ explained'
unfolding expected_balance accrual_baseline pre_supply_vault_offset checked_add checked_sub
booked_covers p balance slot explained explained' h h' = ground arith

no_supply_fees :
    (p q : StakePool) (balance slot : ℕ)
    → p.total_lp_supply ≡ 0
    → accrued p balance slot ≡ ok q
    → (q.total_fees_earned ≡ p.total_fees_earned) × (q.total_lp_supply ≡ 0)
unfolding accrued noted set_pre_supply_vault_offset
no_supply_fees p q balance slot empty h = ground arith

-- A second accrual at the same vault balance books no fees again.
pub accrued-accrued :
    (p q r : StakePool) (balance slot later : ℕ)
    → accrued p balance slot ≡ ok q
    → accrued q balance later ≡ ok r
    → r.total_fees_earned ≡ q.total_fees_earned
accrued-accrued p q r balance slot later h h' = elim (supply_cases p.total_lp_supply) [
  | inl empty ↦ (no_supply_fees q r balance later (no_supply_fees p q balance slot empty h).1 h').0
  | inr supply ↦
      let (explained, expected) = explained_of p q balance slot supply h in
      let booked = accrued-fees p balance slot q explained supply expected h in
      let supply' : 0 < q.total_lp_supply =
        omega (arith, supply, ap (λ (s : StakePool). s.total_lp_supply) booked) in
      let (explained', expected') = explained_of q r balance later supply' h' in
      let covered : balance ≤ explained' =
        booked_covers p balance slot explained explained' expected
          (subst (λ (s : StakePool). expected_balance s ≡ some explained') booked expected') in
      omega (
        arith,
        covered,
        ap (λ (s : StakePool). s.total_fees_earned)
            (accrued-fees q balance later r explained' supply' expected' h'),
      )
]

bps_cases : (bps : ℕ) → ((0 < bps) × (bps ≤ 10_000)) ⊎ ((bps ≡ 0) ⊎ (10_000 < bps))
bps_cases bps = ground arith

module _ (p : StakePool) (wf : IsReserved p.reserved) where
  -- On a pool with 64 reserved bytes, disabling the floor succeeds, clears its flag and keeps the
  -- ten-thousandths that were set, whatever the instruction carries.
  pub hwm_configured-disable :
      (bps : ℕ)
      → (q : StakePool) × (hwm_configured p false bps ≡ ok q)
        × (packed q ≡ record (packed p) { enabled = false })
  unfolding hwm_configured
  hwm_configured-disable bps = (_, refl, set_hwm_enabled-packed p wf false)

  pub enable :
      (bps : ℕ)
      → IsU16 bps
      → packed (set_hwm_floor_bps (set_hwm_enabled p true) bps)
        ≡ record (packed p) { enabled = true; floor_bps = bps }
  enable bps fits =
      set_hwm_floor_bps-packed (set_hwm_enabled p true) (set_hwm_enabled-IsReserved p wf true) bps
        fits
      ∙ ap (λ (b : Packed). record b { floor_bps = bps }) (set_hwm_enabled-packed p wf true)

  accepts :
      (bps : ℕ)
      → (0 < bps) × (bps ≤ 10_000)
      → hwm_configured p true bps ≡ ok (set_hwm_floor_bps (set_hwm_enabled p true) bps)
  unfolding hwm_configured
  accepts bps within = ground arith

  refuses :
      (bps : ℕ)
      → (bps ≡ 0) ⊎ (10_000 < bps)
      → hwm_configured p true bps ≡ err invalid_instruction_data
  unfolding hwm_configured
  refuses bps beyond = ground arith

  -- On a pool with 64 reserved bytes, enabling the floor succeeds exactly at 1 to 10000
  -- ten-thousandths, and then sets the flag and the floor, and no other field that the bytes hold;
  -- otherwise the data is refused as invalid.
  pub hwm_configured-enable :
      (bps : ℕ)
      → ((0 < bps)
          × (bps ≤ 10_000)
          × ((q : StakePool) × (hwm_configured p true bps ≡ ok q)
              × (packed q ≡ record (packed p) { enabled = true; floor_bps = bps })))
        ⊎ (((bps ≡ 0) ⊎ (10_000 < bps))
            × (hwm_configured p true bps ≡ err invalid_instruction_data))
  hwm_configured-enable bps = elim (bps_cases bps) [
    | inl within ↦ inl (
      within.0,
      within.1,
      (
        set_hwm_floor_bps (set_hwm_enabled p true) bps,
        accepts bps within,
        enable bps (omega (arith, within)),
      ),
    )
    | inr beyond ↦ inr (beyond, refuses bps beyond)
  ]
