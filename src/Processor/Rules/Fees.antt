-- ===== src/Processor/Rules/Fees.antt =====
-- The fees that accruals of src/processor.rs book, against what came into the vault.
use percolator_vault.Base.{subst, ℕ, ◌+◌, ◌-◌, ◌≤◌, ◌<◌, ◌≡◌, refl, ap, ◌∙◌, some, arith}
use percolator_vault.Base.Word.{IsU64, checked_add, checked_sub}
use percolator_vault.Error.{ok}
use percolator_vault.State.{
  StakePool, IsReserved, accrual_baseline, pre_supply_vault_offset, set_pre_supply_vault_offset,
}
use percolator_vault.State.Packed.{Packed, packed}
use percolator_vault.State.Reserved.{set_pre_supply_vault_offset-packed}
use percolator_vault.Processor.Accrue.{accrued, noted, expected_balance}
use percolator_vault.Processor.Rules.{accrued-fees, explained_of}

-- What the books explain of a vault: the deposits and the fees less the withdrawals, and what lay in
-- the vault before there were shares.
abbrev pub explained_balance : StakePool → ℕ
explained_balance p =
    p.total_deposited + p.total_fees_earned - p.total_withdrawn + (packed p).vault_offset

expected_balance_eq :
    (p : StakePool) (explained : ℕ)
    → expected_balance p ≡ some explained
    → explained ≡ explained_balance p
unfolding expected_balance accrual_baseline pre_supply_vault_offset packed checked_add checked_sub
expected_balance_eq p explained h = ground arith

-- With LP tokens outstanding, an accrual that succeeds books as fees exactly what the vault holds
-- beyond the deposits and the fees so far, less the withdrawals, and beyond what lay in it before there
-- were shares; it changes nothing else but the slot and the balance that it notes.
pub accrued-explained_balance :
    (p q : StakePool) (balance slot : ℕ)
    → 0 < p.total_lp_supply
    → accrued p balance slot ≡ ok q
    → q ≡ record p {
      total_fees_earned =
          p.total_fees_earned
          + (balance
              - (p.total_deposited
                  + p.total_fees_earned
                  - p.total_withdrawn
                  + (packed p).vault_offset));
      last_fee_accrual_slot = slot;
      last_vault_snapshot = balance;
    }
accrued-explained_balance p q balance slot supply h =
    let (explained, expected) = explained_of p q balance slot supply h in
    subst
      (λ (n : ℕ). q ≡ record p {
        total_fees_earned = p.total_fees_earned + (balance - n);
        last_fee_accrual_slot = slot;
        last_vault_snapshot = balance;
      })
      (expected_balance_eq p explained expected)
      (accrued-fees p balance slot q explained supply expected h)

skipped :
    (p q : StakePool) (balance slot : ℕ)
    → p.total_lp_supply ≡ 0
    → accrued p balance slot ≡ ok q
    → q ≡ noted (set_pre_supply_vault_offset p balance) balance slot
unfolding accrued
skipped p q balance slot empty h = ground arith

skipped_totals :
    (p : StakePool) (balance slot : ℕ)
    → ((noted (set_pre_supply_vault_offset p balance) balance slot).total_fees_earned
        ≡ p.total_fees_earned)
      × ((noted (set_pre_supply_vault_offset p balance) balance slot).total_deposited
          ≡ p.total_deposited)
      × ((noted (set_pre_supply_vault_offset p balance) balance slot).total_withdrawn
          ≡ p.total_withdrawn)
unfolding noted set_pre_supply_vault_offset
skipped_totals p balance slot = (refl, refl, refl)

skipped_offset :
    (p : StakePool) (balance slot : ℕ)
    → IsReserved p.reserved
    → IsU64 balance
    → (packed (noted (set_pre_supply_vault_offset p balance) balance slot)).vault_offset ≡ balance
unfolding noted set_pre_supply_vault_offset packed
skipped_offset p balance slot wf fits =
    ap (λ (b : Packed). b.vault_offset) (set_pre_supply_vault_offset-packed p wf balance fits)

-- A deposit's effect on the totals.
abbrev pub with_deposit : StakePool → ℕ → ℕ → StakePool
with_deposit q amount lp = record q {
  total_deposited = q.total_deposited + amount;
  total_lp_supply = q.total_lp_supply + lp;
}

with_deposit_offset :
    (q : StakePool) (amount lp : ℕ)
    → (packed (with_deposit q amount lp)).vault_offset ≡ (packed q).vault_offset
unfolding packed
with_deposit_offset q amount lp = refl

-- What lies in the vault of a pool without shares when fees are accrued is never booked as a fee: once
-- shares are issued for a deposit, and the vault holds `gain` on top of that balance and the deposit,
-- the next accrual that succeeds books the gain alone, less what the totals explained before. The pool
-- has 64 reserved bytes, and the balance fits a u64.
pub accrued-accrued_offset :
    (p q r : StakePool) (balance slot amount lp gain later : ℕ)
    → p.total_lp_supply ≡ 0
    → IsReserved p.reserved
    → IsU64 balance
    → p.total_withdrawn ≤ p.total_deposited + p.total_fees_earned
    → accrued p balance slot ≡ ok q
    → 0 < lp
    → accrued (with_deposit q amount lp) (balance + amount + gain) later ≡ ok r
    → (q.total_fees_earned ≡ p.total_fees_earned)
      × (r.total_fees_earned
          ≡ p.total_fees_earned
            + (gain - (p.total_deposited + p.total_fees_earned - p.total_withdrawn)))
accrued-accrued_offset p q r balance slot amount lp gain later empty wf fits within first some_lp
      second =
    let same = skipped p q balance slot empty first in
    let (fees, deposited, withdrawn) = skipped_totals p balance slot in
    let fees_eq : q.total_fees_earned ≡ p.total_fees_earned =
      ap (λ (s : StakePool). s.total_fees_earned) same ∙ fees in
    let deposited_eq : q.total_deposited ≡ p.total_deposited =
      ap (λ (s : StakePool). s.total_deposited) same ∙ deposited in
    let withdrawn_eq : q.total_withdrawn ≡ p.total_withdrawn =
      ap (λ (s : StakePool). s.total_withdrawn) same ∙ withdrawn in
    let offset_eq : (packed (with_deposit q amount lp)).vault_offset ≡ balance =
      with_deposit_offset q amount lp
      ∙ ap (λ (s : StakePool). (packed s).vault_offset) same
      ∙ skipped_offset p balance slot wf fits in
    let booked =
      accrued-explained_balance (with_deposit q amount lp) r (balance + amount + gain) later
        (omega (arith, some_lp)) second in
    (
      fees_eq,
      omega (
        arith,
        ap (λ (s : StakePool). s.total_fees_earned) booked,
        fees_eq,
        deposited_eq,
        withdrawn_eq,
        offset_eq,
        within,
      ),
    )
