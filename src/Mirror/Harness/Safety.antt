-- ===== src/Mirror/Harness/Safety.antt =====
-- Sections 2 and 10 of the harnesses of kani-proofs/src/lib.rs, and the second of section 11: the
-- overflow guards, the pools that take no deposit, and the price of one to one.
use percolator_vault.Base.{
  ℕ, ◌*◌, ◌≤◌, ◌<◌, ◌≡◌, refl, ◌⊎◌, inl, inr, Bool, true, ◌&&◌, ltb, leb, ◌==◌, if◌then◌else◌,
  arith,
}
use percolator_vault.Base.Word.{checked_div}
use percolator_vault.Mirror.{
  u32_max, checked_mul_u64, pro_rata_u32, calc_lp_for_deposit, calc_collateral_for_withdraw,
}
use percolator_vault.Mirror.Floor.{product_le, first_deposit, deposit_same, guarded}
use percolator_vault.Mirror.Harness.{
  assume, assert, unwrap, some_or_return, times, is_some_of, is_none, assume_lem, assert_lem,
  some_or_return_lem, times_lem,
}

positive_case : (m n v : ℕ) → (v ≡ 0) ⊎ (m ≤ n) → 0 < v → m ≤ n
positive_case m n v (inl zero_value) pos = absurd (omega (arith, zero_value, pos))
positive_case m n v (inr le) pos = le

unfoldable pub proof_lp_deposit_overflow_guard : ℕ → ℕ → ℕ → Bool
proof_lp_deposit_overflow_guard supply pv deposit = assume (leb supply 0xff) (
    assume (leb pv 0xff) (
      assume (leb deposit 0xff) (
        some_or_return (calc_lp_for_deposit supply pv deposit) λ lp. assert (leb lp u32_max) (
          if ltb 0 pv
          then (times lp pv λ left. times deposit supply λ right. leb left right)
          else true))))

pub proof_lp_deposit_overflow_guard_lem :
    (supply pv deposit : ℕ) → proof_lp_deposit_overflow_guard supply pv deposit ≡ true
unfolding proof_lp_deposit_overflow_guard
proof_lp_deposit_overflow_guard_lem supply pv deposit = assume_lem (leb supply 0xff) λ hs.
    assume_lem (leb pv 0xff) λ hp. assume_lem (leb deposit 0xff) λ hd.
      some_or_return_lem (calc_lp_for_deposit supply pv deposit) λ lp e.
        let bounds = guarded supply pv deposit lp (ground arith) e in
        let small = product_le deposit supply 255 255 (ground arith) (ground arith) in
        assert_lem (leb lp u32_max) (ground (arith, bounds.0)) (
          assume_lem (ltb 0 pv) λ pos.
            let below = positive_case (lp * pv) (deposit * supply) pv bounds.1 (ground arith) in
            times_lem lp pv (omega (arith, below, small))
              (times_lem deposit supply (omega (arith, small)) (ground (arith, below))))

unfoldable pub proof_overflow_guard_fires_concrete : Bool
proof_overflow_guard_fires_concrete = assert (is_none (calc_lp_for_deposit 70_000 1 70_000)) (
    assert (is_some_of (calc_lp_for_deposit 2 1 100_000) 200_000) (
      assert (is_some_of (calc_lp_for_deposit 1 1 1) 1)
        (is_none (calc_collateral_for_withdraw 1 70_000 70_000))))

pub proof_overflow_guard_fires_concrete_lem : proof_overflow_guard_fires_concrete ≡ true
unfolding proof_overflow_guard_fires_concrete calc_lp_for_deposit calc_collateral_for_withdraw
    pro_rata_u32 checked_mul_u64 checked_div
proof_overflow_guard_fires_concrete_lem = refl

unfoldable pub proof_c9_orphaned_value_blocked : ℕ → ℕ → Bool
proof_c9_orphaned_value_blocked pv dep =
    assume (ltb 0 pv && ltb pv 100)
      (assume (ltb 0 dep && ltb dep 100) (is_none (calc_lp_for_deposit 0 pv dep)))

pub proof_c9_orphaned_value_blocked_lem :
    (pv dep : ℕ) → proof_c9_orphaned_value_blocked pv dep ≡ true
unfolding proof_c9_orphaned_value_blocked calc_lp_for_deposit
proof_c9_orphaned_value_blocked_lem pv dep = ground arith

unfoldable pub proof_c9_valueless_lp_blocked : ℕ → ℕ → Bool
proof_c9_valueless_lp_blocked supply dep =
    assume (ltb 0 supply && ltb supply 100)
      (assume (ltb 0 dep && ltb dep 100) (is_none (calc_lp_for_deposit supply 0 dep)))

pub proof_c9_valueless_lp_blocked_lem :
    (supply dep : ℕ) → proof_c9_valueless_lp_blocked supply dep ≡ true
unfolding proof_c9_valueless_lp_blocked calc_lp_for_deposit
proof_c9_valueless_lp_blocked_lem supply dep = ground arith

unfoldable pub proof_c9_true_first_depositor : ℕ → Bool
proof_c9_true_first_depositor dep =
    assume (ltb 0 dep && ltb dep 100) (is_some_of (calc_lp_for_deposit 0 0 dep) dep)

pub proof_c9_true_first_depositor_lem : (dep : ℕ) → proof_c9_true_first_depositor dep ≡ true
unfolding proof_c9_true_first_depositor calc_lp_for_deposit
proof_c9_true_first_depositor_lem dep = ground arith

unfoldable pub proof_determinism_across_states : ℕ → Bool
proof_determinism_across_states amount = assume (ltb 0 amount && ltb amount 50) (
    unwrap (calc_lp_for_deposit 0 0 amount)
      λ lp1. unwrap (calc_lp_for_deposit amount amount amount) λ lp2. lp1 == lp2)

pub proof_determinism_across_states_lem :
    (amount : ℕ) → proof_determinism_across_states amount ≡ true
unfolding proof_determinism_across_states
proof_determinism_across_states_lem amount =
    assume_lem (ltb 0 amount && ltb amount 50) λ h.
      rw (first_deposit amount, deposit_same amount (ground arith) (ground arith)) (ground arith)
