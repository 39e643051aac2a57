-- ===== src/Mirror/Harness/Holds.antt =====
-- The harnesses of kani-proofs/src/lib.rs together.
use percolator_vault.Base.{ℕ, ◌≡◌, true}
use percolator_vault.Mirror.Harness.Conservation.{
  proof_deposit_withdraw_no_inflation, proof_deposit_withdraw_no_inflation_lem,
  proof_first_depositor_exact, proof_first_depositor_exact_lem, proof_two_depositors_conservation,
  proof_two_depositors_conservation_lem, proof_no_dilution, proof_no_dilution_lem,
}
use percolator_vault.Mirror.Harness.Safety.{
  proof_lp_deposit_overflow_guard, proof_lp_deposit_overflow_guard_lem,
  proof_overflow_guard_fires_concrete, proof_overflow_guard_fires_concrete_lem,
  proof_c9_orphaned_value_blocked, proof_c9_orphaned_value_blocked_lem,
  proof_c9_valueless_lp_blocked, proof_c9_valueless_lp_blocked_lem, proof_c9_true_first_depositor,
  proof_c9_true_first_depositor_lem, proof_determinism_across_states,
  proof_determinism_across_states_lem,
}
use percolator_vault.Mirror.Harness.Fairness.{
  proof_lp_rounding_favors_pool, proof_lp_rounding_favors_pool_lem, proof_larger_deposit_more_lp,
  proof_larger_deposit_more_lp_lem, proof_larger_burn_more_collateral,
  proof_larger_burn_more_collateral_lem, proof_equal_deposits_equal_lp,
  proof_equal_deposits_equal_lp_lem, proof_full_burn_bounded, proof_full_burn_bounded_lem,
  proof_partial_less_than_full, proof_partial_less_than_full_lem, proof_zero_deposit_zero_lp,
  proof_zero_deposit_zero_lp_lem, proof_zero_burn_zero_col, proof_zero_burn_zero_col_lem,
}
use percolator_vault.Mirror.Harness.Flows.{
  proof_flush_preserves_value, proof_flush_preserves_value_lem, proof_flush_bounded,
  proof_flush_bounded_lem, proof_flush_max_then_zero, proof_flush_max_then_zero_lem,
  proof_pool_value_correctness, proof_pool_value_correctness_lem, proof_deposit_increases_value,
  proof_deposit_increases_value_lem, proof_flush_return_conservation,
  proof_flush_return_conservation_lem, proof_returns_increase_value,
  proof_returns_increase_value_lem, proof_flush_reduces_value_exactly,
  proof_flush_reduces_value_exactly_lem, proof_flush_full_return_conservation,
  proof_flush_full_return_conservation_lem,
}
use percolator_vault.Mirror.Harness.Limits.{
  proof_cooldown_not_immediate, proof_cooldown_not_immediate_lem, proof_cooldown_exact_boundary,
  proof_cooldown_exact_boundary_lem, proof_cooldown_boundary_iff, proof_cooldown_boundary_iff_lem,
  proof_cap_zero_uncapped, proof_cap_zero_uncapped_lem, proof_cap_at_boundary,
  proof_cap_at_boundary_lem, proof_cap_above_boundary, proof_cap_above_boundary_lem,
}
use percolator_vault.Mirror.Harness.Depth.{
  ℤ, proof_roundtrip_under_pool_value_change, proof_roundtrip_under_pool_value_change_lem,
  proof_no_inflation_attack, proof_no_inflation_attack_lem, proof_flush_conservation_lp_value,
  proof_flush_conservation_lp_value_lem,
}

pub record HarnessesHold : Type 0 where
  pub deposit_withdraw_no_inflation_holds :
      (supply pv deposit : ℕ) → proof_deposit_withdraw_no_inflation supply pv deposit ≡ true
  pub first_depositor_exact_holds : (amount : ℕ) → proof_first_depositor_exact amount ≡ true
  pub two_depositors_conservation_holds :
      (a b appreciation : ℕ) → proof_two_depositors_conservation a b appreciation ≡ true
  pub no_dilution_holds :
      (init_s init_pv a_dep b_dep : ℕ) → proof_no_dilution init_s init_pv a_dep b_dep ≡ true
  pub lp_deposit_overflow_guard_holds :
      (supply pv deposit : ℕ) → proof_lp_deposit_overflow_guard supply pv deposit ≡ true
  pub overflow_guard_fires_concrete_holds : proof_overflow_guard_fires_concrete ≡ true
  pub c9_orphaned_value_blocked_holds : (pv dep : ℕ) → proof_c9_orphaned_value_blocked pv dep ≡ true
  pub c9_valueless_lp_blocked_holds :
      (supply dep : ℕ) → proof_c9_valueless_lp_blocked supply dep ≡ true
  pub c9_true_first_depositor_holds : (dep : ℕ) → proof_c9_true_first_depositor dep ≡ true
  pub determinism_across_states_holds : (amount : ℕ) → proof_determinism_across_states amount ≡ true
  pub lp_rounding_favors_pool_holds : (s pv dep : ℕ) → proof_lp_rounding_favors_pool s pv dep ≡ true
  pub larger_deposit_more_lp_holds :
      (s pv sm lg : ℕ) → proof_larger_deposit_more_lp s pv sm lg ≡ true
  pub larger_burn_more_collateral_holds :
      (s pv sm lg : ℕ) → proof_larger_burn_more_collateral s pv sm lg ≡ true
  pub equal_deposits_equal_lp_holds : (amount : ℕ) → proof_equal_deposits_equal_lp amount ≡ true
  pub full_burn_bounded_holds : (s pv : ℕ) → proof_full_burn_bounded s pv ≡ true
  pub partial_less_than_full_holds : (s pv p : ℕ) → proof_partial_less_than_full s pv p ≡ true
  pub zero_deposit_zero_lp_holds : (s pv : ℕ) → proof_zero_deposit_zero_lp s pv ≡ true
  pub zero_burn_zero_col_holds : (s pv : ℕ) → proof_zero_burn_zero_col s pv ≡ true
  pub flush_preserves_value_holds :
      (dep wd flushed returned flush_amount : ℕ)
      → proof_flush_preserves_value dep wd flushed returned flush_amount ≡ true
  pub flush_bounded_holds : (d w f : ℕ) → proof_flush_bounded d w f ≡ true
  pub flush_max_then_zero_holds : (d w f : ℕ) → proof_flush_max_then_zero d w f ≡ true
  pub pool_value_correctness_holds : (d w : ℕ) → proof_pool_value_correctness d w ≡ true
  pub deposit_increases_value_holds :
      (d w extra : ℕ) → proof_deposit_increases_value d w extra ≡ true
  pub flush_return_conservation_holds :
      (d w f r : ℕ) → proof_flush_return_conservation d w f r ≡ true
  pub returns_increase_value_holds : (d w f r : ℕ) → proof_returns_increase_value d w f r ≡ true
  pub flush_reduces_value_exactly_holds :
      (dep wd flush : ℕ) → proof_flush_reduces_value_exactly dep wd flush ≡ true
  pub flush_full_return_conservation_holds :
      (dep wd flush : ℕ) → proof_flush_full_return_conservation dep wd flush ≡ true
  pub cooldown_not_immediate_holds : (slot cd : ℕ) → proof_cooldown_not_immediate slot cd ≡ true
  pub cooldown_exact_boundary_holds :
      (dep_slot cd : ℕ) → proof_cooldown_exact_boundary dep_slot cd ≡ true
  pub cooldown_boundary_iff_holds :
      (deposit_slot cooldown check_slot : ℕ)
      → proof_cooldown_boundary_iff deposit_slot cooldown check_slot ≡ true
  pub cap_zero_uncapped_holds : (total dep : ℕ) → proof_cap_zero_uncapped total dep ≡ true
  pub cap_at_boundary_holds : (cap existing : ℕ) → proof_cap_at_boundary cap existing ≡ true
  pub cap_above_boundary_holds : (cap existing : ℕ) → proof_cap_above_boundary cap existing ≡ true
  pub roundtrip_under_pool_value_change_holds :
      (supply pv deposit : ℕ) (pv_delta : ℤ)
      → proof_roundtrip_under_pool_value_change supply pv deposit pv_delta ≡ true
  pub no_inflation_attack_holds :
      (attacker_deposit victim_deposit donation : ℕ)
      → proof_no_inflation_attack attacker_deposit victim_deposit donation ≡ true
  pub flush_conservation_lp_value_holds :
      (supply dep wd flush : ℕ) → proof_flush_conservation_lp_value supply dep wd flush ≡ true

-- Each of the 36 harnesses that assert something holds at every input: where the assumptions hold, no
-- assertion fails, nothing absent is unwrapped, and no sum, difference or product overflows.
pub harnesses_hold : HarnessesHold
harnesses_hold = record {
  deposit_withdraw_no_inflation_holds = proof_deposit_withdraw_no_inflation_lem;
  first_depositor_exact_holds = proof_first_depositor_exact_lem;
  two_depositors_conservation_holds = proof_two_depositors_conservation_lem;
  no_dilution_holds = proof_no_dilution_lem;
  lp_deposit_overflow_guard_holds = proof_lp_deposit_overflow_guard_lem;
  overflow_guard_fires_concrete_holds = proof_overflow_guard_fires_concrete_lem;
  c9_orphaned_value_blocked_holds = proof_c9_orphaned_value_blocked_lem;
  c9_valueless_lp_blocked_holds = proof_c9_valueless_lp_blocked_lem;
  c9_true_first_depositor_holds = proof_c9_true_first_depositor_lem;
  determinism_across_states_holds = proof_determinism_across_states_lem;
  lp_rounding_favors_pool_holds = proof_lp_rounding_favors_pool_lem;
  larger_deposit_more_lp_holds = proof_larger_deposit_more_lp_lem;
  larger_burn_more_collateral_holds = proof_larger_burn_more_collateral_lem;
  equal_deposits_equal_lp_holds = proof_equal_deposits_equal_lp_lem;
  full_burn_bounded_holds = proof_full_burn_bounded_lem;
  partial_less_than_full_holds = proof_partial_less_than_full_lem;
  zero_deposit_zero_lp_holds = proof_zero_deposit_zero_lp_lem;
  zero_burn_zero_col_holds = proof_zero_burn_zero_col_lem;
  flush_preserves_value_holds = proof_flush_preserves_value_lem;
  flush_bounded_holds = proof_flush_bounded_lem;
  flush_max_then_zero_holds = proof_flush_max_then_zero_lem;
  pool_value_correctness_holds = proof_pool_value_correctness_lem;
  deposit_increases_value_holds = proof_deposit_increases_value_lem;
  flush_return_conservation_holds = proof_flush_return_conservation_lem;
  returns_increase_value_holds = proof_returns_increase_value_lem;
  flush_reduces_value_exactly_holds = proof_flush_reduces_value_exactly_lem;
  flush_full_return_conservation_holds = proof_flush_full_return_conservation_lem;
  cooldown_not_immediate_holds = proof_cooldown_not_immediate_lem;
  cooldown_exact_boundary_holds = proof_cooldown_exact_boundary_lem;
  cooldown_boundary_iff_holds = proof_cooldown_boundary_iff_lem;
  cap_zero_uncapped_holds = proof_cap_zero_uncapped_lem;
  cap_at_boundary_holds = proof_cap_at_boundary_lem;
  cap_above_boundary_holds = proof_cap_above_boundary_lem;
  roundtrip_under_pool_value_change_holds = proof_roundtrip_under_pool_value_change_lem;
  no_inflation_attack_holds = proof_no_inflation_attack_lem;
  flush_conservation_lp_value_holds = proof_flush_conservation_lp_value_lem;
}
