-- ===== src/Mirror/Harness/Limits.antt =====
-- Sections 8 and 9 of the harnesses of kani-proofs/src/lib.rs, and the last of section 13 on the
-- cooldown: the cooldown and the cap.
use percolator_vault.Base.{ℕ, ◌-◌, ◌≡◌, Bool, true, not, ◌&&◌, ltb, leb, if◌then◌else◌, arith}
use percolator_vault.Mirror.{
  u32_max, checked_add_u32, saturating_add_u32, cooldown_elapsed, exceeds_cap,
}
use percolator_vault.Mirror.Harness.{assume, plus, minus}

unfoldable pub proof_cooldown_not_immediate : ℕ → ℕ → Bool
proof_cooldown_not_immediate slot cd =
    assume (ltb 0 cd && ltb cd 100)
      (assume (ltb slot (u32_max - 100)) (not (cooldown_elapsed slot slot cd)))

pub proof_cooldown_not_immediate_lem : (slot cd : ℕ) → proof_cooldown_not_immediate slot cd ≡ true
unfolding proof_cooldown_not_immediate cooldown_elapsed saturating_add_u32
proof_cooldown_not_immediate_lem slot cd = ground arith

unfoldable pub proof_cooldown_exact_boundary : ℕ → ℕ → Bool
proof_cooldown_exact_boundary dep_slot cd = assume (ltb cd 100) (
    assume (ltb dep_slot (u32_max - 100))
      (cooldown_elapsed (saturating_add_u32 dep_slot cd) dep_slot cd))

pub proof_cooldown_exact_boundary_lem :
    (dep_slot cd : ℕ) → proof_cooldown_exact_boundary dep_slot cd ≡ true
unfolding proof_cooldown_exact_boundary cooldown_elapsed saturating_add_u32
proof_cooldown_exact_boundary_lem dep_slot cd = ground arith

unfoldable pub proof_cooldown_boundary_iff : ℕ → ℕ → ℕ → Bool
proof_cooldown_boundary_iff deposit_slot cooldown check_slot =
    assume (ltb 0 cooldown && ltb cooldown 1000) (
      assume (ltb deposit_slot (u32_max - 1000)) (
        plus deposit_slot cooldown λ deadline.
          if leb deadline check_slot
          then cooldown_elapsed check_slot deposit_slot cooldown
          else not (cooldown_elapsed check_slot deposit_slot cooldown)))

pub proof_cooldown_boundary_iff_lem :
    (deposit_slot cooldown check_slot : ℕ)
    → proof_cooldown_boundary_iff deposit_slot cooldown check_slot ≡ true
unfolding proof_cooldown_boundary_iff cooldown_elapsed saturating_add_u32
proof_cooldown_boundary_iff_lem deposit_slot cooldown check_slot = ground arith

unfoldable pub proof_cap_zero_uncapped : ℕ → ℕ → Bool
proof_cap_zero_uncapped total dep = not (exceeds_cap total dep 0)

pub proof_cap_zero_uncapped_lem : (total dep : ℕ) → proof_cap_zero_uncapped total dep ≡ true
unfolding proof_cap_zero_uncapped exceeds_cap checked_add_u32
proof_cap_zero_uncapped_lem total dep = ground arith

unfoldable pub proof_cap_at_boundary : ℕ → ℕ → Bool
proof_cap_at_boundary cap existing =
    assume (ltb 0 cap && ltb cap 100)
      (assume (leb existing cap) (minus cap existing λ dep. not (exceeds_cap existing dep cap)))

pub proof_cap_at_boundary_lem : (cap existing : ℕ) → proof_cap_at_boundary cap existing ≡ true
unfolding proof_cap_at_boundary exceeds_cap checked_add_u32
proof_cap_at_boundary_lem cap existing = ground arith

unfoldable pub proof_cap_above_boundary : ℕ → ℕ → Bool
proof_cap_above_boundary cap existing = assume (ltb 0 cap && ltb cap 100) (
    assume (ltb existing cap)
      (minus cap existing λ left. plus left 1 λ dep. exceeds_cap existing dep cap))

pub proof_cap_above_boundary_lem : (cap existing : ℕ) → proof_cap_above_boundary cap existing ≡ true
unfolding proof_cap_above_boundary exceeds_cap checked_add_u32
proof_cap_above_boundary_lem cap existing = ground arith
