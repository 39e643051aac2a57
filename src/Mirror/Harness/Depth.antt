-- ===== src/Mirror/Harness/Depth.antt =====
-- Section 13 of the harnesses of kani-proofs/src/lib.rs, but for its cooldown: a pool whose value
-- changes between a deposit and a withdrawal.
use percolator_vault.Base.{
  subst, sym, ℕ, ◌+◌, ◌-◌, ◌^◌, ◌≤◌, ◌<◌, ◌≡◌, Bool, true, false, not, ◌&&◌, ◌||◌, Option, some,
  ltb, leb, ◌==◌, if◌then◌else◌, arith,
}
use percolator_vault.Base.Word.{checked_sub}
use percolator_vault.Mirror.{
  checked_add_u32, calc_lp_for_deposit, calc_collateral_for_withdraw, pool_value_with_flush,
}
use percolator_vault.Mirror.Floor.{
  deposit-IsFloor, withdraw-IsFloor, whole_eq, some_back, round_trip_below, first_deposit,
}
use percolator_vault.Mirror.Harness.Conservation.{issued_small}
use percolator_vault.Mirror.Harness.{
  assume, unwrap, some_or_return, positive_or_return, plus, minus, assume_lem, some_or_return_lem,
  positive_or_return_lem, plus_lem, minus_lem,
}

-- `i32` values, and the sum of a u32 and one of them
pub data ℤ : Type 0 where
  pos : ℕ → ℤ
  negsuc : ℕ → ℤ

abbrev shifted : ℕ → ℤ → ℤ
shifted n (pos m) = pos (n + m)
shifted n (negsuc m) = if ltb m n then pos (n - (m + 1)) else negsuc (m - n)

-- `-10 < z && z < 10`, `z > 0` and `z <= 0`
abbrev within_ten : ℤ → Bool
within_ten (pos m) = ltb m 10
within_ten (negsuc m) = ltb (m + 1) 10

abbrev is_positive : ℤ → Bool
is_positive (pos m) = ltb 0 m
is_positive (negsuc m) = false

-- `as u32` on a positive i32
abbrev as_u32 : ℤ → ℕ
as_u32 (pos m) = m
as_u32 (negsuc m) = 2 ^ 32 - (m + 1)

unfoldable pub proof_roundtrip_under_pool_value_change : ℕ → ℕ → ℕ → ℤ → Bool
proof_roundtrip_under_pool_value_change supply pv deposit pv_delta =
    assume (ltb 0 supply && ltb supply 15) (
      assume (ltb 0 pv && ltb pv 15) (
        assume (ltb 0 deposit && ltb deposit 15) (
          assume (within_ten pv_delta) (
            positive_or_return (calc_lp_for_deposit supply pv deposit) λ lp.
              plus supply lp λ new_supply.
                let new_pv_signed = shifted (pv + deposit) pv_delta in
                assume (is_positive new_pv_signed) (
                  some_or_return (calc_collateral_for_withdraw new_supply (as_u32 new_pv_signed) lp)
                    λ back. if not (is_positive pv_delta) then leb back deposit else true)))))

-- A delta that is not positive does not raise the value.
shifted_le :
    (n : ℕ) (z : ℤ)
    → is_positive (shifted n z) ≡ true
    → is_positive z ≡ false
    → as_u32 (shifted n z) ≤ n
shifted_le n (pos m) h g = ground arith
shifted_le n (negsuc m) h g = ground arith

pub proof_roundtrip_under_pool_value_change_lem :
    (supply pv deposit : ℕ) (pv_delta : ℤ)
    → proof_roundtrip_under_pool_value_change supply pv deposit pv_delta ≡ true
unfolding proof_roundtrip_under_pool_value_change
proof_roundtrip_under_pool_value_change_lem supply pv deposit pv_delta =
    assume_lem (ltb 0 supply && ltb supply 15) λ hs. assume_lem (ltb 0 pv && ltb pv 15) λ hp.
      assume_lem (ltb 0 deposit && ltb deposit 15) λ hd. assume_lem (within_ten pv_delta) λ _.
        positive_or_return_lem (calc_lp_for_deposit supply pv deposit) λ lp e _.
          let f = deposit-IsFloor supply pv deposit lp (ground arith) e in
          let small = issued_small supply pv deposit lp 15 (ground arith) (ground arith) f in
          plus_lem supply lp (ground (arith, small)) (
            assume_lem (is_positive (shifted (pv + deposit) pv_delta)) λ positive.
              some_or_return_lem
                (calc_collateral_for_withdraw (supply + lp)
                  (as_u32 (shifted (pv + deposit) pv_delta)) lp)
                λ back e'. assume_lem (not (is_positive pv_delta)) λ not_up. ground (
                  arith,
                  round_trip_below supply pv deposit lp _ back f
                      (shifted_le (pv + deposit) pv_delta positive (ground arith))
                      (withdraw-IsFloor (supply + lp) _ lp back e'),
                ))

unfoldable pub proof_no_inflation_attack : ℕ → ℕ → ℕ → Bool
proof_no_inflation_attack attacker_deposit victim_deposit donation =
    assume (ltb 0 attacker_deposit && ltb attacker_deposit 20) (
      assume (ltb 0 victim_deposit && ltb victim_deposit 20) (
        assume (ltb donation 20) (
          unwrap (calc_lp_for_deposit 0 0 attacker_deposit) λ attacker_lp.
            plus attacker_deposit donation λ inflated_pv.
              positive_or_return (calc_lp_for_deposit attacker_lp inflated_pv victim_deposit) λ vlp.
                plus attacker_lp vlp λ total_supply. plus inflated_pv victim_deposit λ total_pv.
                  some_or_return (calc_collateral_for_withdraw total_supply total_pv vlp)
                    λ vb. ltb 0 vb || victim_deposit == 0)))

abbrev after_attack : ℕ → ℕ → ℕ → ℕ → Bool
after_attack a v donation attacker_lp = plus a donation λ inflated_pv.
    positive_or_return (calc_lp_for_deposit attacker_lp inflated_pv v) λ vlp.
      plus attacker_lp vlp λ total_supply. plus inflated_pv v λ total_pv.
        some_or_return (calc_collateral_for_withdraw total_supply total_pv vlp)
          λ vb. ltb 0 vb || v == 0

pub proof_no_inflation_attack_lem :
    (attacker_deposit victim_deposit donation : ℕ)
    → proof_no_inflation_attack attacker_deposit victim_deposit donation ≡ true
unfolding proof_no_inflation_attack
proof_no_inflation_attack_lem a v donation = assume_lem (ltb 0 a && ltb a 20) λ ha.
    assume_lem (ltb 0 v && ltb v 20) λ hv. assume_lem (ltb donation 20) λ hd.
      subst (λ (o : Option ℕ). unwrap o (after_attack a v donation) ≡ true) (sym (first_deposit a))
        (plus_lem a donation (ground arith) (
          positive_or_return_lem (calc_lp_for_deposit a (a + donation) v) λ vlp e some_lp.
            let f = deposit-IsFloor a (a + donation) v vlp (ground arith) e in
            let small = issued_small a (a + donation) v vlp 20 (ground arith) (ground arith) f in
            plus_lem a vlp (ground (arith, small)) (
              plus_lem (a + donation) v (ground arith) (
                some_or_return_lem (calc_collateral_for_withdraw (a + vlp) (a + donation + v) vlp)
                  λ vb e'. ground (
                    arith,
                    some_back a (a + donation) v vlp vb (omega arith) some_lp f
                        (withdraw-IsFloor (a + vlp) (a + donation + v) vlp vb e'),
                  )))))

unfoldable pub proof_flush_conservation_lp_value : ℕ → ℕ → ℕ → ℕ → Bool
proof_flush_conservation_lp_value supply dep wd flush = assume (ltb 0 supply && ltb supply 20) (
    assume (ltb 0 dep && ltb dep 20) (
      assume (ltb wd dep) (
        minus dep wd λ room. assume (ltb 0 flush && ltb flush room) (
          unwrap (pool_value_with_flush dep wd 0 0) λ pv_before.
            unwrap (pool_value_with_flush dep wd flush 0) λ pv_after.
              some_or_return (calc_collateral_for_withdraw supply pv_before supply) λ before.
                some_or_return (calc_collateral_for_withdraw supply pv_after supply)
                  λ after. minus before after λ lost. lost == flush))))

value_of_parts :
    (dep wd flush : ℕ)
    → dep < 20
    → wd ≤ dep
    → flush ≤ dep - wd
    → pool_value_with_flush dep wd flush 0 ≡ some (dep - wd - flush)
unfolding pool_value_with_flush checked_sub checked_add_u32
value_of_parts dep wd flush small hw hf = ground arith

pub proof_flush_conservation_lp_value_lem :
    (supply dep wd flush : ℕ) → proof_flush_conservation_lp_value supply dep wd flush ≡ true
unfolding proof_flush_conservation_lp_value
proof_flush_conservation_lp_value_lem supply dep wd flush =
    assume_lem (ltb 0 supply && ltb supply 20) λ hs. assume_lem (ltb 0 dep && ltb dep 20) λ hd.
      assume_lem (ltb wd dep) λ hw. minus_lem dep wd (ground arith) (
        assume_lem (ltb 0 flush && ltb flush (dep - wd)) λ hf.
          rw
            (
              value_of_parts dep wd 0 (ground arith) (ground arith) (ground arith),
              value_of_parts dep wd flush (ground arith) (ground arith) (ground arith),
            )
            (some_or_return_lem (calc_collateral_for_withdraw supply (dep - wd - 0) supply)
              λ before e.
                some_or_return_lem (calc_collateral_for_withdraw supply (dep - wd - flush) supply)
                  λ after e'. ground (
                    arith,
                    whole_eq supply (dep - wd - 0) before
                        (withdraw-IsFloor supply (dep - wd - 0) supply before e),
                    whole_eq supply (dep - wd - flush) after
                        (withdraw-IsFloor supply (dep - wd - flush) supply after e'),
                  )))
