-- ===== src/Mirror/Harness/Fairness.antt =====
-- Sections 3, 4 and 7 of the harnesses of kani-proofs/src/lib.rs: rounding and order, and amounts of
-- zero.
use percolator_vault.Base.{ℕ, ◌≡◌, refl, Bool, true, ◌&&◌, ltb, leb, ◌==◌, arith}
use percolator_vault.Mirror.{calc_lp_for_deposit, calc_collateral_for_withdraw}
use percolator_vault.Mirror.Floor.{
  deposit-IsFloor, withdraw-IsFloor, floor_monotone, product_le, floor_le_product, share_le,
  first_deposit, deposit_same, free_deposit,
}
use percolator_vault.Mirror.Harness.{
  assume, assert, some_or_return, times, assume_lem, some_or_return_lem, times_lem,
}

unfoldable pub proof_lp_rounding_favors_pool : ℕ → ℕ → ℕ → Bool
proof_lp_rounding_favors_pool s pv dep = assume (ltb 0 s && ltb s 100) (
    assume (ltb 0 pv && ltb pv 100) (
      assume (ltb 0 dep && ltb dep 100) (
        some_or_return (calc_lp_for_deposit s pv dep)
          λ lp. times lp pv λ left. times dep s λ right. leb left right)))

pub proof_lp_rounding_favors_pool_lem :
    (s pv dep : ℕ) → proof_lp_rounding_favors_pool s pv dep ≡ true
unfolding proof_lp_rounding_favors_pool
proof_lp_rounding_favors_pool_lem s pv dep = assume_lem (ltb 0 s && ltb s 100) λ hs.
    assume_lem (ltb 0 pv && ltb pv 100) λ hp. assume_lem (ltb 0 dep && ltb dep 100) λ hd.
      some_or_return_lem (calc_lp_for_deposit s pv dep) λ lp e.
        let f = deposit-IsFloor s pv dep lp (ground arith) e in
        let small = product_le dep s 100 100 (ground arith) (ground arith) in
        times_lem lp pv (omega (arith, f.below, small))
          (times_lem dep s (omega (arith, small)) (ground (arith, f.below)))

unfoldable pub proof_larger_deposit_more_lp : ℕ → ℕ → ℕ → ℕ → Bool
proof_larger_deposit_more_lp s pv sm lg = assume (ltb 0 s && ltb s 100) (
    assume (ltb 0 pv && ltb pv 100) (
      assume (ltb 0 sm && ltb sm 50) (
        assume (ltb sm lg && ltb lg 100) (
          some_or_return (calc_lp_for_deposit s pv sm)
            λ ls. some_or_return (calc_lp_for_deposit s pv lg) λ ll. leb ls ll))))

pub proof_larger_deposit_more_lp_lem :
    (s pv sm lg : ℕ) → proof_larger_deposit_more_lp s pv sm lg ≡ true
unfolding proof_larger_deposit_more_lp
proof_larger_deposit_more_lp_lem s pv sm lg = assume_lem (ltb 0 s && ltb s 100) λ hs.
    assume_lem (ltb 0 pv && ltb pv 100) λ hp. assume_lem (ltb 0 sm && ltb sm 50) λ hm.
      assume_lem (ltb sm lg && ltb lg 100) λ hl.
        some_or_return_lem (calc_lp_for_deposit s pv sm) λ ls e.
          some_or_return_lem (calc_lp_for_deposit s pv lg) λ ll e'.
            let f = deposit-IsFloor s pv sm ls (ground arith) e in
            let g = deposit-IsFloor s pv lg ll (ground arith) e' in
            ground (
              arith,
              floor_monotone sm s pv ls lg s pv ll f g refl
                  (product_le sm s lg s (ground arith) (omega arith)),
            )

unfoldable pub proof_larger_burn_more_collateral : ℕ → ℕ → ℕ → ℕ → Bool
proof_larger_burn_more_collateral s pv sm lg = assume (ltb 0 s && ltb s 100) (
    assume (ltb 0 pv && ltb pv 100) (
      assume (ltb 0 sm && ltb sm 50) (
        assume (ltb sm lg && leb lg s) (
          some_or_return (calc_collateral_for_withdraw s pv sm)
            λ cs. some_or_return (calc_collateral_for_withdraw s pv lg) λ cl. leb cs cl))))

pub proof_larger_burn_more_collateral_lem :
    (s pv sm lg : ℕ) → proof_larger_burn_more_collateral s pv sm lg ≡ true
unfolding proof_larger_burn_more_collateral
proof_larger_burn_more_collateral_lem s pv sm lg = assume_lem (ltb 0 s && ltb s 100) λ hs.
    assume_lem (ltb 0 pv && ltb pv 100) λ hp. assume_lem (ltb 0 sm && ltb sm 50) λ hm.
      assume_lem (ltb sm lg && leb lg s) λ hl.
        some_or_return_lem (calc_collateral_for_withdraw s pv sm) λ cs e.
          some_or_return_lem (calc_collateral_for_withdraw s pv lg) λ cl e'. ground (
            arith,
            floor_monotone sm pv s cs lg pv s cl (withdraw-IsFloor s pv sm cs e)
                (withdraw-IsFloor s pv lg cl e') refl
                (product_le sm pv lg pv (ground arith) (omega arith)),
          )

unfoldable pub proof_equal_deposits_equal_lp : ℕ → Bool
proof_equal_deposits_equal_lp amount = assume (ltb 0 amount && ltb amount 50) (
    some_or_return (calc_lp_for_deposit 0 0 amount) λ lp1.
      assert (lp1 == amount)
        (some_or_return (calc_lp_for_deposit lp1 amount amount) λ lp2. lp2 == lp1))

pub proof_equal_deposits_equal_lp_lem : (amount : ℕ) → proof_equal_deposits_equal_lp amount ≡ true
unfolding proof_equal_deposits_equal_lp
proof_equal_deposits_equal_lp_lem amount =
    assume_lem (ltb 0 amount && ltb amount 50) λ h.
      rw (first_deposit amount, deposit_same amount (ground arith) (ground arith)) (ground arith)

unfoldable pub proof_full_burn_bounded : ℕ → ℕ → Bool
proof_full_burn_bounded s pv =
    assume (ltb 0 s && ltb s 100)
      (assume (ltb pv 100) (some_or_return (calc_collateral_for_withdraw s pv s) λ col. leb col pv))

pub proof_full_burn_bounded_lem : (s pv : ℕ) → proof_full_burn_bounded s pv ≡ true
unfolding proof_full_burn_bounded
proof_full_burn_bounded_lem s pv = assume_lem (ltb 0 s && ltb s 100) λ hs.
    assume_lem (ltb pv 100) λ hp.
      some_or_return_lem (calc_collateral_for_withdraw s pv s)
        λ col e. ground (arith, share_le s s pv col (omega arith) (withdraw-IsFloor s pv s col e))

unfoldable pub proof_partial_less_than_full : ℕ → ℕ → ℕ → Bool
proof_partial_less_than_full s pv p = assume (ltb 1 s && ltb s 100) (
    assume (ltb 0 pv && ltb pv 100) (
      assume (ltb 0 p && ltb p s) (
        some_or_return (calc_collateral_for_withdraw s pv s)
          λ f. some_or_return (calc_collateral_for_withdraw s pv p) λ pp. leb pp f)))

pub proof_partial_less_than_full_lem : (s pv p : ℕ) → proof_partial_less_than_full s pv p ≡ true
unfolding proof_partial_less_than_full
proof_partial_less_than_full_lem s pv p = assume_lem (ltb 1 s && ltb s 100) λ hs.
    assume_lem (ltb 0 pv && ltb pv 100) λ hv. assume_lem (ltb 0 p && ltb p s) λ hp.
      some_or_return_lem (calc_collateral_for_withdraw s pv s) λ f e.
        some_or_return_lem (calc_collateral_for_withdraw s pv p) λ pp e'. ground (
          arith,
          floor_monotone p pv s pp s pv s f (withdraw-IsFloor s pv p pp e')
              (withdraw-IsFloor s pv s f e) refl
              (product_le p pv s pv (ground arith) (omega arith)),
        )

unfoldable pub proof_zero_deposit_zero_lp : ℕ → ℕ → Bool
proof_zero_deposit_zero_lp s pv =
    assume (ltb s 100 && ltb pv 100) (some_or_return (calc_lp_for_deposit s pv 0) λ lp. lp == 0)

pub proof_zero_deposit_zero_lp_lem : (s pv : ℕ) → proof_zero_deposit_zero_lp s pv ≡ true
unfolding proof_zero_deposit_zero_lp
proof_zero_deposit_zero_lp_lem s pv = assume_lem (ltb s 100 && ltb pv 100) λ h.
    some_or_return_lem (calc_lp_for_deposit s pv 0) λ lp e. ground (arith, free_deposit s pv lp e)

unfoldable pub proof_zero_burn_zero_col : ℕ → ℕ → Bool
proof_zero_burn_zero_col s pv =
    assume (ltb s 100 && ltb pv 100)
      (some_or_return (calc_collateral_for_withdraw s pv 0) λ col. col == 0)

pub proof_zero_burn_zero_col_lem : (s pv : ℕ) → proof_zero_burn_zero_col s pv ≡ true
unfolding proof_zero_burn_zero_col
proof_zero_burn_zero_col_lem s pv = assume_lem (ltb s 100 && ltb pv 100) λ h.
    some_or_return_lem (calc_collateral_for_withdraw s pv 0)
      λ col e. ground (arith, floor_le_product 0 pv s col (withdraw-IsFloor s pv 0 col e))
