-- ===== src/Mirror/Harness/Conservation.antt =====
-- Section 1 of the harnesses of kani-proofs/src/lib.rs, but for its flush: what is deposited and
-- withdrawn.
use percolator_vault.Base.{
  subst, sym, ℕ, ◌+◌, ◌-◌, ◌*◌, ◌≤◌, ◌<◌, ◌≡◌, Bool, true, ◌&&◌, Option, ltb, leb, ◌==◌, arith,
}
use percolator_vault.Mirror.{calc_lp_for_deposit, calc_collateral_for_withdraw}
use percolator_vault.Mirror.Floor.{
  IsFloor, deposit-IsFloor, withdraw-IsFloor, product_le, floor_le_product, round_trip, share_le,
  share_kept, first_deposit, withdraw_same,
}
use percolator_vault.Mirror.Harness.{
  assume, assert, unwrap, some_or_return, positive_or_return, plus, minus, assume_lem,
  some_or_return_lem, positive_or_return_lem, plus_lem, minus_lem,
}

-- What is issued for a small deposit in a small pool is small.
pub issued_small : (s v d lp n : ℕ) → s ≤ n → d ≤ n → IsFloor d s v lp → lp ≤ n * n
issued_small s v d lp n hs hd f =
    omega (arith, floor_le_product d s v lp f, product_le d s n n hd hs)

abbrev after_first : ℕ → ℕ → ℕ → ℕ → Bool
after_first a b appreciation a_lp = plus a appreciation λ pv_after_appreciation.
    positive_or_return (calc_lp_for_deposit a_lp pv_after_appreciation b) λ b_lp.
      plus a_lp b_lp λ s2. plus pv_after_appreciation b λ pv2.
        some_or_return (calc_collateral_for_withdraw s2 pv2 a_lp) λ a_back. minus s2 a_lp λ s3.
          minus pv2 a_back λ pv3.
            some_or_return (calc_collateral_for_withdraw s3 pv3 b_lp)
              λ b_back. leb (a_back + b_back) (a + b + appreciation)

-- Two holders of a pool take at most the pool.
both_withdraw :
    (a_lp b_lp pv total : ℕ)
    → 0 < b_lp
    → pv ≤ total
    → (some_or_return (calc_collateral_for_withdraw (a_lp + b_lp) pv a_lp) λ a_back.
        minus (a_lp + b_lp) a_lp λ s3. minus pv a_back λ pv3.
          some_or_return
            (calc_collateral_for_withdraw s3 pv3 b_lp)
            λ b_back. leb (a_back + b_back) total)
      ≡ true
both_withdraw a_lp b_lp pv total pos le =
    some_or_return_lem (calc_collateral_for_withdraw (a_lp + b_lp) pv a_lp) λ a_back e.
      let first =
        share_le a_lp (a_lp + b_lp) pv a_back (omega arith)
          (withdraw-IsFloor (a_lp + b_lp) pv a_lp a_back e) in
      minus_lem (a_lp + b_lp) a_lp (omega arith) (
        minus_lem pv a_back first (
          some_or_return_lem (calc_collateral_for_withdraw (a_lp + b_lp - a_lp) (pv - a_back) b_lp)
            λ b_back e'. ground (
              arith,
              first,
              share_le b_lp (a_lp + b_lp - a_lp) (pv - a_back) b_back (omega arith)
                  (withdraw-IsFloor (a_lp + b_lp - a_lp) (pv - a_back) b_lp b_back e'),
            )))

undiluted :
    (s v a_lp d : ℕ)
    → 0 < s
    → s ≤ 240
    → v ≤ 28
    → d ≤ 14
    → (some_or_return (calc_collateral_for_withdraw s v a_lp) λ before.
        positive_or_return (calc_lp_for_deposit s v d) λ b_lp. plus s b_lp λ s_after.
          plus v d λ v_after.
            some_or_return
              (calc_collateral_for_withdraw s_after v_after a_lp)
              λ after. leb before after)
      ≡ true
undiluted s v a_lp d pos hs hv hd =
    some_or_return_lem (calc_collateral_for_withdraw s v a_lp) λ before e.
      positive_or_return_lem (calc_lp_for_deposit s v d) λ b_lp e' _.
        let g = deposit-IsFloor s v d b_lp pos e' in
        plus_lem s b_lp
          (omega (arith, hs, floor_le_product d s v b_lp g, product_le d s 14 240 hd hs))
          (plus_lem v d (omega (arith, hv, hd)) (
            some_or_return_lem (calc_collateral_for_withdraw (s + b_lp) (v + d) a_lp) λ after e''.
              ground (
                arith,
                share_kept s v a_lp before d b_lp after (withdraw-IsFloor s v a_lp before e) g
                    (withdraw-IsFloor (s + b_lp) (v + d) a_lp after e''),
              )))

unfoldable pub proof_deposit_withdraw_no_inflation : ℕ → ℕ → ℕ → Bool
proof_deposit_withdraw_no_inflation supply pv deposit = assume (ltb 0 deposit && ltb deposit 20) (
    assume (ltb 0 supply && ltb supply 20) (
      assume (ltb 0 pv && ltb pv 20) (
        positive_or_return (calc_lp_for_deposit supply pv deposit) λ lp. plus supply lp λ ns.
          plus pv deposit
            λ np. some_or_return (calc_collateral_for_withdraw ns np lp) λ back. leb back deposit)))

pub proof_deposit_withdraw_no_inflation_lem :
    (supply pv deposit : ℕ) → proof_deposit_withdraw_no_inflation supply pv deposit ≡ true
unfolding proof_deposit_withdraw_no_inflation
proof_deposit_withdraw_no_inflation_lem supply pv deposit =
    assume_lem (ltb 0 deposit && ltb deposit 20) λ hd.
      assume_lem (ltb 0 supply && ltb supply 20) λ hs. assume_lem (ltb 0 pv && ltb pv 20) λ hp.
        positive_or_return_lem (calc_lp_for_deposit supply pv deposit) λ lp e _.
          let f = deposit-IsFloor supply pv deposit lp (ground arith) e in
          let small = issued_small supply pv deposit lp 20 (ground arith) (ground arith) f in
          plus_lem supply lp (ground (arith, small)) (
            plus_lem pv deposit (ground arith) (
              some_or_return_lem (calc_collateral_for_withdraw (supply + lp) (pv + deposit) lp)
                λ back e'. ground (
                  arith,
                  round_trip supply pv deposit lp back f
                      (withdraw-IsFloor (supply + lp) (pv + deposit) lp back e'),
                )))

unfoldable pub proof_first_depositor_exact : ℕ → Bool
proof_first_depositor_exact amount = assume (ltb 0 amount && ltb amount 100) (
    unwrap (calc_lp_for_deposit 0 0 amount) λ lp.
      assert (lp == amount)
        (unwrap (calc_collateral_for_withdraw lp amount lp) λ back. back == amount))

pub proof_first_depositor_exact_lem : (amount : ℕ) → proof_first_depositor_exact amount ≡ true
unfolding proof_first_depositor_exact
proof_first_depositor_exact_lem amount = assume_lem (ltb 0 amount && ltb amount 100) λ h.
    rw (first_deposit amount, withdraw_same amount (ground arith) (ground arith)) (ground arith)

unfoldable pub proof_two_depositors_conservation : ℕ → ℕ → ℕ → Bool
proof_two_depositors_conservation a b appreciation = assume (ltb 0 a && ltb a 20) (
    assume (ltb 0 b && ltb b 20) (
      assume (ltb appreciation 20) (
        unwrap (calc_lp_for_deposit 0 0 a) λ a_lp. plus a appreciation λ pv_after_appreciation.
          positive_or_return (calc_lp_for_deposit a_lp pv_after_appreciation b) λ b_lp.
            plus a_lp b_lp λ s2. plus pv_after_appreciation b λ pv2.
              some_or_return (calc_collateral_for_withdraw s2 pv2 a_lp) λ a_back.
                minus s2 a_lp λ s3. minus pv2 a_back λ pv3.
                  some_or_return (calc_collateral_for_withdraw s3 pv3 b_lp)
                    λ b_back. leb (a_back + b_back) (a + b + appreciation))))

pub proof_two_depositors_conservation_lem :
    (a b appreciation : ℕ) → proof_two_depositors_conservation a b appreciation ≡ true
unfolding proof_two_depositors_conservation
proof_two_depositors_conservation_lem a b appreciation = assume_lem (ltb 0 a && ltb a 20) λ ha.
    assume_lem (ltb 0 b && ltb b 20) λ hb. assume_lem (ltb appreciation 20) λ hp.
      subst (λ (o : Option ℕ). unwrap o (after_first a b appreciation) ≡ true)
        (sym (first_deposit a))
        (plus_lem a appreciation (ground arith) (
          positive_or_return_lem (calc_lp_for_deposit a (a + appreciation) b) λ b_lp e pos.
            let f = deposit-IsFloor a (a + appreciation) b b_lp (ground arith) e in
            let small =
              issued_small a (a + appreciation) b b_lp 20 (ground arith) (ground arith) f in
            plus_lem a b_lp (ground (arith, small)) (
              plus_lem (a + appreciation) b (ground arith) (
                both_withdraw a b_lp (a + appreciation + b) (a + b + appreciation) pos
                  (omega arith)))))

unfoldable pub proof_no_dilution : ℕ → ℕ → ℕ → ℕ → Bool
proof_no_dilution init_s init_pv a_dep b_dep = assume (ltb 0 init_s && ltb init_s 15) (
    assume (ltb 0 init_pv && ltb init_pv 15) (
      assume (ltb 0 a_dep && ltb a_dep 15) (
        assume (ltb 0 b_dep && ltb b_dep 15) (
          positive_or_return (calc_lp_for_deposit init_s init_pv a_dep) λ a_lp.
            plus init_s a_lp λ s_after_a. plus init_pv a_dep λ pv_after_a.
              some_or_return (calc_collateral_for_withdraw s_after_a pv_after_a a_lp)
                λ a_value_before.
                  positive_or_return (calc_lp_for_deposit s_after_a pv_after_a b_dep) λ b_lp.
                    plus s_after_a b_lp λ s_after_b. plus pv_after_a b_dep λ pv_after_b.
                      some_or_return (calc_collateral_for_withdraw s_after_b pv_after_b a_lp)
                        λ a_value_after. leb a_value_before a_value_after))))

pub proof_no_dilution_lem :
    (init_s init_pv a_dep b_dep : ℕ) → proof_no_dilution init_s init_pv a_dep b_dep ≡ true
unfolding proof_no_dilution
proof_no_dilution_lem init_s init_pv a_dep b_dep = assume_lem (ltb 0 init_s && ltb init_s 15) λ hs.
    assume_lem (ltb 0 init_pv && ltb init_pv 15) λ hv.
      assume_lem (ltb 0 a_dep && ltb a_dep 15) λ ha. assume_lem (ltb 0 b_dep && ltb b_dep 15) λ hb.
        positive_or_return_lem (calc_lp_for_deposit init_s init_pv a_dep) λ a_lp e _.
          let f = deposit-IsFloor init_s init_pv a_dep a_lp (ground arith) e in
          let small = issued_small init_s init_pv a_dep a_lp 15 (ground arith) (ground arith) f in
          plus_lem init_s a_lp (ground (arith, small)) (
            plus_lem init_pv a_dep (ground arith) (
              undiluted (init_s + a_lp) (init_pv + a_dep) a_lp b_dep (ground arith)
                (ground (arith, small)) (ground arith) (ground arith)))
