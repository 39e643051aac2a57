-- ===== src/Mirror/Harness/Flows.antt =====
-- Sections 5, 6 and 11 of the harnesses of kani-proofs/src/lib.rs: flushes and the pool's value.
use percolator_vault.Base.{ℕ, ◌-◌, ◌≡◌, Bool, true, ◌&&◌, ltb, leb, ◌==◌, if◌then◌else◌, arith}
use percolator_vault.Base.Word.{checked_sub, saturating_sub}
use percolator_vault.Mirror.{checked_add_u32, pool_value, pool_value_with_flush, flush_available}
use percolator_vault.Mirror.Harness.{
  assume, assert, unwrap, some_or_return, plus, minus, is_some_of, is_none,
}

unfoldable pub proof_flush_preserves_value : ℕ → ℕ → ℕ → ℕ → ℕ → Bool
proof_flush_preserves_value dep wd flushed returned flush_amount =
    assume
      (ltb dep 100
        && (ltb wd 100 && (ltb flushed 100 && (ltb returned 100 && ltb flush_amount 100))))
      (assume (leb wd dep) (
        minus dep wd λ net. assume (leb flushed net) (
          assume (leb returned flushed) (
            minus net flushed λ room. assume (leb flush_amount room) (
              some_or_return (pool_value_with_flush dep wd flushed returned) λ pv_before.
                plus flushed flush_amount λ more.
                  some_or_return (pool_value_with_flush dep wd more returned)
                    λ pv_after. minus pv_before flush_amount λ left. left == pv_after)))))

pub proof_flush_preserves_value_lem :
    (dep wd flushed returned flush_amount : ℕ)
    → proof_flush_preserves_value dep wd flushed returned flush_amount ≡ true
unfolding proof_flush_preserves_value pool_value pool_value_with_flush checked_sub checked_add_u32
proof_flush_preserves_value_lem dep wd flushed returned flush_amount = ground arith

unfoldable pub proof_flush_bounded : ℕ → ℕ → ℕ → Bool
proof_flush_bounded d w f =
    assume (ltb d 100 && (ltb w 100 && ltb f 100)) (leb (flush_available d w f) d)

pub proof_flush_bounded_lem : (d w f : ℕ) → proof_flush_bounded d w f ≡ true
unfolding proof_flush_bounded flush_available saturating_sub
proof_flush_bounded_lem d w f = ground arith

unfoldable pub proof_flush_max_then_zero : ℕ → ℕ → ℕ → Bool
proof_flush_max_then_zero d w f = assume (ltb d 100 && (ltb w 100 && ltb f 100)) (
    assume (leb w d) (
      assume (leb f (saturating_sub d w))
        (plus f (flush_available d w f) λ all. flush_available d w all == 0)))

pub proof_flush_max_then_zero_lem : (d w f : ℕ) → proof_flush_max_then_zero d w f ≡ true
unfolding proof_flush_max_then_zero flush_available saturating_sub
proof_flush_max_then_zero_lem d w f = ground arith

unfoldable pub proof_pool_value_correctness : ℕ → ℕ → Bool
proof_pool_value_correctness d w = assume (ltb d 100 && ltb w 100) (
    if ltb d w
    then is_none (pool_value d w)
    else minus d w λ left. is_some_of (pool_value d w) left)

pub proof_pool_value_correctness_lem : (d w : ℕ) → proof_pool_value_correctness d w ≡ true
unfolding proof_pool_value_correctness pool_value pool_value_with_flush checked_sub checked_add_u32
proof_pool_value_correctness_lem d w = ground arith

unfoldable pub proof_deposit_increases_value : ℕ → ℕ → ℕ → Bool
proof_deposit_increases_value d w extra = assume (ltb d 100 && (ltb w 100 && ltb extra 100)) (
    assume (leb w d && ltb 0 extra) (
      unwrap (pool_value d w) λ old.
        some_or_return (checked_add_u32 d extra)
          λ new_d. unwrap (pool_value new_d w) λ new. ltb old new))

pub proof_deposit_increases_value_lem :
    (d w extra : ℕ) → proof_deposit_increases_value d w extra ≡ true
unfolding proof_deposit_increases_value pool_value pool_value_with_flush checked_sub checked_add_u32
proof_deposit_increases_value_lem d w extra = ground arith

unfoldable pub proof_flush_return_conservation : ℕ → ℕ → ℕ → ℕ → Bool
proof_flush_return_conservation d w f r =
    assume (ltb d 100 && (ltb w 100 && (ltb f 100 && ltb r 100))) (
      assume (leb w d) (
        minus d w λ net. assume (leb f net) (
          assume (leb r f) (
            some_or_return (pool_value_with_flush d w f r) λ pv. assert (leb pv net) (
              assert (if r == f then pv == net else true)
                (if ltb r f then ltb pv net else true))))))

pub proof_flush_return_conservation_lem :
    (d w f r : ℕ) → proof_flush_return_conservation d w f r ≡ true
unfolding proof_flush_return_conservation pool_value pool_value_with_flush checked_sub
    checked_add_u32
proof_flush_return_conservation_lem d w f r = ground arith

unfoldable pub proof_returns_increase_value : ℕ → ℕ → ℕ → ℕ → Bool
proof_returns_increase_value d w f r = assume (ltb d 50 && (ltb w 50 && (ltb f 50 && ltb r 50))) (
    assume (leb w d && (leb f (d - w) && ltb r f)) (
      plus r 1 λ more.
        some_or_return (pool_value_with_flush d w f r)
          λ b. some_or_return (pool_value_with_flush d w f more) λ a. ltb b a))

pub proof_returns_increase_value_lem : (d w f r : ℕ) → proof_returns_increase_value d w f r ≡ true
unfolding proof_returns_increase_value pool_value pool_value_with_flush checked_sub checked_add_u32
proof_returns_increase_value_lem d w f r = ground arith

unfoldable pub proof_flush_reduces_value_exactly : ℕ → ℕ → ℕ → Bool
proof_flush_reduces_value_exactly dep wd flush =
    assume (ltb dep 100 && (ltb wd 100 && ltb flush 100)) (
      assume (leb wd dep) (
        minus dep wd λ net. assume (leb flush net) (
          unwrap (pool_value dep wd) λ before.
            unwrap (pool_value_with_flush dep wd flush 0)
              λ after. minus before after λ lost. lost == flush)))

pub proof_flush_reduces_value_exactly_lem :
    (dep wd flush : ℕ) → proof_flush_reduces_value_exactly dep wd flush ≡ true
unfolding proof_flush_reduces_value_exactly pool_value pool_value_with_flush checked_sub
    checked_add_u32
proof_flush_reduces_value_exactly_lem dep wd flush = ground arith

unfoldable pub proof_flush_full_return_conservation : ℕ → ℕ → ℕ → Bool
proof_flush_full_return_conservation dep wd flush =
    assume (ltb dep 100 && (ltb wd 100 && ltb flush 100)) (
      assume (leb wd dep) (
        minus dep wd λ net. assume (leb flush net) (
          unwrap (pool_value dep wd) λ pv_original.
            unwrap (pool_value_with_flush dep wd flush 0) λ pv_after_flush.
              minus pv_original flush λ left. assert (pv_after_flush == left) (
                unwrap (pool_value_with_flush dep wd flush flush)
                  λ pv_after_return. pv_after_return == pv_original))))

pub proof_flush_full_return_conservation_lem :
    (dep wd flush : ℕ) → proof_flush_full_return_conservation dep wd flush ≡ true
unfolding proof_flush_full_return_conservation pool_value pool_value_with_flush checked_sub
    checked_add_u32
proof_flush_full_return_conservation_lem dep wd flush = ground arith
