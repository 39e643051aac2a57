-- ===== src/Mirror/Floor.antt =====
-- What an answer of the u32 arithmetic of kani-proofs/src/lib.rs is: a quotient rounded down.
use native.Mathlib.Nat.{div-mul-le_self, lt-div-mul-add}
use native.Mathlib.Nat.{mul-le-mul_right, le_of_mul-le-mul_right, le_antisymm, mul-div_cancel}
use percolator_vault.Base.{
  subst, ◌⊎◌, inl, inr, Bool-cases, ℕ, suc, ◌+◌, ◌*◌, ◌≤◌, ◌<◌, ◌≡◌, refl, some, leb, arith,
}
use percolator_vault.Base.Word.{checked_div}
use percolator_vault.Mirror.{
  u32_max, checked_mul_u64, pro_rata_u32, calc_lp_for_deposit, calc_collateral_for_withdraw,
}

-- The quotient of a product, rounded down.
pub record IsFloor (a b c q : ℕ) : Type 0 where
  pub divisor : 0 < c
  pub below : q * c ≤ a * b
  pub above : a * b < q * c + c
  pub fits : q ≤ u32_max

pro_rata-IsFloor : (a b c q : ℕ) → pro_rata_u32 a b c ≡ some q → IsFloor a b c q
unfolding pro_rata_u32 checked_mul_u64 checked_div
pro_rata-IsFloor a b c q h =
    ground (arith, div-mul-le_self (a * b) c, lt-div-mul-add {a = a * b} {b = c})

pub deposit-IsFloor :
    (s v d lp : ℕ) → 0 < s → calc_lp_for_deposit s v d ≡ some lp → IsFloor d s v lp
unfolding calc_lp_for_deposit
deposit-IsFloor s v d lp pos h = ground (arith, pro_rata-IsFloor d s v lp)

pub withdraw-IsFloor :
    (s v lp c : ℕ) → calc_collateral_for_withdraw s v lp ≡ some c → IsFloor lp v s c
unfolding calc_collateral_for_withdraw
withdraw-IsFloor s v lp c h = ground (arith, pro_rata-IsFloor lp v s c)

pub floor_cancel : (q q' c : ℕ) → q * c < q' * c + c → q ≤ q'
floor_cancel q q' c h = elim (Bool-cases (leb q q')) [
  | inl le ↦ ground arith
  | inr gt ↦ absurd (over q' q c (ground arith) h)
]
  where
    over : (q' q c : ℕ) → suc q' ≤ q → q * c < q' * c + c → ⊥
    over q' q c le lt = omega (arith, mul-le-mul_right c le)

-- A larger dividend has at least the quotient.
pub floor_monotone :
    (a b c q a' b' c' q' : ℕ)
    → IsFloor a b c q
    → IsFloor a' b' c' q'
    → c ≡ c'
    → a * b ≤ a' * b'
    → q ≤ q'
floor_monotone a b c q a' b' c' q' f g e le =
    floor_cancel q q' c' (omega (arith, subst (λ (n : ℕ). q * n ≤ a * b) e f.below, g.above, le))

pub product_le : (a b m n : ℕ) → a ≤ m → b ≤ n → a * b ≤ m * n
product_le a b m n h g = omega (arith, mul-le-mul_right b h, mul-le-mul_right m g)

-- A quotient is at most the product.
pub floor_le_product : (a b c q : ℕ) → IsFloor a b c q → q ≤ a * b
floor_le_product a b c q f = omega (arith, f.below, mul-le-mul_right q f.divisor)

-- What was deposited at a price cannot be taken out above it.
pub round_trip :
    (s v d lp back : ℕ) → IsFloor d s v lp → IsFloor lp (v + d) (s + lp) back → back ≤ d
round_trip s v d lp back f g =
    floor_cancel back d (s + lp) (omega (arith, f.below, g.below, g.divisor))

-- A share of a pool is at most the pool.
pub share_le : (part whole v paid : ℕ) → part ≤ whole → IsFloor part v whole paid → paid ≤ v
share_le part whole v paid le f =
    floor_cancel paid v whole (omega (arith, f.below, f.divisor, mul-le-mul_right v le))

-- The whole of a pool is all of it.
pub whole_eq : (whole v paid : ℕ) → IsFloor whole v whole paid → paid ≡ v
whole_eq whole v paid f =
    le_antisymm (floor_cancel paid v whole (omega (arith, f.below, f.divisor)))
      (floor_cancel v paid whole (omega (arith, f.above)))

-- The share of a holder does not fall when another deposits.
pub share_kept :
    (s v x before d lp after : ℕ)
    → IsFloor x v s before
    → IsFloor d s v lp
    → IsFloor x (v + d) (s + lp) after
    → before ≤ after
share_kept s v x before d lp after f g h =
    floor_cancel before after (s + lp) (omega (arith, h.above, cross))
  where
    cross : before * (s + lp) ≤ x * (v + d)
    cross =
        le_of_mul-le-mul_right {k = s}
          (omega (arith, mul-le-mul_right (s + lp) f.below, mul-le-mul_right x g.below)) f.divisor

-- An answer exists for a part of a pool whose result fits.
pub first_deposit : (d : ℕ) → calc_lp_for_deposit 0 0 d ≡ some d
unfolding calc_lp_for_deposit
first_deposit d = refl

pro_rata_same : (a : ℕ) → 0 < a → a < 100 → pro_rata_u32 a a a ≡ some a
unfolding pro_rata_u32 checked_mul_u64 checked_div
pro_rata_same a pos small = ground (arith, mul-div_cancel a pos, product_le a a 100 100)

pub withdraw_same : (a : ℕ) → 0 < a → a < 100 → calc_collateral_for_withdraw a a a ≡ some a
unfolding calc_collateral_for_withdraw
withdraw_same a pos small = ground (arith, pro_rata_same a pos small)

pub deposit_same : (a : ℕ) → 0 < a → a < 100 → calc_lp_for_deposit a a a ≡ some a
unfolding calc_lp_for_deposit
deposit_same a pos small = ground (arith, pro_rata_same a pos small)

-- Nothing buys nothing.
pub free_deposit : (s v lp : ℕ) → calc_lp_for_deposit s v 0 ≡ some lp → lp ≡ 0
unfolding calc_lp_for_deposit
free_deposit s v lp h = ground (arith, free_share)
  where
    free_share : pro_rata_u32 0 s v ≡ some lp → lp ≤ 0 * s
    free_share e = floor_le_product 0 s v lp (pro_rata-IsFloor 0 s v lp e)

-- What is issued fits, and is worth no more than the deposit.
pub guarded :
    (s v d lp : ℕ)
    → d ≤ u32_max
    → calc_lp_for_deposit s v d ≡ some lp
    → (lp ≤ u32_max) × ((v ≡ 0) ⊎ (lp * v ≤ d * s))
unfolding calc_lp_for_deposit
guarded s v d lp fits h = ground (arith, pro_rata-IsFloor d s v lp)

pub round_trip_below :
    (s v d lp w back : ℕ) → IsFloor d s v lp → w ≤ v + d → IsFloor lp w (s + lp) back → back ≤ d
round_trip_below s v d lp w back f le g =
    floor_cancel back d (s + lp)
      (omega (arith, f.below, g.below, g.divisor, mul-le-mul_right lp le))

-- Who was issued shares gets something back for them.
pub some_back :
    (s v d lp back : ℕ)
    → s ≤ v
    → 0 < lp
    → IsFloor d s v lp
    → IsFloor lp (v + d) (s + lp) back
    → 0 < back
some_back s v d lp back le pos f g = floor_cancel 1 back (s + lp) (omega (arith, g.above, worth))
  where
    issued : lp ≤ d
    issued = floor_cancel lp d v (omega (arith, f.below, f.divisor, mul-le-mul_right d le))

    worth : s + lp ≤ lp * (v + d)
    worth = omega (arith, mul-le-mul_right (v + d) pos, issued, le)
