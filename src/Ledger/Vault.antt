-- ===== src/Ledger/Vault.antt =====
-- The vault as its holders see it: what it is worth, the shares in it, and two flags; and what may
-- happen to it. The pool's record (src/state.rs) is its detailed state.
use native.Mathlib.Nat.{mul-le-mul_right, le_of_mul-le-mul_right}
use percolator_vault.Base.{ℕ, ◌+◌, ◌-◌, ◌*◌, ◌≤◌, ◌<◌, ◌≡◌, ap, Bool, true, false, ◌==◌, arith}
use percolator_vault.Math.Lp.{IsFloor, Issues}
use percolator_vault.Math.Shares.{issue_price, payout_price}
use percolator_vault.State.{StakePool, is_resolved}
use percolator_vault.State.Value.{inflow, outflow}

pub record Vault : Type 0 where
  pub value : ℕ
  pub shares : ℕ
  pub resolved : Bool
  pub lending : Bool

-- What the vault of a pool is.
unfoldable pub vault_of : StakePool → Vault
vault_of p = record {
  value = inflow p - outflow p;
  shares = p.total_lp_supply;
  resolved = is_resolved p;
  lending = p.pool_mode == 0;
}

-- What may happen to a vault. Shares are issued and redeemed pro rata, rounded in favour of the
-- vault; only a lending vault gives value away, and gets it back as a gain.
pub data Transact (v v' : Vault) : Type 0 where
  idle : v' ≡ v → Transact v v'
  deposit :
      (amount lp : ℕ)
      → v.resolved ≡ false
      → 0 < lp
      → Issues v.shares v.value amount lp
      → v' ≡ record v { value = v.value + amount; shares = v.shares + lp }
      → Transact v v'
  withdraw :
      (lp paid : ℕ)
      → lp ≤ v.shares
      → 0 < paid
      → IsFloor lp v.value v.shares paid
      → v' ≡ record v { value = v.value - paid; shares = v.shares - lp }
      → Transact v v'
  lend :
      (amount : ℕ)
      → v.lending ≡ true
      → amount ≤ v.value
      → v' ≡ record v { value = v.value - amount }
      → Transact v v'
  gain : (amount : ℕ) → v' ≡ record v { value = v.value + amount } → Transact v v'
  resolve : v' ≡ record v { resolved = true } → Transact v v'

-- What a transaction does to the price of a share, value over shares: without lending it never falls.
pub Transact-price :
    (v v' : Vault)
    → v.lending ≡ false
    → 0 < v.shares
    → Transact v v'
    → v.value * v'.shares ≤ v'.value * v.shares
Transact-price v v' keeps pos (idle e) = rw e (omega arith)
Transact-price v v' keeps pos (deposit amount lp _ _ issued e) =
    rw e (issue_price v.shares v.value amount lp pos issued)
Transact-price v v' keeps pos (withdraw lp paid within _ f e) =
    rw e (payout_price v.shares v.value lp paid within f)
Transact-price v v' keeps pos (lend amount lends _ e) = absurd (cc)
Transact-price v v' keeps pos (gain amount e) = rw e (omega arith)
Transact-price v v' keeps pos (resolve e) = rw e (omega arith)

pub Transact-lending : (v v' : Vault) → Transact v v' → v'.lending ≡ v.lending
Transact-lending v v' (idle e) = ap (λ (u : Vault). u.lending) e
Transact-lending v v' (deposit amount lp _ _ _ e) = ap (λ (u : Vault). u.lending) e
Transact-lending v v' (withdraw lp paid _ _ _ e) = ap (λ (u : Vault). u.lending) e
Transact-lending v v' (lend amount _ _ e) = ap (λ (u : Vault). u.lending) e
Transact-lending v v' (gain amount e) = ap (λ (u : Vault). u.lending) e
Transact-lending v v' (resolve e) = ap (λ (u : Vault). u.lending) e

-- Prices compare through a third while it has shares.
pub price_trans :
    (v s v' s' v'' s'' : ℕ) → 0 < s' → v * s' ≤ v' * s → v' * s'' ≤ v'' * s' → v * s'' ≤ v'' * s
price_trans v s v' s' v'' s'' pos first second =
    le_of_mul-le-mul_right {k = s'}
      (omega (arith, mul-le-mul_right s'' first, mul-le-mul_right s second)) pos
