-- ===== src/Runtime/Store.antt =====
-- Reading a pool or a deposit back from the world after the writes of a handler.
use percolator_vault.Base.{subst, ◌≡◌, ap, ◌∙◌, false, ◌==◌, arith}
use percolator_vault.Error.{ok}
use percolator_vault.State.{StakePool, StakeDeposit, IsPool, IsDeposit}
use percolator_vault.Runtime.{
  Pubkey, World, Runtime, set_contents, load_pool, load_deposit, store_pool, store_deposit,
}
use percolator_vault.Runtime.Laws.{RuntimeLaws}

set_contents_self :
    {D : Type 0} (key : Pubkey) (d : D) (w : World D) → (set_contents key d w key).contents ≡ d
set_contents_self key d w = ground arith

set_contents_ne :
    {D : Type 0} (key other : Pubkey) (d : D) (w : World D)
    → (other == key) ≡ false
    → (set_contents key d w other).contents ≡ (w other).contents
set_contents_ne key other d w apart = ground arith

ok_path {ℓ} : {A : Type ℓ} {a b : A} → ok a ≡ ok b → a ≡ b
ok_path h = ground arith

module _ {D : Type 0} (rt : Runtime D) where
  -- The record that an account's data holds.
  abbrev pub pool_at : World D → Pubkey → StakePool
  pool_at w key = rt.pool_of (w key).contents

  abbrev pub deposit_at : World D → Pubkey → StakeDeposit
  deposit_at w key = rt.deposit_of (w key).contents

  pub load_pool-pool_at :
      (w : World D) (key : Pubkey) (p : StakePool) → load_pool rt w key ≡ ok p → p ≡ pool_at w key
  unfolding load_pool
  load_pool-pool_at w key p h = ground arith

  pub load_deposit-deposit_at :
      (w : World D) (key : Pubkey) (d : StakeDeposit)
      → load_deposit rt w key ≡ ok d
      → d ≡ deposit_at w key
  unfolding load_deposit
  load_deposit-deposit_at w key d h = ground arith

module _ {D : Type 0} (rt : Runtime D) (laws : RuntimeLaws rt) where
  pub pool_at-store_pool :
      (w : World D) (key : Pubkey) (p : StakePool)
      → IsPool p
      → pool_at rt (store_pool rt key p w) key ≡ p
  unfolding store_pool
  pool_at-store_pool w key p v =
      ap rt.pool_of (set_contents_self key (rt.with_pool p (w key).contents) w)
      ∙ laws.pool_of-with_pool p (w key).contents v

  pub deposit_at-store_deposit :
      (w : World D) (key : Pubkey) (d : StakeDeposit)
      → IsDeposit d
      → deposit_at rt (store_deposit rt key d w) key ≡ d
  unfolding store_deposit
  deposit_at-store_deposit w key d v =
      ap rt.deposit_of (set_contents_self key (rt.with_deposit d (w key).contents) w)
      ∙ laws.deposit_of-with_deposit d (w key).contents v

  -- A write to another account.
  pub deposit_at-store_pool :
      (w : World D) (key other : Pubkey) (p : StakePool)
      → (other == key) ≡ false
      → deposit_at rt (store_pool rt key p w) other ≡ deposit_at rt w other
  unfolding store_pool
  deposit_at-store_pool w key other p apart =
      ap rt.deposit_of (set_contents_ne key other (rt.with_pool p (w key).contents) w apart)

  -- The pool and the deposit that a handler ends by writing, each in its own account.
  pub stores_read :
      (w w' : World D) (key other : Pubkey) (p : StakePool) (d : StakeDeposit)
      → IsPool p
      → IsDeposit d
      → (other == key) ≡ false
      → ok (store_pool rt key p (store_deposit rt other d w)) ≡ ok w'
      → (pool_at rt w' key ≡ p) × (deposit_at rt w' other ≡ d)
  stores_read w w' key other p d v u apart h =
      subst (λ (s : World D). (pool_at rt s key ≡ p) × (deposit_at rt s other ≡ d)) (ok_path h)
        (
          pool_at-store_pool (store_deposit rt other d w) key p v,
          deposit_at-store_pool (store_deposit rt other d w) key other p apart
              ∙ deposit_at-store_deposit w other d u,
        )
