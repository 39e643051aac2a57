-- ===== src/Runtime/Owned.antt =====
-- Ownership of accounts, as the Solana runtime enforces it: a program changes the data and the owner
-- of no account but those that it owns, and the system program hands out zeroed accounts that it
-- owns itself.
use percolator_vault.Base.{
  subst, ℕ, ◌≤◌, ◌≡◌, sym, ◌∙◌, Bool, false, List, All, replicate, ◌==◌, arith,
}
use percolator_vault.Error.{ok}
use percolator_vault.State.{StakePool, StakeDeposit, stake_pool_size}
use percolator_vault.Runtime.{
  Pubkey, AccountInfo, World, Cpi, wrapper, create_account, allocate, assign, Seeds, Runtime,
  store_pool, store_deposit,
}

-- The pool that 352 zero bytes hold.
abbrev pub zero_pool : StakePool
zero_pool = record {
  is_initialized = 0;
  bump = 0;
  vault_authority_bump = 0;
  admin_transferred = 0;
  padding = replicate 4 0;
  slab = 0;
  admin = 0;
  collateral_mint = 0;
  lp_mint = 0;
  vault = 0;
  total_deposited = 0;
  total_lp_supply = 0;
  cooldown_slots = 0;
  deposit_cap = 0;
  total_flushed = 0;
  total_returned = 0;
  total_withdrawn = 0;
  percolator_program = 0;
  total_fees_earned = 0;
  last_fee_accrual_slot = 0;
  last_vault_snapshot = 0;
  pool_mode = 0;
  mode_padding = replicate 7 0;
  reserved = replicate 64 0;
}

-- Whether an invocation runs this very program. The other builders name the system program, or the
-- token program, whose id spl_token checks.
unfoldable pub calls : Pubkey → Cpi → Bool
calls program (wrapper i) = i.program_id == program
calls program _ = false

pub record OwnedLaws {D : Type 0} (rt : Runtime D) (program_id : Pubkey) : Type 0 where
  pub data_len-with_pool : (p : StakePool) (d : D) → rt.data_len (rt.with_pool p d) ≡ rt.data_len d
  pub owned_frame :
      (c : Cpi) (seeds : List Seeds) (w w' : World D) (k : Pubkey)
      → rt.invoke_signed c seeds w ≡ ok w'
      → calls program_id c ≡ false
      → (w k).owner ≡ program_id
      → ((w' k).contents ≡ (w k).contents) × ((w' k).owner ≡ program_id)
  pub created :
      (payer target : Pubkey) (lamports space : ℕ) (owner : Pubkey) (seeds : List Seeds)
      (w w' : World D)
      → stake_pool_size ≤ space
      → rt.invoke_signed (create_account payer target lamports space owner) seeds w ≡ ok w'
      → ((w' target).owner ≡ owner)
        × (rt.data_len (w' target).contents ≡ space)
        × (rt.pool_of (w' target).contents ≡ zero_pool)
  pub allocated :
      (target : Pubkey) (space : ℕ) (seeds : List Seeds) (w w' : World D)
      → stake_pool_size ≤ space
      → rt.invoke_signed (allocate target space) seeds w ≡ ok w'
      → (rt.data_len (w' target).contents ≡ space) × (rt.pool_of (w' target).contents ≡ zero_pool)
  pub assigned :
      (target owner : Pubkey) (seeds : List Seeds) (w w' : World D)
      → rt.invoke_signed (assign target owner) seeds w ≡ ok w'
      → ((w' target).owner ≡ owner) × ((w' target).contents ≡ (w target).contents)

-- A transaction that does not pass the program's own account to it, so that the program cannot be
-- invoked again from within.
abbrev pub Foreign : Pubkey → List AccountInfo → Type 0
Foreign program_id accounts = All (λ (i : AccountInfo). (i.key == program_id) ≡ false) accounts

module _ {D : Type 0} (rt : Runtime D) (program_id : Pubkey) where
  -- An account of the program that can hold a pool.
  abbrev pub Held : World D → Pubkey → Type 0
  Held w k = ((w k).owner ≡ program_id) × (stake_pool_size ≤ rt.data_len (w k).contents)

  -- An account that keeps its data and stays the program's.
  abbrev pub Untouched : World D → World D → Pubkey → Type 0
  Untouched w w' k = ((w' k).contents ≡ (w k).contents) × ((w' k).owner ≡ program_id)

  pub Untouched-Untouched :
      (w w₁ w' : World D) (k : Pubkey) → Untouched w w₁ k → Untouched w₁ w' k → Untouched w w' k
  Untouched-Untouched w w₁ w' k u v = (v.0 ∙ u.0, v.1)

  pub Untouched-Held : (w w' : World D) (k : Pubkey) → Held w k → Untouched w w' k → Held w' k
  Untouched-Held w w' k h u =
      (u.1, subst (λ (d : D). stake_pool_size ≤ rt.data_len d) (sym u.0) h.1)

  pub store_pool-Untouched :
      (w : World D) (key k : Pubkey) (p : StakePool)
      → (k == key) ≡ false
      → (w k).owner ≡ program_id
      → Untouched w (store_pool rt key p w) k
  unfolding store_pool
  store_pool-Untouched w key k p apart owned = ground arith

  pub store_deposit-Untouched :
      (w : World D) (key k : Pubkey) (d : StakeDeposit)
      → (k == key) ≡ false
      → (w k).owner ≡ program_id
      → Untouched w (store_deposit rt key d w) k
  unfolding store_deposit
  store_deposit-Untouched w key k d apart owned = ground arith

  pub store_pool-owner :
      (w : World D) (key : Pubkey) (p : StakePool)
      → ((store_pool rt key p w key).owner ≡ (w key).owner)
        × ((store_pool rt key p w key).contents ≡ rt.with_pool p (w key).contents)
  unfolding store_pool
  store_pool-owner w key p = ground arith
