-- ===== src/Processor/Opening.antt =====
-- The record that `process_init_pool` and `process_init_trading_pool` of src/processor.rs write.
pub mod Zeroed
pub mod Accounts
use percolator_vault.Base.{
  subst, ℕ, zero, suc, ◌≤◌, ◌<◌, ◌≡◌, refl, sym, ap, ◌∙◌, ◌⊎◌, inl, inr, Bool, true, false, not,
  List, [], ◌∷◌, All, Bool-cases, none, length, replicate, ltb, ◌==◌, if◌then◌else◌, arith,
}
use percolator_vault.Base.Word.{IsU8, IsU64}
use percolator_vault.Base.Slices.{
  write_slice, overwrite, bytes_eq, length-write_slice, write_slice-IsU8, length-set, set-IsU8,
}
use percolator_vault.Base.Bytes.{to_le_bytes, to_le_bytes-IsU8}
use percolator_vault.Error.{Result, ok, same_ok, bind_ok}
use percolator_vault.State.{
  StakePool, IsPool, IsReserved, IsKey, stake_pool_size, validate_discriminator, is_resolved,
  stake_pool_discriminator, current_version, set_discriminator,
}
use percolator_vault.State.Value.{inflow, outflow}
use percolator_vault.Runtime.{
  Pubkey, AccountInfo, World, Runtime, Seeds, load_pool, store_pool, initialize_mint,
  initialize_account, create_account, allocate, assign, next_account_info,
}
use percolator_vault.Runtime.Laws.{RuntimeLaws}
use percolator_vault.Runtime.Owned.{
  OwnedLaws, Foreign, Held, Untouched, Untouched-Held, calls, zero_pool, store_pool-owner,
}
use percolator_vault.Runtime.Store.{pool_at, pool_at-store_pool, load_pool-pool_at}
use percolator_vault.Pda.{derive_pool_pda, derive_vault_authority, pool_seeds, vault_auth_seeds}
use percolator_vault.Cpi.{cpi_update_authority, update_authority_instruction}
use percolator_vault.Ledger.{Booked}
use percolator_vault.Processor.Common.{create_or_adopt_pda, fund_pda}
use percolator_vault.Processor.Init.{
  InitAccounts, init_accounts, check_init, create_init, initial_pool, third_account,
  process_init_pool, process_init_trading_pool,
}
use percolator_vault.Processor.Steps.Creation.{Spared, then-Untouched}
use percolator_vault.Processor.Steps.Frames.{
  init_accounts-Foreign, init_accounts-third_account, invoked-Untouched,
}

initial_reserved :
    (p : StakePool) → IsReserved p.reserved → IsReserved (set_discriminator p).reserved
unfolding set_discriminator
initial_reserved p (size, bytes) = (
  length-set (write_slice 0 stake_pool_discriminator p.reserved) 8 current_version
      ∙ length-write_slice 0 stake_pool_discriminator p.reserved
      ∙ size,
  set-IsU8 (write_slice 0 stake_pool_discriminator p.reserved) 8 current_version (omega arith)
      (write_slice-IsU8 0 stake_pool_discriminator p.reserved discriminator_bytes bytes),
)
  where
    discriminator_bytes : All IsU8 stake_pool_discriminator
    discriminator_bytes = ground arith

-- The addresses among the accounts that the pool keeps.
pub record KeysFit (a : InitAccounts) : Type 0 where
  pub slab_fits : IsKey a.slab.key
  pub admin_fits : IsKey a.admin.key
  pub collateral_fits : IsKey a.collateral_mint.key
  pub mint_fits : IsKey a.lp_mint.key
  pub vault_fits : IsKey a.vault.key
  pub program_fits : IsKey a.percolator_program.key

pub init_accounts-KeysFit :
    (accounts : List AccountInfo) (a : InitAccounts)
    → All (λ (i : AccountInfo). IsKey i.key) accounts
    → init_accounts accounts ≡ ok a
    → KeysFit a
unfolding init_accounts next_account_info
init_accounts-KeysFit (_ ∷ _ ∷ _ ∷ _ ∷ _ ∷ _ ∷ _ ∷ _ ∷ _ ∷ _ ∷ _ ∷ _) a keys h = ground arith
init_accounts-KeysFit accounts a keys h = cc

pub initial_pool-IsPool :
    (a : InitAccounts) (pool_bump vault_auth_bump cooldown limit : ℕ) (p : StakePool)
    → KeysFit a
    → IsU8 pool_bump
    → IsU8 vault_auth_bump
    → IsU64 cooldown
    → IsU64 limit
    → IsPool p
    → IsPool (initial_pool a pool_bump vault_auth_bump cooldown limit p)
unfolding initial_pool set_discriminator
initial_pool-IsPool a pool_bump vault_auth_bump cooldown limit p keys hb hv hc hl v =
    ground (arith, keys, initial_reserved p (v.reserved_length, v.reserved_bytes))

pub zero_pool-IsPool : IsPool zero_pool
zero_pool-IsPool = ground arith

-- A new pool's record: it has the accounts that it was opened with, nothing has come in or left,
-- nobody has shares, and its books are in order.
pub record Fresh (a : InitAccounts) (cooldown limit mode : ℕ) (p : StakePool) : Type 0 where
  pub booked : Booked p
  pub mode_eq : p.pool_mode ≡ mode
  pub slab_eq : p.slab ≡ a.slab.key
  pub admin_eq : p.admin ≡ a.admin.key
  pub cooldown_eq : p.cooldown_slots ≡ cooldown
  pub limit_eq : p.deposit_cap ≡ limit
  pub nothing_in : inflow p ≡ 0
  pub nothing_out : outflow p ≡ 0
  pub no_shares : p.total_lp_supply ≡ 0
  pub marked : validate_discriminator p ≡ true
  pub unresolved : is_resolved p ≡ false

pub initial_pool-Fresh :
    (a : InitAccounts) (pool_bump vault_auth_bump cooldown limit : ℕ)
    → Fresh a cooldown limit 0 (initial_pool a pool_bump vault_auth_bump cooldown limit zero_pool)
unfolding initial_pool set_discriminator validate_discriminator is_resolved write_slice overwrite
    bytes_eq
initial_pool-Fresh a pool_bump vault_auth_bump cooldown limit = record {
  booked = record { opened = refl; transferred = refl; covered = omega arith; mode = inl refl };
  mode_eq = refl;
  slab_eq = refl;
  admin_eq = refl;
  cooldown_eq = refl;
  limit_eq = refl;
  nothing_in = refl;
  nothing_out = refl;
  no_shares = refl;
  marked = refl;
  unresolved = refl;
}

trading-Booked :
    (p : StakePool)
    → Booked p
    → p.pool_mode ≡ 0
    → inflow p ≡ 0
    → outflow p ≡ 0
    → Booked (record p { pool_mode = 1 })
      × (inflow (record p { pool_mode = 1 }) ≡ p.total_fees_earned)
trading-Booked p b mode nothing_in nothing_out = ground arith

pub trading-Fresh :
    (a : InitAccounts) (cooldown limit : ℕ) (p : StakePool)
    → Fresh a cooldown limit 0 p
    → p.total_fees_earned ≡ 0
    → Fresh a cooldown limit 1 (record p { pool_mode = 1 })
unfolding validate_discriminator is_resolved
trading-Fresh a cooldown limit p f unearned =
    let (books, fees) = trading-Booked p f.booked f.mode_eq f.nothing_in f.nothing_out in
    record {
      booked = books;
      mode_eq = refl;
      slab_eq = f.slab_eq;
      admin_eq = f.admin_eq;
      cooldown_eq = f.cooldown_eq;
      limit_eq = f.limit_eq;
      nothing_in = fees ∙ unearned;
      nothing_out = f.nothing_out;
      no_shares = f.no_shares;
      marked = f.marked;
      unresolved = f.unresolved;
    }
