-- ===== src/Runtime/Laws.antt =====
-- What is relied on of solana_program, spl_token and bytemuck: a cast of an account's data yields a
-- record whose fields lie in their types, and reads back what was written through it; a derived
-- address has 32 bytes and its bump one; a clock's slot and epoch, and the amount of a token account,
-- are u64 values; and an invocation changes the data of no account but those that it may write.
use percolator_vault.Base.{ℕ, ◌≡◌, Bool, false, ◌||◌, ◌&&◌, List, [], ◌∷◌, ◌==◌}
use percolator_vault.Base.Word.{IsU8, IsU64}
use percolator_vault.Error.{ok}
use percolator_vault.State.{StakePool, StakeDeposit, IsKey, IsPool, IsDeposit}
use percolator_vault.Runtime.{
  Pubkey, World, AccountMeta, Cpi, wrapper, create_account, system_transfer, allocate, assign,
  initialize_mint, initialize_account, token_transfer, mint_to, burn, Seeds, Clock, Runtime,
}

abbrev pub writes_meta : List AccountMeta → Pubkey → Bool
writes_meta [] k = false
writes_meta (m ∷ ms) k = m.writable && m.pubkey == k || writes_meta ms k

-- The accounts whose data an invocation may change: those that the instruction marks writable, as
-- the documentation of the system and token programs lists them.
unfoldable pub writes : Cpi → Pubkey → Bool
writes (wrapper i) k = writes_meta i.accounts k
writes (create_account payer target lamports space owner) k = target == k
writes (system_transfer from to lamports) k = false
writes (allocate target space) k = target == k
writes (assign target owner) k = false
writes (initialize_mint program mint authority freeze decimals) k = mint == k
writes (initialize_account program account mint owner) k = account == k
writes (token_transfer program source dest authority amount) k = source == k || dest == k
writes (mint_to program mint dest authority amount) k = mint == k || dest == k
writes (burn program source mint authority amount) k = source == k || mint == k

pub record RuntimeLaws {D : Type 0} (rt : Runtime D) : Type 0 where
  pub pool_of-IsPool : (d : D) → IsPool (rt.pool_of d)
  pub pool_of-with_pool : (p : StakePool) (d : D) → IsPool p → rt.pool_of (rt.with_pool p d) ≡ p
  pub deposit_of-IsDeposit : (d : D) → IsDeposit (rt.deposit_of d)
  pub deposit_of-with_deposit :
      (x : StakeDeposit) (d : D) → IsDeposit x → rt.deposit_of (rt.with_deposit x d) ≡ x
  pub address_fits :
      (seeds : Seeds) (program : Pubkey)
      → IsKey (rt.find_program_address seeds program).0
        × IsU8 (rt.find_program_address seeds program).1
  pub clock_fits :
      (k : Pubkey) (d : D) (c : Clock) → rt.clock_of k d ≡ ok c → IsU64 c.slot × IsU64 c.epoch
  pub tokens_fit : (d : D) (n : ℕ) → rt.token_amount d ≡ ok n → IsU64 n
  pub invoke_signed_frame :
      (c : Cpi) (seeds : List Seeds) (w w' : World D) (k : Pubkey)
      → rt.invoke_signed c seeds w ≡ ok w'
      → writes c k ≡ false
      → (w' k).contents ≡ (w k).contents
