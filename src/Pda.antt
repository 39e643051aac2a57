-- ===== src/Pda.antt =====
-- The address derivations of src/state.rs and the seeds that src/processor.rs signs with.
use percolator_vault.Base.{ℕ, List, [], ◌∷◌}
use percolator_vault.Runtime.{Pubkey, key_bytes, Seeds, Runtime}

-- b"stake_pool", b"vault_auth" and b"stake_deposit"
abbrev pub stake_pool_seed : List ℕ
stake_pool_seed = b's' ∷ b't' ∷ b'a' ∷ b'k' ∷ b'e' ∷ b'_' ∷ b'p' ∷ b'o' ∷ b'o' ∷ b'l' ∷ []

abbrev pub vault_auth_seed : List ℕ
vault_auth_seed = b'v' ∷ b'a' ∷ b'u' ∷ b'l' ∷ b't' ∷ b'_' ∷ b'a' ∷ b'u' ∷ b't' ∷ b'h' ∷ []

abbrev pub stake_deposit_seed : List ℕ
stake_deposit_seed =
    b's' ∷ b't' ∷ b'a' ∷ b'k' ∷ b'e' ∷ b'_' ∷ b'd' ∷ b'e' ∷ b'p' ∷ b'o' ∷ b's' ∷ b'i' ∷ b't' ∷ []

-- The seeds with the bump, by which `invoke_signed` signs for each address.
unfoldable pub pool_seeds : Pubkey → ℕ → Seeds
pool_seeds slab bump = stake_pool_seed ∷ key_bytes slab ∷ (bump ∷ []) ∷ []

unfoldable pub vault_auth_seeds : Pubkey → ℕ → Seeds
vault_auth_seeds pool bump = vault_auth_seed ∷ key_bytes pool ∷ (bump ∷ []) ∷ []

unfoldable pub deposit_seeds : Pubkey → Pubkey → ℕ → Seeds
deposit_seeds pool user bump =
    stake_deposit_seed ∷ key_bytes pool ∷ key_bytes user ∷ (bump ∷ []) ∷ []

module _ {D : Type 0} (rt : Runtime D) (program_id : Pubkey) where
  unfoldable pub derive_pool_pda : Pubkey → Pubkey × ℕ
  derive_pool_pda slab = rt.find_program_address (stake_pool_seed ∷ key_bytes slab ∷ []) program_id

  unfoldable pub derive_vault_authority : Pubkey → Pubkey × ℕ
  derive_vault_authority pool =
      rt.find_program_address (vault_auth_seed ∷ key_bytes pool ∷ []) program_id

  unfoldable pub derive_deposit_pda : Pubkey → Pubkey → Pubkey × ℕ
  derive_deposit_pda pool user =
      rt.find_program_address (stake_deposit_seed ∷ key_bytes pool ∷ key_bytes user ∷ []) program_id
