-- ===== src/Cpi.antt =====
-- src/cpi.rs: the instructions of the percolator wrapper, byte for byte, and their invocation.
use percolator_vault.Base.{ℕ, Bool, true, false, List, [], ◌∷◌, ◌++◌}
use percolator_vault.Base.Bytes.{to_le_bytes}
use percolator_vault.Error.{Result, err, invalid_instruction_data}
use percolator_vault.Runtime.{
  Pubkey, key_bytes, AccountInfo, AccountMeta, Instruction, wrapper, Seeds, World, Runtime,
}

abbrev pub tag_top_up_insurance : ℕ
tag_top_up_insurance = 9

abbrev pub tag_resolve_market : ℕ
tag_resolve_market = 19

abbrev pub tag_update_authority : ℕ
tag_update_authority = 32

abbrev pub tag_update_asset_authority : ℕ
tag_update_asset_authority = 65

abbrev pub tag_withdraw_insurance : ℕ
tag_withdraw_insurance = 41

abbrev pub asset_auth_insurance : ℕ
asset_auth_insurance = 1

abbrev pub asset_auth_oracle : ℕ
asset_auth_oracle = 4

-- `AccountMeta::new` and `AccountMeta::new_readonly`
abbrev pub writable_meta : Pubkey → Bool → AccountMeta
writable_meta key signer = record { pubkey = key; signer = signer; writable = true }

abbrev pub readonly_meta : Pubkey → Bool → AccountMeta
readonly_meta key signer = record { pubkey = key; signer = signer; writable = false }

unfoldable pub push_u128_from_u64 : List ℕ → ℕ → List ℕ
push_u128_from_u64 out amount = out ++ to_le_bytes 16 amount

-- The instruction that each function builds, in the order of its parameters.
unfoldable pub top_up_insurance_instruction :
    Pubkey → Pubkey → Pubkey → Pubkey → Pubkey → Pubkey → ℕ → Instruction
top_up_insurance_instruction program signer slab signer_ata wrapper_vault token_program amount =
    record {
      program_id = program;
      accounts =
          readonly_meta signer true
          ∷ writable_meta slab false
          ∷ writable_meta signer_ata false
          ∷ writable_meta wrapper_vault false
          ∷ readonly_meta token_program false
          ∷ [];
      payload = push_u128_from_u64 (tag_top_up_insurance ∷ []) amount;
    }

unfoldable pub update_authority_instruction : Pubkey → Pubkey → Pubkey → Pubkey → Instruction
update_authority_instruction program current_admin new_authority slab = record {
  program_id = program;
  accounts =
      readonly_meta current_admin true
      ∷ readonly_meta new_authority true
      ∷ writable_meta slab false
      ∷ [];
  payload = tag_update_authority ∷ key_bytes new_authority;
}

unfoldable pub update_asset_authority_instruction :
    Pubkey → Pubkey → Pubkey → Pubkey → ℕ → ℕ → Instruction
update_asset_authority_instruction program current_authority new_authority slab asset_index kind =
    record {
      program_id = program;
      accounts =
          readonly_meta current_authority true
          ∷ readonly_meta new_authority true
          ∷ writable_meta slab false
          ∷ [];
      payload =
          (tag_update_asset_authority ∷ to_le_bytes 2 asset_index)
          ++ (kind ∷ key_bytes new_authority);
    }

unfoldable pub resolve_market_instruction : Pubkey → Pubkey → Pubkey → Instruction
resolve_market_instruction program admin_pda slab = record {
  program_id = program;
  accounts = readonly_meta admin_pda true ∷ writable_meta slab false ∷ [];
  payload = tag_resolve_market ∷ [];
}

unfoldable pub withdraw_insurance_instruction :
    Pubkey → Pubkey → Pubkey → Pubkey → Pubkey → Pubkey → Pubkey → ℕ → Instruction
withdraw_insurance_instruction program authority slab dest_token wrapper_vault
      wrapper_vault_authority token_program amount =
    record {
      program_id = program;
      accounts =
          readonly_meta authority true
          ∷ writable_meta slab false
          ∷ writable_meta dest_token false
          ∷ writable_meta wrapper_vault false
          ∷ readonly_meta wrapper_vault_authority false
          ∷ readonly_meta token_program false
          ∷ [];
      payload = push_u128_from_u64 (tag_withdraw_insurance ∷ []) amount;
    }

module _ {D : Type 0} (rt : Runtime D) where
  unfoldable pub cpi_top_up_insurance :
      AccountInfo
      → AccountInfo
      → AccountInfo
      → AccountInfo
      → AccountInfo
      → AccountInfo
      → ℕ
      → Seeds
      → World D
      → Result (World D)
  cpi_top_up_insurance program signer slab signer_ata wrapper_vault token_program amount seeds =
      rt.invoke_signed
        (wrapper (
          top_up_insurance_instruction program.key signer.key slab.key signer_ata.key
            wrapper_vault.key token_program.key amount))
        (seeds ∷ [])

  unfoldable pub cpi_update_authority :
      AccountInfo → AccountInfo → AccountInfo → AccountInfo → Seeds → World D → Result (World D)
  cpi_update_authority program current_admin new_authority slab seeds =
      rt.invoke_signed
        (wrapper
          (update_authority_instruction program.key current_admin.key new_authority.key slab.key))
        (seeds ∷ [])

  unfoldable pub cpi_update_asset_authority :
      AccountInfo
      → AccountInfo
      → AccountInfo
      → AccountInfo
      → ℕ
      → ℕ
      → List Seeds
      → World D
      → Result (World D)
  cpi_update_asset_authority program current_authority new_authority slab asset_index kind seeds =
      rt.invoke_signed
        (wrapper (
          update_asset_authority_instruction program.key current_authority.key new_authority.key
            slab.key asset_index kind))
        seeds

  -- The two retired paths fail closed.
  unfoldable pub cpi_set_risk_threshold :
      AccountInfo → AccountInfo → AccountInfo → ℕ → Seeds → World D → Result (World D)
  cpi_set_risk_threshold program admin_pda slab new_threshold seeds w = err invalid_instruction_data

  unfoldable pub cpi_set_maintenance_fee :
      AccountInfo → AccountInfo → AccountInfo → ℕ → Seeds → World D → Result (World D)
  cpi_set_maintenance_fee program admin_pda slab new_fee seeds w = err invalid_instruction_data

  unfoldable pub cpi_resolve_market :
      AccountInfo → AccountInfo → AccountInfo → Seeds → World D → Result (World D)
  cpi_resolve_market program admin_pda slab seeds =
      rt.invoke_signed (wrapper (resolve_market_instruction program.key admin_pda.key slab.key))
        (seeds ∷ [])

  unfoldable pub cpi_withdraw_insurance :
      AccountInfo
      → AccountInfo
      → AccountInfo
      → AccountInfo
      → AccountInfo
      → AccountInfo
      → AccountInfo
      → ℕ
      → Seeds
      → World D
      → Result (World D)
  cpi_withdraw_insurance program authority slab dest_token wrapper_vault wrapper_vault_authority
        token_program amount seeds =
      rt.invoke_signed
        (wrapper (
          withdraw_insurance_instruction program.key authority.key slab.key dest_token.key
            wrapper_vault.key wrapper_vault_authority.key token_program.key amount))
        (seeds ∷ [])
