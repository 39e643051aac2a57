-- ===== src/State.antt =====
-- src/state.rs: the pool and deposit records, the fields packed into their reserved bytes, and the
-- values computed from them. A public key is the number that its 32 bytes spell, lowest byte first.
pub mod Packed
pub mod Reserved
pub mod Refresh
pub mod Value
use Prim.Native.Nat.{bit_and, bit_or}
use percolator_vault.Base.{
  ℕ, ◌+◌, ◌≡◌, ◌<◌, ◌^◌, Bool, true, false, not, ◌&&◌, ◌||◌, Option, none, some, List, [], ◌∷◌,
  length, All, get_or, set, replicate, ltb, ◌==◌, if◌then◌else◌,
}
use percolator_vault.Base.Maybe.{◌>>=◌, unwrap_or}
use percolator_vault.Base.Word.{IsU8, IsU16, IsU64, checked_add, checked_sub}
use percolator_vault.Base.Bytes.{to_le_bytes, from_le_bytes}
use percolator_vault.Base.Slices.{read_slice, write_slice, bytes_eq}
use percolator_vault.Math

-- "SPOOL_V1" and "SDEP_V1\0"
abbrev pub stake_pool_discriminator : List ℕ
stake_pool_discriminator = 0x53 ∷ 0x50 ∷ 0x4f ∷ 0x4f ∷ 0x4c ∷ 0x5f ∷ 0x56 ∷ 0x31 ∷ []

abbrev pub stake_deposit_discriminator : List ℕ
stake_deposit_discriminator = 0x53 ∷ 0x44 ∷ 0x45 ∷ 0x50 ∷ 0x5f ∷ 0x56 ∷ 0x31 ∷ 0x00 ∷ []

pub record StakePool : Type 0 where
  pub is_initialized : ℕ
  pub bump : ℕ
  pub vault_authority_bump : ℕ
  pub admin_transferred : ℕ
  pub padding : List ℕ
  pub slab : ℕ
  pub admin : ℕ
  pub collateral_mint : ℕ
  pub lp_mint : ℕ
  pub vault : ℕ
  pub total_deposited : ℕ
  pub total_lp_supply : ℕ
  pub cooldown_slots : ℕ
  pub deposit_cap : ℕ
  pub total_flushed : ℕ
  pub total_returned : ℕ
  pub total_withdrawn : ℕ
  pub percolator_program : ℕ
  pub total_fees_earned : ℕ
  pub last_fee_accrual_slot : ℕ
  pub last_vault_snapshot : ℕ
  pub pool_mode : ℕ
  pub mode_padding : List ℕ
  pub reserved : List ℕ

-- `core::mem::size_of::<StakePool>()`
abbrev pub stake_pool_size : ℕ
stake_pool_size = 352

pub record StakeDeposit : Type 0 where
  pub is_initialized : ℕ
  pub bump : ℕ
  pub padding : List ℕ
  pub pool : ℕ
  pub user : ℕ
  pub last_deposit_slot : ℕ
  pub lp_amount : ℕ
  pub reserved : List ℕ

abbrev pub stake_deposit_size : ℕ
stake_deposit_size = 152

-- The 64 reserved bytes.
abbrev pub IsReserved : List ℕ → Type 0
IsReserved r = (length r ≡ 64) × All IsU8 r

-- `StakeDeposit::set_discriminator` and `StakeDeposit::validate_discriminator`
unfoldable pub set_deposit_discriminator : StakeDeposit → StakeDeposit
set_deposit_discriminator d = record d {
  reserved = write_slice 0 stake_deposit_discriminator d.reserved;
}

abbrev pub zero_discriminator : List ℕ
zero_discriminator = replicate 8 0

unfoldable pub validate_deposit_discriminator : StakeDeposit → Bool
validate_deposit_discriminator d =
    let disc = read_slice 0 8 d.reserved in
    bytes_eq disc zero_discriminator || bytes_eq disc stake_deposit_discriminator

-- `impl StakePool`
abbrev pub current_version : ℕ
current_version = 1

unfoldable pub set_discriminator : StakePool → StakePool
set_discriminator p = record p {
  reserved = set (write_slice 0 stake_pool_discriminator p.reserved) 8 current_version;
}

unfoldable pub version : StakePool → ℕ
version p = get_or p.reserved 8 0

unfoldable pub validate_discriminator : StakePool → Bool
validate_discriminator p =
    let disc = read_slice 0 8 p.reserved in
    bytes_eq disc zero_discriminator || bytes_eq disc stake_pool_discriminator

unfoldable pub is_resolved : StakePool → Bool
is_resolved p = not (bit_and (get_or p.reserved 9 0) 0x01 == 0)

unfoldable pub set_resolved : StakePool → StakePool
set_resolved p = record p { reserved = set p.reserved 9 (bit_or (get_or p.reserved 9 0) 0x01) }

unfoldable pub hwm_enabled : StakePool → Bool
hwm_enabled p = not (bit_and (get_or p.reserved 9 0) 0x02 == 0)

-- `!0x02` is 0xfd on a byte.
unfoldable pub set_hwm_enabled : StakePool → Bool → StakePool
set_hwm_enabled p true = record p {
  reserved = set p.reserved 9 (bit_or (get_or p.reserved 9 0) 0x02);
}
set_hwm_enabled p false = record p {
  reserved = set p.reserved 9 (bit_and (get_or p.reserved 9 0) 0xfd);
}

unfoldable pub hwm_floor_bps : StakePool → ℕ
hwm_floor_bps p = from_le_bytes (get_or p.reserved 10 0 ∷ get_or p.reserved 11 0 ∷ [])

unfoldable pub set_hwm_floor_bps : StakePool → ℕ → StakePool
set_hwm_floor_bps p bps =
    let bytes = to_le_bytes 2 bps in
    record p { reserved = set (set p.reserved 10 (get_or bytes 0 0)) 11 (get_or bytes 1 0) }

unfoldable pub epoch_high_water_tvl : StakePool → ℕ
epoch_high_water_tvl p = from_le_bytes (read_slice 16 8 p.reserved)

unfoldable pub set_epoch_high_water_tvl : StakePool → ℕ → StakePool
set_epoch_high_water_tvl p tvl = record p {
  reserved = write_slice 16 (to_le_bytes 8 tvl) p.reserved;
}

unfoldable pub hwm_last_epoch : StakePool → ℕ
hwm_last_epoch p = from_le_bytes (read_slice 24 8 p.reserved)

unfoldable pub set_hwm_last_epoch : StakePool → ℕ → StakePool
set_hwm_last_epoch p epoch = record p { reserved = write_slice 24 (to_le_bytes 8 epoch) p.reserved }

unfoldable pub pre_supply_vault_offset : StakePool → ℕ
pre_supply_vault_offset p = from_le_bytes (read_slice 32 8 p.reserved)

unfoldable pub set_pre_supply_vault_offset : StakePool → ℕ → StakePool
set_pre_supply_vault_offset p amount = record p {
  reserved = write_slice 32 (to_le_bytes 8 amount) p.reserved;
}

-- The new pool, and the mark that the call returns.
unfoldable pub refresh_hwm : StakePool → ℕ → ℕ → StakePool × ℕ
refresh_hwm p current_epoch current_tvl =
    let p' =
      if not (current_epoch == hwm_last_epoch p)
      then set_hwm_last_epoch (set_epoch_high_water_tvl p current_tvl) current_epoch
      else if ltb (epoch_high_water_tvl p) current_tvl
      then set_epoch_high_water_tvl p current_tvl
      else p in
    (p', epoch_high_water_tvl p')

unfoldable pub total_pool_value : StakePool → Option ℕ
total_pool_value p = do
  inflow ← checked_add p.total_deposited p.total_returned
  positives ← if p.pool_mode == 1 then checked_add inflow p.total_fees_earned else some inflow
  negatives ← checked_add p.total_withdrawn p.total_flushed
  checked_sub positives negatives

unfoldable pub accrual_baseline : StakePool → Option ℕ
accrual_baseline p = do
  gross ← checked_add p.total_deposited p.total_fees_earned
  checked_sub gross p.total_withdrawn

unfoldable pub calc_lp_for_deposit : StakePool → ℕ → Option ℕ
calc_lp_for_deposit p amount =
    let pv = unwrap_or (total_pool_value p) 0 in
    Math.calc_lp_for_deposit p.total_lp_supply pv amount

unfoldable pub calc_collateral_for_withdraw : StakePool → ℕ → Option ℕ
calc_collateral_for_withdraw p lp_amount = do
  pv ← total_pool_value p
  Math.calc_collateral_for_withdraw p.total_lp_supply pv lp_amount

-- A key of 32 bytes.
abbrev pub IsKey : ℕ → Type 0
IsKey k = k < 2 ^ 256

-- The fields lie in their types.
pub record IsPool (p : StakePool) : Type 0 where
  pub initialized_fits : IsU8 p.is_initialized
  pub bump_fits : IsU8 p.bump
  pub authority_bump_fits : IsU8 p.vault_authority_bump
  pub transferred_fits : IsU8 p.admin_transferred
  pub padding_length : length p.padding ≡ 4
  pub padding_bytes : All IsU8 p.padding
  pub slab_fits : IsKey p.slab
  pub admin_fits : IsKey p.admin
  pub collateral_fits : IsKey p.collateral_mint
  pub mint_fits : IsKey p.lp_mint
  pub vault_fits : IsKey p.vault
  pub deposited_fits : IsU64 p.total_deposited
  pub supply_fits : IsU64 p.total_lp_supply
  pub cooldown_fits : IsU64 p.cooldown_slots
  pub cap_fits : IsU64 p.deposit_cap
  pub flushed_fits : IsU64 p.total_flushed
  pub returned_fits : IsU64 p.total_returned
  pub withdrawn_fits : IsU64 p.total_withdrawn
  pub program_fits : IsKey p.percolator_program
  pub fees_fits : IsU64 p.total_fees_earned
  pub accrual_slot_fits : IsU64 p.last_fee_accrual_slot
  pub snapshot_fits : IsU64 p.last_vault_snapshot
  pub mode_fits : IsU8 p.pool_mode
  pub mode_padding_length : length p.mode_padding ≡ 7
  pub mode_padding_bytes : All IsU8 p.mode_padding
  pub reserved_length : length p.reserved ≡ 64
  pub reserved_bytes : All IsU8 p.reserved

pub record IsDeposit (d : StakeDeposit) : Type 0 where
  pub initialized_fits : IsU8 d.is_initialized
  pub bump_fits : IsU8 d.bump
  pub padding_length : length d.padding ≡ 6
  pub padding_bytes : All IsU8 d.padding
  pub pool_fits : IsKey d.pool
  pub user_fits : IsKey d.user
  pub slot_fits : IsU64 d.last_deposit_slot
  pub lp_fits : IsU64 d.lp_amount
  pub reserved_length : length d.reserved ≡ 64
  pub reserved_bytes : All IsU8 d.reserved
