-- ===== src/State/Reserved.antt =====
-- Each setter of the packed fields (src/state.rs) changes its own field of the packed record and no
-- other, and keeps the 64 bytes.
use Prim.Native.Nat.{bit_and, bit_or}
use percolator_vault.Base.{
  ℕ, ◌/◌, ◌%◌, ◌≡◌, refl, ◌∙◌, ap, Bool, true, false, List, [], ◌∷◌, arith, get_or, set,
}
use percolator_vault.Base.Word.{IsU8, IsU16, IsU64}
use percolator_vault.Base.Bytes.{to_le_bytes, from_le_bytes, to_le_bytes-IsU8}
use percolator_vault.Base.Slices.{
  write_slice, length-set, length-write_slice, get_or-IsU8, set-IsU8, write_slice-IsU8, bytes_eq,
}
use percolator_vault.Base.Bits.{FlagLaws, byte-FlagLaws}
use percolator_vault.State.{
  StakePool, IsReserved, stake_pool_discriminator, current_version, set_discriminator,
  validate_discriminator, set_resolved, set_hwm_enabled, set_hwm_floor_bps,
  set_epoch_high_water_tvl, set_hwm_last_epoch, set_pre_supply_vault_offset,
}
use percolator_vault.State.Packed.{
  Packed, packed, set_flags-packed, set_floor-packed, set_disc-packed, write_high_water-packed,
  write_last_epoch-packed, write_vault_offset-packed,
}

two_bytes : (n : ℕ) → IsU16 n → from_le_bytes (n % 256 ∷ n / 256 % 256 ∷ []) ≡ n
unfolding from_le_bytes
two_bytes n h = omega arith

set-IsReserved : (r : List ℕ) (i v : ℕ) → IsU8 v → IsReserved r → IsReserved (set r i v)
set-IsReserved r i v hv wf = (length-set r i v ∙ wf.0, set-IsU8 r i v hv wf.1)

word-IsReserved :
    (r : List ℕ) (i v : ℕ) → IsReserved r → IsReserved (write_slice i (to_le_bytes 8 v) r)
word-IsReserved r i v wf = (
  length-write_slice i (to_le_bytes 8 v) r ∙ wf.0,
  write_slice-IsU8 i (to_le_bytes 8 v) r (to_le_bytes-IsU8 8 v) wf.1,
)

module _ (p : StakePool) (wf : IsReserved p.reserved) where
  flag_laws : FlagLaws (get_or p.reserved 9 0)
  flag_laws = byte-FlagLaws _ (get_or-IsU8 p.reserved 9 wf.1)

  -- Resolving a pool with 64 reserved bytes sets the resolved flag, and changes no other field that
  -- the bytes hold.
  pub set_resolved-packed : packed (set_resolved p) ≡ record (packed p) { resolved = true }
  unfolding packed set_resolved
  set_resolved-packed =
      set_flags-packed p.reserved wf.0 (bit_or (get_or p.reserved 9 0) 1)
      ∙ rw (flag_laws.or_one, flag_laws.or_one_other)

  -- On a pool with 64 reserved bytes, setting or clearing the flag of the high-water mark leaves
  -- the resolved flag and every other field that the bytes hold.
  pub set_hwm_enabled-packed :
      (enabled : Bool)
      → packed (set_hwm_enabled p enabled) ≡ record (packed p) { enabled = enabled }
  unfolding packed set_hwm_enabled
  set_hwm_enabled-packed true =
      set_flags-packed p.reserved wf.0 (bit_or (get_or p.reserved 9 0) 2)
      ∙ rw (flag_laws.or_two, flag_laws.or_two_other)
  set_hwm_enabled-packed false =
      set_flags-packed p.reserved wf.0 (bit_and (get_or p.reserved 9 0) 0xfd)
      ∙ rw (flag_laws.clear_two, flag_laws.clear_two_other)

  pub set_hwm_floor_bps-packed :
      (bps : ℕ)
      → IsU16 bps
      → packed (set_hwm_floor_bps p bps) ≡ record (packed p) { floor_bps = bps }
  unfolding packed set_hwm_floor_bps to_le_bytes
  set_hwm_floor_bps-packed bps fits =
      set_floor-packed p.reserved wf.0 (bps % 256) (bps / 256 % 256) ∙ rw (two_bytes bps fits)

  pub set_epoch_high_water_tvl-packed :
      (tvl : ℕ)
      → IsU64 tvl
      → packed (set_epoch_high_water_tvl p tvl) ≡ record (packed p) { high_water = tvl }
  unfolding packed set_epoch_high_water_tvl
  set_epoch_high_water_tvl-packed tvl fits = write_high_water-packed p.reserved wf.0 tvl fits

  pub set_hwm_last_epoch-packed :
      (epoch : ℕ)
      → IsU64 epoch
      → packed (set_hwm_last_epoch p epoch) ≡ record (packed p) { last_epoch = epoch }
  unfolding packed set_hwm_last_epoch
  set_hwm_last_epoch-packed epoch fits = write_last_epoch-packed p.reserved wf.0 epoch fits

  -- On a pool with 64 reserved bytes, an offset that fits a u64 reads back as it was set, and no
  -- other field that the bytes hold changes.
  pub set_pre_supply_vault_offset-packed :
      (amount : ℕ)
      → IsU64 amount
      → packed (set_pre_supply_vault_offset p amount) ≡ record (packed p) { vault_offset = amount }
  unfolding packed set_pre_supply_vault_offset
  set_pre_supply_vault_offset-packed amount fits =
      write_vault_offset-packed p.reserved wf.0 amount fits

  pub set_discriminator-packed : packed (set_discriminator p) ≡ record (packed p) {
    discriminator = stake_pool_discriminator;
    struct_version = current_version;
  }
  unfolding packed set_discriminator
  set_discriminator-packed =
      set_disc-packed p.reserved wf.0 stake_pool_discriminator refl current_version

  -- A pool that has been given its discriminator passes the check.
  pub validate_discriminator-set : validate_discriminator (set_discriminator p) ≡ true
  unfolding validate_discriminator packed bytes_eq
  validate_discriminator-set =
      rw (ap (λ (v : Packed). v.discriminator) set_discriminator-packed) refl

  -- Every setter keeps 64 bytes.
  pub set_resolved-IsReserved : IsReserved (set_resolved p).reserved
  unfolding set_resolved
  set_resolved-IsReserved = set-IsReserved p.reserved 9 _ flag_laws.or_one_fits wf

  pub set_hwm_enabled-IsReserved : (b : Bool) → IsReserved (set_hwm_enabled p b).reserved
  unfolding set_hwm_enabled
  set_hwm_enabled-IsReserved true = set-IsReserved p.reserved 9 _ flag_laws.or_two_fits wf
  set_hwm_enabled-IsReserved false = set-IsReserved p.reserved 9 _ flag_laws.clear_two_fits wf

  pub set_hwm_floor_bps-IsReserved : (bps : ℕ) → IsReserved (set_hwm_floor_bps p bps).reserved
  unfolding set_hwm_floor_bps to_le_bytes
  set_hwm_floor_bps-IsReserved bps =
      set-IsReserved (set p.reserved 10 (bps % 256)) 11 (bps / 256 % 256) (omega arith)
        (set-IsReserved p.reserved 10 (bps % 256) (omega arith) wf)

  pub set_epoch_high_water_tvl-IsReserved :
      (tvl : ℕ) → IsReserved (set_epoch_high_water_tvl p tvl).reserved
  unfolding set_epoch_high_water_tvl
  set_epoch_high_water_tvl-IsReserved tvl = word-IsReserved p.reserved 16 tvl wf

  pub set_hwm_last_epoch-IsReserved : (epoch : ℕ) → IsReserved (set_hwm_last_epoch p epoch).reserved
  unfolding set_hwm_last_epoch
  set_hwm_last_epoch-IsReserved epoch = word-IsReserved p.reserved 24 epoch wf

  pub set_pre_supply_vault_offset-IsReserved :
      (amount : ℕ) → IsReserved (set_pre_supply_vault_offset p amount).reserved
  unfolding set_pre_supply_vault_offset
  set_pre_supply_vault_offset-IsReserved amount = word-IsReserved p.reserved 32 amount wf
