-- ===== src/Instruction/Wire.antt =====
-- An encoder of the instructions, against the decoder of src/instruction.rs.
use percolator_vault.Base.{
  ℕ, ◌≡◌, refl, Bool, true, false, Option, none, some, List, [], ◌∷◌, ◌++◌, arith,
}
use percolator_vault.Base.Bytes.{to_le_bytes, from_le_bytes, from_le_bytes-to_le_bytes}
use percolator_vault.Base.Word.{IsU16, IsU64, IsU128}
use percolator_vault.Error.{ok}
use percolator_vault.State.{IsKey}
use percolator_vault.Instruction.{StakeInstruction, unpack_tag, unpack}

-- An optional u64: a byte that tells whether it is there, and eight bytes.
abbrev pack_option : Option ℕ → List ℕ
pack_option none = 0 ∷ to_le_bytes 8 0
pack_option (some n) = 1 ∷ to_le_bytes 8 n

abbrev pack_flag : Bool → ℕ
pack_flag true = 1
pack_flag false = 0

-- The bytes of an instruction: its tag, and its arguments in order.
unfoldable pub pack : StakeInstruction → List ℕ
pack (StakeInstruction.init_pool cooldown cap) = 0 ∷ to_le_bytes 8 cooldown ++ to_le_bytes 8 cap
pack (StakeInstruction.deposit amount) = 1 ∷ to_le_bytes 8 amount
pack (StakeInstruction.withdraw lp_amount) = 2 ∷ to_le_bytes 8 lp_amount
pack (StakeInstruction.flush_to_insurance amount) = 3 ∷ to_le_bytes 8 amount
pack (StakeInstruction.update_config cooldown cap) = 4 ∷ pack_option cooldown ++ pack_option cap
pack StakeInstruction.transfer_admin = 5 ∷ []
pack (StakeInstruction.admin_set_oracle_authority key) = 6 ∷ to_le_bytes 32 key
pack (StakeInstruction.admin_set_risk_threshold threshold) = 7 ∷ to_le_bytes 16 threshold
pack (StakeInstruction.admin_set_maintenance_fee fee) = 8 ∷ to_le_bytes 16 fee
pack StakeInstruction.admin_resolve_market = 9 ∷ []
pack (StakeInstruction.admin_withdraw_insurance amount) = 10 ∷ to_le_bytes 8 amount
pack (StakeInstruction.admin_set_insurance_policy key base bps cooldown) =
    11 ∷ to_le_bytes 32 key ++ (to_le_bytes 8 base ++ (to_le_bytes 2 bps ++ to_le_bytes 8 cooldown))
pack StakeInstruction.accrue_fees = 12 ∷ []
pack (StakeInstruction.init_trading_pool cooldown cap) =
    13 ∷ to_le_bytes 8 cooldown ++ to_le_bytes 8 cap
pack (StakeInstruction.admin_set_hwm_config enabled bps) =
    14 ∷ pack_flag enabled ∷ to_le_bytes 2 bps

abbrev pub OptionFits : Option ℕ → Type 0
OptionFits none = Unit
OptionFits (some n) = IsU64 n

-- The arguments lie in their types.
abbrev pub ArgumentsFit : StakeInstruction → Type 0
ArgumentsFit (StakeInstruction.init_pool cooldown cap) = IsU64 cooldown × IsU64 cap
ArgumentsFit (StakeInstruction.deposit amount) = IsU64 amount
ArgumentsFit (StakeInstruction.withdraw lp_amount) = IsU64 lp_amount
ArgumentsFit (StakeInstruction.flush_to_insurance amount) = IsU64 amount
ArgumentsFit (StakeInstruction.update_config cooldown cap) = OptionFits cooldown × OptionFits cap
ArgumentsFit StakeInstruction.transfer_admin = Unit
ArgumentsFit (StakeInstruction.admin_set_oracle_authority key) = IsKey key
ArgumentsFit (StakeInstruction.admin_set_risk_threshold threshold) = IsU128 threshold
ArgumentsFit (StakeInstruction.admin_set_maintenance_fee fee) = IsU128 fee
ArgumentsFit StakeInstruction.admin_resolve_market = Unit
ArgumentsFit (StakeInstruction.admin_withdraw_insurance amount) = IsU64 amount
ArgumentsFit (StakeInstruction.admin_set_insurance_policy key base bps cooldown) =
    IsKey key × IsU64 base × IsU16 bps × IsU64 cooldown
ArgumentsFit StakeInstruction.accrue_fees = Unit
ArgumentsFit (StakeInstruction.init_trading_pool cooldown cap) = IsU64 cooldown × IsU64 cap
ArgumentsFit (StakeInstruction.admin_set_hwm_config enabled bps) = IsU16 bps

u64_back : (n : ℕ) → IsU64 n → from_le_bytes (to_le_bytes 8 n) ≡ n
u64_back n h = from_le_bytes-to_le_bytes 8 n (omega arith)

u16_back : (n : ℕ) → IsU16 n → from_le_bytes (to_le_bytes 2 n) ≡ n
u16_back n h = from_le_bytes-to_le_bytes 2 n (omega arith)

u128_back : (n : ℕ) → IsU128 n → from_le_bytes (to_le_bytes 16 n) ≡ n
u128_back n h = from_le_bytes-to_le_bytes 16 n (omega arith)

key_back : (n : ℕ) → IsKey n → from_le_bytes (to_le_bytes 32 n) ≡ n
key_back n h = from_le_bytes-to_le_bytes 32 n (omega arith)

config_back :
    (cooldown cap : Option ℕ)
    → OptionFits cooldown
    → OptionFits cap
    → unpack (pack (StakeInstruction.update_config cooldown cap))
      ≡ ok (StakeInstruction.update_config cooldown cap)
unfolding unpack unpack_tag pack to_le_bytes
config_back none none h g = refl
config_back none (some n) h g = rw (u64_back n g) refl
config_back (some m) none h g = rw (u64_back m h) refl
config_back (some m) (some n) h g = rw (u64_back m h, u64_back n g) refl

-- Every instruction whose arguments lie in their types is decoded from its bytes.
pub unpack-pack : (i : StakeInstruction) → ArgumentsFit i → unpack (pack i) ≡ ok i
unfolding unpack unpack_tag pack to_le_bytes
unpack-pack (StakeInstruction.init_pool a b) (h, g) = rw (u64_back a h, u64_back b g) refl
unpack-pack (StakeInstruction.deposit n) h = rw (u64_back n h) refl
unpack-pack (StakeInstruction.withdraw n) h = rw (u64_back n h) refl
unpack-pack (StakeInstruction.flush_to_insurance n) h = rw (u64_back n h) refl
unpack-pack (StakeInstruction.update_config a b) (h, g) = config_back a b h g
unpack-pack StakeInstruction.transfer_admin h = refl
unpack-pack (StakeInstruction.admin_set_oracle_authority k) h = rw (key_back k h) refl
unpack-pack (StakeInstruction.admin_set_risk_threshold n) h = rw (u128_back n h) refl
unpack-pack (StakeInstruction.admin_set_maintenance_fee n) h = rw (u128_back n h) refl
unpack-pack StakeInstruction.admin_resolve_market h = refl
unpack-pack (StakeInstruction.admin_withdraw_insurance n) h = rw (u64_back n h) refl
unpack-pack (StakeInstruction.admin_set_insurance_policy k a b c) (h, g, e, f) =
    rw (key_back k h, u64_back a g, u16_back b e, u64_back c f) refl
unpack-pack StakeInstruction.accrue_fees h = refl
unpack-pack (StakeInstruction.init_trading_pool a b) (h, g) = rw (u64_back a h, u64_back b g) refl
unpack-pack (StakeInstruction.admin_set_hwm_config true n) h = rw (u16_back n h) refl
unpack-pack (StakeInstruction.admin_set_hwm_config false n) h = rw (u16_back n h) refl
