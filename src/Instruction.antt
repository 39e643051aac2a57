-- ===== src/Instruction.antt =====
-- src/instruction.rs: the instructions of the program and their decoding from bytes.
pub mod Wire
pub mod Ranges
use percolator_vault.Base.{
  ℕ, Bool, not, Option, none, some, List, [], ◌∷◌, length, get_or, ltb, ◌==◌, if◌then◌else◌,
}
use percolator_vault.Base.Bytes.{from_le_bytes}
use percolator_vault.Base.Slices.{read_slice}
use percolator_vault.Error.{Result, ok, err, invalid_instruction_data}

pub data StakeInstruction : Type 0 where
  init_pool : ℕ → ℕ → StakeInstruction
  deposit : ℕ → StakeInstruction
  withdraw : ℕ → StakeInstruction
  flush_to_insurance : ℕ → StakeInstruction
  update_config : Option ℕ → Option ℕ → StakeInstruction
  transfer_admin : StakeInstruction
  admin_set_oracle_authority : ℕ → StakeInstruction
  admin_set_risk_threshold : ℕ → StakeInstruction
  admin_set_maintenance_fee : ℕ → StakeInstruction
  admin_resolve_market : StakeInstruction
  admin_withdraw_insurance : ℕ → StakeInstruction
  admin_set_insurance_policy : ℕ → ℕ → ℕ → ℕ → StakeInstruction
  accrue_fees : StakeInstruction
  init_trading_pool : ℕ → ℕ → StakeInstruction
  admin_set_hwm_config : Bool → ℕ → StakeInstruction

-- `uN::from_le_bytes(rest[i..i + n].try_into().unwrap())`, and the 32 bytes of a key
abbrev le_at : ℕ → ℕ → List ℕ → ℕ
le_at i n rest = from_le_bytes (read_slice i n rest)

-- `if rest.len() < n { return Err(..) }` before an `Ok`
abbrev needs : ℕ → List ℕ → StakeInstruction → Result StakeInstruction
needs n rest i = if ltb (length rest) n then err invalid_instruction_data else ok i

-- `if b { Some(v) } else { None }`
abbrev optional : Bool → ℕ → Option ℕ
optional b v = if b then some v else none

-- The arms of the match on the tag, each reading the bytes behind it.
unfoldable pub unpack_tag : ℕ → List ℕ → Result StakeInstruction
unpack_tag tag rest =
    if tag == 0
    then needs 16 rest (init_pool (le_at 0 8 rest) (le_at 8 8 rest))
    else if tag == 1
    then needs 8 rest (deposit (le_at 0 8 rest))
    else if tag == 2
    then needs 8 rest (withdraw (le_at 0 8 rest))
    else if tag == 3
    then needs 8 rest (flush_to_insurance (le_at 0 8 rest))
    else if tag == 4
    then needs 18 rest (
        update_config (optional (not (get_or rest 0 0 == 0)) (le_at 1 8 rest))
          (optional (not (get_or rest 9 0 == 0)) (le_at 10 8 rest)))
    else if tag == 5
    then ok transfer_admin
    else if tag == 6
    then needs 32 rest (admin_set_oracle_authority (le_at 0 32 rest))
    else if tag == 7
    then needs 16 rest (admin_set_risk_threshold (le_at 0 16 rest))
    else if tag == 8
    then needs 16 rest (admin_set_maintenance_fee (le_at 0 16 rest))
    else if tag == 9
    then ok admin_resolve_market
    else if tag == 10
    then needs 8 rest (admin_withdraw_insurance (le_at 0 8 rest))
    else if tag == 11
    then needs 50 rest (
        admin_set_insurance_policy (le_at 0 32 rest) (le_at 32 8 rest) (le_at 40 2 rest)
          (le_at 42 8 rest))
    else if tag == 12
    then ok accrue_fees
    else if tag == 13
    then needs 16 rest (init_trading_pool (le_at 0 8 rest) (le_at 8 8 rest))
    else if tag == 14
    then needs 3 rest (admin_set_hwm_config (not (get_or rest 0 0 == 0)) (le_at 1 2 rest))
    else err invalid_instruction_data

unfoldable pub unpack : List ℕ → Result StakeInstruction
unpack [] = err invalid_instruction_data
unpack (tag ∷ rest) = unpack_tag tag rest
