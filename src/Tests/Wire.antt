-- ===== src/Tests/Wire.antt =====
-- The decoding of src/instruction.rs at a concrete instruction.
use percolator_vault.Base.{◌≡◌, none, some, arith}
use percolator_vault.Error.{ok}
use percolator_vault.Instruction.{StakeInstruction, unpack}
use percolator_vault.Instruction.Wire.{pack, unpack-pack}

unpack-pack_example :
    unpack (pack (StakeInstruction.update_config (some 150) none))
    ≡ ok (StakeInstruction.update_config (some 150) none)
unpack-pack_example = unpack-pack (StakeInstruction.update_config (some 150) none) (omega arith, tt)
