-- ===== src/Runtime.antt =====
-- What the program takes from outside its repository: the accounts of a transaction, and the
-- runtime that derives addresses, decodes account data and carries out cross-program invocations.
-- solana_program, spl_token and bytemuck are the fields of `Runtime`; what the theorems rely on of
-- them is stated in Runtime/Laws.antt.
pub mod Laws
pub mod Store
pub mod Owned
use percolator_vault.Base.{
  ℕ, ◌+◌, ◌≡◌, Bool, true, false, Option, none, some, List, [], ◌∷◌, ltb, ◌==◌, if◌then◌else◌,
}
use percolator_vault.Base.Bytes.{to_le_bytes}
use percolator_vault.Error.{Result, ok, err, panic, ProgramError, not_enough_account_keys, ◌>>=◌}
use percolator_vault.State.{StakePool, StakeDeposit, stake_pool_size, stake_deposit_size}

-- A public key, and the bytes that `key.as_ref()` gives.
abbrev pub Pubkey : Type 0
Pubkey = ℕ

unfoldable pub key_bytes : Pubkey → List ℕ
key_bytes key = to_le_bytes 32 key

-- The part of `AccountInfo` that the transaction fixes. The rest is in the world, under the key.
pub record AccountInfo : Type 0 where
  pub key : Pubkey
  pub is_signer : Bool
  pub is_writable : Bool

pub record Account (D : Type 0) : Type 0 where
  pub owner : Pubkey
  pub lamports : ℕ
  pub contents : D

-- The accounts by their keys, so that two infos of one key are one account.
abbrev pub World : Type 0 → Type 0
World D = Pubkey → Account D

abbrev pub set_contents : {D : Type 0} → Pubkey → D → World D → World D
set_contents key d w k = if k == key then record (w k) { contents = d } else w k

pub record AccountMeta : Type 0 where
  pub pubkey : Pubkey
  pub signer : Bool
  pub writable : Bool

pub record Instruction : Type 0 where
  pub program_id : Pubkey
  pub accounts : List AccountMeta
  pub payload : List ℕ

-- A cross-program invocation, by what the source passes to the builder of its instruction.
pub data Cpi : Type 0 where
  -- an instruction of the percolator wrapper
  wrapper : Instruction → Cpi
  -- system program: payer, target, lamports, space, owner
  create_account : Pubkey → Pubkey → ℕ → ℕ → Pubkey → Cpi
  -- system program: from, to, lamports
  system_transfer : Pubkey → Pubkey → ℕ → Cpi
  -- system program: target, space
  allocate : Pubkey → ℕ → Cpi
  -- system program: target, owner
  assign : Pubkey → Pubkey → Cpi
  -- token program: program, mint, mint authority, freeze authority, decimals
  initialize_mint : Pubkey → Pubkey → Pubkey → Option Pubkey → ℕ → Cpi
  -- token program: program, account, mint, owner
  initialize_account : Pubkey → Pubkey → Pubkey → Pubkey → Cpi
  -- token program: program, source, destination, authority, amount
  token_transfer : Pubkey → Pubkey → Pubkey → Pubkey → ℕ → Cpi
  -- token program: program, mint, destination, authority, amount
  mint_to : Pubkey → Pubkey → Pubkey → Pubkey → ℕ → Cpi
  -- token program: program, source, mint, authority, amount
  burn : Pubkey → Pubkey → Pubkey → Pubkey → ℕ → Cpi

-- The seeds of one program address, with its bump.
abbrev pub Seeds : Type 0
Seeds = List (List ℕ)

pub record Clock : Type 0 where
  pub slot : ℕ
  pub epoch : ℕ

-- `D` is the type of an account's data.
pub record Runtime (D : Type 0) : Type 0 where
  -- `Pubkey::find_program_address`: the address and its bump
  pub find_program_address : Seeds → Pubkey → Pubkey × ℕ
  -- `spl_token::id()`
  pub spl_token_id : Pubkey
  -- `Rent::get()?.minimum_balance(space)`
  pub minimum_balance : ℕ → Result ℕ
  -- the length of the data, and bytemuck's casts of its first bytes
  pub data_len : D → ℕ
  pub pool_of : D → StakePool
  pub with_pool : StakePool → D → D
  pub deposit_of : D → StakeDeposit
  pub with_deposit : StakeDeposit → D → D
  -- `spl_token::state::Account::unpack(data)?.amount`
  pub token_amount : D → Result ℕ
  -- `Clock::from_account_info`
  pub clock_of : Pubkey → D → Result Clock
  -- `invoke_signed` with the seeds of the signing addresses; `invoke` has none
  pub invoke_signed : Cpi → List Seeds → World D → Result (World D)

-- `next_account_info`
unfoldable pub next_account_info : List AccountInfo → Result (AccountInfo × List AccountInfo)
next_account_info [] = err not_enough_account_keys
next_account_info (a ∷ rest) = ok (a, rest)

module _ {D : Type 0} (rt : Runtime D) where
  -- `bytemuck::from_bytes(&data[..STAKE_POOL_SIZE])`; the slice panics on shorter data.
  unfoldable pub load_pool : World D → Pubkey → Result StakePool
  load_pool w key =
      let d = (w key).contents in
      if ltb (rt.data_len d) stake_pool_size then panic else ok (rt.pool_of d)

  unfoldable pub load_deposit : World D → Pubkey → Result StakeDeposit
  load_deposit w key =
      let d = (w key).contents in
      if ltb (rt.data_len d) stake_deposit_size then panic else ok (rt.deposit_of d)

  -- What a write through the cast leaves in the account.
  unfoldable pub store_pool : Pubkey → StakePool → World D → World D
  store_pool key p w = set_contents key (rt.with_pool p (w key).contents) w

  unfoldable pub store_deposit : Pubkey → StakeDeposit → World D → World D
  store_deposit key d w = set_contents key (rt.with_deposit d (w key).contents) w

  -- `AccountInfo::data_is_empty`
  unfoldable pub data_is_empty : World D → Pubkey → Bool
  data_is_empty w key = rt.data_len (w key).contents == 0

  -- `program::invoke`
  unfoldable pub invoke : Cpi → World D → Result (World D)
  invoke c w = rt.invoke_signed c [] w
