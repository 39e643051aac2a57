-- ===== src/Lib.antt =====
-- The percolator LP vault program: a pool takes collateral from depositors against LP tokens, lends
-- its vault to the insurance fund of a market of the percolator wrapper, or earns trading fees, and
-- pays withdrawals pro rata after a cooldown.
--
-- Parts, by their files of the repository:
--   src/math.rs          Math            the share arithmetic on u64 with u128 intermediates
--   src/error.rs         Error           the error codes; `Result` is what a handler returns
--   src/state.rs         State, Pda      the pool's and the depositor's record, the fields packed into
--                                        their reserved bytes (State.Packed), the derived addresses
--   src/instruction.rs   Instruction     the instructions and their decoding
--   src/cpi.rs           Cpi             the invocations of the wrapper, byte for byte
--   src/processor.rs     Processor       the handlers, a child module each, and `dispatch`
--   kani-proofs/src/lib.rs  Mirror       the share arithmetic on u32, and in Mirror.Harness the proof
--                                        harnesses, as tests of their symbolic inputs
-- Base holds what these share: tests, lists, machine words, little-endian bytes, slices and bit flags.
--
-- State and operations. The state of the program is the `World` of Runtime: for each key an account
-- with its owner, lamports and data. A handler is a function of the accounts of the transaction, the
-- decoded arguments and the world, to a `Result` of the new world; an error or a panic rolls back, so
-- the old world stands. A handler that is long in the source is cut into its stages (the accounts, the
-- checks, the token transfers, the update of the records), which the handler's function composes in
-- the order of the source. A `&mut StakePool` that the source holds over an invocation is a value that
-- is written back at the end; where the source drops the borrow and reads again, so does the model. A
-- key is the number that its bytes spell, and a u8, u16 or u64 field is a number; `IsPool` and
-- `IsDeposit` say that the fields lie in their types.
--
-- Outside code. `Runtime` is a record of what solana_program, spl_token and bytemuck provide:
-- find_program_address, the rent, the casts of account data, token balances, the clock, and
-- invoke_signed with a description of the invocation. `RuntimeLaws` states what the theorems rely
-- on: casts give fields within their types and read back what was written, derived addresses,
-- clocks and token amounts fit their types, and an invocation changes the data of no account that
-- it may not write. Tests.Model is a runtime that keeps these laws. `OwnedLaws` of Runtime.Owned
-- adds the ownership of accounts: an invocation of another program changes neither the data nor the
-- owner of an account that this program owns, and the system program hands out zeroed accounts. It
-- is used for transactions that do not pass the program's own account (`Foreign`), in which the
-- program cannot be invoked again from within.
--
-- Bounds. No function of the program loops, so no fuel is used. Each checked, saturating or wrapping
-- operation of the source is the one of Base.Word with its bound written out.
--
-- Proofs. Math.Lp, Math.Shares, Math.Slot and Math.Hwm are about the arithmetic; State.Reserved,
-- State.Refresh and State.Value about the records; Instruction.Wire about the decoding; the Run
-- modules of Processor.Deposit and Processor.Withdraw invert a successful handler into its stages,
-- Books follows the pool's record through the stages, TopUp the depositor's, and Effect, Position
-- and Guards state what a success means. Processor.Locks, Processor.Profit, Processor.Closing,
-- Processor.Flushing, Processor.Returning, Processor.Rules and Processor.Rules.Fees relate handlers
-- to each other and to the books.
--
-- The program as a whole. Ledger is a specification of one pool: `Move` is what an instruction may do
-- to its record, `Booked` what holds of it between instructions, `Later` (Ledger.History) what its
-- record tells of its past; Ledger.Vault is the vault as its holders see it, value and shares, and
-- Ledger.Refine takes the moves of the record to transactions of the vault. Processor.Steps shows of
-- each handler that it makes a move with the pool of every account, Processor.Steps.Dispatch of
-- `process`; Processor.Runs is about sequences of transactions, Processor.Opening about new pools, and
-- Processor.Withdraw.Exit about withdrawals that succeed. Mirror.Narrow compares the u32 arithmetic
-- with the u64 arithmetic. Tests holds the theorems at concrete inputs.
--
-- Not modelled: the tests; the seven harnesses that only call a function to see that it returns, since
-- functions return by construction here; logging, the list of accounts passed beside an invocation,
-- the compute budget, the entry point's macro, and what the token program and the wrapper do with an
-- invocation beyond the accounts that they may write.
pub mod Base
pub mod Math
pub mod Error
pub mod State
pub mod Instruction
pub mod Runtime
pub mod Cpi
pub mod Pda
pub mod Processor
pub mod Mirror
pub mod Ledger
pub mod Tests
