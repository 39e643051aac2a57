-- ===== src/Error.antt =====
-- src/error.rs, the errors of solana_program that the handlers return, and the result of a handler.
use percolator_vault.Base.{ℕ, ◌≡◌, refl, Bool, true, false, Option, none, some, arith}

pub data StakeError : Type 0 where
  already_initialized not_initialized unauthorized cooldown_not_elapsed : StakeError
  insufficient_lp_tokens zero_amount overflow invalid_mint : StakeError
  market_resolved deposit_cap_exceeded invalid_pda admin_already_transferred : StakeError
  admin_not_transferred insufficient_vault_balance invalid_percolator_program : StakeError
  cpi_failed invalid_account invalid_pool_mode withdrawal_below_hwm_floor : StakeError

-- The discriminant of each variant, `e as u32`.
unfoldable pub error_code : StakeError → ℕ
error_code already_initialized = 0
error_code not_initialized = 1
error_code unauthorized = 2
error_code cooldown_not_elapsed = 3
error_code insufficient_lp_tokens = 4
error_code zero_amount = 5
error_code overflow = 6
error_code invalid_mint = 7
error_code market_resolved = 8
error_code deposit_cap_exceeded = 9
error_code invalid_pda = 10
error_code admin_already_transferred = 11
error_code admin_not_transferred = 12
error_code insufficient_vault_balance = 13
error_code invalid_percolator_program = 14
error_code cpi_failed = 15
error_code invalid_account = 16
error_code invalid_pool_mode = 17
error_code withdrawal_below_hwm_floor = 18

-- `solana_program::program_error::ProgramError`; `external` is any error of a called program or of
-- the runtime.
pub data ProgramError : Type 0 where
  custom : ℕ → ProgramError
  missing_required_signature incorrect_program_id invalid_argument : ProgramError
  invalid_instruction_data invalid_account_data not_enough_account_keys : ProgramError
  insufficient_funds uninitialized_account account_borrow_failed : ProgramError
  external : ℕ → ProgramError

-- `impl From<StakeError> for ProgramError`
unfoldable pub from_stake_error : StakeError → ProgramError
unfolding error_code
from_stake_error e = custom (error_code e)

-- A handler returns a value or an error, or it panics; the last two roll the transaction back.
pub data Result {ℓ} (A : Type ℓ) : Type ℓ where
  ok : A → Result A
  err : ProgramError → Result A
  panic : Result A

infixl 5 ◌>>=◌ ◌>>◌
abbrev pub ◌>>=◌ {ℓ κ} : {A : Type ℓ} {B : Type κ} → Result A → (A → Result B) → Result B
ok a >>= f = f a
err e >>= f = err e
panic >>= f = panic

abbrev pub ◌>>◌ {ℓ} : {B : Type ℓ} → Result (Unit {0}) → Result B → Result B
m >> k = m >>= λ _. k

-- `if c { return Err(e) }`
abbrev pub reject_if : Bool → ProgramError → Result (Unit {0})
reject_if true e = err e
reject_if false e = ok tt

-- `if c { return Err(StakeError::e.into()) }`
abbrev pub fail_if : Bool → StakeError → Result (Unit {0})
fail_if c e = reject_if c (from_stake_error e)

-- `.ok_or(StakeError::e)?`
abbrev pub ok_or {ℓ} : {A : Type ℓ} → Option A → StakeError → Result A
ok_or none e = err (from_stake_error e)
ok_or (some a) e = ok a

-- Inversion of a successful chain, one step at a time: the rest of a proof is told the value of the
-- step, and that what follows the step has succeeded.
pub bind_ok {ℓ κ μ} :
    {A : Type ℓ} {B : Type κ} {P : Type μ} (m : Result A) {f : A → Result B} {b : B}
    → (m >>= f) ≡ ok b
    → ((a : A) → m ≡ ok a → f a ≡ ok b → P)
    → P
bind_ok (ok a) h k = k a refl h
bind_ok (err e) h k = cc
bind_ok panic h k = cc

pub guard_ok {ℓ μ} :
    {B : Type ℓ} {P : Type μ} (c : Bool) (e : ProgramError) {m : Result B} {b : B}
    → (reject_if c e >> m) ≡ ok b
    → (c ≡ false → m ≡ ok b → P)
    → P
guard_ok true e h k = cc
guard_ok false e h k = k refl h

pub option_ok {ℓ κ μ} :
    {A : Type ℓ} {B : Type κ} {P : Type μ} (o : Option A) (e : StakeError) {f : A → Result B}
    {b : B}
    → (ok_or o e >>= f) ≡ ok b
    → ((a : A) → o ≡ some a → f a ≡ ok b → P)
    → P
option_ok (some a) e h k = k a refl h
option_ok none e h k = cc

-- A result is one value.
pub same_ok {ℓ} : {A : Type ℓ} {a b : A} (m : Result A) → m ≡ ok a → m ≡ ok b → a ≡ b
same_ok m h h' = ground arith

-- Distinct errors have distinct codes.
pub error_code-injective : (e e' : StakeError) → error_code e ≡ error_code e' → e ≡ e'
unfolding error_code
error_code-injective e e' h = ground arith
