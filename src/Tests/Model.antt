-- ===== src/Tests/Model.antt =====
-- A small runtime with concrete functions, which keeps the laws that the theorems rely on. A
-- created account gets its size; the other invocations leave the world as it is.
use percolator_vault.Base.{
  ℕ, zero, suc, sym, ◌∙◌, ◌+◌, ◌*◌, ◌%◌, ◌^◌, ◌<◌, ◌≡◌, refl, ap, Bool, true, false, ◌&&◌, List, [],
  ◌∷◌, length, All, replicate, leb, ◌==◌, if◌then◌else◌, arith,
}
use native.Mathlib.Nat.{mod-eq_of_lt}
use percolator_vault.Base.Word.{IsU8, IsU64}
use percolator_vault.Error.{Result, ok, err, account_borrow_failed}
use percolator_vault.State.{StakePool, StakeDeposit, IsPool, IsDeposit}
use percolator_vault.Runtime.{
  Pubkey, World, Cpi, create_account, allocate, assign, Seeds, Clock, Runtime,
}
use percolator_vault.Runtime.Owned.{zero_pool}
use percolator_vault.Runtime.Laws.{RuntimeLaws, writes}

-- The data of an account: its length, and what the casts and the decoders see in it.
pub record Blob : Type 0 where
  pub size : ℕ
  pub pool : StakePool
  pub deposit : StakeDeposit
  pub tokens : ℕ
  pub time : Clock

unfoldable pub bytes_fit : List ℕ → Bool
bytes_fit [] = true
bytes_fit (b ∷ bs) = leb b 255 && bytes_fit bs

bytes_fit-All : (bs : List ℕ) → bytes_fit bs ≡ true → All IsU8 bs
unfolding bytes_fit
bytes_fit-All [] h = tt
bytes_fit-All (b ∷ bs) h = ground (arith, bytes_fit-All bs)

All-bytes_fit : (bs : List ℕ) → All IsU8 bs → bytes_fit bs ≡ true
unfolding bytes_fit
All-bytes_fit [] h = refl
All-bytes_fit (b ∷ bs) (hb, h) = ground (arith, All-bytes_fit bs h)

abbrev bytes_or : ℕ → List ℕ → List ℕ
bytes_or n bs = if length bs == n && bytes_fit bs then bs else replicate n 0

length-replicate : (n a : ℕ) → length (replicate n a) ≡ n
length-replicate zero a = refl
length-replicate (suc n) a = ap suc (length-replicate n a)

zeros-IsU8 : (n : ℕ) → All IsU8 (replicate n 0)
zeros-IsU8 zero = tt
zeros-IsU8 (suc n) = (omega arith, zeros-IsU8 n)

bytes_or-length : (n : ℕ) (bs : List ℕ) → length (bytes_or n bs) ≡ n
bytes_or-length n bs = ground (arith, length-replicate n 0)

bytes_or-IsU8 : (n : ℕ) (bs : List ℕ) → All IsU8 (bytes_or n bs)
bytes_or-IsU8 n bs = ground (arith, zeros-IsU8 n, bytes_fit-All bs)

bytes_or_same : (n : ℕ) (bs : List ℕ) → length bs ≡ n → All IsU8 bs → bytes_or n bs ≡ bs
bytes_or_same n bs size h = ground (arith, All-bytes_fit bs h)

mod_same : (n m : ℕ) → n < m → n % m ≡ n
mod_same n m h = mod-eq_of_lt h

-- A record of any fields made to fit its types.
unfoldable pub fit_pool : StakePool → StakePool
fit_pool p = record {
  is_initialized = p.is_initialized % 2 ^ 8;
  bump = p.bump % 2 ^ 8;
  vault_authority_bump = p.vault_authority_bump % 2 ^ 8;
  admin_transferred = p.admin_transferred % 2 ^ 8;
  padding = bytes_or 4 p.padding;
  slab = p.slab % 2 ^ 256;
  admin = p.admin % 2 ^ 256;
  collateral_mint = p.collateral_mint % 2 ^ 256;
  lp_mint = p.lp_mint % 2 ^ 256;
  vault = p.vault % 2 ^ 256;
  total_deposited = p.total_deposited % 2 ^ 64;
  total_lp_supply = p.total_lp_supply % 2 ^ 64;
  cooldown_slots = p.cooldown_slots % 2 ^ 64;
  deposit_cap = p.deposit_cap % 2 ^ 64;
  total_flushed = p.total_flushed % 2 ^ 64;
  total_returned = p.total_returned % 2 ^ 64;
  total_withdrawn = p.total_withdrawn % 2 ^ 64;
  percolator_program = p.percolator_program % 2 ^ 256;
  total_fees_earned = p.total_fees_earned % 2 ^ 64;
  last_fee_accrual_slot = p.last_fee_accrual_slot % 2 ^ 64;
  last_vault_snapshot = p.last_vault_snapshot % 2 ^ 64;
  pool_mode = p.pool_mode % 2 ^ 8;
  mode_padding = bytes_or 7 p.mode_padding;
  reserved = bytes_or 64 p.reserved;
}

fit_pool-IsPool : (p : StakePool) → IsPool (fit_pool p)
unfolding fit_pool
fit_pool-IsPool p = record {
  initialized_fits = omega arith;
  bump_fits = omega arith;
  authority_bump_fits = omega arith;
  transferred_fits = omega arith;
  padding_length = bytes_or-length 4 p.padding;
  padding_bytes = bytes_or-IsU8 4 p.padding;
  slab_fits = omega arith;
  admin_fits = omega arith;
  collateral_fits = omega arith;
  mint_fits = omega arith;
  vault_fits = omega arith;
  deposited_fits = omega arith;
  supply_fits = omega arith;
  cooldown_fits = omega arith;
  cap_fits = omega arith;
  flushed_fits = omega arith;
  returned_fits = omega arith;
  withdrawn_fits = omega arith;
  program_fits = omega arith;
  fees_fits = omega arith;
  accrual_slot_fits = omega arith;
  snapshot_fits = omega arith;
  mode_fits = omega arith;
  mode_padding_length = bytes_or-length 7 p.mode_padding;
  mode_padding_bytes = bytes_or-IsU8 7 p.mode_padding;
  reserved_length = bytes_or-length 64 p.reserved;
  reserved_bytes = bytes_or-IsU8 64 p.reserved;
}

fit_pool_same : (p : StakePool) → IsPool p → fit_pool p ≡ p
unfolding fit_pool
fit_pool_same p v = rw (
  mod_same p.is_initialized (2 ^ 8) (omega (arith, v.initialized_fits)),
  mod_same p.bump (2 ^ 8) (omega (arith, v.bump_fits)),
  mod_same p.vault_authority_bump (2 ^ 8) (omega (arith, v.authority_bump_fits)),
  mod_same p.admin_transferred (2 ^ 8) (omega (arith, v.transferred_fits)),
  bytes_or_same 4 p.padding v.padding_length v.padding_bytes,
  mod_same p.slab (2 ^ 256) (omega (arith, v.slab_fits)),
  mod_same p.admin (2 ^ 256) (omega (arith, v.admin_fits)),
  mod_same p.collateral_mint (2 ^ 256) (omega (arith, v.collateral_fits)),
  mod_same p.lp_mint (2 ^ 256) (omega (arith, v.mint_fits)),
  mod_same p.vault (2 ^ 256) (omega (arith, v.vault_fits)),
  mod_same p.total_deposited (2 ^ 64) (omega (arith, v.deposited_fits)),
  mod_same p.total_lp_supply (2 ^ 64) (omega (arith, v.supply_fits)),
  mod_same p.cooldown_slots (2 ^ 64) (omega (arith, v.cooldown_fits)),
  mod_same p.deposit_cap (2 ^ 64) (omega (arith, v.cap_fits)),
  mod_same p.total_flushed (2 ^ 64) (omega (arith, v.flushed_fits)),
  mod_same p.total_returned (2 ^ 64) (omega (arith, v.returned_fits)),
  mod_same p.total_withdrawn (2 ^ 64) (omega (arith, v.withdrawn_fits)),
  mod_same p.percolator_program (2 ^ 256) (omega (arith, v.program_fits)),
  mod_same p.total_fees_earned (2 ^ 64) (omega (arith, v.fees_fits)),
  mod_same p.last_fee_accrual_slot (2 ^ 64) (omega (arith, v.accrual_slot_fits)),
  mod_same p.last_vault_snapshot (2 ^ 64) (omega (arith, v.snapshot_fits)),
  mod_same p.pool_mode (2 ^ 8) (omega (arith, v.mode_fits)),
  bytes_or_same 7 p.mode_padding v.mode_padding_length v.mode_padding_bytes,
  bytes_or_same 64 p.reserved v.reserved_length v.reserved_bytes,
)

-- A record of any fields made to fit its types.
unfoldable pub fit_deposit : StakeDeposit → StakeDeposit
fit_deposit d = record {
  is_initialized = d.is_initialized % 2 ^ 8;
  bump = d.bump % 2 ^ 8;
  padding = bytes_or 6 d.padding;
  pool = d.pool % 2 ^ 256;
  user = d.user % 2 ^ 256;
  last_deposit_slot = d.last_deposit_slot % 2 ^ 64;
  lp_amount = d.lp_amount % 2 ^ 64;
  reserved = bytes_or 64 d.reserved;
}

fit_deposit-IsDeposit : (d : StakeDeposit) → IsDeposit (fit_deposit d)
unfolding fit_deposit
fit_deposit-IsDeposit d = record {
  initialized_fits = omega arith;
  bump_fits = omega arith;
  padding_length = bytes_or-length 6 d.padding;
  padding_bytes = bytes_or-IsU8 6 d.padding;
  pool_fits = omega arith;
  user_fits = omega arith;
  slot_fits = omega arith;
  lp_fits = omega arith;
  reserved_length = bytes_or-length 64 d.reserved;
  reserved_bytes = bytes_or-IsU8 64 d.reserved;
}

fit_deposit_same : (d : StakeDeposit) → IsDeposit d → fit_deposit d ≡ d
unfolding fit_deposit
fit_deposit_same d v = rw (
  mod_same d.is_initialized (2 ^ 8) (omega (arith, v.initialized_fits)),
  mod_same d.bump (2 ^ 8) (omega (arith, v.bump_fits)),
  bytes_or_same 6 d.padding v.padding_length v.padding_bytes,
  mod_same d.pool (2 ^ 256) (omega (arith, v.pool_fits)),
  mod_same d.user (2 ^ 256) (omega (arith, v.user_fits)),
  mod_same d.last_deposit_slot (2 ^ 64) (omega (arith, v.slot_fits)),
  mod_same d.lp_amount (2 ^ 64) (omega (arith, v.lp_fits)),
  bytes_or_same 64 d.reserved v.reserved_length v.reserved_bytes,
)

abbrev digest_bytes : List ℕ → ℕ
digest_bytes [] = 7
digest_bytes (b ∷ bs) = b + 31 * digest_bytes bs

abbrev digest : Seeds → ℕ
digest [] = 0
digest (s ∷ ss) = digest_bytes s + 1009 * digest ss

-- The system program hands out only accounts that it owns.
abbrev pub allowed : Cpi → World Blob → Bool
allowed (create_account payer target lamports space owner) w = (w target).owner == 0
allowed (allocate target space) w = (w target).owner == 0
allowed (assign target owner) w = (w target).owner == 0
allowed _ w = true

-- A new account is zeroed.
abbrev pub zeroed : Blob → ℕ → Blob
zeroed b space = record b { size = space; pool = zero_pool }

abbrev pub perform : Cpi → World Blob → World Blob
perform (create_account payer target lamports space owner) w k =
    if target == k
    then record { owner = owner; lamports = lamports; contents = zeroed (w k).contents space }
    else w k
perform (allocate target space) w k =
    if target == k then record (w k) { contents = zeroed (w k).contents space } else w k
perform (assign target owner) w k = if target == k then record (w k) { owner = owner } else w k
perform _ w k = w k

abbrev pub outcome : Cpi → World Blob → Result (World Blob)
outcome c w = if allowed c w then ok (perform c w) else err account_borrow_failed

unfoldable pub model : Runtime Blob
unfolding fit_pool fit_deposit
model = record {
  find_program_address = λ seeds program. ((digest seeds + program) % 2 ^ 256, 255);
  spl_token_id = 900;
  minimum_balance = λ n. ok (n + 128);
  data_len = λ d. d.size;
  pool_of = λ d. fit_pool d.pool;
  with_pool = λ p d. record d { pool = p };
  deposit_of = λ d. fit_deposit d.deposit;
  with_deposit = λ x d. record d { deposit = x };
  token_amount = λ d. ok (d.tokens % 2 ^ 64);
  clock_of = λ k d. ok (record { slot = d.time.slot % 2 ^ 64; epoch = d.time.epoch % 2 ^ 64 });
  invoke_signed = λ c seeds w. outcome c w;
}

perform_frame :
    (c : Cpi) (w : World Blob) (k : Pubkey)
    → writes c k ≡ false
    → (perform c w k).contents ≡ (w k).contents
unfolding writes
perform_frame c w k h = ground arith

ok_path {ℓ} : {A : Type ℓ} {a b : A} → ok a ≡ ok b → a ≡ b
ok_path h = ground arith

pub outcome_ok :
    (c : Cpi) (w w' : World Blob) → outcome c w ≡ ok w' → (allowed c w ≡ true) × (perform c w ≡ w')
outcome_ok c w w' h = outcome_parts (allowed c w) (perform c w) w' h
  where
    outcome_parts :
        (b : Bool) (s w' : World Blob)
        → (if b then ok s else err account_borrow_failed) ≡ ok w'
        → (b ≡ true) × (s ≡ w')
    outcome_parts true s w' h = (refl, ok_path h)
    outcome_parts false s w' h = cc

clock_range :
    (d : Blob) (c : Clock)
    → ok (record { slot = d.time.slot % 2 ^ 64; epoch = d.time.epoch % 2 ^ 64 }) ≡ ok c
    → IsU64 c.slot × IsU64 c.epoch
clock_range d c h = ground arith

tokens_range : (d : Blob) (n : ℕ) → ok (d.tokens % 2 ^ 64) ≡ ok n → IsU64 n
tokens_range d n h = ground arith

pub model_laws : RuntimeLaws model
unfolding model
model_laws = record {
  pool_of-IsPool = λ d. fit_pool-IsPool d.pool;
  pool_of-with_pool = λ p d v. fit_pool_same p v;
  deposit_of-IsDeposit = λ d. fit_deposit-IsDeposit d.deposit;
  deposit_of-with_deposit = λ x d v. fit_deposit_same x v;
  address_fits = λ seeds program. (omega arith, omega arith);
  clock_fits = λ k d c h. clock_range d c h;
  tokens_fit = λ d n h. tokens_range d n h;
  invoke_signed_frame = λ c seeds w w' k h free.
      ap (λ (s : World Blob). (s k).contents) (sym (outcome_ok c w w' h).1)
      ∙ perform_frame c w k free;
}
