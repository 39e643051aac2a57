-- ===== src/Processor/Steps/Local.antt =====
-- The handlers of src/processor.rs that invoke no program: the two configurations, and the accrual.
use percolator_vault.Base.{
  subst, ℕ, ◌+◌, ◌-◌, ◌≤◌, ◌≡◌, refl, sym, ap, ◌∙◌, ◌⊎◌, inl, inr, ◌||◌, Bool, true, false, not,
  List, Option, none, some, ltb, ◌==◌, arith,
}
use percolator_vault.Base.Word.{IsU16, IsU64, checked_add}
use percolator_vault.Error.{
  ok, same_ok, invalid_instruction_data, guard_ok, bind_ok, missing_required_signature,
  not_initialized, unauthorized, invalid_account, from_stake_error, uninitialized_account,
  invalid_pool_mode, account_borrow_failed, invalid_account_data,
}
use percolator_vault.State.{
  StakePool, IsPool, IsReserved, is_resolved, validate_discriminator, set_hwm_enabled,
  set_hwm_floor_bps, set_pre_supply_vault_offset,
}
use percolator_vault.State.Packed.{Packed, packed}
use percolator_vault.State.Reserved.{
  set_hwm_enabled-packed, set_hwm_enabled-IsReserved, set_hwm_floor_bps-IsReserved,
  set_pre_supply_vault_offset-packed, set_pre_supply_vault_offset-IsReserved,
}
use percolator_vault.Runtime.{Pubkey, AccountInfo, World, Runtime, load_pool, store_pool}
use percolator_vault.Runtime.Laws.{RuntimeLaws}
use percolator_vault.Runtime.Owned.{OwnedLaws, Held}
use percolator_vault.Runtime.Store.{pool_at, load_pool-pool_at}
use percolator_vault.Instruction.Wire.{OptionFits}
use percolator_vault.Ledger.{Move, configures, marks, accrues}
use percolator_vault.Processor.Config.{
  config_accounts, configured, hwm_configured, process_update_config, process_admin_set_hwm_config,
}
use percolator_vault.Processor.Accrue.{accrue_accounts, noted, accrued, process_accrue_fees}
use percolator_vault.Processor.Deposit.Books.{with_reserved-IsPool}
use percolator_vault.Processor.Rules.{enable}
use percolator_vault.Processor.Closing.{resolved_lem}
use percolator_vault.Processor.Steps.{Carries, stored-Carries}

configured-IsPool :
    (p : StakePool) (cooldown cap : Option ℕ)
    → OptionFits cooldown
    → OptionFits cap
    → IsPool p
    → IsPool (configured p cooldown cap)
unfolding configured
configured-IsPool p none none h g v = ground arith
configured-IsPool p none (some n) h g v = ground arith
configured-IsPool p (some m) none h g v = ground arith
configured-IsPool p (some m) (some n) h g v = ground arith

configured-Move : (p : StakePool) (cooldown cap : Option ℕ) → Move p (configured p cooldown cap)
unfolding configured
configured-Move p cooldown cap = configures refl

-- A change of the reserved bytes that keeps the flag.
pub kept_flag :
    (p q : StakePool) → (packed q).resolved ≡ (packed p).resolved → is_resolved q ≡ is_resolved p
kept_flag p q e = resolved_lem q ∙ e ∙ sym (resolved_lem p)

disabled-Move :
    (p : StakePool) → IsPool p → Move p (set_hwm_enabled p false) × IsPool (set_hwm_enabled p false)
unfolding set_hwm_enabled
disabled-Move p v =
    let wf : IsReserved p.reserved = (v.reserved_length, v.reserved_bytes) in
    (
      marks
          (kept_flag p (set_hwm_enabled p false)
            (ap (λ (b : Packed). b.resolved) (set_hwm_enabled-packed p wf false)))
          refl,
      with_reserved-IsPool p (set_hwm_enabled p false).reserved v
          (set_hwm_enabled-IsReserved p wf false),
    )

enabled-Move :
    (p : StakePool) (bps : ℕ)
    → IsU16 bps
    → IsPool p
    → Move p (set_hwm_floor_bps (set_hwm_enabled p true) bps)
      × IsPool (set_hwm_floor_bps (set_hwm_enabled p true) bps)
unfolding set_hwm_enabled set_hwm_floor_bps
enabled-Move p bps fits v =
    let wf : IsReserved p.reserved = (v.reserved_length, v.reserved_bytes) in
    let q : StakePool = set_hwm_floor_bps (set_hwm_enabled p true) bps in
    (
      marks (kept_flag p q (ap (λ (b : Packed). b.resolved) (enable p wf bps fits))) refl,
      with_reserved-IsPool p q.reserved v (
          set_hwm_floor_bps-IsReserved (set_hwm_enabled p true)
            (set_hwm_enabled-IsReserved p wf true) bps),
    )

hwm_configured-Move :
    (p q : StakePool) (on : Bool) (bps : ℕ)
    → IsPool p
    → hwm_configured p on bps ≡ ok q
    → Move p q × IsPool q
unfolding hwm_configured
hwm_configured-Move p q false bps v h =
    subst (λ (r : StakePool). Move p r × IsPool r) (same_ok (ok q) (sym h) refl) (disabled-Move p v)
hwm_configured-Move p q true bps v h =
    guard_ok (bps == 0 || ltb 10_000 bps) invalid_instruction_data h λ within h.
      subst (λ (r : StakePool). Move p r × IsPool r) (same_ok (ok q) (sym h) refl)
        (enabled-Move p bps (ground (arith, within)) v)

noted-IsPool :
    (p : StakePool) (fees balance slot : ℕ) (r : List ℕ)
    → IsPool p
    → IsReserved r
    → IsU64 fees
    → IsU64 balance
    → IsU64 slot
    → IsPool (record p {
      total_fees_earned = fees;
      last_fee_accrual_slot = slot;
      last_vault_snapshot = balance;
      reserved = r;
    })
noted-IsPool p fees balance slot r v wf hf hb hs = ground arith

-- The accrual never lowers the fees, and writes no byte but those of the offset.
accrued_fields :
    (p q : StakePool) (balance slot : ℕ)
    → IsU64 p.total_fees_earned
    → accrued p balance slot ≡ ok q
    → (p.total_fees_earned ≤ q.total_fees_earned)
      × IsU64 q.total_fees_earned
      × ((q.reserved ≡ p.reserved)
          ⊎ (q.reserved ≡ (set_pre_supply_vault_offset p balance).reserved))
      × (q ≡ record p {
        total_fees_earned = q.total_fees_earned;
        last_fee_accrual_slot = slot;
        last_vault_snapshot = balance;
        reserved = q.reserved;
      })
unfolding accrued noted set_pre_supply_vault_offset checked_add
accrued_fields p q balance slot fits h = ground arith

-- The offset's bytes keep the flag and the length.
offset_bytes :
    (p q : StakePool) (balance : ℕ)
    → IsReserved p.reserved
    → IsU64 balance
    → (q.reserved ≡ p.reserved) ⊎ (q.reserved ≡ (set_pre_supply_vault_offset p balance).reserved)
    → (is_resolved q ≡ is_resolved p) × IsReserved q.reserved
unfolding is_resolved
offset_bytes p q balance wf fits (inl e) = (rw e refl, rw e wf)
offset_bytes p q balance wf fits (inr e) = (
  rw e (
      kept_flag p (set_pre_supply_vault_offset p balance)
        (ap (λ (b : Packed). b.resolved) (set_pre_supply_vault_offset-packed p wf balance fits))),
  rw e (set_pre_supply_vault_offset-IsReserved p wf balance),
)

accrued-Move :
    (p q : StakePool) (balance slot : ℕ)
    → IsPool p
    → p.pool_mode ≡ 1
    → IsU64 balance
    → IsU64 slot
    → accrued p balance slot ≡ ok q
    → Move p q × IsPool q
accrued-Move p q balance slot v mode hb hs h =
    let (grows, fits, bytes, fields) = accrued_fields p q balance slot v.fees_fits h in
    let (flag, wf) = offset_bytes p q balance (v.reserved_length, v.reserved_bytes) hb bytes in
    let sum : p.total_fees_earned + (q.total_fees_earned - p.total_fees_earned)
        ≡ q.total_fees_earned =
      omega (arith, grows) in
    (
      accrues (q.total_fees_earned - p.total_fees_earned) mode flag (ground (arith, fields, sum)),
      rw fields (noted-IsPool p q.total_fees_earned balance slot q.reserved v wf fits hb hs),
    )

module _ {D : Type 0} (rt : Runtime D) (laws : RuntimeLaws rt) (program_id : Pubkey)
    (owned : OwnedLaws rt program_id) (k : Pubkey) (accounts : List AccountInfo) (w w' : World D)
    (held : Held rt program_id w k) where
  -- A handler that writes one pool, read in the same world.
  local-Carries :
      (key : Pubkey) (p q : StakePool)
      → load_pool rt w key ≡ ok p
      → (IsPool p → Move p q × IsPool q)
      → ok (store_pool rt key q w) ≡ ok w'
      → Carries rt laws program_id owned k w w'
  local-Carries key p q read moves h =
      let read_at : p ≡ pool_at rt w key = load_pool-pool_at rt w key p read in
      let (move, typed) = moves (rw read_at (laws.pool_of-IsPool (w key).contents)) in
      stored-Carries rt laws program_id owned k w w w w' key q held (refl, held.0) (refl, held.0)
        typed (subst (λ (r : StakePool). Move r q) read_at move) h

  pub process_update_config-Carries :
      (cooldown cap : Option ℕ)
      → OptionFits cooldown
      → OptionFits cap
      → process_update_config rt accounts cooldown cap w ≡ ok w'
      → Carries rt laws program_id owned k w w'
  unfolding process_update_config
  process_update_config-Carries cooldown cap hc hd h = bind_ok (config_accounts accounts) h λ a _ h.
      guard_ok (not a.admin.is_signer) missing_required_signature h λ _ h.
        bind_ok (load_pool rt w a.pool_pda.key) h λ p read h.
          guard_ok (not (p.is_initialized == 1)) (from_stake_error not_initialized) h λ _ h.
            guard_ok (not (p.admin == a.admin.key)) (from_stake_error unauthorized) h λ _ h.
              local-Carries a.pool_pda.key p (configured p cooldown cap) read
                (λ v. (configured-Move p cooldown cap, configured-IsPool p cooldown cap hc hd v)) h

  pub process_admin_set_hwm_config-Carries :
      (on : Bool) (bps : ℕ)
      → process_admin_set_hwm_config rt accounts on bps w ≡ ok w'
      → Carries rt laws program_id owned k w w'
  unfolding process_admin_set_hwm_config
  process_admin_set_hwm_config-Carries on bps h = bind_ok (config_accounts accounts) h λ a _ h.
      guard_ok (not a.admin.is_signer) missing_required_signature h λ _ h.
        bind_ok (load_pool rt w a.pool_pda.key) h λ p read h.
          guard_ok (not (p.is_initialized == 1)) (from_stake_error not_initialized) h λ _ h.
            guard_ok (not (validate_discriminator p)) (from_stake_error invalid_account) h λ _ h.
              guard_ok (not (p.admin == a.admin.key)) (from_stake_error unauthorized) h λ _ h.
                bind_ok (hwm_configured p on bps) h λ q q_eq h.
                  local-Carries a.pool_pda.key p q read (λ v. hwm_configured-Move p q on bps v q_eq)
                    h

  pub process_accrue_fees-Carries :
      process_accrue_fees rt accounts w ≡ ok w' → Carries rt laws program_id owned k w w'
  unfolding process_accrue_fees
  process_accrue_fees-Carries h = bind_ok (accrue_accounts accounts) h λ a _ h.
      bind_ok (load_pool rt w a.pool_ai.key) h λ p read h.
        guard_ok (not (p.is_initialized == 1)) uninitialized_account h λ _ h.
          guard_ok (not (p.pool_mode == 1)) (from_stake_error invalid_pool_mode) h λ mode h.
            guard_ok (a.vault_ai.key == a.pool_ai.key) account_borrow_failed h λ _ h.
              bind_ok (rt.token_amount (w a.vault_ai.key).contents) h λ balance balance_eq h.
                guard_ok (not (a.vault_ai.key == p.vault)) invalid_account_data h λ _ h.
                  bind_ok (rt.clock_of a.clock_ai.key (w a.clock_ai.key).contents) h λ clock time h.
                    bind_ok (accrued p balance clock.slot) h λ q q_eq h.
                      local-Carries a.pool_ai.key p q read
                        (λ v.
                          accrued-Move p q balance clock.slot v (ground (arith, mode))
                            (laws.tokens_fit (w a.vault_ai.key).contents balance balance_eq)
                            (laws.clock_fits a.clock_ai.key (w a.clock_ai.key).contents clock
                              time).0
                            q_eq)
                        h
