-- ===== src/Processor/Flushing.antt =====
-- What a successful `process_flush_to_insurance` (src/processor.rs) has checked and booked.
use percolator_vault.Base.{
  subst, ℕ, ◌+◌, ◌≤◌, ◌<◌, ◌≡◌, refl, sym, ap, true, false, [], ◌∷◌, some, ltb, arith,
}
use percolator_vault.Base.Word.{IsU64, checked_add, checked_sub, saturating_add, saturating_sub}
use percolator_vault.Math.{flush_available}
use percolator_vault.Error.{ok, same_ok}
use percolator_vault.State.{StakePool, IsPool}
use percolator_vault.Runtime.{Pubkey, World, Runtime, wrapper, store_pool}
use percolator_vault.Runtime.Laws.{RuntimeLaws}
use percolator_vault.Runtime.Store.{pool_at, pool_at-store_pool}
use percolator_vault.Pda.{derive_vault_authority, vault_auth_seeds}
use percolator_vault.Cpi.{readonly_meta, writable_meta}
use percolator_vault.Base.Bytes.{to_le_bytes}
use percolator_vault.Processor.Common.{validate_flush_pool_mode, verify_token_program}
use percolator_vault.Processor.Flush.{FlushAccounts, available_to_flush, check_flush}

-- What a flush of `amount` has asked of the accounts and the pool, and what it makes of the pool.
abbrev pub Flushed : FlushAccounts → ℕ → StakePool → StakePool → Type 0
Flushed a amount p q =
    (0 < amount)
    × (a.caller.is_signer ≡ true)
    × (p.is_initialized ≡ 1)
    × (p.pool_mode ≡ 0)
    × (p.admin ≡ a.caller.key)
    × (p.vault ≡ a.vault.key)
    × (p.total_withdrawn + p.total_flushed + amount ≤ p.total_deposited + p.total_returned)
    × (q ≡ record p { total_flushed = p.total_flushed + amount })

pub available_room :
    (p : StakePool) (available amount : ℕ)
    → available_to_flush p ≡ some available
    → ltb available amount ≡ false
    → p.total_withdrawn + p.total_flushed + amount ≤ p.total_deposited + p.total_returned
unfolding available_to_flush checked_add checked_sub
available_room p available amount h h' = ground arith

pub flushed-IsPool :
    (p : StakePool) (total : ℕ)
    → IsPool p
    → IsU64 total
    → IsPool (record p { total_flushed = total })
flushed-IsPool p total v h = ground arith

pub checked_add-sum : (a b c : ℕ) → checked_add a b ≡ some c → (c ≡ a + b) × IsU64 c
unfolding checked_add
checked_add-sum a b c h = ground arith

module _ {D : Type 0} (rt : Runtime D) (laws : RuntimeLaws rt) (program_id : Pubkey) where
  pub check_flush-admitted :
      (a : FlushAccounts) (p : StakePool)
      → check_flush rt program_id a p ≡ ok tt
      → (p.is_initialized ≡ 1)
        × (p.pool_mode ≡ 0)
        × (p.admin ≡ a.caller.key)
        × (p.vault ≡ a.vault.key)
  unfolding check_flush validate_flush_pool_mode verify_token_program
  check_flush-admitted a p h = ground arith

  -- The invocation of the wrapper, spelled out: its tag 9 and the amount in 16 bytes, from the pool's
  -- vault to the wrapper's, signed by the vault's authority.
  abbrev pub TopsUp : FlushAccounts → ℕ → World D → World D → Type 0
  TopsUp a amount w w₁ =
      rt.invoke_signed
        (wrapper (record {
          program_id = a.percolator_program.key;
          accounts =
              readonly_meta a.vault_auth.key true
              ∷ writable_meta a.slab.key false
              ∷ writable_meta a.vault.key false
              ∷ writable_meta a.wrapper_vault.key false
              ∷ readonly_meta a.token_program.key false
              ∷ [];
          payload = 9 ∷ to_le_bytes 16 amount;
        }))
        (vault_auth_seeds a.pool_pda.key (derive_vault_authority rt program_id a.pool_pda.key).1
          ∷ [])
        w
      ≡ ok w₁

  -- What a flush has asked of the accounts and the pool, what it has the wrapper move, and what it
  -- writes: the pool's record, and nothing else.
  abbrev pub FlushDone : FlushAccounts → ℕ → World D → World D → Type 0
  FlushDone a amount w w' =
      Flushed a amount (pool_at rt w a.pool_pda.key) (pool_at rt w' a.pool_pda.key)
      × ((w₁ : World D) × TopsUp a amount w w₁
          × (w' ≡ store_pool rt a.pool_pda.key (pool_at rt w' a.pool_pda.key) w₁))

  pub stored_world :
      (w w' : World D) (key : Pubkey) (p : StakePool)
      → IsPool p
      → ok (store_pool rt key p w) ≡ ok w'
      → w' ≡ store_pool rt key (pool_at rt w' key) w
  stored_world w w' key p v h =
      subst (λ (s : World D). s ≡ store_pool rt key (pool_at rt s key) w)
        (same_ok (ok w') (sym h) refl)
        (ap (λ (q : StakePool). store_pool rt key q w) (sym (pool_at-store_pool rt laws w key p v)))

-- Where no u64 overflows and no step runs below 0, the amount that a flush may take is what
-- `flush_available` computes by saturation.
pub available_to_flush-flush_available :
    (p : StakePool) (available : ℕ)
    → available_to_flush p ≡ some available
    → flush_available p.total_deposited p.total_returned p.total_withdrawn p.total_flushed
      ≡ available
unfolding available_to_flush flush_available checked_add checked_sub saturating_add saturating_sub
available_to_flush-flush_available p available h = ground arith
