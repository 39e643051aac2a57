-- ===== src/Processor/Opening/Accounts.antt =====
-- What `process_init_pool` and `process_init_trading_pool` of src/processor.rs leave at the address
-- of the pool.
use percolator_vault.Base.{subst, ℕ, ◌≤◌, ◌≡◌, refl, sym, ap, ◌∙◌, List, All, arith}
use percolator_vault.Base.Word.{IsU64}
use percolator_vault.Error.{ok, same_ok, bind_ok}
use percolator_vault.State.{StakePool, IsPool, IsKey, stake_pool_size, set_discriminator}
use percolator_vault.Runtime.{Pubkey, AccountInfo, World, Runtime, load_pool, store_pool}
use percolator_vault.Runtime.Laws.{RuntimeLaws}
use percolator_vault.Runtime.Owned.{OwnedLaws, Foreign, Held, zero_pool, store_pool-owner}
use percolator_vault.Runtime.Store.{pool_at, pool_at-store_pool, load_pool-pool_at}
use percolator_vault.Pda.{derive_pool_pda, derive_vault_authority}
use percolator_vault.Processor.Init.{
  InitAccounts, init_accounts, check_init, create_init, initial_pool, third_account,
  process_init_pool, process_init_trading_pool,
}
use percolator_vault.Processor.Opening.{
  KeysFit, init_accounts-KeysFit, initial_pool-IsPool, zero_pool-IsPool, Fresh, initial_pool-Fresh,
  trading-Fresh,
}
use percolator_vault.Processor.Steps.Frames.{init_accounts-Foreign, init_accounts-third_account}
use percolator_vault.Processor.Opening.Zeroed.{create_init-Zeroed}

module _ {D : Type 0} (rt : Runtime D) (laws : RuntimeLaws rt) (program_id : Pubkey)
    (owned : OwnedLaws rt program_id) where
  -- An account of the program with a new pool in it.
  abbrev pub Opened : InitAccounts → ℕ → ℕ → ℕ → World D → Type 0
  Opened a cooldown limit mode w =
      Held rt program_id w a.pool_pda.key
      × Fresh a cooldown limit mode (pool_at rt w a.pool_pda.key)

  abbrev opening_pool : InitAccounts → ℕ → ℕ → StakePool
  opening_pool a cooldown limit =
      initial_pool a (derive_pool_pda rt program_id a.slab.key).1
        (derive_vault_authority rt program_id (derive_pool_pda rt program_id a.slab.key).0).1
        cooldown limit zero_pool

  opening_pool-IsPool :
      (a : InitAccounts) (cooldown limit : ℕ)
      → KeysFit a
      → IsU64 cooldown
      → IsU64 limit
      → IsPool (opening_pool a cooldown limit)
  unfolding derive_pool_pda derive_vault_authority
  opening_pool-IsPool a cooldown limit keys hc hl =
      initial_pool-IsPool a _ _ cooldown limit zero_pool keys (laws.address_fits _ _).1
        (laws.address_fits _ _).1 hc hl zero_pool-IsPool

  stored-Held :
      (w w' : World D) (k : Pubkey) (q : StakePool)
      → Held rt program_id w k
      → IsPool q
      → ok (store_pool rt k q w) ≡ ok w'
      → Held rt program_id w' k × (pool_at rt w' k ≡ q)
  stored-Held w w' k q held v h =
      let (owner_kept, written) = store_pool-owner rt program_id w k q in
      subst (λ (s : World D). Held rt program_id s k × (pool_at rt s k ≡ q))
        (same_ok (ok w') (sym h) refl)
        (
          (
            owner_kept ∙ held.0,
            subst (λ (n : ℕ). stake_pool_size ≤ n)
                (sym (ap rt.data_len written ∙ owned.data_len-with_pool q (w k).contents)) held.1,
          ),
          pool_at-store_pool rt laws w k q v,
        )

  opening :
      (accounts : List AccountInfo) (cooldown limit : ℕ) (w w' : World D) (a : InitAccounts)
      → Foreign program_id accounts
      → All (λ (i : AccountInfo). IsKey i.key) accounts
      → IsU64 cooldown
      → IsU64 limit
      → init_accounts accounts ≡ ok a
      → process_init_pool rt program_id accounts cooldown limit w ≡ ok w'
      → Held rt program_id w' a.pool_pda.key
        × (pool_at rt w' a.pool_pda.key ≡ opening_pool a cooldown limit)
  unfolding process_init_pool
  opening accounts cooldown limit w w' a foreign keys hc hl named h =
      bind_ok (init_accounts accounts) h λ b b_eq h.
        bind_ok (check_init rt program_id b w) h λ _ _ h.
          bind_ok
            (create_init rt program_id b (derive_pool_pda rt program_id b.slab.key).1
              (derive_vault_authority rt program_id (derive_pool_pda rt program_id b.slab.key).0).1
              w)
            h
            λ w₁ created h. bind_ok (load_pool rt w₁ b.pool_pda.key) h λ p read h.
              let (held, zeroed) =
                create_init-Zeroed rt program_id owned b _ _ w w₁
                  (init_accounts-Foreign program_id accounts b foreign b_eq) created in
              let p_eq : p ≡ zero_pool = load_pool-pool_at rt w₁ b.pool_pda.key p read ∙ zeroed in
              subst
                (λ (c : InitAccounts).
                  Held rt program_id w' c.pool_pda.key
                  × (pool_at rt w' c.pool_pda.key ≡ opening_pool c cooldown limit))
                (same_ok (init_accounts accounts) b_eq named)
                (stored-Held w₁ w' b.pool_pda.key (opening_pool b cooldown limit) held
                  (opening_pool-IsPool b cooldown limit (init_accounts-KeysFit accounts b keys b_eq)
                    hc hl)
                  (subst
                    (λ (r : StakePool).
                      ok (
                        store_pool rt b.pool_pda.key
                          (initial_pool b (derive_pool_pda rt program_id b.slab.key).1
                            (derive_vault_authority rt program_id
                              (derive_pool_pda rt program_id b.slab.key).0).1
                            cooldown limit r)
                          w₁)
                      ≡ ok w')
                    p_eq h))

  -- A successful `process_init_pool`, of a transaction that does not pass the program's own account
  -- and whose addresses and arguments lie in their types, leaves at the address of the pool an account
  -- of the program with a new pool of mode 0: it has the slab, the admin, the cooldown and the cap
  -- that it was opened with, nothing has come in or left, nobody has shares, it is not resolved, and
  -- its books are in order.
  pub process_init_pool-Opened :
      (accounts : List AccountInfo) (cooldown limit : ℕ) (w w' : World D) (a : InitAccounts)
      → Foreign program_id accounts
      → All (λ (i : AccountInfo). IsKey i.key) accounts
      → IsU64 cooldown
      → IsU64 limit
      → init_accounts accounts ≡ ok a
      → process_init_pool rt program_id accounts cooldown limit w ≡ ok w'
      → Opened a cooldown limit 0 w'
  process_init_pool-Opened accounts cooldown limit w w' a foreign keys hc hl named h =
      let (held, opened) = opening accounts cooldown limit w w' a foreign keys hc hl named h in
      (
        held,
        subst (Fresh a cooldown limit 0) (sym opened) (
            initial_pool-Fresh a (derive_pool_pda rt program_id a.slab.key).1
              (derive_vault_authority rt program_id (derive_pool_pda rt program_id a.slab.key).0).1
              cooldown limit),
      )

  opening_pool_unearned :
      (a : InitAccounts) (cooldown limit : ℕ)
      → (opening_pool a cooldown limit).total_fees_earned ≡ 0
  unfolding initial_pool set_discriminator
  opening_pool_unearned a cooldown limit = refl

  traded-IsPool : (p : StakePool) → IsPool p → IsPool (record p { pool_mode = 1 })
  traded-IsPool p v = ground arith

  -- A successful `process_init_trading_pool`, of a transaction that does not pass the program's own
  -- account and whose addresses and arguments lie in their types, leaves at the address of the pool
  -- an account of the program with a new pool of mode 1: it has the slab, the admin, the cooldown and
  -- the cap that it was opened with, nothing has come in or left, nobody has shares, it is not
  -- resolved, and its books are in order.
  pub process_init_trading_pool-Opened :
      (accounts : List AccountInfo) (cooldown limit : ℕ) (w w' : World D) (a : InitAccounts)
      → Foreign program_id accounts
      → All (λ (i : AccountInfo). IsKey i.key) accounts
      → IsU64 cooldown
      → IsU64 limit
      → init_accounts accounts ≡ ok a
      → process_init_trading_pool rt program_id accounts cooldown limit w ≡ ok w'
      → Opened a cooldown limit 1 w'
  unfolding process_init_trading_pool
  process_init_trading_pool-Opened accounts cooldown limit w w' a foreign keys hc hl named h =
      bind_ok (process_init_pool rt program_id accounts cooldown limit w) h λ w₁ first h.
        bind_ok (third_account rt program_id accounts) h λ pool_ai third h.
          bind_ok (load_pool rt w₁ pool_ai.key) h λ p read h.
            let (held, fresh) =
              process_init_pool-Opened accounts cooldown limit w w₁ a foreign keys hc hl named
                first in
            let (_, opened) =
              opening accounts cooldown limit w w₁ a foreign keys hc hl named first in
            let same : a.pool_pda ≡ pool_ai =
              same_ok (third_account rt program_id accounts)
                (init_accounts-third_account rt program_id owned a.pool_pda.key accounts a named)
                third in
            let p_eq : pool_at rt w₁ a.pool_pda.key ≡ p =
              ap (λ (i : AccountInfo). pool_at rt w₁ i.key) same
              ∙ sym (load_pool-pool_at rt w₁ pool_ai.key p read) in
            let (held', written) =
              stored-Held w₁ w' a.pool_pda.key (record p { pool_mode = 1 }) held
                (traded-IsPool p
                  (subst IsPool p_eq (laws.pool_of-IsPool (w₁ a.pool_pda.key).contents)))
                (subst
                  (λ (i : AccountInfo).
                    ok (store_pool rt i.key (record p { pool_mode = 1 }) w₁) ≡ ok w')
                  (sym same) h) in
            (
              held',
              subst (Fresh a cooldown limit 1) (sym written) (
                  trading-Fresh a cooldown limit p (subst (Fresh a cooldown limit 0) p_eq fresh) (
                    subst (λ (q : StakePool). q.total_fees_earned ≡ 0) (sym opened ∙ p_eq)
                      (opening_pool_unearned a cooldown limit))),
            )
