-- ===== src/Tests/Owner.antt =====
-- The small runtime keeps what is relied on of the ownership of accounts.
use percolator_vault.Base.{ℕ, ◌≡◌, refl, true, subst, ◌==◌, arith}
use percolator_vault.Runtime.{
  Pubkey, World, Cpi, wrapper, create_account, system_transfer, allocate, assign, initialize_mint,
  initialize_account, token_transfer, mint_to, burn,
}
use percolator_vault.Runtime.Owned.{OwnedLaws, zero_pool}
use percolator_vault.Tests.Model.{Blob, allowed, perform, outcome_ok, fit_pool, bytes_fit, model}

perform_owned :
    (c : Cpi) (w : World Blob) (k : Pubkey)
    → allowed c w ≡ true
    → (w k).owner ≡ 1
    → ((perform c w k).contents ≡ (w k).contents) × ((perform c w k).owner ≡ 1)
perform_owned (wrapper i) w k h owner = (refl, owner)
perform_owned (create_account payer target lamports space o) w k h owner = ground arith
perform_owned (system_transfer from to lamports) w k h owner = (refl, owner)
perform_owned (allocate target space) w k h owner = ground arith
perform_owned (assign target o) w k h owner = ground arith
perform_owned (initialize_mint program mint authority freeze decimals) w k h owner = (refl, owner)
perform_owned (initialize_account program account mint o) w k h owner = (refl, owner)
perform_owned (token_transfer program source dest authority amount) w k h owner = (refl, owner)
perform_owned (mint_to program mint dest authority amount) w k h owner = (refl, owner)
perform_owned (burn program source mint authority amount) w k h owner = (refl, owner)

zero_pool_fits : fit_pool zero_pool ≡ zero_pool
unfolding fit_pool bytes_fit
zero_pool_fits = refl

self_test : (k : ℕ) → (k == k) ≡ true
self_test k = ground arith

created_at :
    (payer target : Pubkey) (lamports space : ℕ) (owner : Pubkey) (w : World Blob)
    → ((perform (create_account payer target lamports space owner) w target).owner ≡ owner)
      × ((perform (create_account payer target lamports space owner) w target).contents.size
          ≡ space)
      × (fit_pool
            (perform (create_account payer target lamports space owner) w target).contents.pool
          ≡ zero_pool)
created_at payer target lamports space owner w = rw (self_test target) (refl, refl, zero_pool_fits)

allocated_at :
    (target : Pubkey) (space : ℕ) (w : World Blob)
    → ((perform (allocate target space) w target).contents.size ≡ space)
      × (fit_pool (perform (allocate target space) w target).contents.pool ≡ zero_pool)
allocated_at target space w = rw (self_test target) (refl, zero_pool_fits)

assigned_at :
    (target owner : Pubkey) (w : World Blob)
    → ((perform (assign target owner) w target).owner ≡ owner)
      × ((perform (assign target owner) w target).contents ≡ (w target).contents)
assigned_at target owner w = rw (self_test target) (refl, refl)

pub model_owned : OwnedLaws model 1
unfolding model
model_owned = record {
  data_len-with_pool = λ p d. refl;
  owned_frame = λ c seeds w w' k h other owner.
      subst (λ (s : World Blob). ((s k).contents ≡ (w k).contents) × ((s k).owner ≡ 1))
        (outcome_ok c w w' h).1 (perform_owned c w k (outcome_ok c w w' h).0 owner);
  created = λ payer target lamports space owner seeds w w' _ h.
      subst
        (λ (s : World Blob).
          ((s target).owner ≡ owner)
          × ((s target).contents.size ≡ space)
          × (fit_pool (s target).contents.pool ≡ zero_pool))
        (outcome_ok (create_account payer target lamports space owner) w w' h).1
        (created_at payer target lamports space owner w);
  allocated = λ target space seeds w w' _ h.
      subst
        (λ (s : World Blob).
          ((s target).contents.size ≡ space) × (fit_pool (s target).contents.pool ≡ zero_pool))
        (outcome_ok (allocate target space) w w' h).1 (allocated_at target space w);
  assigned = λ target owner seeds w w' h.
      subst
        (λ (s : World Blob).
          ((s target).owner ≡ owner) × ((s target).contents ≡ (w target).contents))
        (outcome_ok (assign target owner) w w' h).1 (assigned_at target owner w);
}
