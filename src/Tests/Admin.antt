-- ===== src/Tests/Admin.antt =====
-- The theorems on an admin's handlers (src/processor.rs) at concrete accounts and worlds.
use percolator_vault.Base.{ℕ, ◌≡◌, refl, true, List, [], ◌∷◌}
use percolator_vault.Base.Bytes.{to_le_bytes}
use percolator_vault.Base.Word.{checked_add, checked_sub}
use percolator_vault.Math.{flush_available}
use percolator_vault.Runtime.{AccountInfo, World, key_bytes}
use percolator_vault.Pda.{pool_seeds, vault_auth_seeds, derive_pool_pda, derive_vault_authority}
use percolator_vault.Processor.Flush.{FlushAccounts, available_to_flush, process_flush_to_insurance}
use percolator_vault.Processor.Flushing.{available_to_flush-flush_available}
use percolator_vault.Tests.Model.{Blob, model}
use percolator_vault.Tests.Books.{trading_pool}
use percolator_vault.Tests.Handlers.{info, blob, no_deposit, or_else}

abbrev pub admin : AccountInfo
admin = record { key = 12; is_signer = true; is_writable = true }

unfoldable pub pool_key : ℕ
unfolding derive_pool_pda pool_seeds key_bytes to_le_bytes model
pool_key = (derive_pool_pda model 1 11).0

unfoldable pub authority_key : ℕ
unfolding derive_vault_authority vault_auth_seeds key_bytes to_le_bytes model pool_key
authority_key = (derive_vault_authority model 1 pool_key).0

-- A world whose pools back an insurance fund.
unfoldable pub before : World Blob
before k = record {
  owner = 1;
  lamports = 5000;
  contents = record (blob 352 no_deposit) { pool = record trading_pool { pool_mode = 0 } };
}

abbrev flush_infos : List AccountInfo
flush_infos =
    admin
    ∷ info pool_key
    ∷ info 15
    ∷ info authority_key
    ∷ info 11
    ∷ info 17
    ∷ info 16
    ∷ info 900
    ∷ []

abbrev flush_named : FlushAccounts
flush_named = record {
  caller = admin;
  pool_pda = info pool_key;
  vault = info 15;
  vault_auth = info authority_key;
  slab = info 11;
  wrapper_vault = info 17;
  percolator_program = info 16;
  token_program = info 900;
}

unfoldable flushed : World Blob
flushed = or_else (process_flush_to_insurance model 1 flush_infos 600 before) before

flush_available_example : flush_available 5000 0 700 0 ≡ 4300
unfolding available_to_flush checked_add checked_sub
flush_available_example = available_to_flush-flush_available trading_pool 4300 refl
