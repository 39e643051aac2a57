-- ===== src/Tests/Closed.antt =====
-- The theorems on what runs close (src/processor.rs) at concrete accounts and worlds.
use percolator_vault.Base.{◌≡◌, refl, inr, true, List, [], ◌∷◌, arith}
use percolator_vault.Error.{ok}
use percolator_vault.State.{set_resolved, is_resolved}
use percolator_vault.Runtime.{AccountInfo, World, next_account_info}
use percolator_vault.Runtime.Owned.{Held}
use percolator_vault.Runtime.Store.{pool_at}
use percolator_vault.Ledger.{Booked}
use percolator_vault.Processor.Admin.{AdminAccounts, admin_accounts, process_transfer_admin}
use percolator_vault.Processor.Deposit.{process_deposit}
use percolator_vault.Processor.Runs.{outside, Run, start, then_step}
use percolator_vault.Processor.Runs.Closed.{Run-process_transfer_admin, Run-process_deposit}
use percolator_vault.Tests.Model.{Blob, fit_pool, bytes_fit, model, model_laws}
use percolator_vault.Tests.Owner.{model_owned}
use percolator_vault.Tests.Books.{trading_pool}
use percolator_vault.Tests.Handlers.{
  info, blob, no_deposit, deposit_infos, named, named_eq, holding, burned,
}
use percolator_vault.Tests.Admin.{admin}
use percolator_vault.Tests.Runs.{run, held, booked}

abbrev transfer_infos : List AccountInfo
transfer_infos = admin ∷ info 30 ∷ info 11 ∷ info 16 ∷ []

abbrev transfer_named : AdminAccounts
transfer_named = record {
  admin = admin;
  pool_pda = info 30;
  slab = info 11;
  percolator_program = info 16;
}

transfer_named_eq : admin_accounts transfer_infos ≡ ok (transfer_named, [])
unfolding admin_accounts next_account_info
transfer_named_eq = refl

Run-process_transfer_admin_example :
    ¬ (process_transfer_admin model 1 transfer_infos burned ≡ ok holding)
Run-process_transfer_admin_example =
    Run-process_transfer_admin model model_laws 1 model_owned 30 holding burned held booked run
      holding transfer_infos transfer_named [] transfer_named_eq refl

-- A world whose pools are resolved.
unfoldable shut : World Blob
shut k = record {
  owner = 1;
  lamports = 5000;
  contents = record (blob 352 no_deposit) { pool = set_resolved trading_pool };
}

shut_held : Held model 1 shut 30
unfolding shut model
shut_held = (refl, omega arith)

shut-Booked : Booked (pool_at model shut 30)
unfolding shut model fit_pool bytes_fit set_resolved
shut-Booked = record {
  opened = refl;
  transferred = refl;
  covered = omega arith;
  mode = inr (refl, refl, refl);
}

shut_resolved : is_resolved (pool_at model shut 30) ≡ true
unfolding shut model fit_pool bytes_fit set_resolved is_resolved
shut_resolved = refl

abbrev shut_run : Run model 1 30 shut shut
shut_run = then_step shut shut start (outside (λ j owner. (refl, owner)))

Run-process_deposit_example : ¬ (process_deposit model 1 deposit_infos 455 shut ≡ ok holding)
Run-process_deposit_example =
    Run-process_deposit model model_laws 1 model_owned 30 shut shut shut_held shut-Booked shut_run
      holding deposit_infos 455 named shut_resolved named_eq refl
