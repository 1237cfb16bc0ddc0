-- ===== src/Utils/InitializeAccount.antt =====
-- src/utils/initialize_account.rs: rent, space and owner for a new account.
use external_signature_progr.Base.{ℕ, List, Bytes}
use external_signature_progr.Runtime.{Runtime, AccountInfo}
use external_signature_progr.World.{M, ◌>>=◌, ◌>>◌, lift, run}

unfoldable pub initialize_account :
    Runtime → AccountInfo → AccountInfo → ℕ → List Bytes → M (Unit {0})
initialize_account rt account_to_initialize rent_payer space seeds = do
  required_lamports ← lift (rt.minimum_balance space)
  run (rt.transfer rent_payer.key account_to_initialize.key required_lamports)
  run (rt.allocate account_to_initialize.key space seeds)
  run (rt.assign account_to_initialize.key rt.id seeds)
