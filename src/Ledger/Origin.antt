-- ===== src/Ledger/Origin.antt =====
-- Every account that holds data has its origin in its passkey, over many transactions
-- (src/entrypoint.rs).
use external_signature_progr.Borsh.{Borsh}
use external_signature_progr.Ledger.History.{History}
use external_signature_progr.Runtime.{Runtime}
