-- ===== src/Utils/Checks.antt =====
-- src/utils/checks.rs
use external_signature_progr.Base.{not, ◌==◌, if◌then◌else◌, bytes_eq, length}
use external_signature_progr.Errors.{Result, ok, err, invalid_account_owner, invalid_account_data}
use external_signature_progr.Runtime.{Runtime, AccountInfo, Accounts}

unfoldable pub check_account_uninitialized : Runtime → AccountInfo → Accounts → Result (Unit {0})
check_account_uninitialized rt account accounts =
    if not (bytes_eq (accounts account.key).owner rt.system_id)
    then err invalid_account_owner
    else if not (length (accounts account.key).bytes == 0)
    then err invalid_account_data
    else ok tt
