-- ===== src/State/Account.antt =====
-- src/state/externally_signed_account/account.rs: the wrapper round an account's data, for the
-- P-256 WebAuthn scheme, the only implementation of the trait. The wrapper holds a pointer into the
-- account's data and the length that the data had when it was loaded.
pub mod View
pub mod Keeps
pub mod Loads
use external_signature_progr.Base.{
  ℕ, ltb, leb, ◌==◌, ◌&&◌, ◌||◌, not, if◌then◌else◌, Bytes, [], ◌∷◌,
}
use external_signature_progr.Base.{
  ◌++◌, length, take, drop, get_or, bytes_eq, codes, Option, Pubkey,
}
use external_signature_progr.Errors
use external_signature_progr.Errors.{
  Result, ok, err, into, require, assert, unwrap, slice, error_deserializing_header,
  error_deserializing_account_data,
}
use external_signature_progr.Runtime.{Runtime, AccountInfo, Accounts, Instructions}
use external_signature_progr.State.{SessionKey, ExecutionAccount, SignerExecutionScheme}
use external_signature_progr.State.{execution_account, external_account}
use external_signature_progr.State.P256Webauthn.{
  AccountHeader, P256WebauthnAccountData, P256ParsedInitializationData, P256ParsedVerificationData,
  AccountSeeds, seeds_owned,
}
use external_signature_progr.State.P256Webauthn.Layout.{encode, decode}
use external_signature_progr.State.P256Webauthn.Scheme
use external_signature_progr.World.{World, M, ◌>>=◌, ◌>>◌, pure, lift, get_accounts, put_state}

pub record ExternallySignedAccount : Type 0 where
  pub account_info : AccountInfo
  pub len : ℕ

unfoldable pub key : ExternallySignedAccount → Pubkey
key self = self.account_info.key

-- `ExternallySignedAccount::load`
unfoldable pub load : Runtime → AccountInfo → M ExternallySignedAccount
load rt account_info = do
  accounts ← get_accounts
  let state = accounts account_info.key
  lift (
      assert (
        if length state.bytes == 0
        then bytes_eq state.owner rt.system_id
        else bytes_eq state.owner rt.id))
  pure (record { account_info = account_info; len = length state.bytes })

unfoldable pub reload : ExternallySignedAccount → M ExternallySignedAccount
reload self = do
  accounts ← get_accounts
  pure (record self { len = length (accounts self.account_info.key).bytes })

-- The bytes behind the pointer.
unfoldable pub bytes_of : ExternallySignedAccount → Accounts → Bytes
bytes_of self accounts = take self.len (accounts self.account_info.key).bytes

-- `header`: `from_bytes` of the first four bytes, which panics on a shorter slice.
unfoldable pub header : ExternallySignedAccount → Accounts → Result AccountHeader
unfolding slice bytes_of
header self accounts =
    Errors.◌>>=◌ (slice (bytes_of self accounts) 0 4)
      (λ bs. ok (record { version = get_or bs 0 0; scheme = get_or bs 1 0; reserved = drop 2 bs }))

-- The checks that `data` and `data_ref` make, and the cast of the first 152 bytes.
unfoldable pub data_ref :
    Runtime → ExternallySignedAccount → Accounts → Result P256WebauthnAccountData
unfolding header bytes_of decode
data_ref rt self accounts = Errors.◌>>=◌ (header self accounts) (λ h.
    if not (h.version == Scheme.version) || not (h.scheme == Scheme.scheme)
    then err (into error_deserializing_header)
    else if ltb (length (bytes_of self accounts)) Scheme.size
    then err (into error_deserializing_account_data)
    else if rt.is_aligned (accounts self.account_info.key).address 8
    then ok (decode (take Scheme.size (bytes_of self accounts)))
    else err (into error_deserializing_account_data))

-- A write through the `&mut T` that `data` returns.
unfoldable pub write_data : ExternallySignedAccount → P256WebauthnAccountData → M (Unit {0})
unfolding encode
write_data self d = do
  accounts ← get_accounts
  let state = accounts self.account_info.key
  put_state self.account_info.key
      (record state { bytes = encode d ++ drop Scheme.size state.bytes })

-- A method of the scheme on `self.data()?`.
unfoldable pub with_data :
    Runtime
    → ExternallySignedAccount
    → (P256WebauthnAccountData → Result P256WebauthnAccountData)
    → M (Unit {0})
unfolding data_ref write_data
with_data rt self method = do
  accounts ← get_accounts
  d ← lift (data_ref rt self accounts)
  d' ← lift (method d)
  write_data self d'

-- `header.set::<T>()` on the first four bytes.
unfoldable pub initialize_header : ExternallySignedAccount → M (Unit {0})
unfolding bytes_of
initialize_header self = do
  accounts ← get_accounts
  lift (assert (leb 4 (length (bytes_of self accounts))))
  let state = accounts self.account_info.key
  put_state self.account_info.key
      (record state { bytes = Scheme.version ∷ (Scheme.scheme ∷ drop 2 state.bytes) })

unfoldable pub check_account :
    Runtime → ExternallySignedAccount → P256ParsedVerificationData → M AccountSeeds
unfolding data_ref
check_account rt self args = do
  accounts ← get_accounts
  d ← lift (data_ref rt self accounts)
  lift (Scheme.check_account rt self.account_info args)

unfoldable pub derive_existing_account : Runtime → ExternallySignedAccount → M AccountSeeds
unfolding data_ref
derive_existing_account rt self = do
  accounts ← get_accounts
  d ← lift (data_ref rt self accounts)
  lift (Scheme.derive_existing_account rt d)

unfoldable pub initialize_account :
    Runtime
    → ExternallySignedAccount
    → P256ParsedInitializationData
    → Option SessionKey
    → M (Unit {0})
unfolding initialize_header with_data
initialize_account rt self args session_key = do
  initialize_header self
  with_data rt self (λ d. Scheme.initialize_account rt d args session_key)

unfoldable pub verify_initialization_payload :
    Runtime
    → ExternallySignedAccount
    → Instructions
    → P256ParsedInitializationData
    → Bytes
    → M (Unit {0})
unfolding with_data
verify_initialization_payload rt self instructions args payload =
    with_data rt self (λ d. Scheme.verify_initialization_payload rt instructions d args payload)

unfoldable pub verify_payload :
    Runtime
    → ExternallySignedAccount
    → Instructions
    → P256ParsedVerificationData
    → Bytes
    → M (Unit {0})
unfolding with_data
verify_payload rt self instructions extra payload =
    with_data rt self (λ d. Scheme.verify_payload rt instructions d extra payload)

unfoldable pub is_valid_session_key : Runtime → ExternallySignedAccount → AccountInfo → M (Unit {0})
unfolding data_ref
is_valid_session_key rt self signer = do
  accounts ← get_accounts
  d ← lift (data_ref rt self accounts)
  lift (Scheme.is_valid_session_key rt d signer)

unfoldable pub update_session_key : Runtime → ExternallySignedAccount → SessionKey → M (Unit {0})
unfolding with_data
update_session_key rt self session_key =
    with_data rt self (λ d. Scheme.update_session_key rt d session_key)

-- `get_execution_account`, an arm of the match for each scheme.
unfoldable pub get_execution_account :
    Runtime → ExternallySignedAccount → SignerExecutionScheme → M ExecutionAccount
unfolding derive_existing_account
get_execution_account rt self execution_account = do
  (execution_key, bump) ← lift (
      unwrap
        (rt.find_program_address (self.account_info.key ∷ codes "execution_account" ∷ []) rt.id))
  pure (record {
    key = execution_key;
    bump = bump;
    seeds = (self.account_info.key, codes "execution_account");
  })
get_execution_account rt self external_account = do
  seeds ← derive_existing_account rt self
  pure (record { key = seeds.key; bump = seeds.bump; seeds = seeds_owned seeds })
