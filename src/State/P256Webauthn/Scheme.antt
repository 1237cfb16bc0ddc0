-- ===== src/State/P256Webauthn/Scheme.antt =====
-- src/state/p256_webauthn/trait_impl.rs: what the P-256 WebAuthn scheme does with account data.
-- A `&mut self` method returns the new data. The release profile wraps on overflow.
pub mod Verify
pub mod Session
pub mod History
use external_signature_progr.Base.{ℕ, ◌+◌, ◌-◌, ◌%◌, ◌^◌, Bool, not, ltb, leb, ◌==◌, if◌then◌else◌}
use external_signature_progr.Base.{Bytes, Option, none, some, [], ◌∷◌, bytes_eq, codes, length}
use external_signature_progr.Base.{take, drop}
use external_signature_progr.Errors.{
  Result, ok, err, panic, ◌>>=◌, ◌>>◌, require, assert, unwrap, slice, invalid_account_owner,
  invalid_session_key_expiration, p256_account_not_writable, invalid_num_precompile_signatures,
  p256_public_key_mismatch, p256_user_not_present, p256_relying_party_mismatch,
  p256_client_data_hash_mismatch, session_signer_not_a_signer, invalid_session_key,
  session_key_expired,
}
use external_signature_progr.Runtime.{Runtime, AccountInfo, Instructions}
use external_signature_progr.State.{SessionKey, session_key_expiration_limit}
use external_signature_progr.State.{signature_scheme_number, p256_webauthn}
use external_signature_progr.State.P256Webauthn.{
  P256WebauthnAccountData, P256ParsedInitializationData, P256ParsedVerificationData, AccountSeeds,
  to_bytes, verification_derive_args,
}
use external_signature_progr.Utils.Precompiles
use external_signature_progr.Utils.Precompiles.{
  secp256r1_precompile, num_signatures, get_signature_payload,
}
use external_signature_progr.Utils.Sha256.{hash}
use external_signature_progr.Utils.Signatures.AuthenticatorData.{
  rp_id_hash, is_user_present, get_counter,
}
use external_signature_progr.Utils.Signatures.ClientDataJson.{reconstruct_client_data_json}

abbrev pub version : ℕ
version = 1

abbrev pub scheme : ℕ
scheme = signature_scheme_number p256_webauthn

-- `size_of::<P256WebauthnAccountData>()`
abbrev pub size : ℕ
size = 152

abbrev pub get_initialization_payload : Bytes
get_initialization_payload = codes "initialize_passkey"

-- `Clock::get()?.unix_timestamp as u64 + SESSION_KEY_EXPIRATION_LIMIT`
unfoldable pub latest_expiration : Runtime → Result ℕ
latest_expiration rt = do now ← rt.clock; ok ((now + session_key_expiration_limit) % 2 ^ 64)

unfoldable pub update_session_key :
    Runtime → P256WebauthnAccountData → SessionKey → Result P256WebauthnAccountData
unfolding latest_expiration
update_session_key rt self session_key = do
  latest ← latest_expiration rt
  require (leb session_key.expiration latest) invalid_session_key_expiration
  ok (record self { session_key = session_key })

-- `if let Some(session_key) = session_key { … }` of `initialize_account`
unfoldable pub set_session_key :
    Runtime → P256WebauthnAccountData → Option SessionKey → Result P256WebauthnAccountData
unfolding latest_expiration
set_session_key rt self none = ok self
set_session_key rt self (some session_key) = do
  latest ← latest_expiration rt
  require (leb session_key.expiration latest) invalid_session_key_expiration
  ok (record self { session_key = session_key })

unfoldable pub initialize_account :
    Runtime
    → P256WebauthnAccountData
    → P256ParsedInitializationData
    → Option SessionKey
    → Result P256WebauthnAccountData
unfolding set_session_key
initialize_account rt self args session_key =
    set_session_key rt
      (record self {
        rp_id_info = args.rp_id_info;
        public_key = args.public_key;
        counter = args.counter;
      })
      session_key

unfoldable pub derive_account : Runtime → Bytes → Result AccountSeeds
unfolding hash
derive_account rt public_key = do
  let public_key_hash = hash rt public_key
  (derived_key, bump) ←
      unwrap (rt.find_program_address (codes "passkey" ∷ public_key_hash ∷ []) rt.id)
  ok (record {
    key = derived_key;
    bump = bump;
    seed_passkey = codes "passkey";
    seed_public_key_hash = public_key_hash;
  })

unfoldable pub derive_existing_account : Runtime → P256WebauthnAccountData → Result AccountSeeds
unfolding derive_account to_bytes
derive_existing_account rt self = derive_account rt (to_bytes self.public_key)

unfoldable pub check_account :
    Runtime → AccountInfo → P256ParsedVerificationData → Result AccountSeeds
unfolding derive_account verification_derive_args
check_account rt account_info args = do
  require account_info.is_writable p256_account_not_writable
  account_seeds ← derive_account rt (verification_derive_args args)
  if not (bytes_eq account_seeds.key account_info.key)
      then err invalid_account_owner
      else ok account_seeds

-- The counter's update at the end of `verify_payload`.
unfoldable pub update_counter : P256WebauthnAccountData → ℕ → Result P256WebauthnAccountData
update_counter self counter =
    if counter == 0
    then ok self
    else (do assert (ltb self.counter counter); ok (record self { counter = counter }))

-- `verify_payload` from the signed message on: authenticator data, then a 32-byte hash.
unfoldable pub verify_message :
    Runtime
    → P256WebauthnAccountData
    → P256ParsedVerificationData
    → Bytes
    → Bytes
    → Result P256WebauthnAccountData
unfolding update_counter is_user_present rp_id_hash get_counter hash slice
verify_message rt self extra message payload = do
  assert (leb 32 (length message))
  let auth_data = take (length message - 32) message
  let client_data_hash = drop (length message - 32) message
  present ← is_user_present auth_data
  require present p256_user_not_present
  signed_rp_id_hash ← rp_id_hash auth_data
  rp_id ← slice self.rp_id_info.rp_id 0 self.rp_id_info.rp_id_len
  require (bytes_eq self.rp_id_info.rp_id_hash signed_rp_id_hash) p256_relying_party_mismatch
  reconstructed_client_data ← reconstruct_client_data_json rt extra.params rp_id payload
  require (bytes_eq (hash rt reconstructed_client_data) client_data_hash)
      p256_client_data_hash_mismatch
  counter ← get_counter auth_data
  update_counter self counter

unfoldable pub verify_payload :
    Runtime
    → Instructions
    → P256WebauthnAccountData
    → P256ParsedVerificationData
    → Bytes
    → Result P256WebauthnAccountData
unfolding to_bytes
verify_payload rt instructions self extra payload = do
  precompile_instruction ← instructions 0
  parser ← Precompiles.new (secp256r1_precompile rt) precompile_instruction instructions
  count ← num_signatures parser
  require (count == 1) invalid_num_precompile_signatures
  signature_payload ← get_signature_payload rt (secp256r1_precompile rt) parser 0
  require (bytes_eq signature_payload.public_key (to_bytes self.public_key))
      p256_public_key_mismatch
  verify_message rt self extra signature_payload.message payload

unfoldable pub verify_initialization_payload :
    Runtime
    → Instructions
    → P256WebauthnAccountData
    → P256ParsedInitializationData
    → Bytes
    → Result P256WebauthnAccountData
unfolding verify_payload
verify_initialization_payload rt instructions self args payload =
    verify_payload rt instructions self
      (record { public_key = args.public_key; params = args.params }) payload

unfoldable pub is_valid_session_key :
    Runtime → P256WebauthnAccountData → AccountInfo → Result (Unit {0})
is_valid_session_key rt self signer = do
  now ← rt.clock
  require signer.is_signer session_signer_not_a_signer
  require (bytes_eq self.session_key.key signer.key) invalid_session_key
  require (leb now self.session_key.expiration) session_key_expired
