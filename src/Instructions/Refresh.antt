-- ===== src/Instructions/Refresh.antt =====
-- src/instructions/refresh_session_key.rs
pub mod Context
pub mod Authorized
pub mod Exact
use external_signature_progr.Base.{ℕ, ◌+◌, ◌%◌, ◌^◌, List, [], ◌∷◌, Bytes}
use external_signature_progr.Borsh.{Codec, Borsh, fields, derive}
use external_signature_progr.Errors
use external_signature_progr.Errors.{
  Result, into, ok_or, err, map_err, invalid_argument, not_enough_account_keys,
  invalid_extra_verification_data_args, invalid_signature_scheme,
}
use external_signature_progr.Instructions.Payload.{refresh_payload}
use external_signature_progr.Runtime.{Runtime, AccountInfo, Instructions}
use external_signature_progr.State.{SessionKey, session_key_codec, signature_scheme_try_from}
use external_signature_progr.State.Account
use external_signature_progr.State.Account.{ExternallySignedAccount}
use external_signature_progr.State.P256Webauthn.{
  P256RawVerificationData, P256ParsedVerificationData, raw_verification_codec,
  parse_verification_data,
}
use external_signature_progr.Utils.Nonce.{TruncatedSlot, NonceData, validate_nonce}
use external_signature_progr.Utils.Sha256.{hash}
use external_signature_progr.Utils.SlotHashes
use external_signature_progr.Utils.SmallVec.{small_vec}
use external_signature_progr.World.{M, ◌>>=◌, ◌>>◌, pure, lift, get_accounts}

pub record RefreshSessionKeyArgs : Type 0 where
  pub slothash : TruncatedSlot
  pub signature_scheme : ℕ
  pub verification_data : Bytes
  pub session_key : SessionKey

unfoldable pub args_codec : Borsh → Codec RefreshSessionKeyArgs
args_codec b =
    derive
      (λ p. record {
        slothash = p.0;
        signature_scheme = p.1.0;
        verification_data = p.1.1.0;
        session_key = p.1.1.1;
      })
      (λ a. (a.slothash, (a.signature_scheme, (a.verification_data, a.session_key))))
      (fields (b.int 2) (fields (b.int 1) (fields (small_vec (b.int 1) b 1) (session_key_codec b))))

-- `RefreshSessionKeyContext`, with its accounts.
pub record RefreshSessionKeyContext : Type 0 where
  pub nonce_data : NonceData
  pub verification_data : P256ParsedVerificationData
  pub externally_signed_account : ExternallySignedAccount
  pub instructions_sysvar : Instructions
  pub session_key : SessionKey

module _ (rt : Runtime) (b : Borsh) where
  unfoldable pub parse_refresh_verification_data : Bytes → Result P256ParsedVerificationData
  parse_refresh_verification_data bytes =
      Errors.◌>>=◌
        (ok_or (into invalid_extra_verification_data_args)
          (b.try_from_slice P256RawVerificationData (raw_verification_codec b) bytes))
        (λ raw. map_err (into invalid_extra_verification_data_args) (parse_verification_data raw))

  -- `load` behind the pattern for the account list.
  unfoldable pub load_context :
      AccountInfo
      → AccountInfo
      → AccountInfo
      → AccountInfo
      → RefreshSessionKeyArgs
      → M RefreshSessionKeyContext
  unfolding parse_refresh_verification_data
  load_context external_account instructions_info slothashes_info nonce_signer args = do
    verification_data ← lift (parse_refresh_verification_data args.verification_data)
    externally_signed_account ← Account.load rt external_account
    _ ← Account.check_account rt externally_signed_account verification_data
    instructions_sysvar ← lift (rt.instructions instructions_info)
    accounts ← get_accounts
    slothashes_sysvar ← lift (SlotHashes.try_from slothashes_info accounts)
    nonce_data ← lift (validate_nonce rt slothashes_sysvar args.slothash nonce_signer)
    pure (record {
      nonce_data = nonce_data;
      verification_data = verification_data;
      externally_signed_account = externally_signed_account;
      instructions_sysvar = instructions_sysvar;
      session_key = args.session_key;
    })

  unfoldable pub load : List AccountInfo → RefreshSessionKeyArgs → M RefreshSessionKeyContext
  unfolding load_context
  load (external_account ∷ instructions_info ∷ slothashes_info ∷ nonce_signer ∷ _) args =
      load_context external_account instructions_info slothashes_info nonce_signer args
  load account_infos args = lift (err not_enough_account_keys)

  unfoldable pub get_refresh_session_key_payload_hash : RefreshSessionKeyContext → Result Bytes
  unfolding refresh_payload hash
  get_refresh_session_key_payload_hash c =
      Errors.◌>>=◌ (refresh_payload b c.nonce_data c.session_key)
        (λ payload. Errors.ok (hash rt payload))

  unfoldable pub process_refresh_session_key : List AccountInfo → Bytes → M (Unit {0})
  unfolding load get_refresh_session_key_payload_hash
  process_refresh_session_key account_infos input = do
    args ←
        lift (ok_or invalid_argument (b.try_from_slice RefreshSessionKeyArgs (args_codec b) input))
    signature_scheme ←
        lift
          (ok_or (into invalid_signature_scheme) (signature_scheme_try_from args.signature_scheme))
    context ← load account_infos args
    payload_hash ← lift (get_refresh_session_key_payload_hash context)
    Account.verify_payload rt context.externally_signed_account context.instructions_sysvar
        context.verification_data payload_hash
    now ← lift rt.clock
    let session_key_expiration = (now + args.session_key.expiration) % 2 ^ 64
    Account.update_session_key rt context.externally_signed_account
        (record { key = args.session_key.key; expiration = session_key_expiration })
