-- ===== src/State/Traits.antt =====
-- src/state/externally_signed_account/traits.rs: what a signature scheme provides to the wrapper. A
-- `&mut self` method returns the new data.
pub mod Laws
use external_signature_progr.Base.{ℕ, Bytes, Pubkey, List, Option}
use external_signature_progr.Borsh.{Borsh, Codec}
use external_signature_progr.Errors.{Result}
use external_signature_progr.Runtime.{Runtime, AccountInfo, Instructions}
use external_signature_progr.State.{SessionKey}
use external_signature_progr.State.P256Webauthn.{
  P256WebauthnAccountData, P256RawInitializationData, P256RawVerificationData,
  P256ParsedInitializationData, P256ParsedVerificationData, AccountSeeds, raw_initialization_codec,
  raw_verification_codec, parse_initialization_data, parse_verification_data,
  initialization_derive_args, verification_derive_args,
}
use external_signature_progr.State.P256Webauthn
use external_signature_progr.State.P256Webauthn.Scheme

pub record AccountSeedsTrait (S : Type 0) : Type 0 where
  pub key : S → Pubkey
  pub bump : S → ℕ
  pub seeds : S → List Bytes
  pub seeds_owned : S → Bytes × Bytes

-- The trait, with its associated types and the conversions that it asks of them.
pub record ExternallySignedAccountData : Type 1 where
  pub Account : Type 0
  pub Seeds : Type 0
  pub DeriveAccountArgs : Type 0
  pub RawInitializationData : Type 0
  pub RawVerificationData : Type 0
  pub ParsedInitializationData : Type 0
  pub ParsedVerificationData : Type 0
  pub account_seeds : AccountSeedsTrait Seeds
  pub from_verification : ParsedVerificationData → DeriveAccountArgs
  pub from_initialization : ParsedInitializationData → DeriveAccountArgs
  pub raw_initialization : Borsh → Codec RawInitializationData
  pub raw_verification : Borsh → Codec RawVerificationData
  pub try_from_initialization : RawInitializationData → Result ParsedInitializationData
  pub try_from_verification : RawVerificationData → Result ParsedVerificationData
  pub version : ℕ
  pub scheme : ℕ
  pub size : ℕ
  pub get_initialization_payload : Bytes
  pub initialize_account : Account → ParsedInitializationData → Option SessionKey → Result Account
  pub check_account : Account → AccountInfo → ParsedVerificationData → Result Seeds
  pub derive_account : DeriveAccountArgs → Result Seeds
  pub derive_existing_account : Account → Result Seeds
  pub verify_initialization_payload :
      Instructions → Account → ParsedInitializationData → Bytes → Result Account
  pub verify_payload : Instructions → Account → ParsedVerificationData → Bytes → Result Account
  pub is_valid_session_key : Account → AccountInfo → Result (Unit {0})
  pub update_session_key : Account → SessionKey → Result Account

-- src/state/p256_webauthn/seeds.rs
abbrev pub p256_seeds : AccountSeedsTrait AccountSeeds
p256_seeds = record {
  key = λ s. s.key;
  bump = λ s. s.bump;
  seeds = P256Webauthn.seeds;
  seeds_owned = P256Webauthn.seeds_owned;
}

-- src/state/p256_webauthn/trait_impl.rs: `impl ExternallySignedAccountData for
-- P256WebauthnAccountData`
abbrev pub p256_webauthn_account_data : Runtime → ExternallySignedAccountData
p256_webauthn_account_data rt = record {
  Account = P256WebauthnAccountData;
  Seeds = AccountSeeds;
  DeriveAccountArgs = Bytes;
  RawInitializationData = P256RawInitializationData;
  RawVerificationData = P256RawVerificationData;
  ParsedInitializationData = P256ParsedInitializationData;
  ParsedVerificationData = P256ParsedVerificationData;
  account_seeds = p256_seeds;
  from_verification = verification_derive_args;
  from_initialization = initialization_derive_args;
  raw_initialization = raw_initialization_codec;
  raw_verification = raw_verification_codec;
  try_from_initialization = parse_initialization_data rt;
  try_from_verification = parse_verification_data;
  version = Scheme.version;
  scheme = Scheme.scheme;
  size = Scheme.size;
  get_initialization_payload = Scheme.get_initialization_payload;
  initialize_account = Scheme.initialize_account rt;
  -- The receiver is not looked at.
  check_account = λ self. Scheme.check_account rt;
  derive_account = Scheme.derive_account rt;
  derive_existing_account = Scheme.derive_existing_account rt;
  verify_initialization_payload = Scheme.verify_initialization_payload rt;
  verify_payload = Scheme.verify_payload rt;
  is_valid_session_key = Scheme.is_valid_session_key rt;
  update_session_key = Scheme.update_session_key rt;
}
