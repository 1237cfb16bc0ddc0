-- ===== src/State/P256Webauthn.antt =====
-- src/state/p256_webauthn: the account data of the P-256 WebAuthn scheme, its arguments and seeds.
pub mod Layout
pub mod Keys
pub mod Scheme
use external_signature_progr.Base.{ℕ, ◌-◌, ◌%◌, ltb, leb, ◌==◌, if◌then◌else◌, Bool, ◌||◌, false}
use external_signature_progr.Base.{Bytes, Pubkey, List, [], ◌∷◌, ◌++◌, length, replicate, codes}
use external_signature_progr.Base.{Option}
use external_signature_progr.Borsh.{Codec, Borsh, fields, derive}
use external_signature_progr.Errors.{Result, ok, err, panic, ◌>>=◌, into, index, slice}
use external_signature_progr.Errors.{p256_relying_part_too_long, p256_relying_part_include_quotes}
use external_signature_progr.Runtime.{Runtime}
use external_signature_progr.State.{SessionKey}
use external_signature_progr.Utils.Sha256.{hash}
use external_signature_progr.Utils.SmallVec.{small_vec}
use external_signature_progr.Utils.Signatures.ClientDataJson.{
  ClientDataJsonReconstructionParams, params_codec,
}

-- src/state/externally_signed_account/account.rs
pub record AccountHeader : Type 0 where
  pub version : ℕ
  pub scheme : ℕ
  pub reserved : Bytes

pub record RpIdInformation : Type 0 where
  pub rp_id_len : ℕ
  pub rp_id : Bytes
  pub rp_id_hash : Bytes

pub record CompressedP256PublicKey : Type 0 where
  pub x : Bytes
  pub y_parity : ℕ

pub record P256WebauthnAccountData : Type 0 where
  pub header : AccountHeader
  pub rp_id_info : RpIdInformation
  pub public_key : CompressedP256PublicKey
  pub padding : Bytes
  pub session_key : SessionKey
  pub counter : ℕ

-- `RpIdInformation::new`: a relying party id over 32 bytes panics in the copy.
unfoldable pub new_rp_id_information : Bytes → Bytes → Result RpIdInformation
new_rp_id_information rp_id rp_id_hash =
    if leb (length rp_id) 32
    then ok (record {
      rp_id_len = length rp_id % 256;
      rp_id = rp_id ++ replicate (32 - length rp_id) 0;
      rp_id_hash = rp_id_hash;
    })
    else panic

-- `CompressedP256PublicKey::new`
unfoldable pub new_public_key : Bytes → Result CompressedP256PublicKey
unfolding slice
new_public_key public_key = do
  x ← slice public_key 1 33
  y_parity ← index public_key 0
  ok (record { x = x; y_parity = y_parity })

unfoldable pub to_bytes : CompressedP256PublicKey → Bytes
to_bytes self = self.y_parity ∷ self.x

pub record P256RawInitializationData : Type 0 where
  pub rp_id : Bytes
  pub public_key : Bytes
  pub params : ClientDataJsonReconstructionParams

unfoldable pub raw_initialization_codec : Borsh → Codec P256RawInitializationData
raw_initialization_codec b =
    derive (λ p. record { rp_id = p.0; public_key = p.1.0; params = p.1.1 })
      (λ i. (i.rp_id, (i.public_key, i.params)))
      (fields (small_vec (b.int 1) b 1) (fields (b.array 33) (params_codec b)))

pub record P256ParsedInitializationData : Type 0 where
  pub rp_id_info : RpIdInformation
  pub public_key : CompressedP256PublicKey
  pub counter : ℕ
  pub params : ClientDataJsonReconstructionParams

-- `slice.contains(&b)`
unfoldable pub contains : ℕ → Bytes → Bool
contains b [] = false
contains b (c ∷ cs) = (c == b) || contains b cs

-- `TryFrom<P256RawInitializationData>`
unfoldable pub parse_initialization_data :
    Runtime → P256RawInitializationData → Result P256ParsedInitializationData
unfolding hash contains
parse_initialization_data rt raw =
    if ltb 32 (length raw.rp_id)
    then err (into p256_relying_part_too_long)
    else if contains b'"' raw.rp_id
    then err (into p256_relying_part_include_quotes)
    else (do
      rp_id_info ← new_rp_id_information raw.rp_id (hash rt raw.rp_id)
      public_key ← new_public_key raw.public_key
      ok (record {
        rp_id_info = rp_id_info;
        public_key = public_key;
        counter = 0;
        params = raw.params;
      }))

pub record P256RawVerificationData : Type 0 where
  pub public_key : Bytes
  pub params : ClientDataJsonReconstructionParams

unfoldable pub raw_verification_codec : Borsh → Codec P256RawVerificationData
raw_verification_codec b =
    derive (λ p. record { public_key = p.0; params = p.1 }) (λ v. (v.public_key, v.params))
      (fields (b.array 33) (params_codec b))

pub record P256ParsedVerificationData : Type 0 where
  pub public_key : CompressedP256PublicKey
  pub params : ClientDataJsonReconstructionParams

-- `TryFrom<P256RawVerificationData>`
unfoldable pub parse_verification_data : P256RawVerificationData → Result P256ParsedVerificationData
parse_verification_data raw = do
  public_key ← new_public_key raw.public_key
  ok (record { public_key = public_key; params = raw.params })

-- src/state/p256_webauthn/derive_account_args.rs: the arguments are the key's 33 bytes.
unfoldable pub initialization_derive_args : P256ParsedInitializationData → Bytes
unfolding to_bytes
initialization_derive_args parsed = to_bytes parsed.public_key

unfoldable pub verification_derive_args : P256ParsedVerificationData → Bytes
unfolding to_bytes
verification_derive_args parsed = to_bytes parsed.public_key

-- src/state/p256_webauthn/seeds.rs
pub record AccountSeeds : Type 0 where
  pub key : Pubkey
  pub bump : ℕ
  pub seed_passkey : Bytes
  pub seed_public_key_hash : Bytes

unfoldable pub seeds : AccountSeeds → List Bytes
seeds s = s.seed_passkey ∷ s.seed_public_key_hash ∷ (s.bump ∷ []) ∷ []

unfoldable pub seeds_owned : AccountSeeds → Bytes × Bytes
seeds_owned s = (s.seed_passkey, s.seed_public_key_hash)
