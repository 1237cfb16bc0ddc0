-- ===== src/Sdk/Builders.antt =====
-- sdks/rust-sdk/src/instructions: the builders of the program's four instructions, in initialize.rs,
-- execute.rs, execute_sessioned.rs and refresh_session.rs.
pub mod Accounts
pub mod Codecs
pub mod Compiled
pub mod Execution
pub mod Sessioned
pub mod Session
pub mod Initialization
pub mod Live
pub mod Refreshed
pub mod Enrolled
pub mod Executed
use external_signature_progr.Base.{
  ℕ, Bool, true, false, Bytes, Pubkey, List, [], ◌∷◌, ◌++◌, Option, none, some,
}
use external_signature_progr.Borsh.{Borsh, Codec}
use external_signature_progr.Instructions.Execute
use external_signature_progr.Instructions.ExecuteSessioned
use external_signature_progr.Instructions.Initialize
use external_signature_progr.Instructions.Refresh
use external_signature_progr.Runtime.{Runtime, AccountMeta, Instruction}
use external_signature_progr.Sdk.Compile.{
  CompiledExecutionPayload, compile_instructions_for_execution,
}
use external_signature_progr.Sdk.Pda.{derive_passkey_account}
use external_signature_progr.Sdk.Types.{
  SdkResult, done, ◌>>=◌, or_fail, borsh_error, serialization_error, invalid_rp_id, WebAuthnData,
  Crates,
}
use external_signature_progr.State.{
  SessionKey, SignerExecutionScheme, signer_execution_scheme_number, signature_scheme_number,
  p256_webauthn,
}
use external_signature_progr.State.P256Webauthn.{
  P256RawInitializationData, raw_initialization_codec, P256RawVerificationData,
  raw_verification_codec,
}
use external_signature_progr.Utils.Nonce.{TruncatedSlot}
use external_signature_progr.Utils.SlotHashes.{slot_hashes_id}
use external_signature_progr.Utils.SmallVec.{try_from}

-- `AccountMeta::new` and `AccountMeta::new_readonly`
abbrev pub writable_meta : Pubkey → Bool → AccountMeta
writable_meta key is_signer = record { pubkey = key; is_writable = true; is_signer = is_signer }

abbrev pub readonly_meta : Pubkey → Bool → AccountMeta
readonly_meta key is_signer = record { pubkey = key; is_writable = false; is_signer = is_signer }

-- `borsh::to_vec` and `borsh::to_writer`
abbrev pub to_vec : {A : Type 0} → Codec A → A → SdkResult Bytes
to_vec c a = or_fail borsh_error (c.write a)

-- `P256RawVerificationData`, serialized into a short vector.
unfoldable pub verification_bytes : Borsh → WebAuthnData → SdkResult Bytes
unfolding try_from
verification_bytes b webauthn_data = do
  raw ← to_vec (raw_verification_codec b) (record {
    public_key = webauthn_data.public_key;
    params = webauthn_data.client_data_json_reconstruction_params;
  })
  or_fail (serialization_error "Verification data too large") (try_from 1 raw)

module _ (rt : Runtime) (b : Borsh) (crates : Crates) where
  -- The two builders of `initialize.rs` differ in the session key.
  unfoldable pub initialize_with :
      WebAuthnData
      → Bytes
      → Pubkey
      → TruncatedSlot
      → Option SessionKey
      → SdkResult (Pubkey × Instruction)
  unfolding derive_passkey_account try_from
  initialize_with webauthn_data rp_id payer slot_hash session_key = do
    (account_to_initialize, bump) ← derive_passkey_account rt webauthn_data.public_key
    rp_id_vec ← or_fail (invalid_rp_id "RP ID too long") (try_from 1 rp_id)
    raw ← to_vec (raw_initialization_codec b) (record {
      rp_id = rp_id_vec;
      public_key = webauthn_data.public_key;
      params = webauthn_data.client_data_json_reconstruction_params;
    })
    initialization_data ←
        or_fail (serialization_error "Initialization data too large") (try_from 1 raw)
    bytes ← to_vec (Initialize.args_codec b) (record {
      slothash = slot_hash;
      signature_scheme = signature_scheme_number p256_webauthn;
      initialization_data = initialization_data;
      session_key = session_key;
    })
    done (
      account_to_initialize,
      record {
        program_id = rt.id;
        input = 0 ∷ bytes;
        accounts =
            writable_meta account_to_initialize false
            ∷ writable_meta payer true
            ∷ readonly_meta crates.instructions_sysvar_id false
            ∷ readonly_meta slot_hashes_id false
            ∷ readonly_meta rt.system_id false
            ∷ [];
      },
    )

  unfoldable pub initialize_passkey_account :
      WebAuthnData → Bytes → Pubkey → TruncatedSlot → SdkResult (Pubkey × Instruction)
  unfolding initialize_with
  initialize_passkey_account webauthn_data rp_id payer slot_hash =
      initialize_with webauthn_data rp_id payer slot_hash none

  unfoldable pub initialize_passkey_account_with_session :
      WebAuthnData → Bytes → Pubkey → TruncatedSlot → SessionKey → SdkResult (Pubkey × Instruction)
  unfolding initialize_with
  initialize_passkey_account_with_session webauthn_data rp_id payer slot_hash session_key =
      initialize_with webauthn_data rp_id payer slot_hash (some session_key)

  unfoldable pub execute_instructions :
      WebAuthnData
      → Pubkey
      → Pubkey
      → TruncatedSlot
      → List Instruction
      → SignerExecutionScheme
      → SdkResult Instruction
  unfolding verification_bytes
  execute_instructions webauthn_data passkey_account nonce_signer slot_hash instructions scheme = do
    compiled ← compile_instructions_for_execution crates instructions nonce_signer
    extra_verification_data ← verification_bytes b webauthn_data
    bytes ← to_vec (Execute.args_codec b) (record {
      signature_scheme = 0;
      signer_execution_scheme = signer_execution_scheme_number scheme;
      slothash = slot_hash;
      extra_verification_data = extra_verification_data;
      instructions = compiled.instructions;
    })
    done (record {
      program_id = rt.id;
      input = 1 ∷ bytes;
      accounts =
          writable_meta passkey_account false
          ∷ readonly_meta crates.instructions_sysvar_id false
          ∷ readonly_meta slot_hashes_id false
          ∷ writable_meta nonce_signer true
          ∷ compiled.account_metas;
    })

  unfoldable pub execute_instructions_sessioned :
      Pubkey → Pubkey → List Instruction → SignerExecutionScheme → SdkResult Instruction
  execute_instructions_sessioned passkey_account session_signer instructions scheme = do
    compiled ← compile_instructions_for_execution crates instructions session_signer
    bytes ← to_vec (ExecuteSessioned.args_codec b) (record {
      signature_scheme = 0;
      signer_execution_scheme = signer_execution_scheme_number scheme;
      instructions = compiled.instructions;
    })
    done (record {
      program_id = rt.id;
      input = 3 ∷ bytes;
      accounts =
          writable_meta passkey_account false
          ∷ readonly_meta session_signer true
          ∷ compiled.account_metas;
    })

  unfoldable pub refresh_session_key :
      WebAuthnData → Pubkey → Pubkey → TruncatedSlot → SessionKey → SdkResult Instruction
  unfolding verification_bytes
  refresh_session_key webauthn_data passkey_account payer slot_hash session_key = do
    verification_data ← verification_bytes b webauthn_data
    bytes ← to_vec (Refresh.args_codec b) (record {
      slothash = slot_hash;
      signature_scheme = 0;
      verification_data = verification_data;
      session_key = session_key;
    })
    done (record {
      program_id = rt.id;
      input = 2 ∷ bytes;
      accounts =
          writable_meta passkey_account false
          ∷ readonly_meta crates.instructions_sysvar_id false
          ∷ readonly_meta slot_hashes_id false
          ∷ writable_meta payer true
          ∷ [];
    })
