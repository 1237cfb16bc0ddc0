-- ===== src/Sdk/Example.antt =====
-- sdks/rust-sdk/examples/basic_usage.rs: one call of each function of the SDK, without the printing.
pub mod Succeeds
use external_signature_progr.Base.{
  ℕ, zero, suc, ◌+◌, ◌^◌, ◌<◌, ◌≤◌, ◌≡◌, refl, ap, ◌∙◌, arith, ◌==◌, if◌then◌else◌, true, false,
  Bytes, IsByte, Pubkey, All, List, [], ◌∷◌, ◌++◌, codes, length, length-append, replicate, none,
  some, all_bytes, all_bytes-IsByte,
}
use external_signature_progr.Borsh.{Borsh}
use external_signature_progr.Borsh.Laws.{IsBorsh}
use external_signature_progr.Runtime.{Runtime, Instruction}
use external_signature_progr.Sdk.Builders.{
  initialize_passkey_account, initialize_with, execute_instructions, refresh_session_key,
  execute_instructions_sessioned,
}
use external_signature_progr.Sdk.Builders.Codecs.{IsWebAuthnData}
use external_signature_progr.Sdk.Builders.Compiled.{IsCompilable}
use external_signature_progr.Sdk.Builders.Execution.{
  ReadsAsExecution, execute_instructions-ReadsAsExecution,
}
use external_signature_progr.Sdk.Builders.Initialization.{
  IsRpId, ReadsAsInitialization, initialize_with-ReadsAsInitialization,
}
use external_signature_progr.Sdk.Builders.Session.{
  IsSessionKey, ReadsAsRefresh, refresh_session_key-ReadsAsRefresh,
}
use external_signature_progr.Sdk.Builders.Sessioned.{
  ReadsAsSessioned, execute_instructions_sessioned-ReadsAsSessioned,
}
use external_signature_progr.Sdk.Pda.{derive_passkey_account, derive_execution_account}
use external_signature_progr.Sdk.Precompile.{
  Openssl, Secp256r1Program, layout, create_secp256r1_instruction, parse_der_signature_to_compact,
}
use external_signature_progr.Sdk.Types.{SdkResult, done, ◌>>=◌, WebAuthnData, Crates, new}
use external_signature_progr.State.{SessionKey, execution_account}
use external_signature_progr.Utils.Signatures.ClientDataJson
use external_signature_progr.Utils.Signatures.ClientDataJson.{create}

abbrev pub compressed_public_key : Bytes
compressed_public_key = replicate 33 0x02

abbrev pub signature_der : Bytes
signature_der = 0x30 ∷ 0x06 ∷ 0x02 ∷ 0x01 ∷ 0x01 ∷ 0x02 ∷ 0x01 ∷ 0x01 ∷ []

abbrev pub example_message : Bytes
example_message = codes "example message to verify"

abbrev pub rp_id : Bytes
rp_id = codes "example.com"

-- The keys that `Pubkey::new_unique` gives.
pub record UniqueKeys : Type 0 where
  pub payer : Pubkey
  pub memo_program : Pubkey
  pub session_key : Pubkey
  pub session_program : Pubkey

abbrev pub example_session_key : UniqueKeys → SessionKey
example_session_key keys = record { key = keys.session_key; expiration = 900 }

abbrev pub memo_instructions : UniqueKeys → List Instruction
memo_instructions keys =
    record { program_id = keys.memo_program; input = codes "Hello from passkey!"; accounts = [] }
    ∷ []

abbrev pub session_instructions : UniqueKeys → List Instruction
session_instructions keys =
    record { program_id = keys.session_program; input = codes "session call"; accounts = [] } ∷ []

unfoldable pub example_webauthn_data : WebAuthnData
unfolding new
example_webauthn_data =
    new compressed_public_key signature_der (replicate 37 0) [] create false false false none

-- What the example prints of.
pub record Example : Type 0 where
  pub passkey_account : Pubkey
  pub execution_key : Pubkey
  pub account_pubkey : Pubkey
  pub init_ix : Instruction
  pub precompile_ix : Instruction
  pub execute_ix : Instruction
  pub refresh_ix : Instruction
  pub sessioned_ix : Instruction

module _ (rt : Runtime) (b : Borsh) (crates : Crates) (o : Openssl) (program : Secp256r1Program)
    (keys : UniqueKeys) where
  -- Each `unwrap` of an error ends the example.
  unfoldable pub main : SdkResult Example
  main = do
    (passkey_account, bump) ← derive_passkey_account rt compressed_public_key
    (execution_key, bump') ← derive_execution_account rt passkey_account
    (account_pubkey, init_ix) ←
        initialize_passkey_account rt b crates example_webauthn_data rp_id keys.payer 0
    precompile_ix ←
        create_secp256r1_instruction o program signature_der example_message compressed_public_key
          none
    execute_ix ←
        execute_instructions rt b crates example_webauthn_data passkey_account keys.payer 0
          (memo_instructions keys) execution_account
    refresh_ix ←
        refresh_session_key rt b crates example_webauthn_data passkey_account keys.payer 0
          (example_session_key keys)
    sessioned_ix ←
        execute_instructions_sessioned rt b crates passkey_account keys.session_key
          (session_instructions keys) execution_account
    done (record {
      passkey_account = passkey_account;
      execution_key = execution_key;
      account_pubkey = account_pubkey;
      init_ix = init_ix;
      precompile_ix = precompile_ix;
      execute_ix = execute_ix;
      refresh_ix = refresh_ix;
      sessioned_ix = sessioned_ix;
    })
