-- ===== src/Sdk/Types.antt =====
-- sdks/rust-sdk/src/types.rs, error.rs: the SDK's data, and its results.
use Prim.Native.String.{String}
use external_signature_progr.Base.{ℕ, Bool, List, Bytes, Pubkey, Option, none, some, ◌≡◌, refl}
use external_signature_progr.Runtime.{Instruction}
use external_signature_progr.Utils.Instructions.{CompiledInstruction}
use external_signature_progr.Utils.Signatures.ClientDataJson
use external_signature_progr.Utils.Signatures.ClientDataJson.{
  ClientDataJsonReconstructionParams, AuthType,
}

-- An I/O error of borsh is one constructor.
pub data SdkError : Type 0 where
  invalid_signature_format : SdkError
  invalid_signature_length : SdkError
  message_too_large : SdkError
  serialization_error : String → SdkError
  pda_derivation_failed : SdkError
  invalid_rp_id : String → SdkError
  borsh_error : SdkError

pub data SdkResult (A : Type 0) : Type 0 where
  done : A → SdkResult A
  failed : SdkError → SdkResult A

infixl 5 ◌>>=◌
abbrev pub ◌>>=◌ : {A B : Type 0} → SdkResult A → (A → SdkResult B) → SdkResult B
done a >>= next = next a
failed e >>= next = failed e

-- A successful chain: its first step succeeded, and so did the rest.
pub >>=-eq-done :
    {A B : Type 0} (m : SdkResult A) (next : A → SdkResult B) {b : B}
    → (m >>= next) ≡ done b
    → (a : A) × (m ≡ done a) × (next a ≡ done b)
>>=-eq-done (failed e) next h = cc
>>=-eq-done (done a) next h = (a, refl, h)

-- `ok_or`, `map_err` and `?` on a call that gives no error of its own.
abbrev pub or_fail : {A : Type 0} → SdkError → Option A → SdkResult A
or_fail e none = failed e
or_fail e (some a) = done a

pub record WebAuthnData : Type 0 where
  pub public_key : Bytes
  pub signature : Bytes
  pub auth_data : Bytes
  pub client_data_json : Bytes
  pub client_data_json_reconstruction_params : ClientDataJsonReconstructionParams

pub record SessionKeyConfig : Type 0 where
  pub key : Bytes
  pub expiration : ℕ

unfoldable pub new :
    Bytes → Bytes → Bytes → Bytes → AuthType → Bool → Bool → Bool → Option ℕ → WebAuthnData
unfolding ClientDataJson.new
new public_key signature auth_data client_data_json auth_type cross_origin is_http has_google_extra
      port =
    record {
      public_key = public_key;
      signature = signature;
      auth_data = auth_data;
      client_data_json = client_data_json;
      client_data_json_reconstruction_params =
          ClientDataJson.new auth_type cross_origin is_http has_google_extra port;
    }

-- `solana_message::legacy::Message`: its header, its keys and its compiled instructions.
pub record Message : Type 0 where
  pub num_required_signatures : ℕ
  pub num_readonly_signed_accounts : ℕ
  pub num_readonly_unsigned_accounts : ℕ
  pub account_keys : List Pubkey
  pub instructions : List CompiledInstruction

-- What the SDK takes from its crates: `legacy::Message::new`, and the id of the instructions sysvar.
-- It hashes and derives addresses as the runtime does.
pub record Crates : Type 0 where
  pub new_message : List Instruction → Pubkey → Message
  pub instructions_sysvar_id : Pubkey
