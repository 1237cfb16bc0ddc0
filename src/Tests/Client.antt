-- ===== src/Tests/Client.antt =====
-- The SDK's instructions on the scenario's ledger.
use external_signature_progr.Base.{
  ℕ, zero, suc, ◌<◌, IsByte, replicate, ◌≡◌, ◌↔◌, refl, arith, true, false, [], ◌∷◌, ◌++◌, map,
  length, All, none, Pubkey, codes,
}
use external_signature_progr.Sdk.Builders.Codecs.{IsWebAuthnData}
use external_signature_progr.Sdk.Builders.Compiled.{IsCompilable}
use external_signature_progr.Sdk.Builders.Initialization.{IsRpId}
use external_signature_progr.Sdk.Builders.Session.{IsSessionKey}
use external_signature_progr.Sdk.Compile.{account_metas, compile_instructions_for_execution}
use external_signature_progr.Sdk.Compile.Metas.{flagged, account_metas_sections}
use external_signature_progr.Sdk.Compile.Normalized.{
  IsShort, compile_instructions_for_execution_iff,
}
use external_signature_progr.Sdk.Pda.{derive_passkey_account}
use external_signature_progr.Sdk.Types.{done, Crates, Message, WebAuthnData}
use external_signature_progr.State.{SessionKey}
use external_signature_progr.Tests.Scenario.{runtime, instruction, passkey, key_of, account_key}
use external_signature_progr.Utils.Sha256.{hashv}

-- A compiler that knows one message: the payer signs, the execution account and the passkey's account
-- are written, and the program is read.
abbrev pub message : Pubkey → Message
message payer = record {
  num_required_signatures = 1;
  num_readonly_signed_accounts = 0;
  num_readonly_unsigned_accounts = 1;
  account_keys = payer ∷ key_of 6 ∷ account_key ∷ key_of 20 ∷ [];
  instructions = instruction ∷ [];
}

abbrev pub crates : Crates
crates = record {
  new_message = λ instructions payer. message payer;
  instructions_sysvar_id = key_of 13;
}

abbrev pub webauthn : WebAuthnData
webauthn = record {
  public_key = passkey;
  signature = [];
  auth_data = [];
  client_data_json = [];
  client_data_json_reconstruction_params = record { type_and_flags = 0x10; port = none };
}

small : (n : ℕ) → n < 256 → (k : ℕ) → All IsByte (replicate k n)
small n h zero = tt
small n h (suc k) = (h, small n h k)

pub webauthn-IsWebAuthnData : IsWebAuthnData webauthn
webauthn-IsWebAuthnData = record {
  key_length = refl;
  key_bytes = (omega arith, small 9 (omega arith) 32);
  params = record { flags = omega arith; port = λ n e. cc };
}

pub message-IsCompilable : (payer : Pubkey) → IsCompilable (message payer)
message-IsCompilable payer = record {
  few = omega arith;
  short = ((omega arith, omega arith), tt);
  bytes = (
    record {
      index = omega arith;
      indices = (omega arith, (omega arith, (omega arith, tt)));
      input = (omega arith, tt);
    },
    tt,
  );
}

abbrev pub session_key : SessionKey
session_key = record { key = key_of 14; expiration = 600 }

pub session_key-IsSessionKey : IsSessionKey session_key
session_key-IsSessionKey = record { key_length = refl; expiration = omega arith }

pub example_com-IsRpId : IsRpId (codes "example.com")
example_com-IsRpId = record { short = omega arith; bytes = bytes_of_example }
  where
    bytes_of_example : All IsByte (codes "example.com")
    bytes_of_example = (
      omega arith,
      (
        omega arith,
        (
          omega arith,
          (
            omega arith,
            (
              omega arith,
              (
                omega arith,
                (omega arith, (omega arith, (omega arith, (omega arith, (omega arith, tt))))),
              ),
            ),
          ),
        ),
      ),
    )

pub derived : derive_passkey_account runtime passkey ≡ done (account_key, 255)
unfolding derive_passkey_account hashv
derived = refl

compile_instructions_for_execution_iff_example :
    (compile_instructions_for_execution crates [] (key_of 12)
      ≡ done (record {
        account_metas = account_metas (message (key_of 12));
        instructions = instruction ∷ [];
      }))
    ↔ ((length (instruction ∷ []) < 256) × All IsShort (instruction ∷ []))
compile_instructions_for_execution_iff_example =
    compile_instructions_for_execution_iff crates [] (key_of 12)

account_metas_sections_example :
    account_metas (message (key_of 12))
    ≡ map (flagged true true) (key_of 12 ∷ [])
      ++ (map (flagged true false) []
          ++ (map (flagged false true) (key_of 6 ∷ account_key ∷ [])
              ++ map (flagged false false) (key_of 20 ∷ [])))
account_metas_sections_example =
    account_metas_sections (message (key_of 12)) (key_of 12 ∷ []) [] (key_of 6 ∷ account_key ∷ [])
      (key_of 20 ∷ [])
      (record {
        keys = refl;
        signers = refl;
        readonly_signers = refl;
        readonly_others = refl;
        few_signers = omega arith;
        few_keys = omega arith;
      })
