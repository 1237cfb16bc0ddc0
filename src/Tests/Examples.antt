-- ===== src/Tests/Examples.antt =====
-- The SDK's example with the scenario's runtime and openssl by signed numbers.
use external_signature_progr.Base.{
  true, false, [], ◌∷◌, ◌≡◌, refl, arith, ◌≤◌, ◌<◌, ◌^◌, Bytes, none, take, drop, from_be,
}
use external_signature_progr.Borsh.Reference.{reference, reference-IsBorsh}
use external_signature_progr.Sdk.Builders.Accounts.{
  account, passed, signed_accounts, created_accounts,
}
use external_signature_progr.Sdk.Compile.{account_metas}
use external_signature_progr.Sdk.Builders.Execution.{ReadsAsExecution}
use external_signature_progr.Sdk.Builders.Initialization.{ReadsAsInitialization}
use external_signature_progr.Sdk.Builders.Session.{ReadsAsRefresh}
use external_signature_progr.Sdk.Builders.Sessioned.{ReadsAsSessioned}
use external_signature_progr.Sdk.Example.{
  Example, UniqueKeys, main, compressed_public_key, signature_der, example_webauthn_data, rp_id,
  memo_instructions, session_instructions, example_session_key,
}
use external_signature_progr.Sdk.Example.Succeeds.{main_succeeds}
use external_signature_progr.Sdk.Pda.{derive_passkey_account, derive_execution_account}
use external_signature_progr.Sdk.Precompile.{parse_der_signature_to_compact}
use external_signature_progr.Sdk.Precompile.LowS.{parse_der_signature_to_compact-IsLow}
use external_signature_progr.Sdk.Types.{done}
use external_signature_progr.State.{execution_account}
use external_signature_progr.Tests.Client.{crates, message-IsCompilable}
use external_signature_progr.Tests.Scenario.{runtime, key_of, account_key}
use external_signature_progr.Tests.Signing.{
  openssl, openssl-IsOpenssl, program, program-IsSecp256r1Program,
}
use external_signature_progr.Utils.Sha256.{hashv}

abbrev keys : UniqueKeys
keys = record {
  payer = key_of 12;
  memo_program = key_of 20;
  session_key = key_of 14;
  session_program = key_of 20;
}

passkey : derive_passkey_account runtime compressed_public_key ≡ done (account_key, 255)
unfolding derive_passkey_account hashv
passkey = refl

execution : derive_execution_account runtime account_key ≡ done (key_of 6, 254)
unfolding derive_execution_account
execution = refl

r_small : from_be (take 32 signature_der) < 256 ^ 32
unfolding from_be
r_small = omega arith

s_small : from_be (drop 32 signature_der) ≤ from_be program.order
unfolding from_be
s_small = omega arith

compact :
    (signature : Bytes) × (parse_der_signature_to_compact openssl program signature_der
      ≡ done signature)
compact =
    let (rs, ss, e, _, _, _) =
      parse_der_signature_to_compact-IsLow openssl program openssl-IsOpenssl
        program-IsSecp256r1Program signature_der (from_be (take 32 signature_der), false)
        (from_be (drop 32 signature_der), false) refl r_small s_small in
    (_, e)

main_succeeds_example :
    (e : Example) × (main runtime reference crates openssl program keys ≡ done e)
    × (e.account_pubkey ≡ e.passkey_account)
    × ReadsAsInitialization runtime reference e.init_ix rp_id example_webauthn_data 0 none
        (created_accounts runtime crates e.passkey_account keys.payer)
    × ReadsAsExecution runtime reference e.execute_ix example_webauthn_data 0 execution_account
        (crates.new_message (memo_instructions keys) keys.payer).instructions
        (signed_accounts crates e.passkey_account keys.payer
          (passed (account_metas (crates.new_message (memo_instructions keys) keys.payer))))
    × ReadsAsRefresh runtime reference e.refresh_ix example_webauthn_data 0
        (example_session_key keys)
        (signed_accounts crates e.passkey_account keys.payer [])
    × ReadsAsSessioned runtime reference e.sessioned_ix execution_account
        (crates.new_message (session_instructions keys) keys.session_key).instructions
        (account e.passkey_account false true
          ∷ account keys.session_key true false
          ∷ passed
              (account_metas (crates.new_message (session_instructions keys) keys.session_key)))
main_succeeds_example =
    main_succeeds runtime reference crates openssl program keys account_key (key_of 6) 255 254
      compact.0 reference-IsBorsh refl passkey execution compact.1
      (message-IsCompilable (key_of 12)) (message-IsCompilable (key_of 14))
