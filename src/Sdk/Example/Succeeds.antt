-- ===== src/Sdk/Example/Succeeds.antt =====
-- That the SDK's example runs to its end (sdks/rust-sdk/examples/basic_usage.rs).
use external_signature_progr.Base.{
  ℕ, zero, suc, ◌<◌, ◌≡◌, refl, ap, ◌∙◌, arith, ◌==◌, if◌then◌else◌, Bytes, IsByte, Pubkey, All, [],
  ◌∷◌, ◌++◌, length, replicate, none, true, false, all_bytes, all_bytes-IsByte,
}
use external_signature_progr.Borsh.{Borsh}
use external_signature_progr.Borsh.Laws.{IsBorsh}
use external_signature_progr.Runtime.{Runtime, Instruction}
use external_signature_progr.Sdk.Builders.{initialize_passkey_account}
use external_signature_progr.Sdk.Builders.Codecs.{IsWebAuthnData}
use external_signature_progr.Sdk.Builders.Compiled.{IsCompilable}
use external_signature_progr.Sdk.Builders.Execution.{
  ReadsAsExecution, execute_instructions-ReadsAsExecution,
}
use external_signature_progr.Sdk.Builders.Initialization.{
  ReadsAsInitialization, initialize_with-ReadsAsInitialization,
}
use external_signature_progr.Sdk.Builders.Session.{
  ReadsAsRefresh, refresh_session_key-ReadsAsRefresh,
}
use external_signature_progr.Sdk.Builders.Sessioned.{
  ReadsAsSessioned, execute_instructions_sessioned-ReadsAsSessioned,
}
use external_signature_progr.Sdk.Builders.Accounts.{
  account, passed, signed_accounts, created_accounts,
}
use external_signature_progr.Sdk.Compile.{account_metas}
use external_signature_progr.Sdk.Pda.{derive_passkey_account, derive_execution_account}
use external_signature_progr.Sdk.Precompile.{
  Openssl, Secp256r1Program, layout, create_secp256r1_instruction, parse_der_signature_to_compact,
}
use external_signature_progr.Sdk.Types.{done, Crates, new}
use external_signature_progr.State.{execution_account}
use external_signature_progr.Utils.Signatures.ClientDataJson
use external_signature_progr.Utils.Signatures.ClientDataJson.{create}
use external_signature_progr.Sdk.Example.{
  Example, UniqueKeys, main, compressed_public_key, signature_der, example_message,
  example_webauthn_data, rp_id, memo_instructions, session_instructions, example_session_key,
}

replicate-IsByte : (k n : ℕ) → n < 256 → All IsByte (replicate k n)
replicate-IsByte zero n h = tt
replicate-IsByte (suc k) n h = (h, replicate-IsByte k n h)

example_webauthn_data-IsWebAuthnData : IsWebAuthnData example_webauthn_data
unfolding example_webauthn_data new ClientDataJson.new ClientDataJson.new_with_optional_cross_origin
example_webauthn_data-IsWebAuthnData = record {
  key_length = refl;
  key_bytes = replicate-IsByte 33 2 (omega arith);
  params = record { flags = omega arith; port = λ n e. cc };
}

example_com-IsByte : All IsByte rp_id
unfolding all_bytes
example_com-IsByte = all_bytes-IsByte rp_id refl

create_secp256r1_instruction-done :
    (o : Openssl) (program : Secp256r1Program) (signature : Bytes)
    → parse_der_signature_to_compact o program signature_der ≡ done signature
    → (ix : Instruction) × (create_secp256r1_instruction o program signature_der example_message
          compressed_public_key none
        ≡ done ix)
unfolding create_secp256r1_instruction
create_secp256r1_instruction-done o program signature e =
    let offsets = layout program example_message none in
    let own_key =
      if offsets.public_key_instruction_index == 65535 then compressed_public_key else [] in
    (
      record {
        program_id = program.id;
        input =
            (1 ∷ 0 ∷ [])
            ++ (program.offsets_bytes offsets ++ (own_key ++ (signature ++ example_message)));
        accounts = [];
      },
      rw e refl,
    )

example_public_key : example_webauthn_data.public_key ≡ compressed_public_key
unfolding example_webauthn_data new
example_public_key = refl

module _ (rt : Runtime) (b : Borsh) (crates : Crates) (o : Openssl) (program : Secp256r1Program)
    (keys : UniqueKeys) where
  initialize_passkey_account-ReadsAsInitialization :
      (passkey : Pubkey) (bump : ℕ)
      → IsBorsh b
      → derive_passkey_account rt compressed_public_key ≡ done (passkey, bump)
      → (ix : Instruction) × (initialize_passkey_account rt b crates example_webauthn_data rp_id
            keys.payer 0
          ≡ done (passkey, ix))
        × ReadsAsInitialization rt b ix rp_id example_webauthn_data 0 none
            (created_accounts rt crates passkey keys.payer)
  unfolding initialize_passkey_account
  initialize_passkey_account-ReadsAsInitialization passkey bump h derived =
      initialize_with-ReadsAsInitialization rt b crates h example_webauthn_data rp_id keys.payer 0
        none passkey bump example_webauthn_data-IsWebAuthnData
        (record { short = omega arith; bytes = example_com-IsByte }) (omega arith) (λ key e. cc)
        (ap (derive_passkey_account rt) example_public_key ∙ derived)

  -- The SDK's example runs to its end, no `unwrap` failing, when borsh keeps its documented
  -- format, the two addresses of its public key exist, its signature parses, its two lists of
  -- instructions compile and its session key is 32 bytes long; and the program reads the four
  -- instructions that it builds for itself as they were meant, with the accounts that each handler
  -- expects at their places, the initialization being of the passkey's account.
  pub main_succeeds :
      (passkey execution : Pubkey) (bump bump' : ℕ) (signature : Bytes)
      → IsBorsh b
      → length keys.session_key ≡ 32
      → derive_passkey_account rt compressed_public_key ≡ done (passkey, bump)
      → derive_execution_account rt passkey ≡ done (execution, bump')
      → parse_der_signature_to_compact o program signature_der ≡ done signature
      → IsCompilable (crates.new_message (memo_instructions keys) keys.payer)
      → IsCompilable (crates.new_message (session_instructions keys) keys.session_key)
      → (e : Example) × (main rt b crates o program keys ≡ done e)
        × (e.account_pubkey ≡ e.passkey_account)
        × ReadsAsInitialization rt b e.init_ix rp_id example_webauthn_data 0 none
            (created_accounts rt crates e.passkey_account keys.payer)
        × ReadsAsExecution rt b e.execute_ix example_webauthn_data 0 execution_account
            (crates.new_message (memo_instructions keys) keys.payer).instructions
            (signed_accounts crates e.passkey_account keys.payer
              (passed (account_metas (crates.new_message (memo_instructions keys) keys.payer))))
        × ReadsAsRefresh rt b e.refresh_ix example_webauthn_data 0
            (example_session_key keys)
            (signed_accounts crates e.passkey_account keys.payer [])
        × ReadsAsSessioned rt b e.sessioned_ix execution_account
            (crates.new_message (session_instructions keys) keys.session_key).instructions
            (account e.passkey_account false true
              ∷ account keys.session_key true false
              ∷ passed
                  (account_metas (crates.new_message (session_instructions keys) keys.session_key)))
  unfolding main
  main_succeeds passkey execution bump bump' signature h long derived executing signed memo
        session =
      let fits = example_webauthn_data-IsWebAuthnData in
      let (init_ix, e1, reads1) =
        initialize_passkey_account-ReadsAsInitialization passkey bump h derived in
      let (precompile_ix, e2) = create_secp256r1_instruction-done o program signature signed in
      let (execute_ix, e3, reads3) =
        execute_instructions-ReadsAsExecution rt b crates h example_webauthn_data passkey keys.payer
          0 (memo_instructions keys) execution_account fits (omega arith) memo in
      let (refresh_ix, e4, reads4) =
        refresh_session_key-ReadsAsRefresh rt b crates h example_webauthn_data passkey keys.payer 0
          (example_session_key keys) fits (omega arith)
          (record { key_length = long; expiration = omega arith }) in
      let (sessioned_ix, e5, reads5) =
        execute_instructions_sessioned-ReadsAsSessioned rt b crates h passkey keys.session_key
          (session_instructions keys) execution_account session in
      (
        record {
          passkey_account = passkey;
          execution_key = execution;
          account_pubkey = passkey;
          init_ix = init_ix;
          precompile_ix = precompile_ix;
          execute_ix = execute_ix;
          refresh_ix = refresh_ix;
          sessioned_ix = sessioned_ix;
        },
        rw (derived, executing, e1, e2, e3, e4, e5) refl,
        refl,
        reads1,
        reads3,
        reads4,
        reads5,
      )
