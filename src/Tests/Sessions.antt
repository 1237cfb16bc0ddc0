-- ===== src/Tests/Sessions.antt =====
-- The SDK's addresses, and a session's instruction up to the end of its run.
use external_signature_progr.Base.{
  List, ◌≡◌, ◌↔◌, refl, arith, [], ◌∷◌, inl, codes, from_le, bytes_eq, le_bytes,
}
use external_signature_progr.Borsh.Reference.{reference, reference-IsBorsh}
use external_signature_progr.Entrypoint.{process_instruction}
use external_signature_progr.Errors.{ok, slice, ◌>>=◌}
use external_signature_progr.Instructions.Invoke.{
  collect, filter_infos, invoke_instruction, invoke_instructions,
}
use external_signature_progr.Instructions.Invoke.Trace.{Runs, invoke_instructions_exact}
use external_signature_progr.Runtime.{AccountInfo, Instruction}
use external_signature_progr.Sdk.Builders.Accounts.{passed}
use external_signature_progr.Sdk.Builders.{execute_instructions_sessioned}
use external_signature_progr.Sdk.Builders.Live.{IsSession, execute_instructions_sessioned_succeeds}
use external_signature_progr.Sdk.Pda.{derive_passkey_account, derive_execution_account}
use external_signature_progr.Sdk.Pda.Agrees.{
  derive_passkey_account-check_account, derive_execution_account-get_execution_account,
}
use external_signature_progr.Sdk.Compile.{account_metas}
use external_signature_progr.Sdk.Types.{done}
use external_signature_progr.State.{execution_account, ExecutionAccount, to_signer_seeds}
use external_signature_progr.State.Account
use external_signature_progr.State.Account.{ExternallySignedAccount, data_ref, header, bytes_of}
use external_signature_progr.State.P256Webauthn.{
  P256RawVerificationData, parse_verification_data, AccountSeeds,
}
use external_signature_progr.State.P256Webauthn.Layout.{encode, decode}
use external_signature_progr.State.P256Webauthn.Scheme.{check_account}
use external_signature_progr.Tests.Scenario.{
  runtime, world, accounts, external_info, session_info, infos_of, instruction, passkey, key_of,
  account_key, stored, after,
}
use external_signature_progr.Utils.Instructions.{
  create_instruction_execution_account_metas, account_meta, signer_meta,
}
use external_signature_progr.World.{World, slice_invoke_signed}
use external_signature_progr.Tests.Client.{crates, message-IsCompilable, webauthn}

abbrev raw : P256RawVerificationData
raw = record { public_key = passkey; params = webauthn.client_data_json_reconstruction_params }

derive_passkey_account-check_account_example :
    (derive_passkey_account runtime passkey ≡ done (account_key, 255)) ↔ (
      (s : AccountSeeds) × ((parse_verification_data raw >>= check_account runtime external_info)
        ≡ ok s)
      × (s.bump ≡ 255))
derive_passkey_account-check_account_example =
    derive_passkey_account-check_account runtime raw external_info 255 refl refl

abbrev self : ExternallySignedAccount
self = record { account_info = external_info; len = 152 }

derive_execution_account-get_execution_account_example :
    (derive_execution_account runtime account_key ≡ done (key_of 6, 254)) ↔ (
      Account.get_execution_account runtime self execution_account world
      ≡ ok (
        record { key = key_of 6; bump = 254; seeds = (account_key, codes "execution_account") },
        world,
      ))
derive_execution_account-get_execution_account_example =
    derive_execution_account-get_execution_account runtime self (key_of 6) 254 world

abbrev execution : ExecutionAccount
execution = record { key = key_of 6; bump = 254; seeds = (account_key, codes "execution_account") }

session-IsSession : IsSession runtime external_info session_info execution_account world
unfolding accounts encode le_bytes data_ref header bytes_of slice decode from_le
    Account.get_execution_account
session-IsSession = record {
  self = self;
  loaded = record { account = refl; whole = refl; owned = inl refl };
  stored = stored;
  read = refl;
  now = 1000;
  clock = refl;
  is_signer = refl;
  by_key = refl;
  live = omega arith;
  execution = execution;
  executing = refl;
}

abbrev session_infos : List AccountInfo
session_infos = infos_of (key_of 8)

session_runs :
    (w' : World) × Runs runtime
      (create_instruction_execution_account_metas session_infos session-IsSession.execution
        execution_account)
      session_infos
      (to_signer_seeds session-IsSession.execution)
      (instruction ∷ [])
      world
      w'
unfolding session-IsSession invoke_instructions invoke_instruction collect filter_infos accounts
    bytes_eq create_instruction_execution_account_metas account_meta signer_meta slice_invoke_signed
session_runs =
    let metas =
      create_instruction_execution_account_metas session_infos execution execution_account in
    let run =
      invoke_instructions runtime metas session_infos (to_signer_seeds execution) (instruction ∷ [])
        world in
    (
      after run,
      (invoke_instructions_exact runtime metas session_infos (to_signer_seeds execution)
            (instruction ∷ []) world (after run)).0
          refl,
    )

execute_instructions_sessioned_succeeds_example :
    (ix : Instruction) × (execute_instructions_sessioned runtime reference crates account_key
        (key_of 8)
        []
        execution_account
      ≡ done ix)
    × (process_instruction runtime reference (passed ix.accounts) ix.input world
        ≡ ok (tt, session_runs.0))
unfolding account_metas
execute_instructions_sessioned_succeeds_example =
    execute_instructions_sessioned_succeeds runtime reference crates reference-IsBorsh account_key
      (key_of 8) [] execution_account world session_runs.0 (message-IsCompilable (key_of 8))
      session-IsSession session_runs.1
