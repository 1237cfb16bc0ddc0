-- ===== src/Tests/Executions.antt =====
-- The scenario's execution, built by the SDK and run by the program.
use external_signature_progr.Base.{
  ◌≡◌, refl, sym, ap, ◌∙◌, arith, some, [], ◌∷◌, List, from_le, false,
}
use external_signature_progr.Borsh.{derive, fields, read_all}
use external_signature_progr.Borsh.Reference.{reference, reference-IsBorsh}
use external_signature_progr.Entrypoint.{process_instruction}
use external_signature_progr.Errors.{ok}
use external_signature_progr.Errors.Laws.{ok-injective}
use external_signature_progr.Instructions.Execute
use external_signature_progr.Instructions.Execute.{
  ExecutableInstructionArgs, parse_extra_verification_data,
}
use external_signature_progr.Instructions.Execute.Authorized.{
  IsAuthorized, process_execute_instructions-IsAuthorized,
}
use external_signature_progr.Instructions.Invoke.Trace.{Runs, invoke_instructions_exact}
use external_signature_progr.Instructions.Payload.{execute_payload}
use external_signature_progr.Runtime.{AccountInfo, AccountMeta, Instruction}
use external_signature_progr.Sdk.Builders.Accounts.{passed}
use external_signature_progr.Sdk.Builders.{execute_instructions}
use external_signature_progr.Sdk.Builders.Executed.{IsApproval, execute_instructions_succeeds}
use external_signature_progr.Sdk.Compile.{account_metas}
use external_signature_progr.Sdk.Types.{done}
use external_signature_progr.State.{
  SignerExecutionScheme, execution_account, signer_execution_scheme_try_from, to_signer_seeds,
}
use external_signature_progr.State.Account
use external_signature_progr.State.Account.View.{IsLoaded, written}
use external_signature_progr.State.P256Webauthn.{
  parse_verification_data, new_public_key, raw_verification_codec,
}
use external_signature_progr.Tests.Client.{
  crates, webauthn, webauthn-IsWebAuthnData, message-IsCompilable,
}
use external_signature_progr.Tests.Handlers.{execute_run, execute_infos, hash_length}
use external_signature_progr.Tests.Scenario.{
  runtime, world, external_info, signer_info, execution_infos, info, key_of, account_key, extra,
  verification_bytes, execute_input, instruction,
}
use external_signature_progr.Utils.Instructions.{
  CompiledInstruction, compiled_instruction_codec, create_instruction_execution_account_metas,
}
use external_signature_progr.Utils.Signatures.ClientDataJson.{params_codec}
use external_signature_progr.Utils.SlotHashes
use external_signature_progr.Utils.SlotHashes.{slot_hashes_id}
use external_signature_progr.Utils.SmallVec.{small_vec, deserialize_reader, read_items}
use mathlib.Core.Path.{subst}

execution : IsAuthorized runtime reference execute_infos execute_input world execute_run.0
execution =
    process_execute_instructions-IsAuthorized runtime reference execute_infos execute_input world
      execute_run.0 execute_run.1

abbrev execute_args : ExecutableInstructionArgs
execute_args = record {
  signature_scheme = 0;
  signer_execution_scheme = 0;
  slothash = 454;
  extra_verification_data = verification_bytes;
  instructions = instruction ∷ [];
}

execute_args-read :
    reference.try_from_slice ExecutableInstructionArgs (Execute.args_codec reference) execute_input
    ≡ some execute_args
unfolding Execute.args_codec derive fields from_le small_vec deserialize_reader read_items read_all
    compiled_instruction_codec
execute_args-read = refl

execution-args : execution.args ≡ execute_args
execution-args = cc (execution.parsed, execute_args-read)

execution-verification : execution.context.verification_data ≡ extra
unfolding parse_extra_verification_data derive fields from_le raw_verification_codec params_codec
    parse_verification_data new_public_key
execution-verification = sym (
    ok-injective extra execution.context.verification_data (
      ap
        (λ (a : ExecutableInstructionArgs).
          parse_extra_verification_data runtime reference a.extra_verification_data)
        (sym execution-args)
      ∙ execution.checked.extra))

execution-scheme : execution.checked.scheme ≡ execution_account
execution-scheme =
    let number : execution.args.signer_execution_scheme ≡ 0 =
      ap (λ (a : ExecutableInstructionArgs). a.signer_execution_scheme) execution-args in
    let known : signer_execution_scheme_try_from execution.args.signer_execution_scheme
        ≡ some execution_account =
      ap signer_execution_scheme_try_from number in
    cc (known, execution.checked.execution_scheme)

abbrev metas : SignerExecutionScheme → List AccountMeta
metas scheme =
    create_instruction_execution_account_metas execution_infos execution.context.execution_account
      scheme

approval :
    IsApproval runtime reference external_info
      (info (key_of 13) false false)
      (info slot_hashes_id false false)
      signer_info
      execution_infos
      webauthn
      454
      execution_account
      (instruction ∷ [])
      world
      execute_run.0
unfolding parse_verification_data new_public_key
approval =
    let a = execution in
    let c = a.context in
    let k = a.checked in
    let self = c.externally_signed_account in
    let first : a.external_account ≡ external_info = cc a.listed in
    let second : a.instructions_info ≡ info (key_of 13) false false = cc a.listed in
    let third : a.slothashes_info ≡ info slot_hashes_id false false = cc a.listed in
    let fourth : a.nonce_signer ≡ signer_info = cc a.listed in
    let infos : a.execution_accounts ≡ execution_infos = cc a.listed in
    let slot : a.args.slothash ≡ 454 =
      ap (λ (q : ExecutableInstructionArgs). q.slothash) execution-args in
    let listed : a.args.instructions ≡ instruction ∷ [] =
      ap (λ (q : ExecutableInstructionArgs). q.instructions) execution-args in
    let metas_of : c.instruction_execution_account_metas ≡ metas execution_account =
      k.metas
      ∙ ap
          (λ (is : List AccountInfo).
            create_instruction_execution_account_metas is c.execution_account k.scheme)
          infos
      ∙ ap metas execution-scheme in
    record {
      self = self;
      loaded = subst (λ i. IsLoaded runtime i world self) first k.loaded;
      verification = c.verification_data;
      parsed = ap ok (sym execution-verification);
      seeds = k.seeds;
      derived = k.derived;
      sysvar = c.instructions_sysvar;
      introspected = subst (λ i. runtime.instructions i ≡ ok c.instructions_sysvar) second k.sysvar;
      table = k.table;
      slothashes =
          subst (λ i. SlotHashes.try_from i world.accounts ≡ ok k.table) third k.slothashes;
      nonce_data = c.nonce_data;
      nonce = rw (sym slot, sym fourth) k.nonce;
      execution = c.execution_account;
      executing =
          subst
            (λ (q : SignerExecutionScheme).
              Account.get_execution_account runtime self q world ≡ ok (c.execution_account, world))
            execution-scheme k.signer;
      payload = a.payload;
      signed =
          subst
            (λ (q : List CompiledInstruction).
              execute_payload reference c.nonce_data execution_infos q ≡ ok a.payload)
            (k.instructions ∙ listed)
            (subst
              (λ (q : List AccountInfo).
                execute_payload reference c.nonce_data q c.instructions ≡ ok a.payload)
              (k.accounts ∙ infos) a.signed);
      before = a.before;
      after = a.after;
      read = a.read;
      verified = a.verified;
      runs =
          subst
            (λ (q : List CompiledInstruction).
              Runs runtime (metas execution_account) execution_infos
                (to_signer_seeds c.execution_account) q (written world self a.after) execute_run.0)
            listed
            (subst
              (λ (q : List AccountInfo).
                Runs runtime (metas execution_account) q (to_signer_seeds c.execution_account)
                  a.args.instructions (written world self a.after) execute_run.0)
              (k.accounts ∙ infos)
              (subst
                (λ (q : List AccountMeta).
                  Runs runtime q c.instruction_execution_accounts
                    (to_signer_seeds c.execution_account) a.args.instructions
                    (written world self a.after) execute_run.0)
                metas_of
                ((invoke_instructions_exact runtime c.instruction_execution_account_metas
                    c.instruction_execution_accounts (to_signer_seeds c.execution_account)
                    a.args.instructions (written world self a.after) execute_run.0).0
                  a.ran)));
    }

execute_instructions_succeeds_example :
    (ix : Instruction) × (execute_instructions runtime reference crates webauthn account_key
        (key_of 12)
        454
        []
        execution_account
      ≡ done ix)
    × (process_instruction runtime reference (passed ix.accounts) ix.input world
        ≡ ok (tt, execute_run.0))
unfolding account_metas
execute_instructions_succeeds_example =
    execute_instructions_succeeds runtime reference crates webauthn account_key (key_of 12) 454 []
      execution_account world execute_run.0 reference-IsBorsh hash_length webauthn-IsWebAuthnData
      (omega arith) (message-IsCompilable (key_of 12)) approval
