-- ===== src/Sdk/Builders/Sessioned.antt =====
-- The program decodes the sessioned execution that the SDK builds (execute_sessioned.rs of
-- sdks/rust-sdk/src/instructions against src/instructions/execute_instructions_sessioned.rs).
use external_signature_progr.Base.{◌≡◌, refl, arith, List, ◌∷◌, some, Bytes, Pubkey, true, false}
use external_signature_progr.Borsh.{Borsh, fields}
use external_signature_progr.Borsh.Laws.{
  RoundTrips, IsBorsh, int-RoundTrips, fields-RoundTrips, derive-RoundTrips,
}
use external_signature_progr.Entrypoint.{process_instruction}
use external_signature_progr.Instructions.ExecuteSessioned
use external_signature_progr.Instructions.ExecuteSessioned.{
  ExecutableInstructionSessionedArgs, process_execute_instructions_sessioned,
}
use external_signature_progr.Runtime.{Runtime, AccountInfo, Instruction}
use external_signature_progr.Sdk.Builders.{
  execute_instructions_sessioned, writable_meta, readonly_meta,
}
use external_signature_progr.Sdk.Builders.Codecs.{to_vec-try_from_slice}
use external_signature_progr.Sdk.Compile.{account_metas}
use external_signature_progr.Sdk.Compile.Normalized.{compile_instructions_for_execution_iff}
use external_signature_progr.Sdk.Types.{done, Crates, Message}
use external_signature_progr.State.{
  SignerExecutionScheme, signer_execution_scheme_number, signer_execution_scheme_try_from,
  signature_scheme_try_from, p256_webauthn,
}
use external_signature_progr.Utils.Instructions.{CompiledInstruction, compiled_instruction_codec}
use external_signature_progr.Utils.SmallVec.{small_vec}
use external_signature_progr.World.{World}
use external_signature_progr.Sdk.Builders.Compiled.{
  IsCompilable, scheme_number_range, scheme_number_lem, instructions-RoundTrips,
}
use external_signature_progr.Sdk.Builders.Accounts.{account, passed}

module _ (rt : Runtime) (b : Borsh) where
  -- What the program makes of an instruction that begins a sessioned execution.
  pub record ReadsAsSessioned (ix : Instruction) (scheme : SignerExecutionScheme)
      (instructions : List CompiledInstruction) (accounts : List AccountInfo) : Type 0 where
    pub input : Bytes
    pub args : ExecutableInstructionSessionedArgs
    pub decoded :
        b.try_from_slice ExecutableInstructionSessionedArgs (ExecuteSessioned.args_codec b) input
        ≡ some args
    pub same_signature_scheme : signature_scheme_try_from args.signature_scheme ≡ some p256_webauthn
    pub same_scheme : signer_execution_scheme_try_from args.signer_execution_scheme ≡ some scheme
    pub same_instructions : args.instructions ≡ instructions
    -- The accounts that the runtime passes for it.
    pub passes : passed ix.accounts ≡ accounts
    pub dispatched :
        (infos : List AccountInfo) (w : World)
        → process_instruction rt b infos ix.input w
          ≡ process_execute_instructions_sessioned rt b infos input w

module _ (rt : Runtime) (b : Borsh) (crates : Crates) (h : IsBorsh b) where
  sessioned_args-RoundTrips :
      (m : Message) (scheme : SignerExecutionScheme)
      → IsCompilable m
      → RoundTrips (ExecuteSessioned.args_codec b) (record {
        signature_scheme = 0;
        signer_execution_scheme = signer_execution_scheme_number scheme;
        instructions = m.instructions;
      })
  unfolding ExecuteSessioned.args_codec
  sessioned_args-RoundTrips m scheme hm =
      let calls = small_vec (compiled_instruction_codec b) b 1 in
      let number = signer_execution_scheme_number scheme in
      derive-RoundTrips _ _ (fields (b.int 1) (fields (b.int 1) calls))
        (0, (number, m.instructions)) refl
        (fields-RoundTrips (b.int 1) _ 0 _ (int-RoundTrips b h 1 0 (omega arith)) (
          fields-RoundTrips (b.int 1) calls number m.instructions
            (int-RoundTrips b h 1 number (scheme_number_range scheme))
            (instructions-RoundTrips b h m hm)))

  pub execute_instructions_sessioned-ReadsAsSessioned :
      (passkey_account session_signer : Pubkey) (instructions : List Instruction)
      (scheme : SignerExecutionScheme)
      → IsCompilable (crates.new_message instructions session_signer)
      → (ix : Instruction) × (execute_instructions_sessioned rt b crates passkey_account
            session_signer instructions scheme
          ≡ done ix)
        × ReadsAsSessioned rt b ix scheme
            (crates.new_message instructions session_signer).instructions
            (account passkey_account false true
              ∷ account session_signer true false
              ∷ passed (account_metas (crates.new_message instructions session_signer)))
  unfolding execute_instructions_sessioned process_instruction
  execute_instructions_sessioned-ReadsAsSessioned passkey_account session_signer instructions scheme
        hm =
      let m = crates.new_message instructions session_signer in
      let compiled =
        (compile_instructions_for_execution_iff crates instructions session_signer).1
          (hm.few, hm.short) in
      let (input, written, decoded) =
        to_vec-try_from_slice b h (ExecuteSessioned.args_codec b) _
          (sessioned_args-RoundTrips m scheme hm) in
      let ix : Instruction = record {
        program_id = rt.id;
        input = 3 ∷ input;
        accounts =
            writable_meta passkey_account false
            ∷ readonly_meta session_signer true
            ∷ account_metas m;
      } in
      let built : execute_instructions_sessioned rt b crates passkey_account session_signer
            instructions scheme
          ≡ done ix =
        rw (compiled, written) refl in
      (
        ix,
        built,
        record {
          input = input;
          args = _;
          decoded = decoded;
          same_signature_scheme = refl;
          same_scheme = scheme_number_lem scheme;
          same_instructions = refl;
          passes = refl;
          dispatched = λ infos w. refl;
        },
      )
