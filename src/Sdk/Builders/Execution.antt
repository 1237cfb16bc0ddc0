-- ===== src/Sdk/Builders/Execution.antt =====
-- The program decodes the execution that the SDK builds (sdks/rust-sdk/src/instructions/execute.rs
-- against src/instructions/execute_instructions.rs).
use external_signature_progr.Base.{
  ℕ, ◌<◌, ◌≡◌, refl, arith, List, ◌∷◌, some, Bytes, Pubkey, true, false,
}
use external_signature_progr.Borsh.{Borsh, fields}
use external_signature_progr.Borsh.Laws.{
  RoundTrips, IsBorsh, int-RoundTrips, fields-RoundTrips, derive-RoundTrips,
}
use external_signature_progr.Entrypoint.{process_instruction}
use external_signature_progr.Instructions.Execute
use external_signature_progr.Instructions.Execute.{
  ExecutableInstructionArgs, parse_extra_verification_data, process_execute_instructions,
}
use external_signature_progr.Runtime.{Runtime, AccountInfo, Instruction}
use external_signature_progr.Sdk.Builders.{execute_instructions, writable_meta, readonly_meta}
use external_signature_progr.Sdk.Builders.Codecs.{
  IsWebAuthnData, to_vec-try_from_slice, verification_bytes-try_from_slice,
}
use external_signature_progr.Sdk.Compile.{account_metas}
use external_signature_progr.Sdk.Compile.Normalized.{compile_instructions_for_execution_iff}
use external_signature_progr.Sdk.Types.{done, Crates, Message, WebAuthnData}
use external_signature_progr.State.{
  SignerExecutionScheme, signer_execution_scheme_number, signer_execution_scheme_try_from,
  signature_scheme_try_from, p256_webauthn,
}
use external_signature_progr.State.P256Webauthn.{parse_verification_data}
use external_signature_progr.Utils.Instructions.{CompiledInstruction, compiled_instruction_codec}
use external_signature_progr.Utils.SlotHashes.{slot_hashes_id}
use external_signature_progr.Utils.SmallVec.{small_vec}
use external_signature_progr.World.{World}
use external_signature_progr.Sdk.Builders.Compiled.{
  IsCompilable, scheme_number_range, scheme_number_lem, instructions-RoundTrips,
}
use external_signature_progr.Sdk.Builders.Accounts.{passed, signed_accounts}

module _ (rt : Runtime) (b : Borsh) where
  -- What the program makes of an instruction that begins an execution: the arguments, and the
  -- handler with them.
  pub record ReadsAsExecution (ix : Instruction) (webauthn : WebAuthnData) (slot : ℕ)
      (scheme : SignerExecutionScheme) (instructions : List CompiledInstruction)
      (accounts : List AccountInfo) : Type 0 where
    pub input : Bytes
    pub args : ExecutableInstructionArgs
    pub decoded :
        b.try_from_slice ExecutableInstructionArgs (Execute.args_codec b) input ≡ some args
    pub same_slot : args.slothash ≡ slot
    pub same_signature_scheme : signature_scheme_try_from args.signature_scheme ≡ some p256_webauthn
    pub same_scheme : signer_execution_scheme_try_from args.signer_execution_scheme ≡ some scheme
    pub same_instructions : args.instructions ≡ instructions
    pub same_key :
        parse_extra_verification_data rt b args.extra_verification_data
        ≡ parse_verification_data (record {
          public_key = webauthn.public_key;
          params = webauthn.client_data_json_reconstruction_params;
        })
    -- The accounts that the runtime passes for it.
    pub passes : passed ix.accounts ≡ accounts
    pub dispatched :
        (infos : List AccountInfo) (w : World)
        → process_instruction rt b infos ix.input w
          ≡ process_execute_instructions rt b infos input w

module _ (rt : Runtime) (b : Borsh) (crates : Crates) (h : IsBorsh b) where
  execute_args-RoundTrips :
      (m : Message) (scheme : SignerExecutionScheme) (slot : ℕ) (extra : Bytes)
      → IsCompilable m
      → slot < 65536
      → RoundTrips (small_vec (b.int 1) b 1) extra
      → RoundTrips (Execute.args_codec b) (record {
        signature_scheme = 0;
        signer_execution_scheme = signer_execution_scheme_number scheme;
        slothash = slot;
        extra_verification_data = extra;
        instructions = m.instructions;
      })
  unfolding Execute.args_codec
  execute_args-RoundTrips m scheme slot extra hm lt he =
      let bytes = small_vec (b.int 1) b 1 in
      let calls = small_vec (compiled_instruction_codec b) b 1 in
      let number = signer_execution_scheme_number scheme in
      derive-RoundTrips _ _
        (fields (b.int 1) (fields (b.int 1) (fields (b.int 2) (fields bytes calls))))
        (0, (number, (slot, (extra, m.instructions)))) refl
        (fields-RoundTrips (b.int 1) _ 0 _ (int-RoundTrips b h 1 0 (omega arith)) (
          fields-RoundTrips (b.int 1) _ number _
            (int-RoundTrips b h 1 number (scheme_number_range scheme))
            (fields-RoundTrips (b.int 2) _ slot _ (int-RoundTrips b h 2 slot lt) (
              fields-RoundTrips bytes calls extra m.instructions he
                (instructions-RoundTrips b h m hm)))))

  -- The SDK builds an execution that the program reads as it was meant: for a key of 33 bytes, a
  -- truncated slot of 16 bits and a message that compiles, the builder succeeds, and the program
  -- dispatches the instruction to the execution handler, which decodes the slot, the schemes, the
  -- instructions of the message, and verification data with the key and the parameters given.
  -- Borsh keeps its documented format.
  pub execute_instructions-ReadsAsExecution :
      (webauthn : WebAuthnData) (passkey_account nonce_signer : Pubkey) (slot : ℕ)
      (instructions : List Instruction) (scheme : SignerExecutionScheme)
      → IsWebAuthnData webauthn
      → slot < 65536
      → IsCompilable (crates.new_message instructions nonce_signer)
      → (ix : Instruction) × (execute_instructions rt b crates webauthn passkey_account nonce_signer
            slot instructions scheme
          ≡ done ix)
        × ReadsAsExecution rt b ix webauthn slot scheme
            (crates.new_message instructions nonce_signer).instructions
            (signed_accounts crates passkey_account nonce_signer
              (passed (account_metas (crates.new_message instructions nonce_signer))))
  unfolding execute_instructions process_instruction parse_extra_verification_data
  execute_instructions-ReadsAsExecution webauthn passkey_account nonce_signer slot instructions
        scheme hd lt hm =
      let m = crates.new_message instructions nonce_signer in
      let compiled =
        (compile_instructions_for_execution_iff crates instructions nonce_signer).1
          (hm.few, hm.short) in
      let (extra, extra_built, wraps, raw) = verification_bytes-try_from_slice b h webauthn hd in
      let (input, written, decoded) =
        to_vec-try_from_slice b h (Execute.args_codec b) _
          (execute_args-RoundTrips m scheme slot extra hm lt wraps) in
      let ix : Instruction = record {
        program_id = rt.id;
        input = 1 ∷ input;
        accounts =
            writable_meta passkey_account false
            ∷ readonly_meta crates.instructions_sysvar_id false
            ∷ readonly_meta slot_hashes_id false
            ∷ writable_meta nonce_signer true
            ∷ account_metas m;
      } in
      let built : execute_instructions rt b crates webauthn passkey_account nonce_signer slot
            instructions scheme
          ≡ done ix =
        rw (compiled, extra_built, written) refl in
      (
        ix,
        built,
        record {
          input = input;
          args = _;
          decoded = decoded;
          same_slot = refl;
          same_signature_scheme = refl;
          same_scheme = scheme_number_lem scheme;
          same_instructions = refl;
          same_key = rw raw refl;
          passes = refl;
          dispatched = λ infos w. refl;
        },
      )
