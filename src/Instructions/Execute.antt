-- ===== src/Instructions/Execute.antt =====
-- src/instructions/execute_instructions.rs
pub mod Context
pub mod Authorized
pub mod Exact
use external_signature_progr.Base.{ℕ, List, [], ◌∷◌, Bytes}
use external_signature_progr.Borsh.{Codec, Borsh, fields, derive}
use external_signature_progr.Errors
use external_signature_progr.Errors.{
  Result, into, custom, ok_or, map_err, err, not_enough_account_keys,
  invalid_extra_verification_data_args, invalid_signer_execution_scheme, invalid_execution_args,
  invalid_signature_scheme,
}
use external_signature_progr.Instructions.Invoke.{invoke_instructions}
use external_signature_progr.Instructions.Payload.{execute_payload}
use external_signature_progr.Runtime.{Runtime, AccountInfo, AccountMeta, Instructions}
use external_signature_progr.State.{
  ExecutionAccount, signature_scheme_try_from, signer_execution_scheme_try_from, to_signer_seeds,
}
use external_signature_progr.State.Account
use external_signature_progr.State.Account.{ExternallySignedAccount}
use external_signature_progr.State.P256Webauthn.{
  P256RawVerificationData, P256ParsedVerificationData, raw_verification_codec,
  parse_verification_data,
}
use external_signature_progr.Utils.Instructions.{
  CompiledInstruction, compiled_instruction_codec, create_instruction_execution_account_metas,
}
use external_signature_progr.Utils.Nonce.{TruncatedSlot, NonceData, validate_nonce}
use external_signature_progr.Utils.Sha256.{hash}
use external_signature_progr.Utils.SlotHashes
use external_signature_progr.Utils.SmallVec.{small_vec}
use external_signature_progr.World.{M, ◌>>=◌, ◌>>◌, pure, lift, get_accounts}

pub record ExecutableInstructionArgs : Type 0 where
  pub signature_scheme : ℕ
  pub signer_execution_scheme : ℕ
  pub slothash : TruncatedSlot
  pub extra_verification_data : Bytes
  pub instructions : List CompiledInstruction

unfoldable pub args_codec : Borsh → Codec ExecutableInstructionArgs
args_codec b =
    derive
      (λ p. record {
        signature_scheme = p.0;
        signer_execution_scheme = p.1.0;
        slothash = p.1.1.0;
        extra_verification_data = p.1.1.1.0;
        instructions = p.1.1.1.1;
      })
      (λ a. (
        a.signature_scheme,
        (a.signer_execution_scheme, (a.slothash, (a.extra_verification_data, a.instructions))),
      ))
      (fields (b.int 1) (
        fields (b.int 1) (
          fields (b.int 2)
            (fields (small_vec (b.int 1) b 1) (small_vec (compiled_instruction_codec b) b 1)))))

-- `ExecuteInstructionsContext`, with its accounts.
pub record ExecuteInstructionsContext : Type 0 where
  pub nonce_data : NonceData
  pub execution_account : ExecutionAccount
  pub verification_data : P256ParsedVerificationData
  pub externally_signed_account : ExternallySignedAccount
  pub instructions_sysvar : Instructions
  pub instruction_execution_accounts : List AccountInfo
  pub instructions : List CompiledInstruction
  pub instruction_execution_account_metas : List AccountMeta

module _ (rt : Runtime) (b : Borsh) where
  unfoldable pub parse_extra_verification_data : Bytes → Result P256ParsedVerificationData
  parse_extra_verification_data bytes =
      Errors.◌>>=◌
        (ok_or (into invalid_extra_verification_data_args)
          (b.try_from_slice P256RawVerificationData (raw_verification_codec b) bytes))
        parse_verification_data

  -- `load` behind the pattern for the account list.
  unfoldable pub load_context :
      AccountInfo
      → AccountInfo
      → AccountInfo
      → AccountInfo
      → List AccountInfo
      → ExecutableInstructionArgs
      → M ExecuteInstructionsContext
  unfolding parse_extra_verification_data
  load_context external_account instructions_info slothashes_info nonce_signer execution_accounts
        args =
      do
        verification_data ← lift (parse_extra_verification_data args.extra_verification_data)
        externally_signed_account ← Account.load rt external_account
        _ ← Account.check_account rt externally_signed_account verification_data
        instructions_sysvar ← lift (rt.instructions instructions_info)
        accounts ← get_accounts
        slothashes_sysvar ← lift (SlotHashes.try_from slothashes_info accounts)
        nonce_data ← lift (validate_nonce rt slothashes_sysvar args.slothash nonce_signer)
        signer_execution_scheme ← lift (
            ok_or (into invalid_signer_execution_scheme)
              (signer_execution_scheme_try_from args.signer_execution_scheme))
        execution_account ←
            Account.get_execution_account rt externally_signed_account signer_execution_scheme
        pure (record {
          nonce_data = nonce_data;
          execution_account = execution_account;
          verification_data = verification_data;
          externally_signed_account = externally_signed_account;
          instructions_sysvar = instructions_sysvar;
          instruction_execution_accounts = execution_accounts;
          instructions = args.instructions;
          instruction_execution_account_metas =
              create_instruction_execution_account_metas execution_accounts execution_account
                signer_execution_scheme;
        })

  unfoldable pub load : List AccountInfo → ExecutableInstructionArgs → M ExecuteInstructionsContext
  unfolding load_context
  load (external_account ∷ instructions_info ∷ slothashes_info ∷ nonce_signer ∷ execution_accounts)
        args =
      load_context external_account instructions_info slothashes_info nonce_signer
        execution_accounts args
  load account_infos args = lift (err not_enough_account_keys)

  unfoldable pub get_instruction_payload_hash : ExecuteInstructionsContext → Result Bytes
  unfolding execute_payload hash
  get_instruction_payload_hash c =
      Errors.◌>>=◌ (execute_payload b c.nonce_data c.instruction_execution_accounts c.instructions)
        (λ payload. Errors.ok (hash rt payload))

  unfoldable pub process_execute_instructions : List AccountInfo → Bytes → M (Unit {0})
  unfolding load get_instruction_payload_hash
  process_execute_instructions account_infos input = do
    args ← lift (
        ok_or (into invalid_execution_args)
          (b.try_from_slice ExecutableInstructionArgs (args_codec b) input))
    signature_scheme ←
        lift
          (ok_or (into invalid_signature_scheme) (signature_scheme_try_from args.signature_scheme))
    context ← load account_infos args
    instruction_execution_hash ← lift (get_instruction_payload_hash context)
    Account.verify_payload rt context.externally_signed_account context.instructions_sysvar
        context.verification_data instruction_execution_hash
    invoke_instructions rt context.instruction_execution_account_metas
        context.instruction_execution_accounts (to_signer_seeds context.execution_account)
        args.instructions
