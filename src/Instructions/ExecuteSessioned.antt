-- ===== src/Instructions/ExecuteSessioned.antt =====
-- src/instructions/execute_instructions_sessioned.rs
pub mod Authorized
pub mod Live
use external_signature_progr.Base.{ℕ, List, [], ◌∷◌, Bytes}
use external_signature_progr.Borsh.{Codec, Borsh, fields, derive}
use external_signature_progr.Errors.{
  into, ok_or, err, not_enough_account_keys, invalid_signer_execution_scheme,
  invalid_execution_args, invalid_signature_scheme,
}
use external_signature_progr.Instructions.Invoke.{invoke_instructions}
use external_signature_progr.Runtime.{Runtime, AccountInfo, AccountMeta}
use external_signature_progr.State.{
  ExecutionAccount, signature_scheme_try_from, signer_execution_scheme_try_from, to_signer_seeds,
}
use external_signature_progr.State.Account
use external_signature_progr.State.Account.{ExternallySignedAccount}
use external_signature_progr.Utils.Instructions.{
  CompiledInstruction, compiled_instruction_codec, create_instruction_execution_account_metas,
}
use external_signature_progr.Utils.SmallVec.{small_vec}
use external_signature_progr.World.{M, ◌>>=◌, ◌>>◌, pure, lift}

pub record ExecutableInstructionSessionedArgs : Type 0 where
  pub signature_scheme : ℕ
  pub signer_execution_scheme : ℕ
  pub instructions : List CompiledInstruction

unfoldable pub args_codec : Borsh → Codec ExecutableInstructionSessionedArgs
args_codec b =
    derive
      (λ p. record {
        signature_scheme = p.0;
        signer_execution_scheme = p.1.0;
        instructions = p.1.1;
      })
      (λ a. (a.signature_scheme, (a.signer_execution_scheme, a.instructions)))
      (fields (b.int 1) (fields (b.int 1) (small_vec (compiled_instruction_codec b) b 1)))

-- `ExecuteInstructionsSessionedContext`, with its accounts.
pub record ExecuteInstructionsSessionedContext : Type 0 where
  pub externally_signed_account : ExternallySignedAccount
  pub session_signer : AccountInfo
  pub instruction_execution_accounts : List AccountInfo
  pub execution_account : ExecutionAccount
  pub instructions : List CompiledInstruction
  pub instruction_execution_account_metas : List AccountMeta

module _ (rt : Runtime) where
  -- `load` behind the pattern for the account list.
  unfoldable pub load_context :
      AccountInfo
      → AccountInfo
      → List AccountInfo
      → ExecutableInstructionSessionedArgs
      → M ExecuteInstructionsSessionedContext
  load_context external_account session_signer execution_accounts args = do
    externally_signed_account ← Account.load rt external_account
    Account.is_valid_session_key rt externally_signed_account session_signer
    signer_execution_scheme ← lift (
        ok_or (into invalid_signer_execution_scheme)
          (signer_execution_scheme_try_from args.signer_execution_scheme))
    executing_account ←
        Account.get_execution_account rt externally_signed_account signer_execution_scheme
    pure (record {
      externally_signed_account = externally_signed_account;
      session_signer = session_signer;
      instruction_execution_accounts = execution_accounts;
      execution_account = executing_account;
      instructions = args.instructions;
      instruction_execution_account_metas =
          create_instruction_execution_account_metas execution_accounts executing_account
            signer_execution_scheme;
    })

  unfoldable pub load :
      List AccountInfo → ExecutableInstructionSessionedArgs → M ExecuteInstructionsSessionedContext
  unfolding load_context
  load (external_account ∷ session_signer ∷ execution_accounts) args =
      load_context external_account session_signer execution_accounts args
  load account_infos args = lift (err not_enough_account_keys)

  unfoldable pub process_execute_instructions_sessioned :
      Borsh → List AccountInfo → Bytes → M (Unit {0})
  unfolding load
  process_execute_instructions_sessioned b account_infos input = do
    args ← lift (
        ok_or (into invalid_execution_args)
          (b.try_from_slice ExecutableInstructionSessionedArgs (args_codec b) input))
    signature_scheme ←
        lift
          (ok_or (into invalid_signature_scheme) (signature_scheme_try_from args.signature_scheme))
    context ← load account_infos args
    invoke_instructions rt context.instruction_execution_account_metas
        context.instruction_execution_accounts (to_signer_seeds context.execution_account)
        args.instructions
