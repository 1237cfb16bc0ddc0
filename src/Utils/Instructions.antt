-- ===== src/Utils/Instructions.antt =====
-- src/utils/instructions.rs: compiled instructions and the metas they run with.
pub mod Metas
use external_signature_progr.Base.{ℕ, Bool, true, false, if◌then◌else◌, List, map, Bytes, bytes_eq}
use external_signature_progr.Borsh.{Codec, Borsh, fields, derive}
use external_signature_progr.Runtime.{AccountInfo, AccountMeta}
use external_signature_progr.State.{
  ExecutionAccount, SignerExecutionScheme, execution_account, external_account,
}
use external_signature_progr.Utils.SmallVec.{small_vec}

pub record CompiledInstruction : Type 0 where
  pub program_id_index : ℕ
  pub accounts_indices : List ℕ
  pub input : Bytes

unfoldable pub compiled_instruction_codec : Borsh → Codec CompiledInstruction
compiled_instruction_codec b =
    derive (λ p. record { program_id_index = p.0; accounts_indices = p.1.0; input = p.1.1 })
      (λ i. (i.program_id_index, (i.accounts_indices, i.input)))
      (fields (b.int 1) (fields (small_vec (b.int 1) b 1) (small_vec (b.int 1) b 2)))

-- The meta of the account that the program signs for.
unfoldable pub signer_meta : SignerExecutionScheme → AccountInfo → AccountMeta
signer_meta external_account account = record {
  pubkey = account.key;
  is_writable = false;
  is_signer = true;
}
signer_meta execution_account account = record {
  pubkey = account.key;
  is_writable = account.is_writable;
  is_signer = true;
}

unfoldable pub account_meta : ExecutionAccount → SignerExecutionScheme → AccountInfo → AccountMeta
unfolding signer_meta
account_meta e scheme account =
    if bytes_eq account.key e.key then signer_meta scheme account else record {
      pubkey = account.key;
      is_writable = account.is_writable;
      is_signer = account.is_signer;
    }

unfoldable pub create_instruction_execution_account_metas :
    List AccountInfo → ExecutionAccount → SignerExecutionScheme → List AccountMeta
create_instruction_execution_account_metas accounts e scheme = map (account_meta e scheme) accounts
