-- ===== src/Sdk/Compile.antt =====
-- sdks/rust-sdk/src/instructions/execute.rs: `compile_instructions_for_execution`.
pub mod Normalized
pub mod Metas
use external_signature_progr.Base.{
  ℕ, suc, ◌+◌, ◌-◌, ◌%◌, ◌^◌, ltb, if◌then◌else◌, Bytes, Pubkey, List, [], ◌∷◌, length,
}
use external_signature_progr.Runtime.{AccountMeta, Instruction}
use external_signature_progr.Sdk.Types.{
  SdkResult, done, ◌>>=◌, or_fail, serialization_error, Message, Crates,
}
use external_signature_progr.Utils.Instructions.{CompiledInstruction}
use external_signature_progr.Utils.SmallVec.{try_from}

pub record CompiledExecutionPayload : Type 0 where
  pub account_metas : List AccountMeta
  pub instructions : List CompiledInstruction

-- The flags of the key at an index, from the ends of the header's sections.
unfoldable pub meta_at : ℕ → ℕ → ℕ → ℕ → Pubkey → AccountMeta
meta_at writable_signed_end signed_end writable_unsigned_end index key =
    let is_signer = ltb index signed_end in
    record {
      pubkey = key;
      is_signer = is_signer;
      is_writable =
          if is_signer then ltb index writable_signed_end else ltb index writable_unsigned_end;
    }

-- The loop over `account_keys.iter().enumerate()`, from an index.
unfoldable pub metas_from : ℕ → ℕ → ℕ → ℕ → List Pubkey → List AccountMeta
unfolding meta_at
metas_from writable_signed_end signed_end writable_unsigned_end index [] = []
metas_from writable_signed_end signed_end writable_unsigned_end index (key ∷ rest) =
    meta_at writable_signed_end signed_end writable_unsigned_end index key
    ∷ metas_from writable_signed_end signed_end writable_unsigned_end (suc index) rest

-- The subtractions are on u8 and on usize.
unfoldable pub account_metas : Message → List AccountMeta
unfolding metas_from
account_metas message =
    metas_from
      ((message.num_required_signatures + 256 - message.num_readonly_signed_accounts) % 256)
      message.num_required_signatures
      ((length message.account_keys + 2 ^ 64 - message.num_readonly_unsigned_accounts) % 2 ^ 64) 0
      message.account_keys

unfoldable pub normalize : List CompiledInstruction → SdkResult (List CompiledInstruction)
unfolding try_from
normalize [] = done []
normalize (i ∷ rest) = do
  accounts_indices ←
      or_fail (serialization_error "Too many instruction accounts") (try_from 1 i.accounts_indices)
  input ← or_fail (serialization_error "Instruction data too large") (try_from 2 i.input)
  others ← normalize rest
  done (
      record {
        program_id_index = i.program_id_index;
        accounts_indices = accounts_indices;
        input = input;
      }
      ∷ others)

unfoldable pub compile_instructions_for_execution :
    Crates → List Instruction → Pubkey → SdkResult CompiledExecutionPayload
unfolding account_metas normalize try_from
compile_instructions_for_execution crates instructions payer = do
  let message = crates.new_message instructions payer
  normalized ← normalize message.instructions
  compiled ← or_fail (serialization_error "Too many instructions") (try_from 1 normalized)
  done (record { account_metas = account_metas message; instructions = compiled })
