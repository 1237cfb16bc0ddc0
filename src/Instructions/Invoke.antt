-- ===== src/Instructions/Invoke.antt =====
-- The loop that runs compiled instructions, which `process_execute_instructions` and
-- `process_execute_instructions_sessioned` share word for word.
pub mod Collect
pub mod Trace
use external_signature_progr.Base.{ℕ, Bool, true, false, not, if◌then◌else◌, List, [], ◌∷◌, ◌++◌}
use external_signature_progr.Base.{set, replicate, bytes_eq, Bytes}
use external_signature_progr.Errors
use external_signature_progr.Errors.{Result, ok, index, assert}
use external_signature_progr.Runtime.{Runtime, AccountInfo, AccountMeta, Instruction, Invocation}
use external_signature_progr.Utils.Instructions.{CompiledInstruction}
use external_signature_progr.World.{M, ◌>>=◌, ◌>>◌, pure, lift, slice_invoke_signed}

-- One pass over the indices: a meta for each, and each index once. `seen_indices` has 64 entries.
unfoldable pub collect :
    List AccountMeta
    → List ℕ
    → List Bool
    → List AccountMeta
    → List ℕ
    → Result (List AccountMeta × List ℕ)
collect metas [] seen account_metas account_info_indices = ok (account_metas, account_info_indices)
collect metas (i ∷ rest) seen account_metas account_info_indices =
    Errors.◌>>=◌ (index metas i) (λ meta. Errors.◌>>=◌ (index seen i) (λ was_seen.
      collect metas rest (set seen i true) (account_metas ++ (meta ∷ []))
        (if was_seen then account_info_indices else account_info_indices ++ (i ∷ []))))

-- The account infos at the indices.
unfoldable pub filter_infos : List AccountInfo → List ℕ → Result (List AccountInfo)
filter_infos infos [] = ok []
filter_infos infos (i ∷ rest) =
    Errors.◌>>=◌ (index infos i)
      (λ info. Errors.◌>>=◌ (filter_infos infos rest) (λ others. ok (info ∷ others)))

-- The body of the loop. The containers are empty when it starts.
unfoldable pub invoke_instruction :
    Runtime → List AccountMeta → List AccountInfo → List Bytes → CompiledInstruction → M (Unit {0})
invoke_instruction rt metas infos signer_seeds instruction = do
  (account_metas, account_info_indices) ←
      lift (collect metas instruction.accounts_indices (replicate 64 false) [] [])
  filtered_account_infos ← lift (filter_infos infos account_info_indices)
  program ← lift (index infos instruction.program_id_index)
  lift (assert (not (bytes_eq program.key rt.id)))
  slice_invoke_signed rt (record {
    instruction = record {
      program_id = program.key;
      input = instruction.input;
      accounts = account_metas;
    };
    account_infos = filtered_account_infos;
    signer_seeds = signer_seeds;
  })

unfoldable pub invoke_instructions :
    Runtime
    → List AccountMeta
    → List AccountInfo
    → List Bytes
    → List CompiledInstruction
    → M (Unit {0})
unfolding invoke_instruction
invoke_instructions rt metas infos signer_seeds [] = pure tt
invoke_instructions rt metas infos signer_seeds (i ∷ rest) = do
  invoke_instruction rt metas infos signer_seeds i
  invoke_instructions rt metas infos signer_seeds rest
