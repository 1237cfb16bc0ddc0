-- ===== src/Entrypoint.antt =====
-- src/entrypoint.rs: the first byte of the input chooses the instruction.
use external_signature_progr.Base.{◌==◌, if◌then◌else◌, List, [], ◌∷◌, Bytes}
use external_signature_progr.Borsh.{Borsh}
use external_signature_progr.Errors.{err, invalid_instruction_data}
use external_signature_progr.Instructions.Execute.{process_execute_instructions}
use external_signature_progr.Instructions.ExecuteSessioned.{process_execute_instructions_sessioned}
use external_signature_progr.Instructions.Initialize.{process_initialize_external_account}
use external_signature_progr.Instructions.Refresh.{process_refresh_session_key}
use external_signature_progr.Runtime.{Runtime, AccountInfo}
use external_signature_progr.World.{M, lift}

unfoldable pub process_instruction : Runtime → Borsh → List AccountInfo → Bytes → M (Unit {0})
process_instruction rt b accounts [] = lift (err invalid_instruction_data)
process_instruction rt b accounts (discriminator ∷ input) =
    if discriminator == 0
    then process_initialize_external_account rt b accounts input
    else if discriminator == 1
    then process_execute_instructions rt b accounts input
    else if discriminator == 2
    then process_refresh_session_key rt b accounts input
    else if discriminator == 3
    then process_execute_instructions_sessioned rt b accounts input
    else lift (err invalid_instruction_data)
