-- ===== src/Tests/Handlers.antt =====
-- The handlers on the scenario's transactions, and what their success proves there.
use external_signature_progr.Base.{
  ◌≡◌, ◌↔◌, refl, Bytes, length, true, false, ◌++◌, ◌∷◌, List, from_le, bytes_eq, le_bytes,
  raw_byte, raw_bytes, from_be,
}
use external_signature_progr.Base.Text.{is_utf8}
use external_signature_progr.Borsh.{derive, fields, read_all, write_all}
use external_signature_progr.Borsh.Reference.{reference}
use external_signature_progr.Errors.{ok, slice}
use external_signature_progr.Instructions.Execute
use external_signature_progr.Instructions.Execute.{process_execute_instructions}
use external_signature_progr.Instructions.Execute.Authorized.{IsAuthorized}
use external_signature_progr.Instructions.ExecuteSessioned
use external_signature_progr.Instructions.ExecuteSessioned.{process_execute_instructions_sessioned}
use external_signature_progr.Instructions.Initialize
use external_signature_progr.Instructions.Initialize.{
  process_initialize_external_account, create_and_allocate_externally_signed_account,
  get_initialization_payload_hash,
}
use external_signature_progr.Instructions.Initialize.Fresh.{IsInitialized}
use external_signature_progr.Utils.Checks.{check_account_uninitialized}
use external_signature_progr.State.P256Webauthn.{
  raw_initialization_codec, parse_initialization_data, new_rp_id_information, contains,
  initialization_derive_args,
}
use external_signature_progr.State.P256Webauthn.Scheme.{set_session_key}
use external_signature_progr.State.P256Webauthn
use external_signature_progr.Tests.Scenario.{blank_world, initialize_infos, initialize_input}
use external_signature_progr.Instructions.Invoke.{
  collect, filter_infos, invoke_instruction, invoke_instructions,
}
use external_signature_progr.Instructions.Payload.{
  execute_payload, accounts_payload, instructions_payload, refresh_payload,
}
use external_signature_progr.Instructions.Refresh
use external_signature_progr.Instructions.Refresh.{process_refresh_session_key}
use external_signature_progr.Instructions.Refresh.Authorized
use external_signature_progr.Instructions.Refresh.Authorized.{
  process_refresh_session_key-IsAuthorized,
}
use external_signature_progr.Instructions.Execute.Exact.{process_execute_instructions_exact}
use external_signature_progr.Instructions.Refresh.Exact.{process_refresh_session_key_exact}
use external_signature_progr.Instructions.Initialize.Exact.{
  process_initialize_external_account_exact,
}
use external_signature_progr.Runtime.{AccountInfo}
use external_signature_progr.State.{to_signer_seeds, session_key_codec}
use external_signature_progr.State.Account
use external_signature_progr.State.Account.{data_ref, header, bytes_of, with_data, write_data}
use external_signature_progr.State.P256Webauthn.{
  raw_verification_codec, parse_verification_data, new_public_key, verification_derive_args,
  to_bytes,
}
use external_signature_progr.State.P256Webauthn.Layout.{encode, decode}
use external_signature_progr.State.P256Webauthn.Scheme
use external_signature_progr.State.P256Webauthn.Scheme.{
  derive_account, verify_message, update_counter, latest_expiration,
}
use external_signature_progr.Tests.Scenario.{
  runtime, runtime_with, world, accounts, account_infos, execution_infos, external_info,
  session_info, execute_input, sessioned_input, refresh_input, after, info, key_of, account_key,
  program_id,
}
use external_signature_progr.Utils.Instructions.{
  compiled_instruction_codec, create_instruction_execution_account_metas, account_meta, signer_meta,
}
use external_signature_progr.Utils.Nonce
use external_signature_progr.Utils.Nonce.{
  validate_nonce, get_index_difference, find_slot_hash_with_fallback, search_from,
  reverse_linear_search_slot_hash,
}
use external_signature_progr.Utils.Precompiles
use external_signature_progr.Utils.Precompiles.{
  secp256r1_precompile, num_signatures, get_signature_payload, load_payload, load_offsets,
  offsets_of_bytes, load_part, get_data_slice,
}
use external_signature_progr.Utils.Sha256.{hash, hashv}
use external_signature_progr.Utils.Signatures.AuthenticatorData.{
  is_user_present, rp_id_hash, get_counter,
}
use external_signature_progr.Utils.Signatures.ClientDataJson.{
  reconstruct_client_data_json, params_codec,
}
use external_signature_progr.Utils.SlotHashes
use external_signature_progr.Utils.SlotHashes.{
  get_slot_hash, get_slothashes_len, get_slot_hash_unchecked,
}
use external_signature_progr.Utils.SmallVec.{
  small_vec, deserialize_reader, read_items, serialize, serialize_slice,
}
use external_signature_progr.World.{World, slice_invoke_signed}

abbrev sessioned_infos : List AccountInfo
sessioned_infos = external_info ∷ session_info ∷ execution_infos

pub sessioned_run :
    (w' : World) × (process_execute_instructions_sessioned runtime reference sessioned_infos
        sessioned_input world
      ≡ ok (tt, w'))
unfolding process_execute_instructions_sessioned ExecuteSessioned.load ExecuteSessioned.load_context
    ExecuteSessioned.args_codec derive fields from_le small_vec deserialize_reader read_items
    compiled_instruction_codec read_all Account.load accounts bytes_eq encode le_bytes
    Account.is_valid_session_key Scheme.is_valid_session_key data_ref header bytes_of slice decode
    Account.get_execution_account create_instruction_execution_account_metas account_meta
    signer_meta to_signer_seeds invoke_instructions invoke_instruction collect filter_infos
    slice_invoke_signed
sessioned_run = (
  after (
      process_execute_instructions_sessioned runtime reference sessioned_infos sessioned_input
        world),
  refl,
)

abbrev pub execute_infos : List AccountInfo
execute_infos = account_infos ++ execution_infos

pub hash_length : (bs : Bytes) → length (hash runtime bs) ≡ 32
unfolding hash hashv
hash_length bs = refl

pub execute_run :
    (w' : World) × (process_execute_instructions runtime reference execute_infos execute_input world
      ≡ ok (tt, w'))
unfolding process_execute_instructions Execute.load Execute.load_context Execute.args_codec
    Execute.parse_extra_verification_data Execute.get_instruction_payload_hash execute_payload
    accounts_payload instructions_payload write_all serialize serialize_slice raw_verification_codec
    params_codec parse_verification_data new_public_key verification_derive_args to_bytes
    Account.check_account Scheme.check_account derive_account hash hashv SlotHashes.try_from
    get_slot_hash get_slothashes_len get_slot_hash_unchecked raw_byte raw_bytes Nonce.new
    validate_nonce get_index_difference find_slot_hash_with_fallback search_from
    reverse_linear_search_slot_hash Account.verify_payload with_data write_data
    Scheme.verify_payload verify_message update_counter Precompiles.new secp256r1_precompile
    num_signatures get_signature_payload load_payload load_offsets offsets_of_bytes load_part
    get_data_slice is_user_present rp_id_hash get_counter from_be reconstruct_client_data_json
    is_utf8 derive fields from_le small_vec deserialize_reader read_items compiled_instruction_codec
    read_all Account.load accounts bytes_eq encode le_bytes data_ref header bytes_of slice decode
    Account.get_execution_account create_instruction_execution_account_metas account_meta
    signer_meta to_signer_seeds invoke_instructions invoke_instruction collect filter_infos
    slice_invoke_signed
execute_run =
    (after (process_execute_instructions runtime reference execute_infos execute_input world), refl)

pub refresh_run :
    (w' : World) × (process_refresh_session_key runtime reference account_infos refresh_input world
      ≡ ok (tt, w'))
unfolding process_refresh_session_key Refresh.load Refresh.load_context Refresh.args_codec
    Refresh.parse_refresh_verification_data Refresh.get_refresh_session_key_payload_hash
    refresh_payload session_key_codec Account.update_session_key Scheme.update_session_key
    latest_expiration write_all serialize serialize_slice raw_verification_codec params_codec
    parse_verification_data new_public_key verification_derive_args to_bytes Account.check_account
    Scheme.check_account derive_account hash hashv SlotHashes.try_from get_slot_hash
    get_slothashes_len get_slot_hash_unchecked raw_byte raw_bytes Nonce.new validate_nonce
    get_index_difference find_slot_hash_with_fallback search_from reverse_linear_search_slot_hash
    Account.verify_payload with_data write_data Scheme.verify_payload verify_message update_counter
    Precompiles.new secp256r1_precompile num_signatures get_signature_payload load_payload
    load_offsets offsets_of_bytes load_part get_data_slice is_user_present rp_id_hash get_counter
    from_be reconstruct_client_data_json is_utf8 derive fields from_le small_vec deserialize_reader
    read_items read_all Account.load accounts bytes_eq encode le_bytes data_ref header bytes_of
    slice decode
refresh_run =
    (after (process_refresh_session_key runtime reference account_infos refresh_input world), refl)

-- The session that the refresh has opened.
abbrev pub new_signer : AccountInfo
new_signer = info (key_of 14) true false

pub new_session_run :
    (w' : World) × (process_execute_instructions_sessioned runtime reference
        (external_info ∷ new_signer ∷ execution_infos)
        sessioned_input
        refresh_run.0
      ≡ ok (tt, w'))
unfolding refresh_run process_refresh_session_key Refresh.load Refresh.load_context
    Refresh.args_codec Refresh.parse_refresh_verification_data
    Refresh.get_refresh_session_key_payload_hash refresh_payload session_key_codec
    Account.update_session_key Scheme.update_session_key latest_expiration write_all serialize
    serialize_slice raw_verification_codec params_codec parse_verification_data new_public_key
    verification_derive_args to_bytes Account.check_account Scheme.check_account derive_account hash
    hashv SlotHashes.try_from get_slot_hash get_slothashes_len get_slot_hash_unchecked raw_byte
    raw_bytes Nonce.new validate_nonce get_index_difference find_slot_hash_with_fallback search_from
    reverse_linear_search_slot_hash Account.verify_payload with_data write_data
    Scheme.verify_payload verify_message update_counter Precompiles.new secp256r1_precompile
    num_signatures get_signature_payload load_payload load_offsets offsets_of_bytes load_part
    get_data_slice is_user_present rp_id_hash get_counter from_be reconstruct_client_data_json
    is_utf8 derive fields from_le small_vec deserialize_reader read_items read_all Account.load
    accounts bytes_eq encode le_bytes data_ref header bytes_of slice decode
    process_execute_instructions_sessioned ExecuteSessioned.load ExecuteSessioned.load_context
    ExecuteSessioned.args_codec compiled_instruction_codec Account.is_valid_session_key
    Scheme.is_valid_session_key Account.get_execution_account
    create_instruction_execution_account_metas account_meta signer_meta to_signer_seeds
    invoke_instructions invoke_instruction collect filter_infos slice_invoke_signed
new_session_run = (
  after (
      process_execute_instructions_sessioned runtime reference
        (external_info ∷ new_signer ∷ execution_infos) sessioned_input refresh_run.0),
  refl,
)

pub initialize_run :
    (w' : World) × (process_initialize_external_account runtime reference initialize_infos
        initialize_input blank_world
      ≡ ok (tt, w'))
    × ((w'.accounts account_key).owner ≡ program_id)
unfolding process_initialize_external_account Initialize.load Initialize.load_context
    Initialize.args_codec Initialize.parse_raw_initialization_data
    create_and_allocate_externally_signed_account get_initialization_payload_hash
    check_account_uninitialized raw_initialization_codec parse_initialization_data
    new_rp_id_information contains initialization_derive_args P256Webauthn.seeds Account.reload
    Account.initialize_account Account.initialize_header Scheme.initialize_account set_session_key
    Account.verify_initialization_payload Scheme.verify_initialization_payload session_key_codec
    latest_expiration params_codec new_public_key to_bytes derive_account hash hashv
    SlotHashes.try_from get_slot_hash get_slothashes_len get_slot_hash_unchecked raw_byte raw_bytes
    Nonce.new validate_nonce get_index_difference find_slot_hash_with_fallback search_from
    reverse_linear_search_slot_hash with_data write_data Scheme.verify_payload verify_message
    update_counter Precompiles.new secp256r1_precompile num_signatures get_signature_payload
    load_payload load_offsets offsets_of_bytes load_part get_data_slice is_user_present rp_id_hash
    get_counter from_be reconstruct_client_data_json is_utf8 derive fields from_le small_vec
    deserialize_reader read_items read_all Account.load bytes_eq encode le_bytes data_ref header
    bytes_of slice decode
initialize_run = (
  after (
      process_initialize_external_account runtime reference initialize_infos initialize_input
        blank_world),
  refl,
  refl,
)

process_execute_instructions_exact_example :
    (process_execute_instructions runtime reference execute_infos execute_input world
      ≡ ok (tt, execute_run.0))
    ↔ IsAuthorized runtime reference execute_infos execute_input world execute_run.0
process_execute_instructions_exact_example =
    process_execute_instructions_exact runtime reference execute_infos execute_input world
      execute_run.0 hash_length

process_refresh_session_key_exact_example :
    (process_refresh_session_key runtime reference account_infos refresh_input world
      ≡ ok (tt, refresh_run.0))
    ↔ Authorized.IsAuthorized runtime reference account_infos refresh_input world refresh_run.0
process_refresh_session_key_exact_example =
    process_refresh_session_key_exact runtime reference account_infos refresh_input world
      refresh_run.0 hash_length

process_initialize_external_account_exact_example :
    (process_initialize_external_account runtime reference initialize_infos initialize_input
        blank_world
      ≡ ok (tt, initialize_run.0))
    ↔ IsInitialized runtime reference initialize_infos initialize_input blank_world initialize_run.0
process_initialize_external_account_exact_example =
    process_initialize_external_account_exact runtime reference initialize_infos initialize_input
      blank_world initialize_run.0 hash_length

-- An execution after the refresh, with the next assertion.
pub next_execute_run :
    (w' : World) × (process_execute_instructions
        (runtime_with 6)
        reference
        execute_infos
        execute_input
        refresh_run.0
      ≡ ok (tt, w'))
unfolding refresh_run process_refresh_session_key Refresh.load Refresh.load_context
    Refresh.args_codec Refresh.parse_refresh_verification_data
    Refresh.get_refresh_session_key_payload_hash refresh_payload session_key_codec
    Account.update_session_key Scheme.update_session_key latest_expiration write_all serialize
    serialize_slice raw_verification_codec params_codec parse_verification_data new_public_key
    verification_derive_args to_bytes Account.check_account Scheme.check_account derive_account hash
    hashv SlotHashes.try_from get_slot_hash get_slothashes_len get_slot_hash_unchecked raw_byte
    raw_bytes Nonce.new validate_nonce get_index_difference find_slot_hash_with_fallback search_from
    reverse_linear_search_slot_hash Account.verify_payload with_data write_data
    Scheme.verify_payload verify_message update_counter Precompiles.new secp256r1_precompile
    num_signatures get_signature_payload load_payload load_offsets offsets_of_bytes load_part
    get_data_slice is_user_present rp_id_hash get_counter from_be reconstruct_client_data_json
    is_utf8 derive fields from_le small_vec deserialize_reader read_items read_all Account.load
    accounts bytes_eq encode le_bytes data_ref header bytes_of slice decode
    compiled_instruction_codec Account.get_execution_account
    create_instruction_execution_account_metas account_meta signer_meta to_signer_seeds
    invoke_instructions invoke_instruction collect filter_infos slice_invoke_signed
    process_execute_instructions Execute.load Execute.load_context Execute.args_codec
    Execute.parse_extra_verification_data Execute.get_instruction_payload_hash execute_payload
    accounts_payload instructions_payload
next_execute_run = (
  after (
      process_execute_instructions (runtime_with 6) reference execute_infos execute_input
        refresh_run.0),
  refl,
)
