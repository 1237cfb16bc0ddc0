-- ===== src/Tests/Payloads.antt =====
-- What the scenario's passkey signs.
use external_signature_progr.Base.{
  ℕ, ◌+◌, ◌<◌, le_bytes, ◌≡◌, ◌≢◌, refl, Bytes, List, [], ◌∷◌, map, All, none, some, arith,
}
use external_signature_progr.Base.Text.{is_utf8}
use external_signature_progr.Borsh.Laws.{
  RoundTrips, fields-RoundTrips, derive-RoundTrips, int-RoundTrips,
}
use external_signature_progr.Borsh.{derive, fields, write_all}
use external_signature_progr.Borsh.Reference.{reference, reference-IsBorsh}
use external_signature_progr.Errors.{Result, ok}
use external_signature_progr.Instructions.Payload.{
  execute_payload, accounts_payload, instructions_payload, refresh_payload, initialization_payload,
}
use external_signature_progr.Instructions.Payload.Binding.{
  IsWritable, IsExecution, execute_payload-injective,
}
use external_signature_progr.Instructions.Payload.Domains.{IsNonce, payloads_disjoint}
use external_signature_progr.State.{SessionKey}
use external_signature_progr.State.P256Webauthn.Scheme
use external_signature_progr.Tests.Scenario.{runtime, key_of, execution_infos, instruction}
use external_signature_progr.Utils.Instructions.{CompiledInstruction, compiled_instruction_codec}
use external_signature_progr.Utils.Nonce.{NonceData}
use external_signature_progr.Utils.Signatures.ClientDataJson.{
  ClientDataJsonReconstructionParams, reconstruct_client_data_json, json_bytes,
}
use external_signature_progr.Utils.Signatures.ClientDataJson.Binding.{
  IsBase64Url, reconstruct_client_data_json_binds,
}
use external_signature_progr.Utils.SmallVec.{small_vec, serialize, serialize_slice}
use external_signature_progr.Utils.SmallVec.RoundTrip.{small_vec-RoundTrips}

abbrev nonce : NonceData
nonce = record { signer_key = key_of 12; slothash = key_of 11 }

nonce-IsNonce : IsNonce nonce
nonce-IsNonce = record { slothash_length = refl; signer_key_length = refl }

byte-RoundTrips : (v : ℕ) → v < 256 → RoundTrips (reference.int 1) v
byte-RoundTrips v h = int-RoundTrips reference reference-IsBorsh 1 v (omega arith)

instruction-IsWritable : IsWritable reference instruction
unfolding compiled_instruction_codec
instruction-IsWritable =
    let byte-IsCodec = reference-IsBorsh.int-IsCodec 1 in
    let indices = small_vec (reference.int 1) reference 1 in
    let bytes = small_vec (reference.int 1) reference 2 in
    derive-RoundTrips {A = ℕ × (List ℕ × Bytes)} {B = CompiledInstruction}
      (λ p. record { program_id_index = p.0; accounts_indices = p.1.0; input = p.1.1 })
      (λ i. (i.program_id_index, (i.accounts_indices, i.input)))
      (fields (reference.int 1) (fields indices bytes)) (3, (1 ∷ 2 ∷ 1 ∷ [], 42 ∷ [])) refl
      (fields-RoundTrips (reference.int 1) (fields indices bytes) 3 (1 ∷ 2 ∷ 1 ∷ [], 42 ∷ [])
        (byte-RoundTrips 3 (omega arith))
        (fields-RoundTrips indices bytes (1 ∷ 2 ∷ 1 ∷ []) (42 ∷ [])
          (small_vec-RoundTrips (reference.int 1) byte-IsCodec reference reference-IsBorsh 1
            (1 ∷ 2 ∷ 1 ∷ []) (omega arith)
            (
              byte-RoundTrips 1 (omega arith),
              (byte-RoundTrips 2 (omega arith), (byte-RoundTrips 1 (omega arith), tt)),
            ))
          (small_vec-RoundTrips (reference.int 1) byte-IsCodec reference reference-IsBorsh 2
            (42 ∷ []) (omega arith) (byte-RoundTrips 42 (omega arith), tt))))

scenario-IsExecution : IsExecution reference execution_infos (instruction ∷ [])
scenario-IsExecution = record {
  few_accounts = omega arith;
  keys = (refl, (refl, (refl, (refl, tt))));
  few_instructions = omega arith;
  writable = (instruction-IsWritable, tt);
}

abbrev value : Result Bytes → Bytes
value r = elim r [ ok bytes ↦ bytes | _ ↦ [] ]

payload : (p : Bytes) × (execute_payload reference nonce execution_infos (instruction ∷ []) ≡ ok p)
unfolding execute_payload accounts_payload instructions_payload compiled_instruction_codec derive
    fields small_vec serialize serialize_slice write_all le_bytes
payload = (value (execute_payload reference nonce execution_infos (instruction ∷ [])), refl)

execute_payload-injective_example :
    (nonce ≡ nonce) × (execution_infos ≡ execution_infos) × (instruction ∷ [] ≡ instruction ∷ [])
execute_payload-injective_example =
    execute_payload-injective reference nonce nonce execution_infos execution_infos
      (instruction ∷ []) (instruction ∷ []) payload.0 nonce-IsNonce nonce-IsNonce
      scenario-IsExecution scenario-IsExecution payload.1 payload.1

abbrev session_key : SessionKey
session_key = record { key = key_of 14; expiration = 600 }

payloads_disjoint_example :
    ((p : Bytes)
      → execute_payload reference nonce execution_infos (instruction ∷ []) ≡ ok p
      → refresh_payload reference nonce session_key ≢ ok p)
    × (execute_payload reference nonce execution_infos (instruction ∷ [])
        ≢ ok (initialization_payload nonce Scheme.get_initialization_payload none))
    × (refresh_payload reference nonce session_key
        ≢ ok (initialization_payload nonce Scheme.get_initialization_payload none))
payloads_disjoint_example =
    payloads_disjoint reference nonce nonce execution_infos (instruction ∷ []) session_key none
      nonce-IsNonce nonce-IsNonce

shift-injective : (a b : Bytes) → map (λ c. c + 35) a ≡ map (λ c. c + 35) b → a ≡ b
shift-injective [] [] e = refl
shift-injective [] (y ∷ ys) e = cc
shift-injective (x ∷ xs) [] e = cc
shift-injective (x ∷ xs) (y ∷ ys) e = ground (arith, shift-injective xs ys)

shift_unquoted : (a : Bytes) → All (λ c. c ≢ b'"') (map (λ c. c + 35) a)
shift_unquoted [] = tt
shift_unquoted (x ∷ xs) = (λ h. omega (arith, h), shift_unquoted xs)

shift-IsBase64Url : IsBase64Url runtime
shift-IsBase64Url = record { injective = shift-injective; unquoted = shift_unquoted }

abbrev params : ClientDataJsonReconstructionParams
params = record { type_and_flags = 0x10; port = some 8080 }

abbrev challenge : Bytes
challenge = 1 ∷ 2 ∷ []

abbrev json : Bytes
json = json_bytes runtime params (104 ∷ []) challenge

reconstructed : reconstruct_client_data_json runtime params (104 ∷ []) challenge ≡ ok json
unfolding reconstruct_client_data_json is_utf8
reconstructed = refl

reconstruct_client_data_json_binds_example : challenge ≡ challenge
reconstruct_client_data_json_binds_example =
    reconstruct_client_data_json_binds runtime params params (104 ∷ []) (104 ∷ []) challenge
      challenge json shift-IsBase64Url reconstructed reconstructed
