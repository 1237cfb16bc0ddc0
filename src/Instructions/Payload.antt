-- ===== src/Instructions/Payload.antt =====
-- The bytes that a passkey signs (by their hash) for each instruction of src/instructions.
pub mod Domains
pub mod Binding
use external_signature_progr.Base.{ℕ, ◌%◌, Bool, true, false, List, [], ◌∷◌, ◌++◌, Bytes, length}
use external_signature_progr.Base.{Option, none, some, le_bytes, codes}
use external_signature_progr.Borsh.{Borsh}
use external_signature_progr.Errors.{Result, ok, panic, ◌>>=◌, unwrap}
use external_signature_progr.Runtime.{AccountInfo}
use external_signature_progr.State.{SessionKey, session_key_codec}
use external_signature_progr.Utils.Instructions.{CompiledInstruction, compiled_instruction_codec}
use external_signature_progr.Utils.Nonce.{NonceData}

-- `b as u8`
abbrev pub bool_byte : Bool → ℕ
bool_byte true = 1
bool_byte false = 0

-- Key, signer flag and writable flag of each account, as they were passed in.
unfoldable pub accounts_payload : List AccountInfo → Bytes
accounts_payload [] = []
accounts_payload (a ∷ rest) =
    a.key ++ (bool_byte a.is_signer ∷ (bool_byte a.is_writable ∷ accounts_payload rest))

-- `instruction.serialize(&mut instruction_payload).unwrap()` for each instruction.
unfoldable pub instructions_payload : Borsh → List CompiledInstruction → Result Bytes
instructions_payload b [] = ok []
instructions_payload b (i ∷ rest) = do
  bytes ← unwrap ((compiled_instruction_codec b).write i)
  others ← instructions_payload b rest
  ok (bytes ++ others)

abbrev pub nonce_payload : NonceData → Bytes → Bytes
nonce_payload nonce rest = nonce.slothash ++ (nonce.signer_key ++ rest)

-- The payload of `get_instruction_payload_hash`.
unfoldable pub execute_payload :
    Borsh → NonceData → List AccountInfo → List CompiledInstruction → Result Bytes
unfolding accounts_payload
execute_payload b nonce accounts instructions = do
  compiled ← instructions_payload b instructions
  ok (
      nonce_payload nonce (
        codes "execute_instructions"
        ++ ((length accounts % 256)
            ∷ (accounts_payload accounts ++ ((length instructions % 256) ∷ compiled)))))

-- The payload of `get_refresh_session_key_payload_hash`.
unfoldable pub refresh_payload : Borsh → NonceData → SessionKey → Result Bytes
refresh_payload b nonce session_key = do
  bytes ← unwrap ((session_key_codec b).write session_key)
  ok (nonce_payload nonce (codes "refresh_session_key" ++ bytes))

-- The payload of `get_initialization_payload_hash`: the nonce's signer is the rent payer.
unfoldable pub initialization_payload : NonceData → Bytes → Option SessionKey → Bytes
initialization_payload nonce scheme_payload none = nonce_payload nonce scheme_payload
initialization_payload nonce scheme_payload (some s) =
    nonce_payload nonce (scheme_payload ++ (s.key ++ le_bytes 8 s.expiration))
