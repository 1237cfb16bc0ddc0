-- ===== src/Tests/Scenario.antt =====
-- A ledger with one account of the program, and the transactions that its passkey and its session
-- key authorize.
use external_signature_progr.Base.{
  ℕ, ◌+◌, ◌==◌, if◌then◌else◌, Bool, true, false, List, [], ◌∷◌, ◌++◌, map, Bytes, Pubkey, none,
  some, replicate, codes, get_or,
}
use external_signature_progr.Errors.{Result, ok, err, invalid_argument}
use external_signature_progr.Runtime.{
  Runtime, AccountInfo, AccountState, IntrospectedInstruction, Instructions, Accounts, update,
}
use external_signature_progr.State.P256Webauthn.{
  P256WebauthnAccountData, P256ParsedVerificationData,
}
use external_signature_progr.State.P256Webauthn.Layout.{encode}
use external_signature_progr.Utils.Instructions.{CompiledInstruction}
use external_signature_progr.Utils.SlotHashes.{slot_hashes_id, SlotHashes}
use external_signature_progr.World.{World}

abbrev pub key_of : ℕ → Pubkey
key_of n = replicate 32 n

-- The public key 2, 9, …, 9, and the program's own accounts.
abbrev pub passkey : Bytes
passkey = 2 ∷ key_of 9

abbrev pub program_id : Pubkey
program_id = key_of 1

abbrev pub account_key : Pubkey
account_key = key_of 5

-- An assertion with the user present and a small counter, over a hash of sevens.
abbrev pub message_with : ℕ → Bytes
message_with counter = key_of 7 ++ (1 ∷ 0 ∷ 0 ∷ 0 ∷ counter ∷ []) ++ key_of 7

abbrev pub message : Bytes
message = message_with 5

-- One signature: its offsets, all in this instruction, then signature, key and message.
abbrev pub precompile_with : ℕ → IntrospectedInstruction
precompile_with counter = record {
  program_id = key_of 3;
  bytes =
      (1 ∷ 0 ∷ [])
      ++ (16 ∷ 0 ∷ [])
      ++ (255 ∷ 255 ∷ [])
      ++ (80 ∷ 0 ∷ [])
      ++ (255 ∷ 255 ∷ [])
      ++ (113 ∷ 0 ∷ [])
      ++ (69 ∷ 0 ∷ [])
      ++ (255 ∷ 255 ∷ [])
      ++ replicate 64 0
      ++ passkey
      ++ message_with counter;
  address = 0;
  beyond = λ i. 0;
}

abbrev pub precompile : IntrospectedInstruction
precompile = precompile_with 5

abbrev pub transaction_with : ℕ → Instructions
transaction_with counter i = if i == 0 then ok (precompile_with counter) else err invalid_argument

abbrev pub transaction : Instructions
transaction = transaction_with 5

-- Two slots, the most recent one first.
abbrev pub table : SlotHashes
table = record {
  bytes =
      (2 ∷ replicate 7 0)
      ++ (64 ∷ 226 ∷ 1 ∷ replicate 5 0)
      ++ key_of 10
      ++ (62 ∷ 226 ∷ 1 ∷ replicate 5 0)
      ++ key_of 11;
  beyond = λ i. 0;
}

-- Hashes are all sevens. The execution account has the key 6, and passkey accounts the key 5.
abbrev pub runtime_with : ℕ → Runtime
runtime_with counter = record {
  id = program_id;
  system_id = key_of 2;
  secp256r1_precompile_id = key_of 3;
  legacy_secp256k1_precompile_id = key_of 4;
  sha256 = λ bs. key_of 7;
  stack_height = 1;
  clock = ok 1000;
  minimum_balance = λ space. ok 0;
  find_program_address = λ seeds id. elim seeds [
    | first ∷ _ ↦ if get_or first 0 0 == b'p' then some (account_key, 255) else some (key_of 6, 254)
    | [] ↦ none
  ];
  instructions = λ info. ok (transaction_with counter);
  is_aligned = λ address alignment. true;
  base64_url = map (λ c. c + 35);
  transfer = λ from to lamports accounts. ok accounts;
  allocate = λ key space seeds accounts.
      ok (update accounts key (record (accounts key) { bytes = replicate space 0 }));
  assign = λ key owner seeds accounts.
      ok (update accounts key (record (accounts key) { owner = owner }));
  invoke = λ call accounts. ok accounts;
}

-- The runtime of the transaction whose assertion has the counter 5.
abbrev pub runtime : Runtime
runtime = runtime_with 5

-- The counter is 4, and the session key 8 lives until 5000.
abbrev pub stored : P256WebauthnAccountData
stored = record {
  header = record { version = 1; scheme = 0; reserved = 0 ∷ 0 ∷ [] };
  rp_id_info = record {
    rp_id_len = 11;
    rp_id = codes "example.com" ++ replicate 21 0;
    rp_id_hash = key_of 7;
  };
  public_key = record { x = key_of 9; y_parity = 2 };
  padding = 0 ∷ 0 ∷ [];
  session_key = record { key = key_of 8; expiration = 5000 };
  counter = 4;
}

abbrev pub extra : P256ParsedVerificationData
extra = record {
  public_key = record { x = key_of 9; y_parity = 2 };
  params = record { type_and_flags = 0x10; port = none };
}

abbrev pub state : Pubkey → Bytes → AccountState
state owner bytes = record {
  owner = owner;
  lamports = 1;
  bytes = bytes;
  address = 0;
  beyond = λ i. 0;
}

unfoldable pub accounts : Accounts
unfolding encode
accounts key =
    if get_or key 1 0 == 5
    then state program_id (encode stored)
    else if get_or key 1 0 == 0xa7
    then state (key_of 2) table.bytes
    else state (key_of 2) []

abbrev pub world : World
world = record { accounts = accounts; invoked = [] }

abbrev pub info : Pubkey → Bool → Bool → AccountInfo
info key is_signer is_writable = record {
  key = key;
  is_signer = is_signer;
  is_writable = is_writable;
}

abbrev pub external_info : AccountInfo
external_info = info account_key false true

abbrev pub signer_info : AccountInfo
signer_info = info (key_of 12) true true

abbrev pub session_info : AccountInfo
session_info = info (key_of 8) true false

-- The account list in front of the instructions' own accounts.
abbrev pub account_infos : List AccountInfo
account_infos =
    external_info
    ∷ info (key_of 13) false false
    ∷ info slot_hashes_id false false
    ∷ signer_info
    ∷ []

-- A payer who signs, the execution account, the passkey's account and a program.
abbrev pub infos_of : Pubkey → List AccountInfo
infos_of payer =
    info payer true true
    ∷ info (key_of 6) false true
    ∷ external_info
    ∷ info (key_of 20) false false
    ∷ []

abbrev pub execution_infos : List AccountInfo
execution_infos = infos_of (key_of 12)

abbrev pub instruction : CompiledInstruction
instruction = record { program_id_index = 3; accounts_indices = 1 ∷ 2 ∷ 1 ∷ []; input = 42 ∷ [] }

abbrev pub verification_bytes : Bytes
verification_bytes = passkey ++ (0x10 ∷ 0 ∷ [])

-- Scheme, execution scheme, truncated slot 454, verification data, one instruction.
abbrev pub execute_input : Bytes
execute_input =
    (0 ∷ 0 ∷ [])
    ++ (198 ∷ 1 ∷ [])
    ++ (35 ∷ verification_bytes)
    ++ (1 ∷ 3 ∷ 3 ∷ 1 ∷ 2 ∷ 1 ∷ 1 ∷ 0 ∷ 42 ∷ [])

abbrev pub sessioned_input : Bytes
sessioned_input = 0 ∷ 0 ∷ 1 ∷ 3 ∷ 3 ∷ 1 ∷ 2 ∷ 1 ∷ 1 ∷ 0 ∷ 42 ∷ []

-- The new session key 14, for 600 seconds.
abbrev pub refresh_input : Bytes
refresh_input =
    (198 ∷ 1 ∷ []) ++ (0 ∷ 35 ∷ verification_bytes) ++ key_of 14 ++ (88 ∷ 2 ∷ replicate 6 0)

-- The world that a run leaves.
abbrev pub after : Result (Unit {0} × World) → World
after r = elim r [ ok p ↦ p.1 | _ ↦ world ]

-- The ledger before the account is made.
abbrev pub blank_world : World
blank_world = record {
  accounts =
      λ key. if get_or key 1 0 == 0xa7 then state (key_of 2) table.bytes else state (key_of 2) [];
  invoked = [];
}

abbrev pub initialize_infos : List AccountInfo
initialize_infos =
    external_info
    ∷ signer_info
    ∷ info (key_of 13) false false
    ∷ info slot_hashes_id false false
    ∷ info (key_of 2) false false
    ∷ []

-- The relying party example.com, the public key, and the session key 8 until 5000.
abbrev pub initialize_input : Bytes
initialize_input =
    (198 ∷ 1 ∷ 0 ∷ 47 ∷ 11 ∷ [])
    ++ codes "example.com"
    ++ passkey
    ++ (0x10 ∷ 0 ∷ 1 ∷ [])
    ++ key_of 8
    ++ (136 ∷ 19 ∷ replicate 6 0)
