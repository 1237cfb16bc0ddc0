-- ===== src/Runtime.antt =====
-- What the program takes from the Solana runtime, pinocchio and base64: accounts, syscalls and
-- calls of other programs. None of it is code of this repository, so it is a record of functions.
use external_signature_progr.Base.{ℕ, Bool, List, Option, Bytes, Pubkey, bytes_eq, if◌then◌else◌}
use external_signature_progr.Errors.{Result}

-- What an `AccountInfo` of the instruction says of itself. Two infos with one key share one state.
pub record AccountInfo : Type 0 where
  pub key : Pubkey
  pub is_signer : Bool
  pub is_writable : Bool

-- `address` is where the data starts in memory, and `beyond` what stands behind it.
pub record AccountState : Type 0 where
  pub owner : Pubkey
  pub lamports : ℕ
  pub bytes : Bytes
  pub address : ℕ
  pub beyond : ℕ → ℕ

abbrev pub Accounts : Type 0
Accounts = Pubkey → AccountState

abbrev pub update : Accounts → Pubkey → AccountState → Accounts
update accounts key state k = if bytes_eq key k then state else accounts k

-- `pinocchio::instruction::AccountMeta`
pub record AccountMeta : Type 0 where
  pub pubkey : Pubkey
  pub is_writable : Bool
  pub is_signer : Bool

-- `pinocchio::instruction::Instruction`
pub record Instruction : Type 0 where
  pub program_id : Pubkey
  pub input : Bytes
  pub accounts : List AccountMeta

-- One call of `slice_invoke_signed`: the instruction, the accounts handed over, the signer's seeds.
pub record Invocation : Type 0 where
  pub instruction : Instruction
  pub account_infos : List AccountInfo
  pub signer_seeds : List Bytes

-- `IntrospectedInstruction`: an instruction of the running transaction.
pub record IntrospectedInstruction : Type 0 where
  pub program_id : Pubkey
  pub bytes : Bytes
  pub address : ℕ
  pub beyond : ℕ → ℕ

-- `Instructions`, by its `load_instruction_at`.
abbrev pub Instructions : Type 0
Instructions = ℕ → Result IntrospectedInstruction

pub record Runtime : Type 0 where
  -- `crate::ID`, `pinocchio_system::ID` and the precompiles' ids, which macros decode from base 58.
  pub id : Pubkey
  pub system_id : Pubkey
  pub secp256r1_precompile_id : Pubkey
  pub legacy_secp256k1_precompile_id : Pubkey
  -- The SHA-256 syscall, the stack height and `Clock::get()?.unix_timestamp as u64`.
  pub sha256 : Bytes → Bytes
  pub stack_height : ℕ
  pub clock : Result ℕ
  -- `Rent::get()?.minimum_balance(space)`
  pub minimum_balance : ℕ → Result ℕ
  -- `try_find_program_address` over seeds and a program id.
  pub find_program_address : List Bytes → Pubkey → Option (Pubkey × ℕ)
  -- `Instructions::try_from`
  pub instructions : AccountInfo → Result Instructions
  -- The alignment test of bytemuck's casts: of an address, for an alignment.
  pub is_aligned : ℕ → ℕ → Bool
  -- `general_purpose::URL_SAFE_NO_PAD.encode`
  pub base64_url : Bytes → Bytes
  -- The system program's calls, and `slice_invoke_signed`, on the accounts' states.
  pub transfer : Pubkey → Pubkey → ℕ → Accounts → Result Accounts
  pub allocate : Pubkey → ℕ → List Bytes → Accounts → Result Accounts
  pub assign : Pubkey → Pubkey → List Bytes → Accounts → Result Accounts
  pub invoke : Invocation → Accounts → Result Accounts
