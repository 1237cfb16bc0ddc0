-- ===== src/Errors.antt =====
-- src/errors.rs: the program's error codes, and the results of fallible code. `panic` is a Rust
-- panic (an index out of range, an `unwrap` of nothing, a failed `assert`), which ends the
-- instruction as an error does.
pub mod Laws
use external_signature_progr.Base.{ℕ, Bool, true, false, ltb, leb, ◌&&◌, ◌-◌}
use external_signature_progr.Base.{Bytes, length, take, drop, if◌then◌else◌, Option, none, some}
use external_signature_progr.Base.{List, get_elem?}

-- `ExternalSignatureProgramError`, in the order of its variants.
pub data ExternalSignatureProgramError : Type 0 where
  invalid_slothash_index invalid_truncated_slot expired_slothash missing_nonce_signature
        cpi_not_allowed invalid_instruction_sysvar_account invalid_precompile_id
        invalid_num_precompile_signatures invalid_signature_index invalid_signature_offset
        error_initializing_header error_deserializing_header error_initializing_account_data
        error_deserializing_account_data invalid_extra_verification_data_args invalid_execution_args
        session_signer_not_a_signer invalid_session_key session_key_expired
        invalid_session_key_expiration invalid_signature_scheme invalid_signer_execution_scheme
        signer_execution_account_not_a_signer p256_relying_part_too_long
        p256_relying_part_include_quotes p256_relying_party_mismatch p256_client_data_hash_mismatch
        p256_account_not_writable p256_invalid_algorithm p256_invalid_public_key_encoding
        p256_public_key_mismatch p256_user_not_verified p256_user_not_present :
      ExternalSignatureProgramError

-- The variants of pinocchio's `ProgramError` that the program's own code returns; `runtime` stands
-- for whatever a call of the runtime returns.
pub data ProgramError : Type 0 where
  custom : ℕ → ProgramError
  invalid_argument invalid_instruction_data invalid_account_data invalid_account_owner
        not_enough_account_keys unsupported_sysvar :
      ProgramError
  runtime : ℕ → ProgramError

-- The discriminant, `e as u32`.
unfoldable pub code : ExternalSignatureProgramError → ℕ
code invalid_slothash_index = 0
code invalid_truncated_slot = 1
code expired_slothash = 2
code missing_nonce_signature = 3
code cpi_not_allowed = 4
code invalid_instruction_sysvar_account = 5
code invalid_precompile_id = 6
code invalid_num_precompile_signatures = 7
code invalid_signature_index = 8
code invalid_signature_offset = 9
code error_initializing_header = 10
code error_deserializing_header = 11
code error_initializing_account_data = 12
code error_deserializing_account_data = 13
code invalid_extra_verification_data_args = 14
code invalid_execution_args = 15
code session_signer_not_a_signer = 16
code invalid_session_key = 17
code session_key_expired = 18
code invalid_session_key_expiration = 19
code invalid_signature_scheme = 20
code invalid_signer_execution_scheme = 21
code signer_execution_account_not_a_signer = 22
code p256_relying_part_too_long = 23
code p256_relying_part_include_quotes = 24
code p256_relying_party_mismatch = 25
code p256_client_data_hash_mismatch = 26
code p256_account_not_writable = 27
code p256_invalid_algorithm = 28
code p256_invalid_public_key_encoding = 29
code p256_public_key_mismatch = 30
code p256_user_not_verified = 31
code p256_user_not_present = 32

-- `From<ExternalSignatureProgramError> for ProgramError`; the log line it writes is left out.
abbrev pub into : ExternalSignatureProgramError → ProgramError
into e = custom (code e)

pub data Result {ℓ} (A : Type ℓ) : Type ℓ where
  ok : A → Result A
  err : ProgramError → Result A
  panic : Result A

infixl 5 ◌>>=◌ ◌>>◌
abbrev pub ◌>>=◌ {ℓ κ} : {A : Type ℓ} {B : Type κ} → Result A → (A → Result B) → Result B
ok a >>= f = f a
err e >>= f = err e
panic >>= f = panic

abbrev pub ◌>>◌ {ℓ} : {B : Type ℓ} → Result (Unit {0}) → Result B → Result B
m >> k = m >>= λ _. k

-- An early `return Err(e.into())` unless the test holds.
abbrev pub require : Bool → ExternalSignatureProgramError → Result (Unit {0})
require true e = ok tt
require false e = err (into e)

-- `assert!`
abbrev pub assert : Bool → Result (Unit {0})
assert true = ok tt
assert false = panic

-- `.map_err(|_| e)` and `.ok_or(e)`
abbrev pub map_err {ℓ} : {A : Type ℓ} → ProgramError → Result A → Result A
map_err e (ok a) = ok a
map_err e (err e') = err e
map_err e panic = panic

abbrev pub ok_or {ℓ} : {A : Type ℓ} → ProgramError → Option A → Result A
ok_or e none = err e
ok_or e (some a) = ok a

-- `unwrap`
abbrev pub unwrap {ℓ} : {A : Type ℓ} → Option A → Result A
unwrap none = panic
unwrap (some a) = ok a

-- `xs[i]`
abbrev pub index {ℓ} : {A : Type ℓ} → List A → ℕ → Result A
index xs i = unwrap (get_elem? xs i)

-- `bs[from..to]`
unfoldable pub slice : Bytes → ℕ → ℕ → Result Bytes
slice bs from to =
    if leb from to && leb to (length bs) then ok (take (to - from) (drop from bs)) else panic
