-- ===== src/State.antt =====
pub mod P256Webauthn
pub mod Account
pub mod Traits
-- src/state: the account's schemes, session keys and the account that signs for execution.
use external_signature_progr.Base.{ℕ, ◌*◌, ◌==◌, if◌then◌else◌, List, [], ◌∷◌, Option, none, some}
use external_signature_progr.Base.{Bytes, Pubkey}
use external_signature_progr.Borsh.{Codec, Borsh, fields, derive}

-- 3 months in seconds.
abbrev pub session_key_expiration_limit : ℕ
session_key_expiration_limit = 3 * 30 * 24 * 60 * 60

-- The key is 32 bytes, the expiration a u64.
pub record SessionKey : Type 0 where
  pub key : Bytes
  pub expiration : ℕ

unfoldable pub session_key_codec : Borsh → Codec SessionKey
session_key_codec b =
    derive (λ p. record { key = p.0; expiration = p.1 }) (λ s. (s.key, s.expiration))
      (fields (b.array 32) (b.int 8))

pub data SignatureScheme : Type 0 where
  p256_webauthn : SignatureScheme

-- `SignatureScheme::try_from_primitive`, and `as u8`.
abbrev pub signature_scheme_try_from : ℕ → Option SignatureScheme
signature_scheme_try_from n = if n == 0 then some p256_webauthn else none

abbrev pub signature_scheme_number : SignatureScheme → ℕ
signature_scheme_number p256_webauthn = 0

pub data SignerExecutionScheme : Type 0 where
  execution_account external_account : SignerExecutionScheme

-- `as u8`
abbrev pub signer_execution_scheme_number : SignerExecutionScheme → ℕ
signer_execution_scheme_number execution_account = 0
signer_execution_scheme_number external_account = 1

-- `SignerExecutionScheme::try_from_primitive`
abbrev pub signer_execution_scheme_try_from : ℕ → Option SignerExecutionScheme
signer_execution_scheme_try_from n =
    if n == 0 then some execution_account else if n == 1 then some external_account else none

pub record ExecutionAccount : Type 0 where
  pub key : Pubkey
  pub bump : ℕ
  pub seeds : Bytes × Bytes

unfoldable pub to_signer_seeds : ExecutionAccount → List Bytes
to_signer_seeds e = e.seeds.0 ∷ e.seeds.1 ∷ (e.bump ∷ []) ∷ []
