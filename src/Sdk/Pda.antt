-- ===== src/Sdk/Pda.antt =====
-- sdks/rust-sdk/src/pda.rs
pub mod Agrees
use external_signature_progr.Base.{ℕ, Bytes, Pubkey, [], ◌∷◌, codes}
use external_signature_progr.Runtime.{Runtime}
use external_signature_progr.Sdk.Types.{SdkResult, or_fail, pda_derivation_failed}
use external_signature_progr.Utils.Sha256.{hashv}

module _ (rt : Runtime) where
  unfoldable pub derive_passkey_account : Bytes → SdkResult (Pubkey × ℕ)
  unfolding hashv
  derive_passkey_account public_key =
      or_fail pda_derivation_failed
        (rt.find_program_address (codes "passkey" ∷ hashv rt (public_key ∷ []) ∷ []) rt.id)

  unfoldable pub derive_execution_account : Pubkey → SdkResult (Pubkey × ℕ)
  derive_execution_account passkey_account =
      or_fail pda_derivation_failed
        (rt.find_program_address (passkey_account ∷ codes "execution_account" ∷ []) rt.id)
