-- ===== src/Tests/Histories.antt =====
-- The stored account through an assertion and a new session key, and an authenticator that does not
-- count.
use external_signature_progr.Base.{
  ◌≡◌, refl, ◌==◌, if◌then◌else◌, Bytes, [], ◌∷◌, ◌++◌, replicate, length, bytes_eq, from_be,
  from_le,
}
use external_signature_progr.Base.Text.{is_utf8}
use external_signature_progr.Errors.{ok, err, slice, invalid_argument}
use external_signature_progr.Runtime.{Instructions}
use external_signature_progr.State.P256Webauthn.{P256WebauthnAccountData, to_bytes}
use external_signature_progr.State.P256Webauthn.Scheme.{
  verify_payload, verify_message, update_counter, update_session_key, latest_expiration,
}
use external_signature_progr.State.P256Webauthn.Scheme.History.{
  Reaches, here, verified, rekeyed, verify_payload-once,
}
use external_signature_progr.Tests.Scenario.{
  runtime, transaction, precompile, passkey, stored, extra, key_of,
}
use external_signature_progr.Utils.Precompiles
use external_signature_progr.Utils.Precompiles.{
  secp256r1_precompile, num_signatures, get_signature_payload, load_payload, load_offsets,
  offsets_of_bytes, load_part, get_data_slice,
}
use external_signature_progr.Utils.Sha256.{hash, hashv}
use external_signature_progr.Utils.Signatures.AuthenticatorData.{
  is_user_present, rp_id_hash, get_counter,
}
use external_signature_progr.Utils.Signatures.ClientDataJson.{reconstruct_client_data_json}

abbrev counted : P256WebauthnAccountData
counted = record stored { counter = 5 }

abbrev rekeyed_data : P256WebauthnAccountData
rekeyed_data = record counted { session_key = record { key = key_of 14; expiration = 1600 } }

history : Reaches stored rekeyed_data
unfolding verify_payload verify_message update_counter Precompiles.new secp256r1_precompile
    num_signatures get_signature_payload load_payload load_offsets offsets_of_bytes load_part
    get_data_slice is_user_present rp_id_hash get_counter from_be from_le
    reconstruct_client_data_json is_utf8 slice bytes_eq hash hashv to_bytes update_session_key
    latest_expiration
history = verified runtime transaction stored counted rekeyed_data extra (1 ∷ []) refl (
    rekeyed runtime counted rekeyed_data rekeyed_data
      (record { key = key_of 14; expiration = 1600 }) refl (here rekeyed_data))

-- The scenario's transaction with the counter 0.
abbrev silent : Instructions
silent i =
    if i == 0
    then ok (record precompile {
      bytes =
          (1 ∷ 0 ∷ [])
          ++ (16 ∷ 0 ∷ [])
          ++ (255 ∷ 255 ∷ [])
          ++ (80 ∷ 0 ∷ [])
          ++ (255 ∷ 255 ∷ [])
          ++ (113 ∷ 0 ∷ [])
          ++ (69 ∷ 0 ∷ [])
          ++ (255 ∷ 255 ∷ [])
          ++ replicate 64 0
          ++ passkey
          ++ (key_of 7 ++ (1 ∷ 0 ∷ 0 ∷ 0 ∷ 0 ∷ []) ++ key_of 7);
    })
    else err invalid_argument

uncounted : verify_payload runtime silent stored extra (1 ∷ []) ≡ ok stored
unfolding verify_payload verify_message update_counter Precompiles.new secp256r1_precompile
    num_signatures get_signature_payload load_payload load_offsets offsets_of_bytes load_part
    get_data_slice is_user_present rp_id_hash get_counter from_be from_le
    reconstruct_client_data_json is_utf8 slice bytes_eq hash hashv to_bytes
uncounted = refl

hash_length : (bs : Bytes) → length (hash runtime bs) ≡ 32
unfolding hash hashv
hash_length bs = refl

verify_payload-once_example : (stored ≡ stored) × (stored ≡ stored)
verify_payload-once_example =
    verify_payload-once runtime silent stored stored stored stored extra extra (1 ∷ []) (1 ∷ [])
      hash_length uncounted (here stored) uncounted
