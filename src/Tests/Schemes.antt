-- ===== src/Tests/Schemes.antt =====
-- The scenario's account data: its session key, a verified payload, its layout.
use external_signature_progr.Base.{
  ◌≡◌, refl, Bytes, length, [], ◌∷◌, arith, from_le, from_be, bytes_eq,
}
use external_signature_progr.Base.Text.{is_utf8}
use external_signature_progr.Errors.{ok, slice}
use external_signature_progr.Runtime.{Runtime}
use external_signature_progr.Base.{◌≢◌, le_bytes}
use external_signature_progr.State.Account.{ExternallySignedAccount, data_ref, write_data}
use external_signature_progr.State.Account.Keeps.{IsAllocated, IsCurrent, write_data-data_ref}
use external_signature_progr.State.Account.View.{written}
use external_signature_progr.State.Traits.{p256_webauthn_account_data}
use external_signature_progr.State.Traits.Laws.{IsScheme, p256_webauthn_account_data-IsScheme}
use external_signature_progr.Tests.Scenario.{world, accounts, external_info}
use external_signature_progr.State.{SessionKey}
use external_signature_progr.State.P256Webauthn.{P256WebauthnAccountData, to_bytes}
use external_signature_progr.State.P256Webauthn.Layout.{encode}
use external_signature_progr.State.P256Webauthn.Layout.RoundTrip.{IsWellFormed}
use external_signature_progr.State.P256Webauthn.Scheme.{
  verify_payload, verify_message, update_counter, update_session_key,
}
use external_signature_progr.State.P256Webauthn.Scheme.Session.{update_session_key_exact}
use external_signature_progr.State.P256Webauthn.Scheme.Verify.{IsVerified, verify_payload_exact}
use external_signature_progr.Tests.Scenario.{runtime, transaction, stored, extra, key_of}
use external_signature_progr.Utils.Precompiles
use external_signature_progr.Utils.Precompiles.{
  secp256r1_precompile, num_signatures, get_signature_payload, load_payload, load_offsets,
  offsets_of_bytes, load_part, get_data_slice,
}
use external_signature_progr.Utils.Sha256.{hash, hashv}
use external_signature_progr.Utils.Signatures.AuthenticatorData.{
  is_user_present, rp_id_hash, get_counter,
}
use external_signature_progr.Utils.Signatures.ClientDataJson.{reconstruct_client_data_json}

abbrev counted : P256WebauthnAccountData
counted = record stored { counter = 5 }

verified : verify_payload runtime transaction stored extra (1 ∷ []) ≡ ok counted
unfolding verify_payload verify_message update_counter Precompiles.new secp256r1_precompile
    num_signatures get_signature_payload load_payload load_offsets offsets_of_bytes load_part
    get_data_slice is_user_present rp_id_hash get_counter from_be from_le
    reconstruct_client_data_json is_utf8 slice bytes_eq hash hashv to_bytes
verified = refl

hash_length : (bs : Bytes) → length (hash runtime bs) ≡ 32
unfolding hash hashv
hash_length bs = refl

verify_payload_exact_example : IsVerified runtime transaction stored extra (1 ∷ []) counted
verify_payload_exact_example =
    (verify_payload_exact runtime transaction stored extra (1 ∷ []) counted hash_length).0 verified

abbrev fresh_key : SessionKey
fresh_key = record { key = key_of 14; expiration = 1600 }

abbrev refreshed : P256WebauthnAccountData
refreshed = record stored { session_key = fresh_key }

update_session_key_exact_example : update_session_key runtime stored fresh_key ≡ ok refreshed
update_session_key_exact_example =
    (update_session_key_exact runtime 1000 refl stored fresh_key refreshed (omega arith)).1
      (omega arith, refl)

-- The clock five minutes later.
abbrev later : Runtime
later = record runtime { clock = ok 1300 }

stored-IsWellFormed : IsWellFormed stored
stored-IsWellFormed = record {
  reserved = refl;
  rp_id = refl;
  rp_id_hash = refl;
  x = refl;
  padding = refl;
  key = refl;
  expiration = omega arith;
  counter = omega arith;
}

abbrev wrapper : ExternallySignedAccount
wrapper = record { account_info = external_info; len = 152 }

wrapper-IsAllocated : IsAllocated runtime world wrapper
unfolding accounts encode le_bytes
wrapper-IsAllocated = record { whole = refl; room = omega arith; aligned = refl }

stored-IsCurrent : IsCurrent stored
stored-IsCurrent = record { fields = stored-IsWellFormed; version = refl; scheme = refl }

write_data-data_ref_example :
    (write_data wrapper stored world ≡ ok (tt, written world wrapper stored))
    × (data_ref runtime wrapper (written world wrapper stored).accounts ≡ ok stored)
    × ((k : Bytes)
        → wrapper.account_info.key ≢ k
        → (written world wrapper stored).accounts k ≡ world.accounts k)
write_data-data_ref_example =
    write_data-data_ref runtime world wrapper stored wrapper-IsAllocated stored-IsCurrent

p256_webauthn_account_data-IsScheme_example : IsScheme (p256_webauthn_account_data runtime)
p256_webauthn_account_data-IsScheme_example = p256_webauthn_account_data-IsScheme runtime
