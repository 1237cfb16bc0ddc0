-- ===== src/State/P256Webauthn/Keys.antt =====
-- Compressed public keys (src/state/p256_webauthn/account_data.rs).
use external_signature_progr.Base.{◌≡◌, refl, arith, Bytes, [], ◌∷◌, length, take-all}
use external_signature_progr.Errors.{ok}
use external_signature_progr.Errors.Laws.{slice-eq-ok}
use external_signature_progr.State.P256Webauthn.{CompressedP256PublicKey, new_public_key, to_bytes}

-- A compressed key is taken apart and put together again.
pub new_public_key-to_bytes :
    (key : Bytes)
    → length key ≡ 33
    → (k : CompressedP256PublicKey) × (new_public_key key ≡ ok k) × (to_bytes k ≡ key)
unfolding new_public_key to_bytes
new_public_key-to_bytes [] h = absurd (omega arith)
new_public_key-to_bytes (p ∷ xs) h =
    let x = take-all 32 xs (omega arith) in
    let cut = slice-eq-ok (p ∷ xs) 1 33 (omega arith) (omega arith) in
    (record { x = xs; y_parity = p }, rw (cut, x) refl, refl)
