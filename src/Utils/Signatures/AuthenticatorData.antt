-- ===== src/Utils/Signatures/AuthenticatorData.antt =====
-- src/utils/signatures/p256_webauthn/authenticator_data.rs
use Prim.Native.Nat.{bit_and}
use external_signature_progr.Base.{ℕ, Bool, not, ◌==◌, Bytes, from_be}
use external_signature_progr.Errors.{Result, ok, ◌>>=◌, index, slice}

unfoldable pub rp_id_hash : Bytes → Result Bytes
unfolding slice
rp_id_hash auth_data = slice auth_data 0 32

unfoldable pub is_user_present : Bytes → Result Bool
is_user_present auth_data = do flags ← index auth_data 32; ok (not (bit_and flags 0x01 == 0))

unfoldable pub is_user_verified : Bytes → Result Bool
is_user_verified auth_data = do flags ← index auth_data 32; ok (not (bit_and flags 0x04 == 0))

unfoldable pub get_counter : Bytes → Result ℕ
unfolding slice
get_counter auth_data = do counter ← slice auth_data 33 37; ok (from_be counter)
