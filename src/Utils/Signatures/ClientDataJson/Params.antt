-- ===== src/Utils/Signatures/ClientDataJson/Params.antt =====
-- Packing the parameters and unpacking them
-- (src/utils/signatures/p256_webauthn/client_data_json.rs).
use external_signature_progr.Base.{ℕ, Bool, not, ◌≡◌, arith, Option}
use external_signature_progr.Utils.Signatures.ClientDataJson.{
  AuthType, new_with_optional_cross_origin, auth_type, is_cross_origin, is_http, has_google_extra,
  omits_cross_origin,
}

-- Each getter returns the argument that the constructor packed, whatever the other arguments are,
-- and the port is kept.
pub new_with_optional_cross_origin_getters :
    (a : AuthType) (cross has http google : Bool) (port : Option ℕ)
    → let p = new_with_optional_cross_origin a cross has http google port in
      (auth_type p ≡ a)
      × (is_cross_origin p ≡ cross)
      × (is_http p ≡ http)
      × (has_google_extra p ≡ google)
      × (omits_cross_origin p ≡ not has)
      × (p.port ≡ port)
unfolding new_with_optional_cross_origin auth_type is_cross_origin is_http has_google_extra
    omits_cross_origin
new_with_optional_cross_origin_getters a cross has http google port = ground arith
