-- ===== src/Utils/Signatures/ClientDataJson.antt =====
-- src/utils/signatures/p256_webauthn/client_data_json.rs
pub mod Params
pub mod Binding
use Prim.Native.Nat.{bit_and, bit_or}
use external_signature_progr.Base.{ℕ, Bool, true, false, not, ◌==◌, if◌then◌else◌, Bytes, codes}
use external_signature_progr.Base.{Option, none, some, [], ◌∷◌, ◌++◌}
use external_signature_progr.Base.Text.{is_utf8, decimal_u16}
use external_signature_progr.Borsh.{Codec, Borsh, fields, derive}
use external_signature_progr.Errors.{Result, ok, ◌>>=◌, ◌>>◌, assert}
use external_signature_progr.Runtime.{Runtime}

pub record ClientDataJsonReconstructionParams : Type 0 where
  pub type_and_flags : ℕ
  pub port : Option ℕ

unfoldable pub params_codec : Borsh → Codec ClientDataJsonReconstructionParams
params_codec b =
    derive (λ p. record { type_and_flags = p.0; port = p.1 }) (λ c. (c.type_and_flags, c.port))
      (fields (b.int 1) (b.option ℕ (b.int 2)))

pub data AuthType : Type 0 where
  create get : AuthType

abbrev pub type_create : ℕ
type_create = 0x00

abbrev pub type_get : ℕ
type_get = 0x10

abbrev pub flag_cross_origin : ℕ
flag_cross_origin = 0x01

abbrev pub flag_http_origin : ℕ
flag_http_origin = 0x02

abbrev pub flag_google_extra : ℕ
flag_google_extra = 0x04

abbrev pub flag_omit_cross_origin : ℕ
flag_omit_cross_origin = 0x08

abbrev pub type_bits : AuthType → ℕ
type_bits create = type_create
type_bits get = type_get

-- `if b { value |= flag; }`
abbrev pub set_flag : Bool → ℕ → ℕ → ℕ
set_flag b flag value = if b then bit_or value flag else value

unfoldable pub new_with_optional_cross_origin :
    AuthType → Bool → Bool → Bool → Bool → Option ℕ → ClientDataJsonReconstructionParams
new_with_optional_cross_origin auth_type cross_origin has_cross_origin is_http has_google_extra
      port =
    let v0 = type_bits auth_type in
    let v1 = set_flag cross_origin flag_cross_origin v0 in
    let v2 = set_flag is_http flag_http_origin v1 in
    let v3 = set_flag has_google_extra flag_google_extra v2 in
    let v4 = set_flag (not has_cross_origin) flag_omit_cross_origin v3 in
    record { type_and_flags = v4; port = port }

unfoldable pub new : AuthType → Bool → Bool → Bool → Option ℕ → ClientDataJsonReconstructionParams
unfolding new_with_optional_cross_origin
new auth_type cross_origin is_http has_google_extra port =
    new_with_optional_cross_origin auth_type cross_origin true is_http has_google_extra port

unfoldable pub auth_type : ClientDataJsonReconstructionParams → AuthType
auth_type p = if bit_and p.type_and_flags 0xf0 == type_get then get else create

unfoldable pub is_cross_origin : ClientDataJsonReconstructionParams → Bool
is_cross_origin p = not (bit_and p.type_and_flags flag_cross_origin == 0)

unfoldable pub is_http : ClientDataJsonReconstructionParams → Bool
is_http p = not (bit_and p.type_and_flags flag_http_origin == 0)

unfoldable pub has_google_extra : ClientDataJsonReconstructionParams → Bool
has_google_extra p = not (bit_and p.type_and_flags flag_google_extra == 0)

unfoldable pub omits_cross_origin : ClientDataJsonReconstructionParams → Bool
omits_cross_origin p = not (bit_and p.type_and_flags flag_omit_cross_origin == 0)

abbrev pub type_str : AuthType → Bytes
type_str create = codes "webauthn.create"
type_str get = codes "webauthn.get"

unfoldable pub origin : Bool → Bytes → Option ℕ → Bytes
origin http rp_id (some port) =
    (if http then codes "http://" else codes "https://") ++ (rp_id ++ (b':' ∷ decimal_u16 port))
origin http rp_id none = (if http then codes "http://" else codes "https://") ++ rp_id

-- The fields after the origin, and the closing brace.
unfoldable pub trailer : ClientDataJsonReconstructionParams → Bytes
unfolding omits_cross_origin is_cross_origin has_google_extra
trailer p =
    (if omits_cross_origin p
      then []
      else codes ",\"crossOrigin\":" ++ (if is_cross_origin p then codes "true" else codes "false"))
    ++ ((if has_google_extra p
          then codes
              ",\"other_keys_can_be_added_here\":\"do not compare clientDataJSON against a template. See https://goo.gl/yabPex\""
          else [])
        ++ codes "}")

-- The bytes that `json_bytes` collects.
unfoldable pub json_bytes : Runtime → ClientDataJsonReconstructionParams → Bytes → Bytes → Bytes
unfolding auth_type is_http origin trailer
json_bytes rt params rp_id challenge =
    codes "{\"type\":\""
    ++ (type_str (auth_type params)
        ++ (codes "\",\"challenge\":\""
            ++ (rt.base64_url challenge
                ++ (codes "\",\"origin\":\""
                    ++ (origin (is_http params) rp_id params.port
                        ++ (codes "\"" ++ trailer params))))))

-- The relying party id must be UTF-8: `from_utf8(rp_id).unwrap()`.
unfoldable pub reconstruct_client_data_json :
    Runtime → ClientDataJsonReconstructionParams → Bytes → Bytes → Result Bytes
reconstruct_client_data_json rt params rp_id challenge = do
  assert (is_utf8 rp_id)
  ok (json_bytes rt params rp_id challenge)
