-- ===== src/Utils/Signatures/ClientDataJson/Binding.antt =====
-- The reconstructed clientDataJSON and the challenge in it
-- (src/utils/signatures/p256_webauthn/client_data_json.rs).
use external_signature_progr.Base.{
  ◌≡◌, ◌≢◌, refl, ap, sym, ◌∙◌, arith, Bytes, [], ◌∷◌, ◌++◌, All, codes, drop,
}
use external_signature_progr.Errors.{ok}
use external_signature_progr.Runtime.{Runtime}
use external_signature_progr.Utils.Signatures.ClientDataJson.{
  ClientDataJsonReconstructionParams, AuthType, create, get, type_str, auth_type, json_bytes,
  reconstruct_client_data_json,
}

-- base64url without padding is injective, and its alphabet has no quote.
pub record IsBase64Url (rt : Runtime) : Type 0 where
  pub injective : (a b : Bytes) → rt.base64_url a ≡ rt.base64_url b → a ≡ b
  pub unquoted : (a : Bytes) → All (λ c. c ≢ b'"') (rt.base64_url a)

-- A text without quotes ends at the first quote.
quoted_injective :
    (a b r s : Bytes)
    → All (λ c. c ≢ b'"') a
    → All (λ c. c ≢ b'"') b
    → a ++ (b'"' ∷ r) ≡ b ++ (b'"' ∷ s)
    → a ≡ b
quoted_injective [] [] r s ha hb e = refl
quoted_injective [] (y ∷ b) r s ha hb e = ground arith
quoted_injective (x ∷ a) [] r s ha hb e = ground arith
quoted_injective (x ∷ a) (y ∷ b) r s ha hb e = ground (arith, quoted_injective a b r s)

-- The text from the type on: the two types differ at their tenth letter.
typed_injective :
    (s t : AuthType) (a b r r' : Bytes)
    → All (λ c. c ≢ b'"') a
    → All (λ c. c ≢ b'"') b
    → type_str s ++ (codes "\",\"challenge\":\"" ++ (a ++ (b'"' ∷ r)))
      ≡ type_str t ++ (codes "\",\"challenge\":\"" ++ (b ++ (b'"' ∷ r')))
    → a ≡ b
typed_injective create create a b r r' ha hb e = quoted_injective a b r r' ha hb (ap (drop 30) e)
typed_injective create get a b r r' ha hb e = ground arith
typed_injective get create a b r r' ha hb e = ground arith
typed_injective get get a b r r' ha hb e = quoted_injective a b r r' ha hb (ap (drop 27) e)

json_bytes_binds :
    (rt : Runtime) (p q : ClientDataJsonReconstructionParams) (rp rq c d : Bytes)
    → IsBase64Url rt
    → json_bytes rt p rp c ≡ json_bytes rt q rq d
    → c ≡ d
unfolding json_bytes
json_bytes_binds rt p q rp rq c d h e = h.injective c d (
    typed_injective (auth_type p) (auth_type q) (rt.base64_url c) (rt.base64_url d) _ _
      (h.unquoted c) (h.unquoted d) (ap (drop 9) e))

json_bytes_of_ok :
    (rt : Runtime) (p : ClientDataJsonReconstructionParams) (rp c json : Bytes)
    → reconstruct_client_data_json rt p rp c ≡ ok json
    → json_bytes rt p rp c ≡ json
unfolding reconstruct_client_data_json
json_bytes_of_ok rt p rp c json e = ground arith

-- Two challenges whose reconstructed clientDataJSON is the same are the same, whichever parameters
-- and relying party ids the two were reconstructed with, since base64url is injective and its
-- alphabet has no quote.
pub reconstruct_client_data_json_binds :
    (rt : Runtime) (p q : ClientDataJsonReconstructionParams) (rp rq c d json : Bytes)
    → IsBase64Url rt
    → reconstruct_client_data_json rt p rp c ≡ ok json
    → reconstruct_client_data_json rt q rq d ≡ ok json
    → c ≡ d
reconstruct_client_data_json_binds rt p q rp rq c d json h ec ed =
    json_bytes_binds rt p q rp rq c d h
      (json_bytes_of_ok rt p rp c json ec ∙ sym (json_bytes_of_ok rt q rq d json ed))
