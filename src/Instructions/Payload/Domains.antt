-- ===== src/Instructions/Payload/Domains.antt =====
-- The payloads of the three instructions beside each other (src/instructions).
use external_signature_progr.Base.{
  ℕ, get_or, refl, [], codes, le_bytes, ◌≡◌, ◌≢◌, ap, sym, ◌∙◌, List, Bytes, ◌++◌, length, drop,
}
use external_signature_progr.Base.{
  Option, none, some, append_assoc, drop-append, length-append, arith,
}
use external_signature_progr.Borsh.{Borsh}
use external_signature_progr.Errors.{ok, unwrap}
use external_signature_progr.Errors.Laws.{>>=-eq-ok, ok-injective}
use external_signature_progr.Instructions.Payload.{
  nonce_payload, instructions_payload, execute_payload, refresh_payload, initialization_payload,
}
use external_signature_progr.Runtime.{AccountInfo}
use external_signature_progr.State.{SessionKey, session_key_codec}
use external_signature_progr.State.P256Webauthn.Scheme
use external_signature_progr.Utils.Instructions.{CompiledInstruction}
use external_signature_progr.Utils.Nonce.{NonceData}

-- A nonce is a 32-byte slot hash and a 32-byte key.
pub record IsNonce (n : NonceData) : Type 0 where
  pub slothash_length : length n.slothash ≡ 32
  pub signer_key_length : length n.signer_key ≡ 32

-- Past the nonce stands the rest.
pub drop-nonce_payload :
    (n : NonceData) (rest : Bytes) → IsNonce n → drop 64 (nonce_payload n rest) ≡ rest
drop-nonce_payload n rest h =
    ap (drop 64) (sym (append_assoc n.slothash n.signer_key rest))
    ∙ drop-append 64 (n.slothash ++ n.signer_key) rest (
        length-append n.slothash n.signer_key
        ∙ omega (arith, h.slothash_length, h.signer_key_length))

same_rest :
    (m n : NonceData) (r s : Bytes)
    → IsNonce m
    → IsNonce n
    → nonce_payload m r ≡ nonce_payload n s
    → r ≡ s
same_rest m n r s hm hn e =
    sym (drop-nonce_payload m r hm) ∙ ap (drop 64) e ∙ drop-nonce_payload n s hn

-- What each payload holds past the nonce begins with the words for its instruction.
execute_payload_shape :
    (b : Borsh) (n : NonceData) (accounts : List AccountInfo)
    (instructions : List CompiledInstruction) (payload : Bytes)
    → execute_payload b n accounts instructions ≡ ok payload
    → (rest : Bytes) × (payload ≡ nonce_payload n (codes "execute_instructions" ++ rest))
unfolding execute_payload
execute_payload_shape b n accounts instructions payload e =
    let (compiled, _, f) = >>=-eq-ok (instructions_payload b instructions) _ e in
    (_, sym (ok-injective _ payload f))

refresh_payload_shape :
    (b : Borsh) (n : NonceData) (s : SessionKey) (payload : Bytes)
    → refresh_payload b n s ≡ ok payload
    → (rest : Bytes) × (payload ≡ nonce_payload n (codes "refresh_session_key" ++ rest))
unfolding refresh_payload
refresh_payload_shape b n s payload e =
    let (bytes, _, f) = >>=-eq-ok (unwrap ((session_key_codec b).write s)) _ e in
    (bytes, sym (ok-injective _ payload f))

initialization_payload_shape :
    (n : NonceData) (k : Option SessionKey)
    → (rest : Bytes) × (initialization_payload n Scheme.get_initialization_payload k
        ≡ nonce_payload n (codes "initialize_passkey" ++ rest))
unfolding initialization_payload
initialization_payload_shape n none = ([], refl)
initialization_payload_shape n (some s) = (s.key ++ le_bytes 8 s.expiration, refl)

-- The three begin with different letters.
abbrev first : Bytes → ℕ
first bs = get_or bs 0 0

-- Under any two nonces of two 32-byte strings the three instructions sign for different bytes: no
-- payload of a list of instructions is the payload of a session key or of an initialization, and
-- no payload of a session key is that of an initialization.
pub payloads_disjoint :
    (b : Borsh) (m n : NonceData) (accounts : List AccountInfo)
    (instructions : List CompiledInstruction) (s : SessionKey) (k : Option SessionKey)
    → IsNonce m
    → IsNonce n
    → ((payload : Bytes)
        → execute_payload b m accounts instructions ≡ ok payload
        → refresh_payload b n s ≢ ok payload)
      × (execute_payload b m accounts instructions
          ≢ ok (initialization_payload n Scheme.get_initialization_payload k))
      × (refresh_payload b m s ≢ ok (initialization_payload n Scheme.get_initialization_payload k))
payloads_disjoint b m n accounts instructions s k hm hn =
    let (r, er) = initialization_payload_shape n k in
    (
      λ payload e f.
          let (x, ex) = execute_payload_shape b m accounts instructions payload e in
          let (y, ey) = refresh_payload_shape b n s payload f in
          omega (arith, ap first (same_rest m n _ _ hm hn (sym ex ∙ ey))),
      λ e.
          let (x, ex) = execute_payload_shape b m accounts instructions _ e in
          omega (arith, ap first (same_rest m n _ _ hm hn (sym ex ∙ er))),
      λ e.
          let (y, ey) = refresh_payload_shape b m s _ e in
          omega (arith, ap first (same_rest m n _ _ hm hn (sym ey ∙ er))),
    )
