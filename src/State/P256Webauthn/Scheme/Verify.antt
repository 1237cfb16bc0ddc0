-- ===== src/State/P256Webauthn/Scheme/Verify.antt =====
-- What a verified payload proves (src/state/p256_webauthn/trait_impl.rs).
use external_signature_progr.Base.{
  ℕ, ◌-◌, ◌<◌, ◌≡◌, ◌⊎◌, ◌↔◌, ◌==◌, leb, refl, sym, ap, ◌∙◌, arith, true, Bytes, ◌++◌, length, take,
  drop, take-append-drop, bytes_eq, bytes_eq_iff, bytes_eq_refl, take-append, drop-append,
  length-append, ==_iff,
}
use external_signature_progr.Errors.{
  ok, ◌>>=◌, ◌>>◌, require, assert, slice, p256_user_not_present, p256_relying_party_mismatch,
  p256_client_data_hash_mismatch, invalid_num_precompile_signatures, p256_public_key_mismatch,
}
use external_signature_progr.Errors.Laws.{>>=-eq-ok, require-eq-ok}
use external_signature_progr.Runtime.{Runtime, Instructions, IntrospectedInstruction}
use external_signature_progr.State.P256Webauthn.{
  P256WebauthnAccountData, P256ParsedVerificationData, to_bytes,
}
use external_signature_progr.State.P256Webauthn.Scheme.{
  update_counter, verify_message, verify_payload,
}
use external_signature_progr.Utils.Precompiles
use external_signature_progr.Utils.Precompiles.{
  SignaturePayload, PrecompileParser, secp256r1_precompile, num_signatures, get_signature_payload,
}
use external_signature_progr.Utils.Sha256.{hash}
use external_signature_progr.Utils.Signatures.AuthenticatorData.{
  rp_id_hash, is_user_present, get_counter,
}
use external_signature_progr.Utils.Signatures.ClientDataJson.{reconstruct_client_data_json}

-- The counter after an assertion with the counter n: authenticators without a counter send 0, all
-- others must count up.
abbrev pub CountsUp : P256WebauthnAccountData → ℕ → P256WebauthnAccountData → Type 0
CountsUp d n d' = ((n ≡ 0) × (d' ≡ d)) ⊎ ((d.counter < n) × (d' ≡ record d { counter = n }))

-- The message is a WebAuthn assertion of the account's relying party over `payload`: authenticator
-- data with the user present and the relying party's hash, then the hash of the client data.
pub record IsAssertion (rt : Runtime) (d : P256WebauthnAccountData)
    (extra : P256ParsedVerificationData) (message payload : Bytes) (d' : P256WebauthnAccountData)
    : Type 0 where
  pub auth_data : Bytes
  pub json : Bytes
  pub rp_id : Bytes
  pub counter : ℕ
  pub parts : message ≡ auth_data ++ hash rt json
  pub present : is_user_present auth_data ≡ ok true
  pub relying_party : rp_id_hash auth_data ≡ ok d.rp_id_info.rp_id_hash
  pub name : slice d.rp_id_info.rp_id 0 d.rp_id_info.rp_id_len ≡ ok rp_id
  pub client_data : reconstruct_client_data_json rt extra.params rp_id payload ≡ ok json
  pub counted : get_counter auth_data ≡ ok counter
  pub counts_up : CountsUp d counter d'

update_counter-CountsUp :
    (d : P256WebauthnAccountData) (n : ℕ) (d' : P256WebauthnAccountData)
    → (update_counter d n ≡ ok d') ↔ CountsUp d n d'
unfolding update_counter
update_counter-CountsUp d n d' = (λ h. ground arith, λ h. ground arith)

verify_message-IsAssertion :
    (rt : Runtime) (d : P256WebauthnAccountData) (extra : P256ParsedVerificationData)
    (message payload : Bytes) (d' : P256WebauthnAccountData)
    → verify_message rt d extra message payload ≡ ok d'
    → IsAssertion rt d extra message payload d'
unfolding verify_message
verify_message-IsAssertion rt d extra message payload d' e =
    let auth = take (length message - 32) message in
    let client_data_hash = drop (length message - 32) message in
    let (_, long, k1) = >>=-eq-ok (assert (leb 32 (length message))) _ e in
    let (present, there, k2) = >>=-eq-ok (is_user_present auth) _ k1 in
    let (_, e3, k3) = >>=-eq-ok (require present p256_user_not_present) _ k2 in
    let (signed, e4, k4) = >>=-eq-ok (rp_id_hash auth) _ k3 in
    let (rp_id, e5, k5) = >>=-eq-ok (slice d.rp_id_info.rp_id 0 d.rp_id_info.rp_id_len) _ k4 in
    let (_, e6, k6) =
      >>=-eq-ok (require (bytes_eq d.rp_id_info.rp_id_hash signed) p256_relying_party_mismatch) _
        k5 in
    let (json, e7, k7) =
      >>=-eq-ok (reconstruct_client_data_json rt extra.params rp_id payload) _ k6 in
    let (_, e8, k8) =
      >>=-eq-ok (require (bytes_eq (hash rt json) client_data_hash) p256_client_data_hash_mismatch)
        _ k7 in
    let (n, e9, k9) = >>=-eq-ok (get_counter auth) _ k8 in
    let relying = (bytes_eq_iff d.rp_id_info.rp_id_hash signed).0 (require-eq-ok _ _ e6) in
    let hashed = (bytes_eq_iff (hash rt json) client_data_hash).0 (require-eq-ok _ _ e8) in
    record {
      auth_data = auth;
      json = json;
      rp_id = rp_id;
      counter = n;
      parts =
          sym (take-append-drop (length message - 32) message)
          ∙ ap (λ (t : Bytes). auth ++ t) (sym hashed);
      present = there ∙ ap ok (require-eq-ok present p256_user_not_present e3);
      relying_party = e4 ∙ ap ok (sym relying);
      name = e5;
      client_data = e7;
      counted = e9;
      counts_up = (update_counter-CountsUp d n d').0 k9;
    }

verify_message-split :
    (rt : Runtime) (d : P256WebauthnAccountData) (extra : P256ParsedVerificationData)
    (auth client payload : Bytes)
    → length client ≡ 32
    → verify_message rt d extra (auth ++ client) payload ≡ (do
      present ← is_user_present auth
      require present p256_user_not_present
      signed_rp_id_hash ← rp_id_hash auth
      rp_id ← slice d.rp_id_info.rp_id 0 d.rp_id_info.rp_id_len
      require (bytes_eq d.rp_id_info.rp_id_hash signed_rp_id_hash) p256_relying_party_mismatch
      json ← reconstruct_client_data_json rt extra.params rp_id payload
      require (bytes_eq (hash rt json) client) p256_client_data_hash_mismatch
      counter ← get_counter auth
      update_counter d counter)
unfolding verify_message
verify_message-split rt d extra auth client payload h =
    let n : length (auth ++ client) - 32 ≡ length auth = omega (arith, length-append auth client) in
    let front : take (length (auth ++ client) - 32) (auth ++ client) ≡ auth =
      rw n (take-append (length auth) auth client refl) in
    let back : drop (length (auth ++ client) - 32) (auth ++ client) ≡ client =
      rw n (drop-append (length auth) auth client refl) in
    let long : leb 32 (length (auth ++ client)) ≡ true =
      ground (arith, length-append auth client) in
    rw (long, front, back)

-- `verify_message` accepts exactly the assertions, when hashes are 32 bytes long.
verify_message_exact :
    (rt : Runtime) (d : P256WebauthnAccountData) (extra : P256ParsedVerificationData)
    (message payload : Bytes) (d' : P256WebauthnAccountData)
    → ((bs : Bytes) → length (hash rt bs) ≡ 32)
    → (verify_message rt d extra message payload ≡ ok d')
      ↔ IsAssertion rt d extra message payload d'
verify_message_exact rt d extra message payload d' h = (
  verify_message-IsAssertion rt d extra message payload d',
  λ a.
      rw
        (
          a.parts,
          verify_message-split rt d extra a.auth_data (hash rt a.json) payload (h a.json),
          a.present,
          a.relying_party,
          a.name,
          bytes_eq_refl,
          a.client_data,
          bytes_eq_refl,
          a.counted,
        )
        ((update_counter-CountsUp d a.counter d').1 a.counts_up),
)

abbrev pub parser_of : IntrospectedInstruction → Instructions → PrecompileParser
parser_of ix instructions = record {
  precompile_ix_data = ix.bytes;
  address = ix.address;
  instructions_sysvar = instructions;
}

-- The transaction's first instruction is a secp256r1 verification of one signature, by the
-- account's key, of a WebAuthn assertion over `payload`.
pub record IsVerified (rt : Runtime) (instructions : Instructions) (d : P256WebauthnAccountData)
    (extra : P256ParsedVerificationData) (payload : Bytes) (d' : P256WebauthnAccountData)
    : Type 0 where
  pub precompile : IntrospectedInstruction
  pub signed : SignaturePayload
  pub at_zero : instructions 0 ≡ ok precompile
  pub program : precompile.program_id ≡ rt.secp256r1_precompile_id
  pub single : num_signatures (parser_of precompile instructions) ≡ ok 1
  pub loaded :
      get_signature_payload rt (secp256r1_precompile rt) (parser_of precompile instructions) 0
      ≡ ok signed
  pub by_key : signed.public_key ≡ to_bytes d.public_key
  pub assertion : IsAssertion rt d extra signed.message payload d'

module _ (rt : Runtime) (instructions : Instructions) (d : P256WebauthnAccountData)
    (extra : P256ParsedVerificationData) (payload : Bytes) (d' : P256WebauthnAccountData) where
  new-eq-ok :
      (ix : IntrospectedInstruction) (p : PrecompileParser)
      → Precompiles.new (secp256r1_precompile rt) ix instructions ≡ ok p
      → (ix.program_id ≡ rt.secp256r1_precompile_id) × (p ≡ parser_of ix instructions)
  unfolding Precompiles.new secp256r1_precompile
  new-eq-ok ix p e = ground (arith, bytes_eq_iff ix.program_id rt.secp256r1_precompile_id)

  new-ok :
      (ix : IntrospectedInstruction)
      → ix.program_id ≡ rt.secp256r1_precompile_id
      → Precompiles.new (secp256r1_precompile rt) ix instructions ≡ ok (parser_of ix instructions)
  unfolding Precompiles.new secp256r1_precompile
  new-ok ix h = ground (arith, bytes_eq_iff ix.program_id rt.secp256r1_precompile_id)

  pub verify_payload-IsVerified :
      verify_payload rt instructions d extra payload ≡ ok d'
      → IsVerified rt instructions d extra payload d'
  unfolding verify_payload
  verify_payload-IsVerified e =
      let (ix, e1, k1) = >>=-eq-ok (instructions 0) _ e in
      let (p, e2, k2) =
        >>=-eq-ok (Precompiles.new (secp256r1_precompile rt) ix instructions) _ k1 in
      let (program, same) = new-eq-ok ix p e2 in
      let (count, e3, k3) = >>=-eq-ok (num_signatures p) _ k2 in
      let (_, e4, k4) = >>=-eq-ok (require (count == 1) invalid_num_precompile_signatures) _ k3 in
      let (sp, e5, k5) = >>=-eq-ok (get_signature_payload rt (secp256r1_precompile rt) p 0) _ k4 in
      let (_, e6, k6) =
        >>=-eq-ok
          (require (bytes_eq sp.public_key (to_bytes d.public_key)) p256_public_key_mismatch) _
          k5 in
      let one : count ≡ 1 = (==_iff count 1).0 (require-eq-ok _ _ e4) in
      record {
        precompile = ix;
        signed = sp;
        at_zero = e1;
        program = program;
        single = ap num_signatures (sym same) ∙ e3 ∙ ap ok one;
        loaded =
            ap (λ (q : PrecompileParser). get_signature_payload rt (secp256r1_precompile rt) q 0)
              (sym same)
            ∙ e5;
        by_key = (bytes_eq_iff sp.public_key (to_bytes d.public_key)).0 (require-eq-ok _ _ e6);
        assertion = verify_message-IsAssertion rt d extra sp.message payload d' k6;
      }

  -- `verify_payload` accepts exactly the verified payloads, when hashes are 32 bytes long: it
  -- returns d' if and only if the first instruction of the transaction is a secp256r1 verification
  -- of one signature, by the account's key, of a WebAuthn assertion over the payload (user
  -- present, the account's relying party, the reconstructed client data) whose counter takes d to
  -- d'.
  pub verify_payload_exact :
      ((bs : Bytes) → length (hash rt bs) ≡ 32)
      → (verify_payload rt instructions d extra payload ≡ ok d')
        ↔ IsVerified rt instructions d extra payload d'
  unfolding verify_payload
  verify_payload_exact h = (
    verify_payload-IsVerified,
    λ v.
        rw
          (
            v.at_zero,
            new-ok v.precompile v.program,
            v.single,
            v.loaded,
            (bytes_eq_iff v.signed.public_key (to_bytes d.public_key)).1 v.by_key,
          )
          ((verify_message_exact rt d extra v.signed.message payload d' h).1 v.assertion),
  )
