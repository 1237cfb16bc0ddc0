-- ===== src/State/P256Webauthn/Scheme/History.antt =====
-- What the account data keep over any series of verifications and new session keys
-- (src/state/p256_webauthn/trait_impl.rs).
use external_signature_progr.Base.{
  ℕ, ◌≤◌, ◌≡◌, refl, sym, ap, ◌∙◌, arith, Bytes, ◌++◌, length, take, take-append, inl, inr,
  length-append, ◌-◌, leb,
}
use external_signature_progr.Errors.{ok, require, invalid_session_key_expiration}
use external_signature_progr.Errors.Laws.{>>=-eq-ok, ok-injective}
use external_signature_progr.Runtime.{Runtime, Instructions, IntrospectedInstruction}
use external_signature_progr.State.{SessionKey}
use external_signature_progr.State.P256Webauthn.{
  P256WebauthnAccountData, P256ParsedVerificationData,
}
use external_signature_progr.State.P256Webauthn.Scheme.{
  verify_payload, update_session_key, latest_expiration,
}
use external_signature_progr.State.P256Webauthn.Scheme.Verify.{
  IsAssertion, parser_of, CountsUp, verify_payload-IsVerified,
}
use external_signature_progr.Utils.Precompiles.{
  SignaturePayload, secp256r1_precompile, get_signature_payload,
}
use external_signature_progr.Utils.Sha256.{hash}
use external_signature_progr.Utils.Signatures.AuthenticatorData.{get_counter}
use mathlib.Core.Path.{subst}

-- The changes of an account's data, one after the other. The runtime may be another each time, as
-- its clock is.
pub data Reaches : P256WebauthnAccountData → P256WebauthnAccountData → Type 0 where
  here : (d : P256WebauthnAccountData) → Reaches d d
  verified :
      (rt : Runtime) (instructions : Instructions) (d d' d'' : P256WebauthnAccountData)
      (extra : P256ParsedVerificationData) (payload : Bytes)
      → verify_payload rt instructions d extra payload ≡ ok d'
      → Reaches d' d''
      → Reaches d d''
  rekeyed :
      (rt : Runtime) (d d' d'' : P256WebauthnAccountData) (session_key : SessionKey)
      → update_session_key rt d session_key ≡ ok d'
      → Reaches d' d''
      → Reaches d d''

pub Reaches-trans :
    (d d' d'' : P256WebauthnAccountData) → Reaches d d' → Reaches d' d'' → Reaches d d''
Reaches-trans _ _ d'' (here d) k = k
Reaches-trans _ _ d'' (verified rt instructions d d1 d' extra payload e r) k =
    verified rt instructions d d1 d'' extra payload e (Reaches-trans d1 d' d'' r k)
Reaches-trans _ _ d'' (rekeyed rt d d1 d' key e r) k =
    rekeyed rt d d1 d'' key e (Reaches-trans d1 d' d'' r k)

-- The passkey and the relying party are for ever; the counter never falls.
pub record Keeps (d d' : P256WebauthnAccountData) : Type 0 where
  pub header : d'.header ≡ d.header
  pub rp_id_info : d'.rp_id_info ≡ d.rp_id_info
  pub public_key : d'.public_key ≡ d.public_key
  pub counter : d.counter ≤ d'.counter

Keeps-trans : (a b c : P256WebauthnAccountData) → Keeps a b → Keeps b c → Keeps a c
Keeps-trans a b c h k = record {
  header = k.header ∙ h.header;
  rp_id_info = k.rp_id_info ∙ h.rp_id_info;
  public_key = k.public_key ∙ h.public_key;
  counter = omega (arith, h.counter, k.counter);
}

CountsUp-Keeps :
    (d : P256WebauthnAccountData) (n : ℕ) (d' : P256WebauthnAccountData)
    → CountsUp d n d'
    → Keeps d d'
CountsUp-Keeps d n d' (inl (zeroed, same)) = record {
  header = ap (λ (r : P256WebauthnAccountData). r.header) same;
  rp_id_info = ap (λ (r : P256WebauthnAccountData). r.rp_id_info) same;
  public_key = ap (λ (r : P256WebauthnAccountData). r.public_key) same;
  counter = omega (arith, ap (λ (r : P256WebauthnAccountData). r.counter) same);
}
CountsUp-Keeps d n d' (inr (up, same)) = record {
  header = ap (λ (r : P256WebauthnAccountData). r.header) same;
  rp_id_info = ap (λ (r : P256WebauthnAccountData). r.rp_id_info) same;
  public_key = ap (λ (r : P256WebauthnAccountData). r.public_key) same;
  counter = omega (arith, up, ap (λ (r : P256WebauthnAccountData). r.counter) same);
}

update_session_key-Keeps :
    (rt : Runtime) (d : P256WebauthnAccountData) (k : SessionKey) (d' : P256WebauthnAccountData)
    → update_session_key rt d k ≡ ok d'
    → Keeps d d'
unfolding update_session_key
update_session_key-Keeps rt d k d' e =
    let (latest, _, k1) = >>=-eq-ok (latest_expiration rt) _ e in
    let (_, _, k2) =
      >>=-eq-ok (require (leb k.expiration latest) invalid_session_key_expiration) _ k1 in
    let same : record d { session_key = k } ≡ d' = ok-injective _ d' k2 in
    subst (Keeps d) same
      (record { header = refl; rp_id_info = refl; public_key = refl; counter = omega arith })

-- Over any series of verifications and new session keys, the account's header, relying party and
-- passkey stay, and the counter never falls.
pub Reaches-Keeps : (d d' : P256WebauthnAccountData) → Reaches d d' → Keeps d d'
Reaches-Keeps _ _ (here d) = record {
  header = refl;
  rp_id_info = refl;
  public_key = refl;
  counter = omega arith;
}
Reaches-Keeps _ _ (verified rt instructions d d' d'' extra payload e r) =
    let v = verify_payload-IsVerified rt instructions d extra payload d' e in
    Keeps-trans d d' d'' (CountsUp-Keeps d v.assertion.counter d' v.assertion.counts_up)
      (Reaches-Keeps d' d'' r)
Reaches-Keeps _ _ (rekeyed rt d d' d'' k e r) =
    Keeps-trans d d' d'' (update_session_key-Keeps rt d k d' e) (Reaches-Keeps d' d'' r)

front :
    (auth client : Bytes)
    → length client ≡ 32
    → take (length (auth ++ client) - 32) (auth ++ client) ≡ auth
front auth client h =
    let n : length (auth ++ client) - 32 ≡ length auth = omega (arith, length-append auth client) in
    rw n (take-append (length auth) auth client refl)

-- One message has one counter.
same_counter :
    (rt : Runtime) (d e d' e' : P256WebauthnAccountData) (x y : P256ParsedVerificationData)
    (message p q : Bytes)
    → ((bs : Bytes) → length (hash rt bs) ≡ 32)
    → (a : IsAssertion rt d x message p d') → (b : IsAssertion rt e y message q e')
    → a.counter ≡ b.counter
same_counter rt d e d' e' x y message p q h a b =
    let left =
      ap (λ (m : Bytes). take (length m - 32) m) a.parts
      ∙ front a.auth_data (hash rt a.json) (h a.json) in
    let right =
      ap (λ (m : Bytes). take (length m - 32) m) b.parts
      ∙ front b.auth_data (hash rt b.json) (h b.json) in
    ok-injective _ _ (sym a.counted ∙ ap get_counter (sym left ∙ right) ∙ b.counted)

-- A counter that counts up twice from data that never fall is zero.
twice :
    (n : ℕ) (d d1 d2 d3 : P256WebauthnAccountData)
    → CountsUp d n d1
    → d1.counter ≤ d2.counter
    → CountsUp d2 n d3
    → (d1 ≡ d) × (d3 ≡ d2)
twice n d d1 d2 d3 (inl (zeroed, same)) le (inl (zeroed', same')) = (same, same')
twice n d d1 d2 d3 (inl (zeroed, same)) le (inr (up, same')) = absurd (omega arith)
twice n d d1 d2 d3 (inr (up, same)) le (inl (zeroed, same')) = absurd (omega arith)
twice n d d1 d2 d3 (inr (up, same)) le (inr (up', same')) =
    absurd (omega (arith, ap (λ (r : P256WebauthnAccountData). r.counter) same))

-- No assertion counts twice: if a transaction's assertion was accepted for an account, and is
-- accepted again, over whichever payload, after any series of verifications and new session keys,
-- then it changed the data neither time, so an assertion that moved the counter is never accepted
-- again. Hashes are 32 bytes long.
pub verify_payload-once :
    (rt : Runtime) (instructions : Instructions) (d d1 d2 d3 : P256WebauthnAccountData)
    (extra extra' : P256ParsedVerificationData) (payload payload' : Bytes)
    → ((bs : Bytes) → length (hash rt bs) ≡ 32)
    → verify_payload rt instructions d extra payload ≡ ok d1
    → Reaches d1 d2
    → verify_payload rt instructions d2 extra' payload' ≡ ok d3
    → (d1 ≡ d) × (d3 ≡ d2)
verify_payload-once rt instructions d d1 d2 d3 extra extra' payload payload' h e r e' =
    let v = verify_payload-IsVerified rt instructions d extra payload d1 e in
    let v' = verify_payload-IsVerified rt instructions d2 extra' payload' d3 e' in
    let ix : v.precompile ≡ v'.precompile = ok-injective _ _ (sym v.at_zero ∙ v'.at_zero) in
    let sp : v.signed ≡ v'.signed = ok-injective _ _ (
      sym v.loaded
      ∙ ap
          (λ (i : IntrospectedInstruction).
            get_signature_payload rt (secp256r1_precompile rt) (parser_of i instructions) 0)
          ix
      ∙ v'.loaded) in
    let again : IsAssertion rt d2 extra' v.signed.message payload' d3 =
      subst (λ (s : SignaturePayload). IsAssertion rt d2 extra' s.message payload' d3) (sym sp)
        v'.assertion in
    let one =
      same_counter rt d d2 d1 d3 extra extra' v.signed.message payload payload' h v.assertion
        again in
    let kept = Reaches-Keeps d1 d2 r in
    twice v.assertion.counter d d1 d2 d3 v.assertion.counts_up kept.counter
      (subst (λ n. CountsUp d2 n d3) (sym one) again.counts_up)
