-- ===== src/State/Traits/Laws.antt =====
-- What the wrapper and the handlers rely on in a signature scheme, and that the P-256 WebAuthn scheme
-- provides it (src/state/externally_signed_account/traits.rs, src/state/p256_webauthn/trait_impl.rs).
use external_signature_progr.Base.{
  ◌≡◌, refl, sym, ap, ◌∙◌, arith, true, leb, Bytes, [], ◌∷◌, Option, none, some, bytes_eq_iff,
}
use external_signature_progr.Errors.{
  ok, require, p256_account_not_writable, invalid_session_key_expiration,
}
use external_signature_progr.Errors.Laws.{>>=-eq-ok, ok-injective, require-eq-ok}
use external_signature_progr.Runtime.{Runtime, AccountInfo, Instructions}
use external_signature_progr.State.{SessionKey}
use external_signature_progr.State.P256Webauthn.{
  P256WebauthnAccountData, P256ParsedInitializationData, P256ParsedVerificationData, AccountSeeds,
  to_bytes, seeds, seeds_owned, initialization_derive_args, verification_derive_args,
}
use external_signature_progr.State.P256Webauthn.Scheme
use external_signature_progr.State.P256Webauthn.Scheme.History.{
  here, verified, rekeyed, Reaches-Keeps,
}
use external_signature_progr.State.Traits.{ExternallySignedAccountData, p256_webauthn_account_data}

-- The address of an account is what a scheme derives from its data. An account that passes the check
-- has the address of the verification's arguments; an initialization gives the address of its
-- arguments, and no other operation changes it; the seeds are the owned ones and the bump.
pub record IsScheme (t : ExternallySignedAccountData) : Type 0 where
  pub checks_address :
      (self : t.Account) (info : AccountInfo) (args : t.ParsedVerificationData) (s : t.Seeds)
      → t.check_account self info args ≡ ok s
      → (t.derive_account (t.from_verification args) ≡ ok s)
        × (t.account_seeds.key s ≡ info.key)
        × (info.is_writable ≡ true)
  pub initializes_address :
      (d d' : t.Account) (args : t.ParsedInitializationData) (session_key : Option SessionKey)
      → t.initialize_account d args session_key ≡ ok d'
      → t.derive_existing_account d' ≡ t.derive_account (t.from_initialization args)
  pub verification_keeps_address :
      (instructions : Instructions) (d d' : t.Account) (args : t.ParsedVerificationData)
      (payload : Bytes)
      → t.verify_payload instructions d args payload ≡ ok d'
      → t.derive_existing_account d' ≡ t.derive_existing_account d
  pub initialization_keeps_address :
      (instructions : Instructions) (d d' : t.Account) (args : t.ParsedInitializationData)
      (payload : Bytes)
      → t.verify_initialization_payload instructions d args payload ≡ ok d'
      → t.derive_existing_account d' ≡ t.derive_existing_account d
  pub refresh_keeps_address :
      (d d' : t.Account) (session_key : SessionKey)
      → t.update_session_key d session_key ≡ ok d'
      → t.derive_existing_account d' ≡ t.derive_existing_account d
  pub seeds_agree :
      (s : t.Seeds)
      → t.account_seeds.seeds s
        ≡ (t.account_seeds.seeds_owned s).0
          ∷ (t.account_seeds.seeds_owned s).1
          ∷ (t.account_seeds.bump s ∷ [])
          ∷ []

module _ (rt : Runtime) where
  same_passkey :
      (d d' : P256WebauthnAccountData)
      → d'.public_key ≡ d.public_key
      → Scheme.derive_existing_account rt d' ≡ Scheme.derive_existing_account rt d
  unfolding Scheme.derive_existing_account
  same_passkey d d' e = ap (λ k. Scheme.derive_account rt (to_bytes k)) e

  check_account-address :
      (info : AccountInfo) (args : P256ParsedVerificationData) (s : AccountSeeds)
      → Scheme.check_account rt info args ≡ ok s
      → (Scheme.derive_account rt (verification_derive_args args) ≡ ok s)
        × (s.key ≡ info.key)
        × (info.is_writable ≡ true)
  unfolding Scheme.check_account
  check_account-address info args s e =
      let (_, e1, k1) = >>=-eq-ok (require info.is_writable p256_account_not_writable) _ e in
      let (s', e2, k2) =
        >>=-eq-ok (Scheme.derive_account rt (verification_derive_args args)) _ k1 in
      let writable = require-eq-ok info.is_writable _ e1 in
      let both : (s' ≡ s) × (s'.key ≡ info.key) = ground (arith, bytes_eq_iff s'.key info.key) in
      (e2 ∙ ap ok both.0, ap (λ (q : AccountSeeds). q.key) (sym both.0) ∙ both.1, writable)

  initialize_account-passkey :
      (d d' : P256WebauthnAccountData) (args : P256ParsedInitializationData)
      (session_key : Option SessionKey)
      → Scheme.initialize_account rt d args session_key ≡ ok d'
      → d'.public_key ≡ args.public_key
  unfolding Scheme.initialize_account Scheme.set_session_key
  initialize_account-passkey d d' args none e =
      ap (λ (q : P256WebauthnAccountData). q.public_key) (sym (ok-injective _ d' e))
  initialize_account-passkey d d' args (some s) e =
      let (latest, _, k1) = >>=-eq-ok (Scheme.latest_expiration rt) _ e in
      let (_, _, k2) =
        >>=-eq-ok (require (leb s.expiration latest) invalid_session_key_expiration) _ k1 in
      ap (λ (q : P256WebauthnAccountData). q.public_key) (sym (ok-injective _ d' k2))

  initialize_account-address :
      (d d' : P256WebauthnAccountData) (args : P256ParsedInitializationData)
      (session_key : Option SessionKey)
      → Scheme.initialize_account rt d args session_key ≡ ok d'
      → Scheme.derive_existing_account rt d'
        ≡ Scheme.derive_account rt (initialization_derive_args args)
  unfolding Scheme.derive_existing_account initialization_derive_args
  initialize_account-address d d' args session_key e =
      ap (λ k. Scheme.derive_account rt (to_bytes k))
        (initialize_account-passkey d d' args session_key e)

  verify_payload-address :
      (instructions : Instructions) (d d' : P256WebauthnAccountData)
      (args : P256ParsedVerificationData) (payload : Bytes)
      → Scheme.verify_payload rt instructions d args payload ≡ ok d'
      → Scheme.derive_existing_account rt d' ≡ Scheme.derive_existing_account rt d
  verify_payload-address instructions d d' args payload e =
      let kept = Reaches-Keeps d d' (verified rt instructions d d' d' args payload e (here d')) in
      same_passkey d d' kept.public_key

  -- The P-256 WebAuthn scheme is what the wrapper takes it for: an account that passes the check
  -- is writable and has the address that its verification arguments derive; an initialization
  -- gives the data the address of its arguments, and no verification or refresh changes it; and
  -- the seeds are the two owned ones and the bump.
  pub p256_webauthn_account_data-IsScheme : IsScheme (p256_webauthn_account_data rt)
  unfolding Scheme.verify_initialization_payload seeds seeds_owned
  p256_webauthn_account_data-IsScheme = record {
    checks_address = λ self. check_account-address;
    initializes_address = initialize_account-address;
    verification_keeps_address = verify_payload-address;
    initialization_keeps_address = λ instructions d d' args payload e.
        verify_payload-address instructions d d'
          (record { public_key = args.public_key; params = args.params }) payload e;
    refresh_keeps_address = λ d d' s e.
        same_passkey d d' (Reaches-Keeps d d' (rekeyed rt d d' d' s e (here d'))).public_key;
    seeds_agree = λ s. refl;
  }
