-- ===== src/Ledger/Founding.antt =====
-- The data of a new account (src/state/p256_webauthn/trait_impl.rs).
use external_signature_progr.Base.{
  ◌≡◌, refl, sym, ap, ◌∙◌, arith, leb, [], ◌∷◌, replicate, Option, none, some, le_bytes,
}
use external_signature_progr.Errors.{ok, require, invalid_session_key_expiration}
use external_signature_progr.Errors.Laws.{>>=-eq-ok, ok-injective}
use external_signature_progr.Ledger.Changes.{IsSessionKey, session_key-IsCurrent}
use external_signature_progr.Ledger.Parsed.{IsParsed}
use external_signature_progr.Runtime.{Runtime}
use external_signature_progr.State.{SessionKey}
use external_signature_progr.State.Account.Keeps.{IsCurrent}
use external_signature_progr.State.P256Webauthn.{
  P256WebauthnAccountData, P256ParsedInitializationData,
}
use external_signature_progr.State.P256Webauthn.Layout.{encode}
use external_signature_progr.State.P256Webauthn.Scheme
use external_signature_progr.State.P256Webauthn.Scheme.{set_session_key, latest_expiration}

-- A new account's data before the scheme fills them: the header, and zeros.
abbrev pub blank : P256WebauthnAccountData
blank = record {
  header = record { version = Scheme.version; scheme = Scheme.scheme; reserved = 0 ∷ 0 ∷ [] };
  rp_id_info = record { rp_id_len = 0; rp_id = replicate 32 0; rp_id_hash = replicate 32 0 };
  public_key = record { x = replicate 32 0; y_parity = 0 };
  padding = 0 ∷ 0 ∷ [];
  session_key = record { key = replicate 32 0; expiration = 0 };
  counter = 0;
}

-- The data that the arguments ask for.
abbrev pub founded : P256ParsedInitializationData → Option SessionKey → P256WebauthnAccountData
founded args none = record blank { rp_id_info = args.rp_id_info; public_key = args.public_key }
founded args (some session_key) = record blank {
  rp_id_info = args.rp_id_info;
  public_key = args.public_key;
  session_key = session_key;
}

pub blank-IsCurrent : IsCurrent blank
blank-IsCurrent = record {
  fields = record {
    reserved = refl;
    rp_id = refl;
    rp_id_hash = refl;
    x = refl;
    padding = refl;
    key = refl;
    expiration = omega arith;
    counter = omega arith;
  };
  version = refl;
  scheme = refl;
}

pub encode-blank : encode blank ≡ Scheme.version ∷ (Scheme.scheme ∷ replicate 150 0)
unfolding encode le_bytes
encode-blank = refl

unkeyed-IsCurrent :
    (args : P256ParsedInitializationData) → IsParsed args → IsCurrent (founded args none)
unkeyed-IsCurrent args p = record {
  fields = record {
    reserved = refl;
    rp_id = p.rp_id;
    rp_id_hash = p.rp_id_hash;
    x = p.x;
    padding = refl;
    key = refl;
    expiration = omega arith;
    counter = omega arith;
  };
  version = refl;
  scheme = refl;
}

pub founded-IsCurrent :
    (args : P256ParsedInitializationData) (session_key : Option SessionKey)
    → IsParsed args
    → ((s : SessionKey) → session_key ≡ some s → IsSessionKey s)
    → IsCurrent (founded args session_key)
founded-IsCurrent args none p fits = unkeyed-IsCurrent args p
founded-IsCurrent args (some s) p fits =
    session_key-IsCurrent (founded args none) s (fits s refl) (unkeyed-IsCurrent args p)

pub initialize_account-founded :
    (rt : Runtime) (args : P256ParsedInitializationData) (session_key : Option SessionKey)
    (made : P256WebauthnAccountData)
    → IsParsed args
    → Scheme.initialize_account rt blank args session_key ≡ ok made
    → made ≡ founded args session_key
unfolding Scheme.initialize_account set_session_key
initialize_account-founded rt args none made p e =
    sym (ok-injective _ made e)
    ∙ ap
        (λ n. record blank {
          rp_id_info = args.rp_id_info;
          public_key = args.public_key;
          counter = n;
        })
        p.counter
initialize_account-founded rt args (some s) made p e =
    let (latest, _, k1) = >>=-eq-ok (latest_expiration rt) _ e in
    let (_, _, k2) =
      >>=-eq-ok (require (leb s.expiration latest) invalid_session_key_expiration) _ k1 in
    sym (ok-injective _ made k2)
    ∙ ap
        (λ n. record blank {
          rp_id_info = args.rp_id_info;
          public_key = args.public_key;
          session_key = s;
          counter = n;
        })
        p.counter
