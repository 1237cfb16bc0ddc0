-- ===== src/State/P256Webauthn/Scheme/Session.antt =====
-- Session keys: which are accepted, and for how long (src/state/p256_webauthn/trait_impl.rs).
use external_signature_progr.Base.{ℕ, ◌+◌, ◌^◌, ◌≤◌, ◌<◌, ◌≡◌, ◌↔◌, true, arith, bytes_eq_iff}
use external_signature_progr.Errors.{ok}
use external_signature_progr.Runtime.{Runtime, AccountInfo}
use external_signature_progr.State.{SessionKey, session_key_expiration_limit}
use external_signature_progr.State.P256Webauthn.{P256WebauthnAccountData}
use external_signature_progr.State.P256Webauthn.Scheme.{update_session_key, is_valid_session_key}

module _ (rt : Runtime) (now : ℕ) (clock : rt.clock ≡ ok now) where
  -- While the clock is three months short of 2^64 seconds, a new session key is accepted exactly
  -- if it expires at most three months from now, and nothing but the session key changes.
  pub update_session_key_exact :
      (d : P256WebauthnAccountData) (s : SessionKey) (d' : P256WebauthnAccountData)
      → now + session_key_expiration_limit < 2 ^ 64
      → (update_session_key rt d s ≡ ok d') ↔ (
          (s.expiration ≤ now + session_key_expiration_limit) × (d' ≡ record d { session_key = s }))
  unfolding update_session_key
  update_session_key_exact d s d' h = (λ e. ground (arith, clock), λ e. ground (arith, clock))

  -- At a clock's time now, a signer is accepted exactly if it signed, its key is the session key,
  -- and the session key has not expired before now.
  pub is_valid_session_key_exact :
      (d : P256WebauthnAccountData) (signer : AccountInfo)
      → (is_valid_session_key rt d signer ≡ ok tt) ↔ (
          (signer.is_signer ≡ true)
          × (d.session_key.key ≡ signer.key)
          × (now ≤ d.session_key.expiration))
  unfolding is_valid_session_key
  is_valid_session_key_exact d signer = (
    λ e. ground (arith, clock, bytes_eq_iff d.session_key.key signer.key),
    λ e. ground (arith, clock, bytes_eq_iff d.session_key.key signer.key),
  )
