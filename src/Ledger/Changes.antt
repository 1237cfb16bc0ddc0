-- ===== src/Ledger/Changes.antt =====
-- What a verification and a new session key make of data that fit an account
-- (src/state/p256_webauthn/trait_impl.rs), and what a write of them makes of the account.
use external_signature_progr.Base.{
  ℕ, ◌^◌, ◌<◌, ◌≡◌, sym, arith, Bytes, Pubkey, All, All-append-left, IsByte, length, leb, inl, inr,
  same_or_other,
}
use external_signature_progr.Errors.{ok, require, invalid_session_key_expiration}
use external_signature_progr.Errors.Laws.{>>=-eq-ok, ok-injective}
use external_signature_progr.Ledger.Counters.{AreBytes, get_counter-lt, message-IsByte}
use external_signature_progr.Ledger.Enrolled.{
  IsEnrolled, written-IsUntouched, IsUntouched-IsHolding, written-IsEnrolled, data_ref-IsEnrolled,
}
use external_signature_progr.Ledger.Rules.{IsRuntime}
use external_signature_progr.Runtime.{Runtime, AccountInfo, Instructions}
use external_signature_progr.State.{SessionKey}
use external_signature_progr.State.Account.{ExternallySignedAccount, data_ref}
use external_signature_progr.State.Account.Keeps.{IsCurrent}
use external_signature_progr.State.Account.View.{written}
use external_signature_progr.State.P256Webauthn.{
  P256WebauthnAccountData, P256ParsedVerificationData,
}
use external_signature_progr.State.P256Webauthn.Scheme.{update_session_key, latest_expiration}
use external_signature_progr.State.P256Webauthn.Scheme.History.{Reaches, here, verified, rekeyed}
use external_signature_progr.State.P256Webauthn.Scheme.Verify.{
  CountsUp, IsVerified, parser_of, verify_payload_exact,
}
use external_signature_progr.Utils.Precompiles.{secp256r1_precompile}
use external_signature_progr.World.{World}
use mathlib.Core.Path.{subst}

counter-IsCurrent :
    (d : P256WebauthnAccountData) (n : ℕ)
    → n < 2 ^ 32
    → IsCurrent d
    → IsCurrent (record d { counter = n })
counter-IsCurrent d n lt h = record {
  fields = record {
    reserved = h.fields.reserved;
    rp_id = h.fields.rp_id;
    rp_id_hash = h.fields.rp_id_hash;
    x = h.fields.x;
    padding = h.fields.padding;
    key = h.fields.key;
    expiration = h.fields.expiration;
    counter = omega (arith, lt);
  };
  version = h.version;
  scheme = h.scheme;
}

-- A session key of the widths of the layout.
pub record IsSessionKey (s : SessionKey) : Type 0 where
  pub key : length s.key ≡ 32
  pub expiration : s.expiration < 2 ^ 64

pub session_key-IsCurrent :
    (d : P256WebauthnAccountData) (s : SessionKey)
    → IsSessionKey s
    → IsCurrent d
    → IsCurrent (record d { session_key = s })
session_key-IsCurrent d s fits h = record {
  fields = record {
    reserved = h.fields.reserved;
    rp_id = h.fields.rp_id;
    rp_id_hash = h.fields.rp_id_hash;
    x = h.fields.x;
    padding = h.fields.padding;
    key = fits.key;
    expiration = fits.expiration;
    counter = h.fields.counter;
  };
  version = h.version;
  scheme = h.scheme;
}

CountsUp-IsCurrent :
    (d : P256WebauthnAccountData) (n : ℕ) (d' : P256WebauthnAccountData)
    → n < 2 ^ 32
    → CountsUp d n d'
    → IsCurrent d
    → IsCurrent d'
CountsUp-IsCurrent d n d' lt (inl (zeroed, same)) h = subst IsCurrent (sym same) h
CountsUp-IsCurrent d n d' lt (inr (up, same)) h =
    subst IsCurrent (sym same) (counter-IsCurrent d n lt h)

module _ (rt : Runtime) (rules : IsRuntime rt) where
  pub IsVerified-IsCurrent :
      (info : AccountInfo) (instructions : Instructions) (d : P256WebauthnAccountData)
      (extra : P256ParsedVerificationData) (payload : Bytes) (d' : P256WebauthnAccountData)
      → rt.instructions info ≡ ok instructions
      → IsVerified rt instructions d extra payload d'
      → IsCurrent d
      → IsCurrent d' × Reaches d d'
  IsVerified-IsCurrent info instructions d extra payload d' sysvar v h =
      let bytes : AreBytes instructions =
        λ i ix e. rules.sysvar_bytes info instructions i ix sysvar e in
      let message : All IsByte v.signed.message =
        message-IsByte (parser_of v.precompile instructions) (bytes 0 v.precompile v.at_zero).0
          bytes rt (secp256r1_precompile rt) 0 v.signed v.loaded in
      let auth =
        All-append-left IsByte v.assertion.auth_data _
          (subst (All IsByte) v.assertion.parts message) in
      let lt = get_counter-lt v.assertion.auth_data v.assertion.counter v.assertion.counted auth in
      (
        CountsUp-IsCurrent d v.assertion.counter d' lt v.assertion.counts_up h,
        verified rt instructions d d' d' extra payload
            ((verify_payload_exact rt instructions d extra payload d' rules.hash_length).1 v)
            (here d'),
      )

  pub update_session_key-IsCurrent :
      (d : P256WebauthnAccountData) (s : SessionKey) (d' : P256WebauthnAccountData)
      → update_session_key rt d s ≡ ok d'
      → IsSessionKey s
      → IsCurrent d
      → IsCurrent d' × Reaches d d'
  unfolding update_session_key
  update_session_key-IsCurrent d s d' e fits h =
      let (latest, _, k1) = >>=-eq-ok (latest_expiration rt) _ e in
      let (_, _, k2) =
        >>=-eq-ok (require (leb s.expiration latest) invalid_session_key_expiration) _ k1 in
      let same : record d { session_key = s } ≡ d' = ok-injective _ d' k2 in
      (subst IsCurrent same (session_key-IsCurrent d s fits h), rekeyed rt d d' d' s e (here d'))

  -- What an account holds, and how it came from `d`.
  abbrev pub Next : World → Pubkey → P256WebauthnAccountData → Type 0
  Next w key d = (d' : P256WebauthnAccountData) × IsEnrolled rt.id w.accounts key d' × Reaches d d'

  -- A write of what the data that were read allow.
  pub written-Next :
      (w : World) (self : ExternallySignedAccount) (key : Pubkey)
      (d before after : P256WebauthnAccountData)
      → IsEnrolled rt.id w.accounts key d
      → (self.account_info.key ≡ key → self.len ≡ 152)
      → data_ref rt self w.accounts ≡ ok before
      → (IsCurrent before → IsCurrent after × Reaches before after)
      → Next (written w self after) key d
  written-Next w self key d before after h len read change =
      elim (same_or_other self.account_info.key key) [
        | inl same ↦
            let own : IsEnrolled rt.id w.accounts self.account_info.key d =
              subst (λ k. IsEnrolled rt.id w.accounts k d) (sym same) h in
            let found = data_ref-IsEnrolled rt.id w self d own rt before (len same) read in
            let (current, reached) = change (subst IsCurrent (sym found) h.current) in
            (
              after,
              subst (λ k. IsEnrolled rt.id (written w self after).accounts k after) same
                  (written-IsEnrolled rt.id w self d own after current),
              subst (λ q. Reaches q after) found reached,
            )
        | inr other ↦ (
          d,
          IsUntouched-IsHolding rt.id d (w.accounts key) ((written w self after).accounts key)
              (written-IsUntouched w self after key other) h,
          here d,
        )
      ]
