-- ===== src/Sdk/Pda/Agrees.antt =====
-- The addresses that the SDK derives are those that the program checks and signs for
-- (sdks/rust-sdk/src/pda.rs against src/state).
use external_signature_progr.Base.{
  ℕ, ◌≡◌, ◌↔◌, refl, [], ◌∷◌, length, Pubkey, true, codes, bytes_eq_refl, bytes_eq_iff,
  Option-cases, Bool-cases, ap, ◌∙◌, inl, inr, not, if◌then◌else◌, bytes_eq,
}
use external_signature_progr.Errors.{Result, ok, err, invalid_account_owner, ◌>>=◌}
use external_signature_progr.Errors.Laws.{ok-injective}
use external_signature_progr.Runtime.{Runtime, AccountInfo}
use external_signature_progr.Sdk.Pda.{derive_passkey_account, derive_execution_account}
use external_signature_progr.Sdk.Types.{SdkResult, done, failed, pda_derivation_failed}
use external_signature_progr.State.{execution_account}
use external_signature_progr.State.Account.{ExternallySignedAccount, get_execution_account}
use external_signature_progr.State.P256Webauthn.Keys.{new_public_key-to_bytes}
use external_signature_progr.State.P256Webauthn.{
  P256RawVerificationData, parse_verification_data, verification_derive_args, AccountSeeds,
}
use external_signature_progr.State.P256Webauthn.Scheme.{check_account, derive_account}
use external_signature_progr.Utils.Sha256.{hash}
use external_signature_progr.World.{World}

abbrev owned_by : AccountInfo → AccountSeeds → Result AccountSeeds
owned_by info s = if not (bytes_eq s.key info.key) then err invalid_account_owner else ok s

module _ (rt : Runtime) (raw : P256RawVerificationData) (info : AccountInfo) (bump : ℕ) where
  -- The program's check of a writable account compares its key with the derived one.
  parse-check_account :
      length raw.public_key ≡ 33
      → info.is_writable ≡ true
      → (parse_verification_data raw >>= check_account rt info)
        ≡ (derive_account rt raw.public_key >>= owned_by info)
  unfolding check_account parse_verification_data verification_derive_args
  parse-check_account len writable =
      let (k, made, same) = new_public_key-to_bytes raw.public_key len in
      rw (made, writable, same) refl

  passkey→check :
      derive_passkey_account rt raw.public_key ≡ done (info.key, bump)
      → (s : AccountSeeds) × ((derive_account rt raw.public_key >>= owned_by info) ≡ ok s)
        × (s.bump ≡ bump)
  unfolding derive_passkey_account derive_account hash
  passkey→check e =
      elim (Option-cases
        (rt.find_program_address (codes "passkey" ∷ hash rt raw.public_key ∷ []) rt.id)) [
          | inl missing ↦
              (let never : failed pda_derivation_failed ≡ done (info.key, bump) = rw missing at e in
                cc)
          | inr (p, found) ↦
              (let yes : done p ≡ done (info.key, bump) = rw found at e in
                let here : p.0 ≡ info.key = cc in
                let s : AccountSeeds = record {
                  key = p.0;
                  bump = p.1;
                  seed_passkey = codes "passkey";
                  seed_public_key_hash = hash rt raw.public_key;
                } in
                (s, rw (found, here, bytes_eq_refl info.key) refl, cc))
        ]

  check→passkey :
      (s : AccountSeeds)
      → (derive_account rt raw.public_key >>= owned_by info) ≡ ok s
      → s.bump ≡ bump
      → derive_passkey_account rt raw.public_key ≡ done (info.key, bump)
  unfolding derive_passkey_account derive_account hash
  check→passkey s e same =
      elim (Option-cases
        (rt.find_program_address (codes "passkey" ∷ hash rt raw.public_key ∷ []) rt.id)) [
          | inl missing ↦ (let never : Result.panic ≡ ok s = rw missing at e in cc)
          | inr (p, found) ↦ elim (Bool-cases (bytes_eq p.0 info.key)) [
            | inl equal ↦
                (let here = (bytes_eq_iff p.0 info.key).0 equal in
                  let bump' : p.1 ≡ bump =
                    ap (λ (r : AccountSeeds). r.bump) (ok-injective _ s (rw (found, equal) at e))
                    ∙ same in
                  let pair : p ≡ (info.key, bump) = rw (here, bump') refl in
                  rw found (ap SdkResult.done pair))
            | inr differs ↦
                (let never : err invalid_account_owner ≡ ok s = rw (found, differs) at e in cc)
          ]
        ]

  -- The SDK derives, for a key of 33 bytes, the address of a writable account and a bump exactly
  -- when the program's check of that account against the key succeeds with that bump.
  pub derive_passkey_account-check_account :
      length raw.public_key ≡ 33
      → info.is_writable ≡ true
      → (derive_passkey_account rt raw.public_key ≡ done (info.key, bump)) ↔ (
          (s : AccountSeeds) × ((parse_verification_data raw >>= check_account rt info) ≡ ok s)
          × (s.bump ≡ bump))
  derive_passkey_account-check_account len writable =
      rw (parse-check_account len writable) (passkey→check, λ (s, e, same). check→passkey s e same)

pub derive_execution_account-get_execution_account :
    (rt : Runtime) (self : ExternallySignedAccount) (key : Pubkey) (bump : ℕ) (w : World)
    → (derive_execution_account rt self.account_info.key ≡ done (key, bump)) ↔ (
        get_execution_account rt self execution_account w
        ≡ ok (
          record {
            key = key;
            bump = bump;
            seeds = (self.account_info.key, codes "execution_account");
          },
          w,
        ))
unfolding derive_execution_account get_execution_account
derive_execution_account-get_execution_account rt self key bump w =
    elim (Option-cases
      (rt.find_program_address (self.account_info.key ∷ codes "execution_account" ∷ []) rt.id)) [
        | inl missing ↦ rw missing (λ e. cc, λ e. cc)
        | inr (p, found) ↦ rw found (λ e. cc, λ e. cc)
      ]
