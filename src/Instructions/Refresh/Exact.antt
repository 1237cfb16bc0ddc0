-- ===== src/Instructions/Refresh/Exact.antt =====
-- When a refresh succeeds (src/instructions/refresh_session_key.rs).
use external_signature_progr.Base.{◌+◌, ◌%◌, ◌^◌, ◌≡◌, ◌↔◌, refl, sym, ap, ◌∙◌, List, Bytes, length}
use external_signature_progr.Borsh.{Borsh}
use external_signature_progr.Errors
use external_signature_progr.Errors.{ok, into, ok_or, invalid_argument, invalid_signature_scheme}
use external_signature_progr.Instructions.Payload.{refresh_payload}
use external_signature_progr.Instructions.Refresh.{
  RefreshSessionKeyArgs, RefreshSessionKeyContext, load_context, load,
  get_refresh_session_key_payload_hash, process_refresh_session_key,
}
use external_signature_progr.Instructions.Refresh.Authorized.{
  IsAuthorized, process_refresh_session_key-IsAuthorized,
}
use external_signature_progr.Instructions.Refresh.Context.{IsContext}
use external_signature_progr.Runtime.{Runtime, AccountInfo}
use external_signature_progr.State.{SessionKey}
use external_signature_progr.State.Account
use external_signature_progr.State.Account.{data_ref}
use external_signature_progr.State.Account.Loads.{load-ok, check_account-ok, with_data-ok}
use external_signature_progr.State.Account.View.{written}
use external_signature_progr.State.P256Webauthn.{P256WebauthnAccountData}
use external_signature_progr.State.P256Webauthn.Scheme
use external_signature_progr.State.P256Webauthn.Scheme.Verify.{verify_payload_exact}
use external_signature_progr.Utils.Sha256.{hash}
use external_signature_progr.World.{World}
use external_signature_progr.World.Laws.{bind-ok, bind-lift-ok}

module _ (rt : Runtime) (b : Borsh) where
  load_context-ok :
      (x i s n : AccountInfo) (args : RefreshSessionKeyArgs) (w : World)
      (c : RefreshSessionKeyContext) (d : P256WebauthnAccountData)
      → IsContext rt b x i s n args w c
      → data_ref rt c.externally_signed_account w.accounts ≡ ok d
      → load_context rt b x i s n args w ≡ ok (c, w)
  unfolding load_context
  load_context-ok x i s n args w c d k read =
      let self = c.externally_signed_account in
      bind-lift-ok _ _ w k.extra
      ∙ bind-ok (Account.load rt x) _ w (load-ok rt x self w d k.loaded read)
      ∙ bind-ok (Account.check_account rt self c.verification_data) _ w
          (check_account-ok rt self c.verification_data w d k.seeds read k.derived)
      ∙ bind-lift-ok _ _ w k.sysvar
      ∙ bind-lift-ok _ _ w k.slothashes
      ∙ bind-lift-ok _ _ w k.nonce
      ∙ ap (λ (key : SessionKey). ok (record c { session_key = key }, w)) (sym k.session_key)

  module _ (infos : List AccountInfo) (input : Bytes) (w w' : World)
      (hash_length : (bs : Bytes) → length (hash rt bs) ≡ 32) where
    process_refresh_session_key-ok :
        IsAuthorized rt b infos input w w'
        → process_refresh_session_key rt b infos input w ≡ ok (tt, w')
    unfolding process_refresh_session_key load get_refresh_session_key_payload_hash
        Account.verify_payload Account.update_session_key
    process_refresh_session_key-ok a =
        let c = a.context in
        let self = c.externally_signed_account in
        let payload_hash : Errors.◌>>=◌ (refresh_payload b c.nonce_data c.session_key)
              (λ payload. Errors.ok (hash rt payload))
            ≡ ok (hash rt a.payload) =
          rw a.signed refl in
        let verified =
          (verify_payload_exact rt c.instructions_sysvar a.before c.verification_data
              (hash rt a.payload) a.after hash_length).1
            a.verified in
        let session_key : SessionKey = record {
          key = a.args.session_key.key;
          expiration = (a.now + a.args.session_key.expiration) % 2 ^ 64;
        } in
        let w1 = written w self a.after in
        bind-lift-ok _ _ w (ap (ok_or invalid_argument) a.parsed)
        ∙ bind-lift-ok _ _ w (ap (ok_or (into invalid_signature_scheme)) a.signature_scheme)
        ∙ bind-ok (load rt b infos a.args) _ w (
            ap (λ l. load rt b l a.args w) a.listed
            ∙ load_context-ok a.external_account a.instructions_info a.slothashes_info
                a.nonce_signer a.args w c a.before a.checked a.read)
        ∙ bind-lift-ok _ _ w payload_hash
        ∙ bind-ok
            (Account.verify_payload rt self c.instructions_sysvar c.verification_data
              (hash rt a.payload))
            _ w
            (with_data-ok rt self
              (λ d.
                Scheme.verify_payload rt c.instructions_sysvar d c.verification_data
                  (hash rt a.payload))
              w a.before a.after a.read verified)
        ∙ bind-lift-ok rt.clock
            (λ now. Account.update_session_key rt self (record {
              key = a.args.session_key.key;
              expiration = (now + a.args.session_key.expiration) % 2 ^ 64;
            }))
            w1 a.clock
        ∙ with_data-ok rt self (λ d. Scheme.update_session_key rt d session_key) w1 a.counted
            a.refreshed a.reread a.updated
        ∙ ap (λ q. ok (tt, q)) (sym a.wrote)

    -- With 32-byte hashes, a refresh takes w to w' exactly when the account's passkey authorized
    -- it and w' has the new session key: the arguments parse; the account is the program's and its
    -- address follows from the verification data; the nonce is valid for the nonce signer; the
    -- transaction's first instruction verified a WebAuthn assertion, by the account's key, over
    -- the hash of the payload for that nonce and the session key of the arguments; and w' is w but
    -- for the account's data, where the counter and then the session key were updated, its
    -- expiration counted from the clock's time.
    pub process_refresh_session_key_exact :
        (process_refresh_session_key rt b infos input w ≡ ok (tt, w'))
        ↔ IsAuthorized rt b infos input w w'
    process_refresh_session_key_exact = (
      process_refresh_session_key-IsAuthorized rt b infos input w w',
      process_refresh_session_key-ok,
    )
