-- ===== src/Instructions/Refresh/Authorized.antt =====
-- What stands behind a refresh that succeeds (src/instructions/refresh_session_key.rs).
use external_signature_progr.Base.{ℕ, ◌+◌, ◌%◌, ◌^◌, ◌≡◌, sym, List, ◌∷◌, Bytes, some}
use external_signature_progr.Borsh.{Borsh}
use external_signature_progr.Errors.{ok, into, ok_or, invalid_argument, invalid_signature_scheme}
use external_signature_progr.Errors.Laws.{ok_or-eq-ok, >>=-eq-ok, ok-injective}
use external_signature_progr.Instructions.Payload.{refresh_payload}
use external_signature_progr.Instructions.Refresh.{
  RefreshSessionKeyArgs, args_codec, RefreshSessionKeyContext, load,
  get_refresh_session_key_payload_hash, process_refresh_session_key,
}
use external_signature_progr.Runtime.{Runtime, AccountInfo}
use external_signature_progr.State.{SessionKey, SignatureScheme, signature_scheme_try_from}
use external_signature_progr.State.Account
use external_signature_progr.State.Account.{data_ref}
use external_signature_progr.State.Account.View.{written, with_data-eq-ok}
use external_signature_progr.State.P256Webauthn.{P256WebauthnAccountData}
use external_signature_progr.State.P256Webauthn.Scheme
use external_signature_progr.State.P256Webauthn.Scheme.Verify.{
  IsVerified, verify_payload-IsVerified,
}
use external_signature_progr.Utils.Sha256.{hash}
use external_signature_progr.World.{World}
use external_signature_progr.World.Laws.{bind-eq-ok, bind-lift-eq-ok, bind-reads-eq-ok}
use mathlib.Core.Path.{subst}
use external_signature_progr.Instructions.Refresh.Context.{IsContext, load-IsContext, load_keeps}

module _ (rt : Runtime) (b : Borsh) where
  -- What stands behind a successful refresh from `w` to `w'`: a verified payload over the nonce and
  -- the session key of the arguments, then the session key's update at the clock's time.
  pub record IsAuthorized (infos : List AccountInfo) (input : Bytes) (w w' : World) : Type 0 where
    pub external_account : AccountInfo
    pub instructions_info : AccountInfo
    pub slothashes_info : AccountInfo
    pub nonce_signer : AccountInfo
    pub others : List AccountInfo
    pub listed :
        infos ≡ external_account ∷ instructions_info ∷ slothashes_info ∷ nonce_signer ∷ others
    pub args : RefreshSessionKeyArgs
    pub parsed : b.try_from_slice RefreshSessionKeyArgs (args_codec b) input ≡ some args
    pub known : SignatureScheme
    pub signature_scheme : signature_scheme_try_from args.signature_scheme ≡ some known
    pub context : RefreshSessionKeyContext
    pub checked :
        IsContext rt b external_account instructions_info slothashes_info nonce_signer args w
          context
    pub payload : Bytes
    pub signed : refresh_payload b context.nonce_data context.session_key ≡ ok payload
    pub before : P256WebauthnAccountData
    pub after : P256WebauthnAccountData
    pub read : data_ref rt context.externally_signed_account w.accounts ≡ ok before
    pub verified :
        IsVerified rt context.instructions_sysvar before context.verification_data
          (hash rt payload)
          after
    pub now : ℕ
    pub clock : rt.clock ≡ ok now
    -- The data, read back from where the counter's update was written.
    pub counted : P256WebauthnAccountData
    pub refreshed : P256WebauthnAccountData
    pub reread :
        data_ref rt context.externally_signed_account
          (written w context.externally_signed_account after).accounts
        ≡ ok counted
    pub updated :
        Scheme.update_session_key rt counted (record {
          key = args.session_key.key;
          expiration = (now + args.session_key.expiration) % 2 ^ 64;
        })
        ≡ ok refreshed
    pub wrote :
        w'
        ≡ written
            (written w context.externally_signed_account after)
            context.externally_signed_account
            refreshed

  payload-eq-ok :
      (c : RefreshSessionKeyContext) (h : Bytes)
      → get_refresh_session_key_payload_hash rt b c ≡ ok h
      → (payload : Bytes) × (refresh_payload b c.nonce_data c.session_key ≡ ok payload)
        × (h ≡ hash rt payload)
  unfolding get_refresh_session_key_payload_hash
  payload-eq-ok c h e =
      let (payload, signed, k) = >>=-eq-ok (refresh_payload b c.nonce_data c.session_key) _ e in
      (payload, signed, sym (ok-injective _ _ k))

  -- A refresh that succeeds was authorized by the account's passkey: the arguments parse; the
  -- account is the program's and its address follows from the verification data; the nonce is
  -- valid for the nonce signer; the transaction's first instruction verified a WebAuthn assertion,
  -- by the account's key, over the hash of the payload for that nonce and the session key of the
  -- arguments; and the state is left as it was but for the account's data, where the counter and
  -- then the session key were updated, its expiration counted from the clock's time.
  pub process_refresh_session_key-IsAuthorized :
      (infos : List AccountInfo) (input : Bytes) (w w' : World)
      → process_refresh_session_key rt b infos input w ≡ ok (tt, w')
      → IsAuthorized infos input w w'
  unfolding process_refresh_session_key Account.verify_payload Account.update_session_key
  process_refresh_session_key-IsAuthorized infos input w w' e =
      let (args, e1, k1) =
        bind-lift-eq-ok
          (ok_or invalid_argument (b.try_from_slice RefreshSessionKeyArgs (args_codec b) input)) _ w
          e in
      let (known, e2, k2) =
        bind-lift-eq-ok
          (ok_or (into invalid_signature_scheme) (signature_scheme_try_from args.signature_scheme))
          _ w k1 in
      let (c, e3, k3) =
        bind-reads-eq-ok (load rt b infos args) _ w (load_keeps rt b infos args w) k2 in
      let (x, i, s, n, rest, listed, checked, _) = load-IsContext rt b infos args w c w e3 in
      let (h, e4, k4) = bind-lift-eq-ok (get_refresh_session_key_payload_hash rt b c) _ w k3 in
      let (payload, signed, hashed) = payload-eq-ok c h e4 in
      let self = c.externally_signed_account in
      let (_, u, e5, k5) =
        bind-eq-ok (Account.verify_payload rt self c.instructions_sysvar c.verification_data h) _ w
          k4 in
      let (d, d', read, method, wrote) =
        with_data-eq-ok rt self
          (λ d. Scheme.verify_payload rt c.instructions_sysvar d c.verification_data h) w e5 in
      let (now, e6, k6) = bind-lift-eq-ok rt.clock _ u k5 in
      let session_key : SessionKey = record {
        key = args.session_key.key;
        expiration = (now + args.session_key.expiration) % 2 ^ 64;
      } in
      let (d2, d3, read2, method2, wrote2) =
        with_data-eq-ok rt self (λ d. Scheme.update_session_key rt d session_key) u k6 in
      record {
        external_account = x;
        instructions_info = i;
        slothashes_info = s;
        nonce_signer = n;
        others = rest;
        listed = listed;
        args = args;
        parsed = ok_or-eq-ok _ _ e1;
        known = known;
        signature_scheme = ok_or-eq-ok _ _ e2;
        context = c;
        checked = checked;
        payload = payload;
        signed = signed;
        before = d;
        after = d';
        read = read;
        verified =
            verify_payload-IsVerified rt c.instructions_sysvar d c.verification_data
              (hash rt payload) d'
              (subst
                (λ q.
                  Scheme.verify_payload rt c.instructions_sysvar d c.verification_data q ≡ ok d')
                hashed method);
        now = now;
        clock = e6;
        counted = d2;
        refreshed = d3;
        reread = subst (λ (q : World). data_ref rt self q.accounts ≡ ok d2) wrote read2;
        updated = method2;
        wrote = subst (λ (q : World). w' ≡ written q self d3) wrote wrote2;
      }
