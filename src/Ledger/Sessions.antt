-- ===== src/Ledger/Sessions.antt =====
-- A session from its refresh to an execution of its key
-- (src/instructions/refresh_session_key.rs, execute_instructions_sessioned.rs).
use external_signature_progr.Base.{
  ℕ, ◌+◌, ◌%◌, ◌^◌, ◌≤◌, ◌≡◌, true, sym, ap, ◌∙◌, arith, Bytes, Pubkey, List, [], ◌∷◌, some, leb,
}
use external_signature_progr.Borsh.{Borsh}
use external_signature_progr.Borsh.Laws.{IsBorsh}
use external_signature_progr.Errors.{ok, require, invalid_session_key_expiration}
use external_signature_progr.Errors.Laws.{>>=-eq-ok, ok-injective, require-eq-ok}
use external_signature_progr.Instructions.ExecuteSessioned.{process_execute_instructions_sessioned}
use external_signature_progr.Instructions.ExecuteSessioned.Authorized.{
  process_execute_instructions_sessioned-IsSessionAuthorized,
}
use external_signature_progr.Instructions.Refresh.{
  RefreshSessionKeyArgs, args_codec, process_refresh_session_key,
}
use external_signature_progr.Instructions.Refresh.Authorized.{
  IsAuthorized, process_refresh_session_key-IsAuthorized,
}
use external_signature_progr.Ledger.Changes.{
  IsSessionKey, IsVerified-IsCurrent, update_session_key-IsCurrent,
}
use external_signature_progr.Ledger.Enrolled.{
  IsEnrolled, written-IsEnrolled, data_ref-IsEnrolled, IsLoaded-len,
}
use external_signature_progr.Ledger.Handlers.{refresh_args-IsSessionKey}
use external_signature_progr.Ledger.Rules.{IsRuntime}
use external_signature_progr.Runtime.{Runtime, AccountInfo}
use external_signature_progr.State.{SessionKey, session_key_expiration_limit}
use external_signature_progr.State.Account.Keeps.{IsCurrent}
use external_signature_progr.State.Account.View.{written}
use external_signature_progr.State.P256Webauthn.{P256WebauthnAccountData}
use external_signature_progr.State.P256Webauthn.Scheme.{update_session_key, latest_expiration}
use external_signature_progr.Utils.Sha256.{hash}
use external_signature_progr.World.{World}
use mathlib.Core.Path.{subst}

-- A new session key within the limit, on data that are otherwise the old ones.
update_session_key-eq-ok :
    (rt : Runtime) (now : ℕ) (d : P256WebauthnAccountData) (s : SessionKey)
    (d' : P256WebauthnAccountData)
    → rt.clock ≡ ok now
    → update_session_key rt d s ≡ ok d'
    → (d'.session_key ≡ s) × (s.expiration ≤ (now + session_key_expiration_limit) % 2 ^ 64)
unfolding update_session_key latest_expiration
update_session_key-eq-ok rt now d s d' clock e =
    let (latest, e1, k1) = >>=-eq-ok (latest_expiration rt) _ e in
    let (_, e2, k2) =
      >>=-eq-ok (require (leb s.expiration latest) invalid_session_key_expiration) _ k1 in
    let (now', e3, k3) = >>=-eq-ok rt.clock _ e1 in
    (
      ap (λ (q : P256WebauthnAccountData). q.session_key) (sym (ok-injective _ d' k2)),
      ground (
        arith,
        require-eq-ok (leb s.expiration latest) _ e2,
        ok-injective now' now (sym e3 ∙ clock),
        ok-injective _ latest k3,
      ),
    )

module _ (rt : Runtime) (rules : IsRuntime rt) (b : Borsh) (laws : IsBorsh b) where
  -- A refresh computes on the data that the account holds, and leaves what it computed.
  pub refreshed-IsEnrolled :
      (infos : List AccountInfo) (input : Bytes) (w w' : World) (key : Pubkey)
      (d : P256WebauthnAccountData)
      → (a : IsAuthorized rt b infos input w w') → a.external_account.key ≡ key
      → IsEnrolled rt.id w.accounts key d
      → (a.before ≡ d) × (a.counted ≡ a.after) × IsEnrolled rt.id w'.accounts key a.refreshed
  refreshed-IsEnrolled infos input w w' key d a same enrolled =
      let c = a.context in
      let self = c.externally_signed_account in
      let there : self.account_info.key ≡ key =
        ap (λ (i : AccountInfo). i.key) a.checked.loaded.account ∙ same in
      let h : IsEnrolled rt.id w.accounts self.account_info.key d =
        subst (λ k. IsEnrolled rt.id w.accounts k d) (sym there) enrolled in
      let len =
        IsLoaded-len rt rt.id a.external_account w self key d enrolled a.checked.loaded there in
      let found = data_ref-IsEnrolled rt.id w self d h rt a.before len a.read in
      let (current, _) =
        IsVerified-IsCurrent rt rules a.instructions_info c.instructions_sysvar a.before
          c.verification_data (hash rt a.payload) a.after a.checked.sysvar a.verified
          (subst IsCurrent (sym found) h.current) in
      let w1 = written w self a.after in
      let h1 = written-IsEnrolled rt.id w self d h a.after current in
      let found1 = data_ref-IsEnrolled rt.id w1 self a.after h1 rt a.counted len a.reread in
      let read =
        refresh_args-IsSessionKey b laws input a.args []
          ((laws.exact RefreshSessionKeyArgs (args_codec b) input a.args).0 a.parsed) in
      let fits : IsSessionKey (record {
        key = a.args.session_key.key;
        expiration = (a.now + a.args.session_key.expiration) % 2 ^ 64;
      }) =
        record { key = read.key; expiration = omega arith } in
      let (current2, _) =
        update_session_key-IsCurrent rt rules a.counted _ a.refreshed a.updated fits
          (subst IsCurrent (sym found1) current) in
      let h2 = written-IsEnrolled rt.id w1 self a.after h1 a.refreshed current2 in
      (
        found,
        found1,
        subst (λ k. IsEnrolled rt.id w'.accounts k a.refreshed) there
            (subst (λ (q : World). IsEnrolled rt.id q.accounts self.account_info.key a.refreshed)
              (sym a.wrote) h2),
      )

  -- After a refresh of an account that holds data, a sessioned execution for that account, run
  -- next in whichever runtime, succeeds only if the session key of the refresh's arguments signs
  -- it, at a time no later than the time of the refresh plus the duration of the arguments, which
  -- is no later than three months after the refresh (both as 64-bit numbers). The runtime and
  -- borsh keep their documented rules.
  pub refresh_then_session :
      (rt' : Runtime) (x signer y : AccountInfo) (others rest : List AccountInfo)
      (input input' : Bytes) (w w' w'' : World) (d : P256WebauthnAccountData)
      → IsEnrolled rt.id w.accounts x.key d
      → process_refresh_session_key rt b (x ∷ others) input w ≡ ok (tt, w')
      → y.key ≡ x.key
      → process_execute_instructions_sessioned rt' b (y ∷ signer ∷ rest) input' w' ≡ ok (tt, w'')
      → (args : RefreshSessionKeyArgs) × (t : ℕ) × (u : ℕ) × (b.try_from_slice RefreshSessionKeyArgs
            (args_codec b)
            input
          ≡ some args)
        × (rt.clock ≡ ok t)
        × (rt'.clock ≡ ok u)
        × (signer.is_signer ≡ true)
        × (signer.key ≡ args.session_key.key)
        × (u ≤ (t + args.session_key.expiration) % 2 ^ 64)
        × ((t + args.session_key.expiration) % 2 ^ 64 ≤ (t + session_key_expiration_limit) % 2 ^ 64)
  refresh_then_session rt' x signer y others rest input input' w w' w'' d h e same e' =
      let a = process_refresh_session_key-IsAuthorized rt b (x ∷ others) input w w' e in
      let s =
        process_execute_instructions_sessioned-IsSessionAuthorized rt' b (y ∷ signer ∷ rest) input'
          w' w'' e' in
      let (set, limit) =
        update_session_key-eq-ok rt a.now a.counted _ a.refreshed a.clock a.updated in
      let first : a.external_account ≡ x = cc a.listed in
      let (_, _, h') =
        refreshed-IsEnrolled (x ∷ others) input w w' x.key d a
          (ap (λ (i : AccountInfo). i.key) first) h in
      let account : s.external_account ≡ y = cc s.listed in
      let session : s.session_signer ≡ signer = cc s.listed in
      let there : s.self.account_info.key ≡ x.key =
        ap (λ (i : AccountInfo). i.key) (s.loaded.account ∙ account) ∙ same in
      let len =
        IsLoaded-len rt' rt.id s.external_account w' s.self x.key a.refreshed h' s.loaded there in
      let found =
        data_ref-IsEnrolled rt.id w' s.self a.refreshed
          (subst (λ k. IsEnrolled rt.id w'.accounts k a.refreshed) (sym there) h') rt' s.stored len
          s.read in
      let key : s.stored.session_key ≡ record {
        key = a.args.session_key.key;
        expiration = (a.now + a.args.session_key.expiration) % 2 ^ 64;
      } =
        ap (λ (q : P256WebauthnAccountData). q.session_key) found ∙ set in
      (
        a.args,
        a.now,
        s.now,
        a.parsed,
        a.clock,
        s.clock,
        ap (λ (i : AccountInfo). i.is_signer) (sym session) ∙ s.is_signer,
        ap (λ (i : AccountInfo). i.key) (sym session)
            ∙ sym s.by_key
            ∙ ap (λ (k : SessionKey). k.key) key,
        subst (λ (k : SessionKey). s.now ≤ k.expiration) key s.live,
        limit,
      )
