-- ===== src/State/Account/View.antt =====
-- What each operation on an account that succeeds has read and written
-- (src/state/externally_signed_account/account.rs).
use external_signature_progr.Base.{
  [], ◌∷◌, codes, ◌≡◌, ◌∙◌, arith, ◌++◌, length, drop, bytes_eq_iff, ◌⊎◌,
}
use external_signature_progr.Errors.{Result, ok, unwrap}
use external_signature_progr.Runtime.{Runtime, AccountInfo, AccountState, update}
use external_signature_progr.State.{ExecutionAccount, SignerExecutionScheme}
use external_signature_progr.State.{execution_account, external_account}
use external_signature_progr.State.P256Webauthn.{
  P256WebauthnAccountData, P256ParsedVerificationData, AccountSeeds,
}
use external_signature_progr.State.P256Webauthn.Layout.{encode}
use external_signature_progr.State.P256Webauthn.Scheme
use external_signature_progr.State.Account.{
  ExternallySignedAccount, load, data_ref, write_data, with_data, check_account,
  is_valid_session_key, get_execution_account, derive_existing_account,
}
use external_signature_progr.World.{World, lift}
use external_signature_progr.World.Laws.{bind-eq-ok, lift-eq-ok}

abbrev pub state_of : World → ExternallySignedAccount → AccountState
state_of w self = w.accounts self.account_info.key

-- The world after `write_data`.
abbrev pub written : World → ExternallySignedAccount → P256WebauthnAccountData → World
written w self d = record w {
  accounts =
      update w.accounts self.account_info.key
        (record (state_of w self) { bytes = encode d ++ drop Scheme.size (state_of w self).bytes });
}

module _ (rt : Runtime) where
  -- The wrapper of the account `info` in the world `w`, owned by the program or still empty.
  pub record IsLoaded (info : AccountInfo) (w : World) (self : ExternallySignedAccount)
      : Type 0 where
    pub account : self.account_info ≡ info
    pub whole : self.len ≡ length (w.accounts info.key).bytes
    pub owned :
        ((w.accounts info.key).owner ≡ rt.id)
        ⊎ (((w.accounts info.key).owner ≡ rt.system_id) × (length (w.accounts info.key).bytes ≡ 0))

  pub load-eq-ok :
      (info : AccountInfo) (w : World) (self : ExternallySignedAccount) (w' : World)
      → load rt info w ≡ ok (self, w')
      → IsLoaded info w self × (w ≡ w')
  unfolding load
  load-eq-ok info w self w' e = ground (
    arith,
    bytes_eq_iff (w.accounts info.key).owner rt.id,
    bytes_eq_iff (w.accounts info.key).owner rt.system_id,
  )

  pub with_data-eq-ok :
      (self : ExternallySignedAccount)
      (method : P256WebauthnAccountData → Result P256WebauthnAccountData) (w : World) {u : Unit {0}}
      {w' : World}
      → with_data rt self method w ≡ ok (u, w')
      → (d : P256WebauthnAccountData) × (d' : P256WebauthnAccountData) × (data_ref rt self
            w.accounts
          ≡ ok d)
        × (method d ≡ ok d')
        × (w' ≡ written w self d')
  unfolding with_data write_data
  with_data-eq-ok self method w e =
      let (d, v, ed, k) = bind-eq-ok (lift (data_ref rt self w.accounts)) _ w e in
      let (dd, same) = lift-eq-ok (data_ref rt self w.accounts) w ed in
      let (d', v', ed', k') = bind-eq-ok (lift (method d)) _ v k in
      let (dd', same') = lift-eq-ok (method d) v ed' in (d, d', dd, dd', cc)

  -- Reading the data changes nothing.
  pub check_account-eq-ok :
      (self : ExternallySignedAccount) (args : P256ParsedVerificationData) (w : World)
      (seeds : AccountSeeds) (w' : World)
      → check_account rt self args w ≡ ok (seeds, w')
      → (Scheme.check_account rt self.account_info args ≡ ok seeds) × (w ≡ w')
  unfolding check_account
  check_account-eq-ok self args w seeds w' e =
      let (d, v, ed, k) = bind-eq-ok (lift (data_ref rt self w.accounts)) _ w e in
      let (_, same) = lift-eq-ok (data_ref rt self w.accounts) w ed in
      let (checked, same') = lift-eq-ok (Scheme.check_account rt self.account_info args) v k in
      (checked, same ∙ same')

  pub is_valid_session_key-eq-ok :
      (self : ExternallySignedAccount) (signer : AccountInfo) (w : World) {u : Unit {0}}
      {w' : World}
      → is_valid_session_key rt self signer w ≡ ok (u, w')
      → (d : P256WebauthnAccountData) × (data_ref rt self w.accounts ≡ ok d)
        × (Scheme.is_valid_session_key rt d signer ≡ ok tt)
        × (w ≡ w')
  unfolding is_valid_session_key
  is_valid_session_key-eq-ok self signer w {u} e =
      let (d, v, ed, k) = bind-eq-ok (lift (data_ref rt self w.accounts)) _ w e in
      let (found, same) = lift-eq-ok (data_ref rt self w.accounts) w ed in
      let (valid, same') = lift-eq-ok (Scheme.is_valid_session_key rt d signer) v k in
      (d, found, valid, same ∙ same')

  derive_existing_account-eq-ok :
      (self : ExternallySignedAccount) (w : World) (seeds : AccountSeeds) (w' : World)
      → derive_existing_account rt self w ≡ ok (seeds, w')
      → w ≡ w'
  unfolding derive_existing_account
  derive_existing_account-eq-ok self w seeds w' e =
      let (d, v, ed, k) = bind-eq-ok (lift (data_ref rt self w.accounts)) _ w e in
      let (_, same) = lift-eq-ok (data_ref rt self w.accounts) w ed in
      let (_, same') = lift-eq-ok (Scheme.derive_existing_account rt d) v k in same ∙ same'

  pub get_execution_account-eq-ok :
      (self : ExternallySignedAccount) (scheme : SignerExecutionScheme) (w : World)
      (e : ExecutionAccount) (w' : World)
      → get_execution_account rt self scheme w ≡ ok (e, w')
      → w ≡ w'
  unfolding get_execution_account
  get_execution_account-eq-ok self execution_account w e w' h =
      let (p, v, k, r) =
        bind-eq-ok
          (lift (
            unwrap (
              rt.find_program_address (self.account_info.key ∷ codes "execution_account" ∷ [])
                rt.id)))
          _ w h in
      let (_, same) = lift-eq-ok _ w k in cc
  get_execution_account-eq-ok self external_account w e w' h =
      let (seeds, v, k, r) = bind-eq-ok (derive_existing_account rt self) _ w h in
      cc (derive_existing_account-eq-ok self w seeds v k)
