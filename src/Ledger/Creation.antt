-- ===== src/Ledger/Creation.antt =====
-- The steps that make a new account
-- (src/instructions/initialize_external_account.rs, src/utils/initialize_account.rs).
use external_signature_progr.Base.{◌≡◌, sym, ap, ◌∷◌, drop, length, leb, Option, ℕ}
use external_signature_progr.Errors.{ok, assert}
use external_signature_progr.Errors.Laws.{ok-injective}
use external_signature_progr.Instructions.Initialize.{
  InitializeExternalAccountContext, create_and_allocate_externally_signed_account,
}
use external_signature_progr.Runtime.{Runtime, Accounts, update}
use external_signature_progr.State.{SessionKey}
use external_signature_progr.State.Account
use external_signature_progr.State.Account.{ExternallySignedAccount, data_ref, bytes_of}
use external_signature_progr.State.Account.View.{state_of, written, with_data-eq-ok}
use external_signature_progr.State.P256Webauthn.{
  P256WebauthnAccountData, P256ParsedInitializationData, seeds,
}
use external_signature_progr.State.P256Webauthn.Scheme
use external_signature_progr.World.{World}
use external_signature_progr.World.Laws.{bind-eq-ok, bind-lift-eq-ok, bind-run-eq-ok}

module _ (rt : Runtime) where
  -- The account's creation: rent, 152 bytes, and the program as the owner.
  pub record IsCreated (c : InitializeExternalAccountContext) (w : World)
      (self : ExternallySignedAccount) (created : World) : Type 0 where
    pub lamports : ℕ
    pub paid : Accounts
    pub transferred :
        rt.transfer c.rent_payer.key c.externally_signed_account.account_info.key lamports
          w.accounts
        ≡ ok paid
    pub spaced : Accounts
    pub allocated :
        rt.allocate c.externally_signed_account.account_info.key Scheme.size (seeds c.seeds) paid
        ≡ ok spaced
    pub owned : Accounts
    pub assigned :
        rt.assign c.externally_signed_account.account_info.key rt.id (seeds c.seeds) spaced
        ≡ ok owned
    pub accounts : created ≡ record w { accounts = owned }
    pub wrapper : self ≡ record c.externally_signed_account {
      len = length (owned c.externally_signed_account.account_info.key).bytes;
    }

  pub create_and_allocate-IsCreated :
      (c : InitializeExternalAccountContext) (w : World) (self : ExternallySignedAccount)
      (created : World)
      → create_and_allocate_externally_signed_account rt c w ≡ ok (self, created)
      → IsCreated c w self created
  unfolding create_and_allocate_externally_signed_account Account.reload
  create_and_allocate-IsCreated c w self created e =
      let key = c.externally_signed_account.account_info.key in
      let (lamports, _, k1) = bind-lift-eq-ok (rt.minimum_balance Scheme.size) _ w e in
      let (paid, transferred, k2) =
        bind-run-eq-ok (rt.transfer c.rent_payer.key key lamports) _ w k1 in
      let w1 : World = record w { accounts = paid } in
      let (spaced, allocated, k3) =
        bind-run-eq-ok (rt.allocate key Scheme.size (seeds c.seeds)) _ w1 k2 in
      let w2 : World = record w { accounts = spaced } in
      let (owned, assigned, k4) = bind-run-eq-ok (rt.assign key rt.id (seeds c.seeds)) _ w2 k3 in
      let reloaded = ok-injective _ _ k4 in
      record {
        lamports = lamports;
        paid = paid;
        transferred = transferred;
        spaced = spaced;
        allocated = allocated;
        owned = owned;
        assigned = assigned;
        accounts = sym (ap (λ q. q.1) reloaded);
        wrapper = sym (ap (λ q. q.0) reloaded);
      }

  -- The data's first writing: the header, then the scheme's fields.
  pub record IsFilled (self : ExternallySignedAccount) (args : P256ParsedInitializationData)
      (session_key : Option SessionKey) (w filled : World) : Type 0 where
    pub headed : World
    pub header : headed ≡ record w {
      accounts = update w.accounts self.account_info.key (record (state_of w self) {
        bytes = Scheme.version ∷ (Scheme.scheme ∷ drop 2 (state_of w self).bytes);
      });
    }
    pub blank : P256WebauthnAccountData
    pub made : P256WebauthnAccountData
    pub read : data_ref rt self headed.accounts ≡ ok blank
    pub initialized : Scheme.initialize_account rt blank args session_key ≡ ok made
    pub wrote : filled ≡ written headed self made

  pub initialize_account-IsFilled :
      (self : ExternallySignedAccount) (args : P256ParsedInitializationData)
      (session_key : Option SessionKey) (w filled : World)
      → Account.initialize_account rt self args session_key w ≡ ok (tt, filled)
      → IsFilled self args session_key w filled
  unfolding Account.initialize_account Account.initialize_header
  initialize_account-IsFilled self args session_key w filled e =
      let (_, headed, e1, k1) = bind-eq-ok (Account.initialize_header self) _ w e in
      let (_, _, k2) =
        bind-lift-eq-ok (assert (leb 4 (length (bytes_of self w.accounts)))) _ w e1 in
      let (d, d', read, method, wrote) =
        with_data-eq-ok rt self (λ d. Scheme.initialize_account rt d args session_key) headed k1 in
      record {
        headed = headed;
        header = sym (ap (λ q. q.1) (ok-injective _ _ k2));
        blank = d;
        made = d';
        read = read;
        initialized = method;
        wrote = wrote;
      }
