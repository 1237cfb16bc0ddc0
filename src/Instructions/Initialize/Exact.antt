-- ===== src/Instructions/Initialize/Exact.antt =====
-- When an initialization succeeds (src/instructions/initialize_external_account.rs).
use external_signature_progr.Base.{
  ◌≡◌, ◌↔◌, refl, sym, ap, ◌∙◌, arith, true, not, if◌then◌else◌, List, Bytes, Option, bytes_eq,
  bytes_eq_iff, length, ◌==◌, ==_iff,
}
use external_signature_progr.Borsh.{Borsh}
use external_signature_progr.Errors.{
  ok, err, assert, into, ok_or, invalid_argument, invalid_account_owner, invalid_signature_scheme,
}
use external_signature_progr.Instructions.Initialize.{
  InitializeAccountArgs, InitializeExternalAccountContext, load_context, load,
  create_and_allocate_externally_signed_account, get_initialization_payload_hash,
  process_initialize_external_account,
}
use external_signature_progr.Instructions.Initialize.Context.{IsContext}
use external_signature_progr.Instructions.Initialize.Fresh.{
  IsInitialized, signed_payload, process_initialize_external_account-IsInitialized,
}
use external_signature_progr.Runtime.{Runtime, AccountInfo, Accounts}
use external_signature_progr.State.{SessionKey}
use external_signature_progr.State.Account
use external_signature_progr.State.Account.{ExternallySignedAccount}
use external_signature_progr.State.Account.Loads.{with_data-ok}
use external_signature_progr.State.Account.View.{IsLoaded}
use external_signature_progr.State.P256Webauthn.Scheme
use external_signature_progr.State.P256Webauthn.Scheme.Verify.{verify_payload_exact}
use external_signature_progr.Utils.Checks.{check_account_uninitialized}
use external_signature_progr.Utils.Sha256.{hash}
use external_signature_progr.World.{World}
use external_signature_progr.World.Laws.{bind-ok, bind-lift-ok}

module _ (rt : Runtime) (b : Borsh) where
  uninitialized-ok :
      (x : AccountInfo) (accounts : Accounts)
      → (accounts x.key).owner ≡ rt.system_id
      → length (accounts x.key).bytes ≡ 0
      → check_account_uninitialized rt x accounts ≡ ok tt
  unfolding check_account_uninitialized
  uninitialized-ok x accounts unowned empty =
      ground (arith, bytes_eq_iff (accounts x.key).owner rt.system_id)

  -- An empty account of the system program is loaded.
  load_empty-ok :
      (x : AccountInfo) (self : ExternallySignedAccount) (w : World)
      → (w.accounts x.key).owner ≡ rt.system_id
      → length (w.accounts x.key).bytes ≡ 0
      → IsLoaded rt x w self
      → Account.load rt x w ≡ ok (self, w)
  unfolding Account.load
  load_empty-ok x self w unowned empty loaded =
      let here : (length (w.accounts x.key).bytes == 0) ≡ true = (==_iff _ 0).1 empty in
      let owned : bytes_eq (w.accounts x.key).owner rt.system_id ≡ true =
        (bytes_eq_iff (w.accounts x.key).owner rt.system_id).1 unowned in
      let same : ok (record { account_info = x; len = length (w.accounts x.key).bytes }, w)
          ≡ ok (self, w) =
        rw (sym loaded.whole, sym loaded.account) refl in
      rw (here, owned) same

  same_key-ok :
      (key other : Bytes)
      → key ≡ other
      → (if not (bytes_eq key other) then err invalid_account_owner else ok tt) ≡ ok (tt {0})
  same_key-ok key other h = ground (arith, bytes_eq_iff key other)

  load_context-ok :
      (x p i s y : AccountInfo) (args : InitializeAccountArgs) (w : World)
      (c : InitializeExternalAccountContext)
      → IsContext rt b x p i s y args w c
      → load_context rt b x p i s y args w ≡ ok (c, w)
  unfolding load_context
  load_context-ok x p i s y args w c k =
      let self = c.externally_signed_account in
      let made : Bytes
          → AccountInfo
          → AccountInfo
          → Option SessionKey
          → InitializeExternalAccountContext =
        λ slothash rent_payer system_program session_key. record c {
          slothash = slothash;
          rent_payer = rent_payer;
          system_program = system_program;
          session_key = session_key;
        } in
      bind-lift-ok _ _ w (uninitialized-ok x w.accounts k.unowned k.empty)
      ∙ bind-ok (Account.load rt x) _ w (load_empty-ok x self w k.unowned k.empty k.loaded)
      ∙ bind-lift-ok _ _ w k.sysvar
      ∙ bind-lift-ok _ _ w k.slothashes
      ∙ bind-lift-ok _ _ w (ap assert ((bytes_eq_iff y.key rt.system_id).1 k.system))
      ∙ bind-lift-ok _ _ w k.validated
      ∙ bind-lift-ok _ _ w k.parsed
      ∙ bind-lift-ok _ _ w k.derived
      ∙ bind-lift-ok _ _ w (same_key-ok x.key c.seeds.key k.address)
      ∙ (λ j. ok (made (sym k.hashed j) (sym k.payer j) (sym k.program j) (sym k.session_key j), w))

  module _ (infos : List AccountInfo) (input : Bytes) (w w' : World)
      (hash_length : (bs : Bytes) → length (hash rt bs) ≡ 32) where
    process_initialize_external_account-ok :
        IsInitialized rt b infos input w w'
        → process_initialize_external_account rt b infos input w ≡ ok (tt, w')
    unfolding process_initialize_external_account load get_initialization_payload_hash
        Account.verify_initialization_payload Scheme.verify_initialization_payload
    process_initialize_external_account-ok a =
        let c = a.context in
        let payload_hash = hash rt (signed_payload rt b c) in
        let verified =
          (verify_payload_exact rt c.instructions_sysvar a.before _ payload_hash a.after
              hash_length).1
            a.verified in
        bind-lift-ok _ _ w (ap (ok_or invalid_argument) a.parsed)
        ∙ bind-lift-ok _ _ w (ap (ok_or (into invalid_signature_scheme)) a.signature_scheme)
        ∙ bind-ok (load rt b infos a.args) _ w (
            ap (λ l. load rt b l a.args w) a.listed
            ∙ load_context-ok a.external_account a.rent_payer a.instructions_info a.slothashes_info
                a.system_program a.args w c a.checked)
        ∙ bind-ok (create_and_allocate_externally_signed_account rt c) _ w a.creation
        ∙ bind-ok (Account.initialize_account rt a.self c.initialization_data c.session_key) _
            a.created a.filling
        ∙ with_data-ok rt a.self
            (λ d.
              Scheme.verify_initialization_payload rt c.instructions_sysvar d c.initialization_data
                payload_hash)
            a.filled a.before a.after a.read verified
        ∙ ap (λ q. ok (tt, q)) (sym a.wrote)

    -- With 32-byte hashes, an initialization takes w to w' exactly when it makes a new account for
    -- its passkey there: the arguments parse; the account belonged to the system program and was
    -- empty, and its address is derived from the public key of the arguments; the nonce is valid
    -- for the rent payer; and after the account's creation and the writing of its data, the
    -- transaction's first instruction turns out to have verified a WebAuthn assertion, by the key
    -- in those data, over the hash of the payload for that nonce, the rent payer and the session
    -- key of the arguments, with the counter updated last.
    pub process_initialize_external_account_exact :
        (process_initialize_external_account rt b infos input w ≡ ok (tt, w'))
        ↔ IsInitialized rt b infos input w w'
    process_initialize_external_account_exact = (
      process_initialize_external_account-IsInitialized rt b infos input w w',
      process_initialize_external_account-ok,
    )
